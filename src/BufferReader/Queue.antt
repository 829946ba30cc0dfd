-- ===== src/BufferReader/Queue.antt =====
-- The buffer is a queue of bytes: what is read in comes behind what is there.
use obs_rtspserver.Prelude.{
  ℕ, zero, suc, ◌+◌, ◌-◌, ◌≤◌, ◌≡◌, refl, sym, ap, ap₂, ◌∙◌, inl, inr, List, [], ◌∷◌, ◌++◌,
  append_assoc, arith, ltb, leb, ◌==◌, length, length-append, length-take, length-drop,
  length-replicate, replicate, take, drop, drop-past, drop-add, take-drop, take-length-append,
  Bool-cases,
}
use obs_rtspserver.BufferReader.{
  BufferReader, Received, bytes, closed, failed, readable, readable_bytes, writable_bytes, retrieve,
  store, read, max_bytes_per_read, max_buffer_size,
}

pub record IsValid (b : BufferReader) : Type 0 where
  pub reader_le : b.reader_index ≤ b.writer_index
  pub writer_le : b.writer_index ≤ length b.buffer

take-append : (n : ℕ) (xs ys : List ℕ) → n ≤ length xs → take n (xs ++ ys) ≡ take n xs
take-append zero xs ys h = refl
take-append (suc n) [] ys h = absurd (omega arith)
take-append (suc n) (x ∷ xs) ys h = ap (◌∷◌ x) (take-append n xs ys (omega arith))

drop-append : (n : ℕ) (xs ys : List ℕ) → n ≤ length xs → drop n (xs ++ ys) ≡ drop n xs ++ ys
drop-append zero xs ys h = refl
drop-append (suc n) [] ys h = absurd (omega arith)
drop-append (suc n) (x ∷ xs) ys h = drop-append n xs ys (omega arith)

pub length-readable :
    (b : BufferReader) → IsValid b → length (readable b) ≡ b.writer_index - b.reader_index
length-readable b v = omega (
  arith,
  v.reader_le,
  v.writer_le,
  length-take {0} (b.writer_index - b.reader_index) (drop b.reader_index b.buffer),
  length-drop {0} b.reader_index b.buffer,
)

-- Part of a range of a list.
drop-range :
    (xs : List ℕ) (r w n : ℕ)
    → take (w - (r + n)) (drop (r + n) xs) ≡ drop n (take (w - r) (drop r xs))
drop-range xs r w n =
    ap₂ take (omega arith) (sym (drop-add r n xs)) ∙ sym (take-drop n (w - r) (drop r xs))

-- What is stored behind a range makes it longer.
store-range :
    (xs ys new : List ℕ) (r w : ℕ)
    → r ≤ w
    → w ≤ length xs
    → take (w + length new - r) (drop r (take w xs ++ (new ++ ys)))
      ≡ take (w - r) (drop r xs) ++ new
store-range xs ys new r w h k =
    ap₂ take size (
      drop-append r (take w xs) (new ++ ys) (omega (arith, length-take {0} w xs))
      ∙ ap (λ z. z ++ (new ++ ys)) (take-drop r w xs)
      ∙ sym (append_assoc front new ys))
    ∙ take-length-append (front ++ new) ys
  where
    front : List ℕ
    front = take (w - r) (drop r xs)

    size : w + length new - r ≡ length (front ++ new)
    size = omega (
      arith,
      length-append {0} front new,
      length-take {0} (w - r) (drop r xs),
      length-drop {0} r xs,
    )

-- On a valid buffer, for every length, also one past the end: `Retrieve` keeps the buffer valid and
-- takes that many bytes off the front of the readable ones.
pub readable-retrieve :
    (n : ℕ) (b : BufferReader)
    → IsValid b
    → IsValid (retrieve n b) × (readable (retrieve n b) ≡ drop n (readable b))
unfolding retrieve
readable-retrieve n b v = elim (Bool-cases (leb n (readable_bytes b))) [
  | inl t ↦ elim (Bool-cases (b.reader_index + n == b.writer_index)) [
    | inl e ↦
        rw (t, e) (emptied, sym (drop-past n (readable b) (ground (arith, length-readable b v))))
    | inr e ↦
        rw (t, e)
          (
            record {
              reader_le = (unfold readable_bytes in ground (arith, v.reader_le));
              writer_le = v.writer_le;
            },
            drop-range b.buffer b.reader_index b.writer_index n,
          )
  ]
  | inr t ↦ rw t (
    emptied,
    sym (drop-past n (readable b) (unfold readable_bytes in ground (arith, length-readable b v))),
  )
]
  where
    emptied : IsValid (record { buffer = b.buffer; reader_index = 0; writer_index = 0 })
    emptied = record { reader_le = omega arith; writer_le = omega arith }

-- The readable bytes after bytes have come.
abbrev pub more : Received → List ℕ → List ℕ
more (bytes new) xs = xs ++ new
more closed xs = xs
more failed xs = xs

-- The number of bytes that `recv` was asked for is not exceeded.
abbrev pub IsAsked : Received → Type 0
IsAsked (bytes new) = length new ≤ max_bytes_per_read
IsAsked closed = Unit {0}
IsAsked failed = Unit {0}

-- What holds after a call of `Read` that gave `o`.
pub record IsRead (b : BufferReader) (o : BufferReader × Received) : Type 0 where
  pub valid : IsValid o.0
  pub grown : length b.buffer ≤ length o.0.buffer
  pub bounded :
      length b.buffer ≤ max_buffer_size + max_bytes_per_read
      → length o.0.buffer ≤ max_buffer_size + max_bytes_per_read
  pub appended : readable o.0 ≡ more o.1 (readable b)

store-IsRead :
    (recv : Received) (b : BufferReader)
    → IsValid b
    → IsAsked recv
    → b.writer_index + max_bytes_per_read ≤ length b.buffer
    → IsRead b (store recv b)
unfolding store
store-IsRead (bytes new) b v a room = record {
  valid = record {
    reader_le = omega (arith, v.reader_le);
    writer_le = omega (arith, a, room, size);
  };
  grown = omega (arith, size);
  bounded = λ h. omega (arith, h, size);
  appended = store-range b.buffer rest new b.reader_index b.writer_index v.reader_le v.writer_le;
}
  where
    rest : List ℕ
    rest = drop (b.writer_index + length new) b.buffer

    size : length (take b.writer_index b.buffer ++ (new ++ rest)) ≡ length b.buffer
    size = omega (
      arith,
      a,
      room,
      length-append {0} (take b.writer_index b.buffer) (new ++ rest),
      length-append {0} new rest,
      length-take {0} b.writer_index b.buffer,
      length-drop {0} (b.writer_index + length new) b.buffer,
    )
store-IsRead closed b v a room = record {
  valid = v;
  grown = omega arith;
  bounded = λ h. h;
  appended = refl;
}
store-IsRead failed b v a room = record {
  valid = v;
  grown = omega arith;
  bounded = λ h. h;
  appended = refl;
}

abbrev enlarged : BufferReader → BufferReader
enlarged b = record {
  buffer = b.buffer ++ replicate max_bytes_per_read 0;
  reader_index = b.reader_index;
  writer_index = b.writer_index;
}

length-enlarged :
    (b : BufferReader) → length (enlarged b).buffer ≡ length b.buffer + max_bytes_per_read
length-enlarged b = omega (
  arith,
  length-append {0} b.buffer (replicate max_bytes_per_read 0),
  length-replicate {A = ℕ} max_bytes_per_read 0,
)

readable-enlarged : (b : BufferReader) → IsValid b → readable (enlarged b) ≡ readable b
readable-enlarged b v =
    ap (take (b.writer_index - b.reader_index))
      (drop-append b.reader_index b.buffer _ (omega (arith, v.reader_le, v.writer_le)))
    ∙ take-append (b.writer_index - b.reader_index) (drop b.reader_index b.buffer) _
        (omega (arith, v.writer_le, length-drop {0} b.reader_index b.buffer))

-- On a valid buffer, when `recv` gives no more than it was asked for: after `Read` the buffer is
-- valid, it has not shrunk, its size stays within the maximum and one read more, and the bytes that
-- `Read` reports stand behind the readable ones.
pub read-IsRead :
    (recv : Received) (b : BufferReader) → IsValid b → IsAsked recv → IsRead b (read recv b)
unfolding read
read-IsRead recv b v a = elim (Bool-cases (ltb (writable_bytes b) max_bytes_per_read)) [
  | inl t ↦ elim (Bool-cases (ltb max_buffer_size (length b.buffer))) [
    | inl f ↦
        rw (t, f) (record { valid = v; grown = omega arith; bounded = λ h. h; appended = refl })
    | inr f ↦
        rw (t, f)
          (from_enlarged (store recv (enlarged b)) (ground arith) (
            store-IsRead recv (enlarged b) valid a (omega (arith, length-enlarged b, v.writer_le))))
  ]
  | inr t ↦ rw t (store-IsRead recv b v a (unfold writable_bytes in ground (arith, v.writer_le)))
]
  where
    from_enlarged :
        (o : BufferReader × Received)
        → length b.buffer ≤ max_buffer_size
        → IsRead (enlarged b) o
        → IsRead b o
    from_enlarged o small i = record {
      valid = i.valid;
      grown = omega (arith, i.grown, length-enlarged b);
      bounded = λ h. i.bounded (omega (arith, small, length-enlarged b));
      appended = i.appended ∙ ap (more o.1) (readable-enlarged b v);
    }

    valid : IsValid (enlarged b)
    valid = record {
      reader_le = v.reader_le;
      writer_le = omega (arith, length-enlarged b, v.writer_le);
    }
