-- ===== src/BufferWriter/Stream.antt =====
-- The queue is a stream: what is appended last is sent last, each byte once.
use obs_rtspserver.Prelude.{
  ℕ, ◌+◌, ◌-◌, ◌%◌, ◌^◌, ◌≤◌, ◌<◌, ◌≡◌, ◌≢◌, refl, sym, ap, ap₂, ◌∙◌, ◌⊎◌, inl, inr, Bool, true,
  false, List, [], ◌∷◌, ◌++◌, append_assoc, append-nil, arith, ltb, leb, leb→le, ◌==◌, length,
  length-append, length-take, length-drop, take, drop, drop-add, take-drop, take-past,
  take-append-drop, Bool-cases,
}
use obs_rtspserver.BufferWriter.{
  Packet, BufferWriter, Sent, took, would_block, failed, Result, unsent, advanced, append_shared,
  append_copy, send_loop, send_all,
}

-- A packet with bytes left to send.
pub record IsPending (p : Packet) : Type 0 where
  pub index_lt : p.write_index < p.size
  pub size_le : p.size ≤ length p.contents
  pub size_lt : p.size < 2 ^ 32

abbrev pub AllPending : List Packet → Type 0
AllPending [] = Unit {0}
AllPending (p ∷ ps) = IsPending p × AllPending ps

pub record IsValid (w : BufferWriter) : Type 0 where
  pub pending : AllPending w.buffer
  pub length_le : length w.buffer ≤ w.max_queue_length

-- The bytes that wait, in order.
abbrev pub stream : List Packet → List ℕ
stream [] = []
stream (p ∷ ps) = unsent p ++ stream ps

-- Sockets that take no more than they are given.
abbrev pub IsSocket : {S : Type 0} → (S → List ℕ → S × Sent) → Type 0
IsSocket {S} send = (s : S) (xs : List ℕ) (n : ℕ) → (send s xs).1 ≡ took n → n ≤ length xs

-- A socket, with a record of the bytes that it has taken.
unfoldable pub logged :
    {S : Type 0} → (S → List ℕ → S × Sent) → S × List ℕ → List ℕ → (S × List ℕ) × Sent
logged send (s, log) xs = elim (send s xs).1 [
  | took n ↦ (((send s xs).0, log ++ take n xs), took n)
  | would_block ↦ (((send s xs).0, log), would_block)
  | failed ↦ (((send s xs).0, log), failed)
]

length-unsent : (p : Packet) → IsPending p → length (unsent p) ≡ p.size - p.write_index
length-unsent p v = omega (
  arith,
  v.index_lt,
  v.size_le,
  v.size_lt,
  length-take {0} ((p.size % 2 ^ 32 + 2 ^ 32 - p.write_index) % 2 ^ 32)
      (drop p.write_index p.contents),
  length-drop {0} p.write_index p.contents,
)

-- After a part of a packet has been taken, the rest of it is unsent.
unsent-advanced :
    (p : Packet) (n : ℕ)
    → IsPending p
    → n ≤ length (unsent p)
    → (p.size ≢ p.write_index + n → IsPending (advanced p n))
      × ((advanced p n).write_index ≡ p.write_index + n)
      × (take n (unsent p) ++ unsent (advanced p n) ≡ unsent p)
unsent-advanced p n v h = (
  λ ne. record {
    index_lt = omega (arith, index, ne, h, length-unsent p v, v.index_lt);
    size_le = v.size_le;
    size_lt = v.size_lt;
  },
  index,
  ap (λ z. take n (unsent p) ++ z) rest ∙ take-append-drop n (unsent p),
)
  where
    index : (advanced p n).write_index ≡ p.write_index + n
    index = omega (arith, h, length-unsent p v, v.index_lt, v.size_lt)

    room : ℕ
    room = (p.size % 2 ^ 32 + 2 ^ 32 - p.write_index) % 2 ^ 32

    rest : unsent (advanced p n) ≡ drop n (unsent p)
    rest =
        ap₂ take (omega (arith, index, h, length-unsent p v, v.index_lt, v.size_lt))
          (ap (λ i. drop i p.contents) index ∙ sym (drop-add p.write_index n p.contents))
        ∙ sym (take-drop n room (drop p.write_index p.contents))

Sent-cases : (r : Sent) → ((n : ℕ) × (r ≡ took n)) ⊎ ((r ≡ would_block) ⊎ (r ≡ failed))
Sent-cases (took n) = inl (n, refl)
Sent-cases would_block = inr (inl refl)
Sent-cases failed = inr (inr refl)

-- What a loop over the queue has to leave behind.
abbrev pub IsSent :
    {S : Type 0} → List ℕ → List Packet → (S × List ℕ) × List Packet × Result → Type 0
IsSent log ps ((s, log'), ps', r) =
    AllPending ps' × (length ps' ≤ length ps) × (log' ++ stream ps' ≡ log ++ stream ps)

module _ {S : Type 0} (send : S → List ℕ → S × Sent) (v : IsSocket send) where
  logged-took :
      (s : S) (log xs : List ℕ) (n : ℕ)
      → (send s xs).1 ≡ took n
      → logged send (s, log) xs ≡ (((send s xs).0, log ++ take n xs), took n)
  unfolding logged
  logged-took s log xs n e = rw (e, logged) refl

  logged-would_block :
      (s : S) (log xs : List ℕ)
      → (send s xs).1 ≡ would_block
      → logged send (s, log) xs ≡ (((send s xs).0, log), would_block)
  unfolding logged
  logged-would_block s log xs e = rw (e, logged) refl

  logged-failed :
      (s : S) (log xs : List ℕ)
      → (send s xs).1 ≡ failed
      → logged send (s, log) xs ≡ (((send s xs).0, log), failed)
  unfolding logged
  logged-failed s log xs e = rw (e, logged) refl

  later :
      (log : List ℕ) (p : Packet) (ps : List Packet) (o : (S × List ℕ) × List Packet × Result)
      → IsSent (log ++ unsent p) ps o
      → IsSent log (p ∷ ps) o
  later log p ps ((s, log'), ps', r) (a, l, e) =
      (a, omega (arith, l), e ∙ append_assoc log (unsent p) (stream ps))

  send_loop-IsSent :
      (ps : List Packet) (s : S) (log : List ℕ)
      → AllPending ps
      → IsSent log ps (send_loop (logged send) (s, log) ps)
  unfolding send_loop
  send_loop-IsSent [] s log a = (tt, omega arith, refl)
  send_loop-IsSent (p ∷ ps) s log a = elim (Sent-cases (send s (unsent p)).1) [
    | inl (n, e) ↦
        rw
          (
            logged-took s log (unsent p) n e,
            send_loop,
            ap (λ o. o.0) (logged-took s log (unsent p) n e),
          )
          (elim (Bool-cases (ltb 0 n)) [
            | inr z ↦ rw z (
              a,
              omega arith,
              ap (λ l. l ++ (unsent p ++ stream ps))
                  (let n0 : n ≡ 0 = ground (arith, z) in rw n0 (append-nil log)),
            )
            | inl z ↦ elim (Bool-cases (p.size == (advanced p n).write_index)) [
              | inl w ↦
                  rw (z, w)
                    (rw
                      (take-past n (unsent p) (
                        ground (
                          arith,
                          w,
                          length-unsent p a.0,
                          (unsent-advanced p n a.0 (v s (unsent p) n e)).1,
                        )))
                      (later log p ps
                        (send_loop (logged send) ((send s (unsent p)).0, log ++ unsent p) ps)
                        (send_loop-IsSent ps (send s (unsent p)).0 (log ++ unsent p) a.1)))
              | inr w ↦
                  rw (z, w)
                    (
                      (
                        (unsent-advanced p n a.0 (v s (unsent p) n e)).0
                            (ground (arith, w, (unsent-advanced p n a.0 (v s (unsent p) n e)).1)),
                        a.1,
                      ),
                      omega arith,
                      append_assoc log (take n (unsent p)) _
                          ∙ ap (◌++◌ log) (
                              sym (
                                append_assoc (take n (unsent p)) (unsent (advanced p n))
                                  (stream ps))
                              ∙ ap (λ l. l ++ stream ps)
                                  (unsent-advanced p n a.0 (v s (unsent p) n e)).2),
                    )
            ]
          ])
    | inr (inl e) ↦
        rw
          (
            logged-would_block s log (unsent p) e,
            send_loop,
            ap (λ o. o.0) (logged-would_block s log (unsent p) e),
          )
          (a, omega arith, refl)
    | inr (inr e) ↦
        rw
          (
            logged-failed s log (unsent p) e,
            send_loop,
            ap (λ o. o.0) (logged-failed s log (unsent p) e),
          )
          (a, omega arith, refl)
  ]

  -- For a socket that takes no more than it is given, and a valid queue: `Send` leaves a valid queue,
  -- and the bytes that the socket has taken, followed by those that still wait, are the bytes that it
  -- had taken before, followed by those that waited.
  pub send_all-IsSent :
      (w : BufferWriter) (s : S) (log : List ℕ)
      → IsValid w
      → IsValid (send_all (logged send) (s, log) w).1
        × ((send_all (logged send) (s, log) w).0.1
              ++ stream (send_all (logged send) (s, log) w).1.buffer
            ≡ log ++ stream w.buffer)
  unfolding send_all
  send_all-IsSent w s log i =
      let (a, l, e) = send_loop-IsSent w.buffer s log i.pending in
      (record { pending = a; length_le = omega (arith, l, i.length_le) }, e)

stream-append : (ps qs : List Packet) → stream (ps ++ qs) ≡ stream ps ++ stream qs
stream-append [] qs = refl
stream-append (p ∷ ps) qs =
    ap (◌++◌ (unsent p)) (stream-append ps qs)
    ∙ sym (append_assoc (unsent p) (stream ps) (stream qs))

AllPending-append : (ps qs : List Packet) → AllPending ps → AllPending qs → AllPending (ps ++ qs)
AllPending-append [] qs a b = b
AllPending-append (p ∷ ps) qs a b = (a.0, AllPending-append ps qs a.1 b)

-- What an `Append` of these bytes from `index` to `size` may do.
abbrev pub IsAppended : BufferWriter → List ℕ → ℕ → ℕ → BufferWriter × Bool → Type 0
IsAppended w contents size index (w', ok) =
    ((ok ≡ false) × (w' ≡ w) × ((size ≤ index) ⊎ (w.max_queue_length ≤ length w.buffer)))
    ⊎ ((ok ≡ true)
        × IsValid w'
        × (stream w'.buffer ≡ stream w.buffer ++ take (size - index) (drop index contents)))

pushed :
    (w : BufferWriter) (p : Packet)
    → IsValid w
    → length w.buffer < w.max_queue_length
    → IsPending p
    → IsValid (record { buffer = w.buffer ++ p ∷ []; max_queue_length = w.max_queue_length })
pushed w p i h v = record {
  pending = AllPending-append w.buffer (p ∷ []) i.pending (v, tt);
  length_le = omega (arith, h, length-append {0} w.buffer (p ∷ []));
}

at_end :
    (w : BufferWriter) (p : Packet)
    → IsValid w
    → p.write_index < p.size
    → p.size < 2 ^ 32
    → stream (w.buffer ++ p ∷ [])
      ≡ stream w.buffer ++ take (p.size - p.write_index) (drop p.write_index p.contents)
at_end w p i h k =
    stream-append w.buffer (p ∷ [])
    ∙ ap (◌++◌ (stream w.buffer))
        (append-nil (unsent p) ∙ ap (λ n. take n (drop p.write_index p.contents)) (omega arith))

-- For bytes of which there are at least `size`, fewer than 2^32, and a valid queue: either form of
-- `Append` refuses, changing nothing, when there is nothing to send or the queue is full; otherwise
-- the queue stays valid and the bytes from `index` to `size` wait behind the others.
pub append-IsAppended :
    (w : BufferWriter) (contents : List ℕ) (size index : ℕ)
    → IsValid w
    → size ≤ length contents
    → size < 2 ^ 32
    → IsAppended w contents size index (append_shared w contents size index)
      × IsAppended w contents size index (append_copy w contents size index)
unfolding append_shared append_copy
append-IsAppended w contents size index i h k = elim (Bool-cases (leb size index)) [
  | inl t ↦ rw t (inl (refl, refl, inl (leb→le _ _ t)), inl (refl, refl, inl (leb→le _ _ t)))
  | inr t ↦ elim (Bool-cases (leb w.max_queue_length (length w.buffer))) [
    | inl f ↦ rw (t, f) (inl (refl, refl, inr (leb→le _ _ f)), inl (refl, refl, inr (leb→le _ _ f)))
    | inr f ↦
        rw (t, f)
          (
            inr (
              refl,
              pushed w _ i (ground arith)
                  (record { index_lt = ground arith; size_le = h; size_lt = k }),
              at_end w (record { contents = contents; size = size; write_index = index }) i
                  (ground arith) k,
            ),
            inr (
              refl,
              pushed w _ i (ground arith) (record {
                index_lt = ground arith;
                size_le = omega (arith, length-take {0} size contents);
                size_lt = k;
              }),
              at_end w (record { contents = take size contents; size = size; write_index = index })
                    i (ground arith) k
                  ∙ ap (◌++◌ (stream w.buffer)) (
                      ap (take (size - index)) (take-drop index size contents)
                      ∙ take-past (size - index) (take (size - index) (drop index contents))
                          (omega (arith, length-take {0} (size - index) (drop index contents)))),
            ),
          )
  ]
]
