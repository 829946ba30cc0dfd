-- ===== src/Packetizer/Buffer.antt =====
-- Writes into the packet's buffer, where the front of it is known.
use obs_rtspserver.Prelude.{
  ℕ, zero, suc, ◌+◌, ◌≤◌, ◌≡◌, refl, sym, ap, List, [], ◌∷◌, ◌++◌, append_assoc, arith, length,
  length-append, length-drop, get_or, set, drop, take-length-append, drop-add, drop-length-append,
}
use obs_rtspserver.Rtp.{write}

pub drop-append-add :
    (pre rest : List ℕ) (n k : ℕ) → k ≡ length pre + n → drop k (pre ++ rest) ≡ drop n rest
drop-append-add pre rest n k e =
    rw (e, ← drop-add (length pre) n (pre ++ rest)) (ap (drop n) (drop-length-append pre rest))

-- A write behind what is known makes more known.
pub write-append :
    (pre rest bytes : List ℕ) (off : ℕ)
    → off ≡ length pre
    → write (pre ++ rest) off bytes ≡ (pre ++ bytes) ++ drop (length bytes) rest
unfolding write
write-append pre rest bytes off e =
    rw
      (
        e,
        take-length-append pre rest,
        drop-append-add pre rest (length bytes) (length pre + length bytes) refl,
      )
      (sym (append_assoc pre bytes (drop (length bytes) rest)))

-- A write at the front puts bytes in the place of as many others.
pub write-front :
    (old rest bytes : List ℕ)
    → length bytes ≡ length old
    → write (old ++ rest) 0 bytes ≡ bytes ++ rest
unfolding write
write-front old rest bytes e =
    ap (◌++◌ bytes) (drop-append-add old rest 0 (0 + length bytes) (omega arith))

pub set-length-append {ℓ} :
    {A : Type ℓ} (xs ys : List A) (y v : A) (i : ℕ)
    → i ≡ length xs
    → set (xs ++ y ∷ ys) i v ≡ xs ++ v ∷ ys
set-length-append [] ys y v i e = rw e refl
set-length-append (x ∷ xs) ys y v i e =
    rw e (ap (◌∷◌ x) (set-length-append xs ys y v (length xs) refl))

pub get_or-length-append {ℓ} :
    {A : Type ℓ} (xs ys : List A) (y d : A) (i : ℕ) → i ≡ length xs → get_or (xs ++ y ∷ ys) i d ≡ y
get_or-length-append [] ys y d i e = rw e refl
get_or-length-append (x ∷ xs) ys y d i e = rw e (get_or-length-append xs ys y d (length xs) refl)

-- The room that is left behind the known part.
pub length-rest :
    (pre rest bytes : List ℕ)
    → length bytes ≤ length rest
    → length ((pre ++ bytes) ++ drop (length bytes) rest) ≡ length (pre ++ rest)
length-rest pre rest bytes h = omega (
  arith,
  length-append {0} (pre ++ bytes) (drop (length bytes) rest),
  length-append {0} pre bytes,
  length-append {0} pre rest,
  length-drop (length bytes) rest,
)

-- A buffer of enough bytes falls into a part to write to and a rest.
pub split_at :
    (n : ℕ) (buf : List ℕ)
    → n ≤ length buf
    → (old : List ℕ) × (rest : List ℕ) × (buf ≡ old ++ rest) × (length old ≡ n)
split_at zero buf h = ([], buf, refl, refl)
split_at (suc n) [] h = absurd (omega arith)
split_at (suc n) (x ∷ buf) h =
    let (old, rest, e, l) = split_at n buf (omega arith) in (x ∷ old, rest, ap (◌∷◌ x) e, ap suc l)
