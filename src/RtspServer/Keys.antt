-- ===== src/RtspServer/Keys.antt =====
-- Maps: what is found after an entry has been stored or erased.
use obs_rtspserver.Prelude.{
  ℕ, ◌≡◌, refl, ap, ap₂, ◌∙◌, inl, inr, Bool, true, false, none, some, List, [], ◌∷◌, arith, ◌==◌,
  if◌then◌else◌, Bool-cases,
}
use obs_rtspserver.Text.{equal_text}
use obs_rtspserver.Text.Facts.{and-left, and-right}
use obs_rtspserver.RtspServer.{find_key, erase_key, same_id}

pub equal_text→≡ : (xs ys : List ℕ) → equal_text xs ys ≡ true → xs ≡ ys
equal_text→≡ [] [] h = refl
equal_text→≡ [] (y ∷ ys) h = absurd (ground (arith, h))
equal_text→≡ (x ∷ xs) [] h = absurd (ground (arith, h))
equal_text→≡ (x ∷ xs) (y ∷ ys) h =
    let e : x ≡ y = ground (arith, and-left (x == y) (equal_text xs ys) h) in
    ap₂ (λ a b. a ∷ b) e (equal_text→≡ xs ys (and-right (x == y) (equal_text xs ys) h))

pub equal_text-same : (xs : List ℕ) → equal_text xs xs ≡ true
equal_text-same [] = refl
equal_text-same (x ∷ xs) = rw (same x) (equal_text-same xs)
  where
    same : (x : ℕ) → (x == x) ≡ true
    same x = ground arith

pub same_id→≡ : (a b : ℕ) → same_id a b ≡ true → a ≡ b
same_id→≡ a b h = ground (arith, h)

pub same_id-same : (a : ℕ) → same_id a a ≡ true
same_id-same a = ground arith

module _ {ℓ} {K : Type ℓ} {V : Type ℓ} (same : K → K → Bool)
    (reflects : (a b : K) → same a b ≡ true → a ≡ b) where
  -- What is erased is not found, all else is.
  pub find_key-erase_same : (k : K) (m : List (K × V)) → find_key same k (erase_key same k m) ≡ none
  find_key-erase_same k [] = refl
  find_key-erase_same k ((j, v) ∷ m) = elim (Bool-cases (same j k)) [
    | inl t ↦ rw t (find_key-erase_same k m)
    | inr t ↦ rw (t, t) (find_key-erase_same k m)
  ]

  pub find_key-erase_other :
      (k l : K) (m : List (K × V))
      → same k l ≡ false
      → find_key same l (erase_key same k m) ≡ find_key same l m
  find_key-erase_other k l [] h = refl
  find_key-erase_other k l ((j, v) ∷ m) h = elim (Bool-cases (same j k)) [
    | inl t ↦ rw (t, ap (λ z. same z l) (reflects j k t) ∙ h) (find_key-erase_other k l m h)
    | inr t ↦ rw t (ap (λ z. if same j l then some v else z) (find_key-erase_other k l m h))
  ]
