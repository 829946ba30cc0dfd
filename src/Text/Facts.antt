-- ===== src/Text/Facts.antt =====
-- Facts on texts: what stands in front of a place where a test first fails, C strings and CRLFs.
use obs_rtspserver.Prelude.{
  ℕ, ◌≡◌, inl, inr, refl, Bool, true, false, not, ◌&&◌, some, List, [], ◌∷◌, ◌++◌, arith, length,
  leb, ◌==◌, Bool-cases,
}
use obs_rtspserver.Text.{c_str}
use obs_rtspserver.Text.Scan.{span}
use obs_rtspserver.BufferReader.{starts_crlf, search, find_end}

abbrev pub all_bytes : (ℕ → Bool) → List ℕ → Bool
all_bytes p [] = true
all_bytes p (c ∷ cs) = p c && all_bytes p cs

pub and-left : (a b : Bool) → (a && b) ≡ true → a ≡ true
and-left a b h = ground (arith, h)

pub and-right : (a b : Bool) → (a && b) ≡ true → b ≡ true
and-right a b h = ground (arith, h)

pub all_bytes-append :
    (p : ℕ → Bool) (xs ys : List ℕ)
    → all_bytes p xs ≡ true
    → all_bytes p ys ≡ true
    → all_bytes p (xs ++ ys) ≡ true
all_bytes-append p [] ys h k = k
all_bytes-append p (x ∷ xs) ys h k =
    rw (and-left (p x) (all_bytes p xs) h)
      (all_bytes-append p xs ys (and-right (p x) (all_bytes p xs) h) k)

pub all_bytes-weaken :
    (p q : ℕ → Bool)
    → ((c : ℕ) → p c ≡ true → q c ≡ true)
    → (xs : List ℕ) → all_bytes p xs ≡ true
    → all_bytes q xs ≡ true
all_bytes-weaken p q w [] h = refl
all_bytes-weaken p q w (x ∷ xs) h =
    rw (w x (and-left (p x) (all_bytes p xs) h))
      (all_bytes-weaken p q w xs (and-right (p x) (all_bytes p xs) h))

pub span-stop :
    (p : ℕ → Bool) (t : List ℕ) (c : ℕ) (rest : List ℕ)
    → all_bytes p t ≡ true
    → p c ≡ false
    → span p (t ++ (c ∷ rest)) ≡ (t, c ∷ rest)
span-stop p [] c rest h k = rw k refl
span-stop p (x ∷ t) c rest h k =
    rw
      (and-left (p x) (all_bytes p t) h, span-stop p t c rest (and-right (p x) (all_bytes p t) h) k)
      refl

pub span-all : (p : ℕ → Bool) (t : List ℕ) → all_bytes p t ≡ true → span p t ≡ (t, [])
span-all p [] h = refl
span-all p (x ∷ t) h =
    rw (and-left (p x) (all_bytes p t) h, span-all p t (and-right (p x) (all_bytes p t) h)) refl

pub c_str-append :
    (t rest : List ℕ) → all_bytes (leb 1) t ≡ true → c_str (t ++ rest) ≡ t ++ c_str rest
c_str-append [] rest h = refl
c_str-append (x ∷ t) rest h =
    rw (ne, c_str-append t rest (and-right (leb 1 x) (all_bytes (leb 1) t) h)) refl
  where
    ne : (x == 0) ≡ false
    ne = ground (arith, and-left (leb 1 x) (all_bytes (leb 1) t) h)

pub c_str-all : (t : List ℕ) → all_bytes (leb 1) (c_str t) ≡ true
c_str-all [] = refl
c_str-all (x ∷ t) = elim (Bool-cases (x == 0)) [
  | inl e ↦ rw e refl
  | inr e ↦ rw (e, pos e) (c_str-all t)
]
  where
    pos : (x == 0) ≡ false → leb 1 x ≡ true
    pos e = ground (arith, e)

abbrev pub not_cr : ℕ → Bool
not_cr c = not (c == 13)

pub search-line :
    (t rest : List ℕ) → all_bytes not_cr t ≡ true → search (t ++ (13 ∷ 10 ∷ rest)) ≡ some (length t)
unfolding search starts_crlf
search-line [] rest h = refl
search-line (x ∷ t) rest h =
    rw
      (
        no_crlf x (t ++ (13 ∷ 10 ∷ rest)) (and-left (not_cr x) (all_bytes not_cr t) h),
        search-line t rest (and-right (not_cr x) (all_bytes not_cr t) h),
      )
      refl
  where
    no_crlf : (c : ℕ) (ys : List ℕ) → not_cr c ≡ true → starts_crlf (c ∷ ys) ≡ false
    no_crlf c [] h = refl
    no_crlf c (y ∷ ys) h = ground (arith, h)

pub find_end-append : (t : List ℕ) → find_end (t ++ (13 ∷ 10 ∷ [])) ≡ some (length t)
unfolding find_end starts_crlf
find_end-append [] = refl
find_end-append (x ∷ t) = rw (find_end-append t) refl
