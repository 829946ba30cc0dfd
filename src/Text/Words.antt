-- ===== src/Text/Words.antt =====
-- What `sscanf` reads where words, separators and numbers follow each other, and when it cannot write
-- past an array.
use obs_rtspserver.Prelude.{
  ℕ, ◌≡◌, refl, ap, ◌∙◌, Bool, true, false, not, ◌&&◌, some, List, [], ◌∷◌, ◌++◌, arith, length,
  leb, ltb,
}
use obs_rtspserver.Text.{is_space}
use obs_rtspserver.Text.Facts.{
  all_bytes, all_bytes-weaken, and-left, and-right, span-stop, span-all,
}
use obs_rtspserver.Text.Scan.{
  Directive, space, word, Value, text, stored, passed, span, skip_spaces, store_text, scan_step,
  sscanf,
}

-- Neither white space nor a control character.
abbrev pub is_visible : ℕ → Bool
is_visible c = leb 33 c

-- A text that `%s` reads into an array of `size` bytes.
abbrev pub is_word : ℕ → List ℕ → Bool
is_word size [] = false
is_word size (c ∷ cs) = all_bytes is_visible (c ∷ cs) && ltb (length (c ∷ cs)) size

pub visible-not_space : (c : ℕ) → is_visible c ≡ true → not (is_space c) ≡ true
visible-not_space c h = ground (arith, h)

is_space-visible : (c : ℕ) → is_visible c ≡ true → is_space c ≡ false
is_space-visible c h = ground (arith, h)

-- White space in front of a word is skipped.
pub skip_spaces-visible :
    (c : ℕ) (cs : List ℕ) → is_visible c ≡ true → skip_spaces (c ∷ cs) ≡ c ∷ cs
skip_spaces-visible c cs h = rw (is_space-visible c h) refl

word-parts :
    (size c : ℕ) (cs : List ℕ)
    → is_word size (c ∷ cs) ≡ true
    → (is_visible c ≡ true)
      × (all_bytes (λ x. not (is_space x)) (c ∷ cs) ≡ true)
      × (ltb (length (c ∷ cs)) size ≡ true)
word-parts size c cs h =
    let visible = and-left (all_bytes is_visible (c ∷ cs)) (ltb (length (c ∷ cs)) size) h in
    (
      and-left (is_visible c) (all_bytes is_visible cs) visible,
      all_bytes-weaken is_visible (λ x. not (is_space x)) visible-not_space (c ∷ cs) visible,
      and-right (all_bytes is_visible (c ∷ cs)) (ltb (length (c ∷ cs)) size) h,
    )

pub scan_word-space :
    (size : ℕ) (t rest : List ℕ)
    → is_word size t ≡ true
    → scan_step (word size) (t ++ (32 ∷ rest)) ≡ stored (text t) (32 ∷ rest)
scan_word-space size [] rest h = absurd (ground (arith, h))
scan_word-space size (c ∷ cs) rest h =
    let (v, s, l) = word-parts size c cs h in
    ap (λ z. store_text size (span (λ x. not (is_space x)) z))
      (skip_spaces-visible c (cs ++ (32 ∷ rest)) v)
    ∙ (ap (store_text size) (span-stop (λ x. not (is_space x)) (c ∷ cs) 32 rest s refl) ∙ rw l refl)

pub scan_word-end :
    (size : ℕ) (t : List ℕ) → is_word size t ≡ true → scan_step (word size) t ≡ stored (text t) []
scan_word-end size [] h = absurd (ground (arith, h))
scan_word-end size (c ∷ cs) h =
    let (v, s, l) = word-parts size c cs h in
    ap (λ z. store_text size (span (λ x. not (is_space x)) z)) (skip_spaces-visible c cs v)
    ∙ (ap (store_text size) (span-all (λ x. not (is_space x)) (c ∷ cs) s) ∙ rw l refl)

-- A space in the format takes a space in front of a word.
scan_space-word :
    (size : ℕ) (t rest : List ℕ)
    → is_word size t ≡ true
    → scan_step space (32 ∷ (t ++ rest)) ≡ passed (t ++ rest)
scan_space-word size [] rest h = absurd (ground (arith, h))
scan_space-word size (c ∷ cs) rest h =
    ap passed (skip_spaces-visible c (cs ++ rest) (word-parts size c cs h).0)

scan_space-end :
    (size : ℕ) (t : List ℕ) → is_word size t ≡ true → scan_step space (32 ∷ t) ≡ passed t
scan_space-end size [] h = absurd (ground (arith, h))
scan_space-end size (c ∷ cs) h = ap passed (skip_spaces-visible c cs (word-parts size c cs h).0)

-- One directive that stores a value, and one that passes.
pub sscanf-stored :
    (d : Directive) (ds : List Directive) (xs rest : List ℕ) (v : Value) (vs : List Value)
    → scan_step d xs ≡ stored v rest
    → sscanf ds rest ≡ some vs
    → sscanf (d ∷ ds) xs ≡ some (v ∷ vs)
sscanf-stored d ds xs rest v vs h k = rw (h, k) refl

pub sscanf-passed :
    (d : Directive) (ds : List Directive) (xs rest : List ℕ) (vs : List Value)
    → scan_step d xs ≡ passed rest
    → sscanf ds rest ≡ some vs
    → sscanf (d ∷ ds) xs ≡ some vs
sscanf-passed d ds xs rest vs h k = rw h k

-- `"%s %s %s"`
pub sscanf-three_words :
    (m n k : ℕ) (t u v : List ℕ)
    → is_word m t ≡ true
    → is_word n u ≡ true
    → is_word k v ≡ true
    → sscanf (word m ∷ space ∷ word n ∷ space ∷ word k ∷ []) (t ++ (32 ∷ (u ++ (32 ∷ v))))
      ≡ some (text t ∷ text u ∷ text v ∷ [])
sscanf-three_words m n k t u v ht hu hv =
    sscanf-stored (word m) (space ∷ word n ∷ space ∷ word k ∷ []) (t ++ (32 ∷ (u ++ (32 ∷ v))))
      (32 ∷ (u ++ (32 ∷ v))) (text t) (text u ∷ text v ∷ [])
      (scan_word-space m t (u ++ (32 ∷ v)) ht)
      (sscanf-passed space (word n ∷ space ∷ word k ∷ []) (32 ∷ (u ++ (32 ∷ v))) (u ++ (32 ∷ v))
        (text u ∷ text v ∷ []) (scan_space-word n u (32 ∷ v) hu)
        (sscanf-stored (word n) (space ∷ word k ∷ []) (u ++ (32 ∷ v)) (32 ∷ v) (text u)
          (text v ∷ []) (scan_word-space n u v hu)
          (sscanf-passed space (word k ∷ []) (32 ∷ v) v (text v ∷ []) (scan_space-end k v hv)
            (sscanf-stored (word k) [] v [] (text v) [] (scan_word-end k v hv) refl))))
