-- ===== src/RingBuffer/Refine.antt =====
-- The ring is a bounded queue: what is pushed comes behind what is there, and what was there first is
-- popped.
use obs_rtspserver.Prelude.{
  ℕ, zero, suc, ◌+◌, ◌-◌, ◌<◌, ◌≡◌, ◌≢◌, refl, sym, ap, ap₂, ◌∙◌, inl, inr, Bool, true, false, List,
  [], ◌∷◌, ◌++◌, arith, ltb, ltb→lt, ◌==◌, if◌then◌else◌, length, get_or, get_or-set,
  get_or-set_other, set, Bool-cases,
}
use obs_rtspserver.RingBuffer.{RingBuffer, add, push, pop}
use obs_rtspserver.RingBuffer.Inv.{IsValid, ahead}

abbrev pub after : ℕ → ℕ → ℕ
after capacity pos = if pos + 1 == capacity then 0 else pos + 1

after-lt : (capacity pos : ℕ) → pos < capacity → after capacity pos < capacity
after-lt capacity pos h = ground (arith, h)

ahead-zero : (capacity pos : ℕ) → pos < capacity → ahead capacity pos 0 ≡ pos
ahead-zero capacity pos h = ground (arith, h)

ahead-after :
    (capacity pos n : ℕ)
    → pos < capacity
    → suc n < capacity
    → ahead capacity pos (suc n) ≡ ahead capacity (after capacity pos) n
ahead-after capacity pos n h k = ground (arith, h, k)

ahead-other :
    (capacity pos n : ℕ) → pos < capacity → suc n < capacity → ahead capacity pos (suc n) ≢ pos
ahead-other capacity pos n h k = ground (arith, h, k)

module _ {ℓ} {A : Type ℓ} where
  -- `n` elements from `pos` on; `d` stands for a place outside the vector.
  abbrev pub elements : A → ℕ → List A → ℕ → ℕ → List A
  elements d capacity buffer pos zero = []
  elements d capacity buffer pos (suc n) =
      get_or buffer pos d ∷ elements d capacity buffer (after capacity pos) n

  abbrev pub contents : A → RingBuffer A → List A
  contents d r = elements d r.capacity r.buffer r.get_pos r.num_datas

  -- A queue of elements is popped.
  abbrev pub pop_list : A → List A → List A × A × Bool
  pop_list d [] = ([], d, false)
  pop_list d (x ∷ xs) = (xs, x, true)

  length-elements :
      (d : A) (capacity : ℕ) (buffer : List A) (pos n : ℕ)
      → length (elements d capacity buffer pos n) ≡ n
  length-elements d capacity buffer pos zero = refl
  length-elements d capacity buffer pos (suc n) =
      omega (arith, length-elements d capacity buffer (after capacity pos) n)

  elements-set :
      (d x : A) (capacity : ℕ) (buffer : List A) (pos n : ℕ)
      → length buffer ≡ capacity
      → pos < capacity
      → n < capacity
      → elements d capacity (set buffer (ahead capacity pos n) x) pos (suc n)
        ≡ elements d capacity buffer pos n ++ (x ∷ [])
  elements-set d x capacity buffer pos zero e h k =
      ap (λ p. get_or (set buffer p x) pos d ∷ []) (ahead-zero capacity pos h)
      ∙ ap (λ z. z ∷ []) (get_or-set buffer pos x d (omega (arith, e, h)))
  elements-set d x capacity buffer pos (suc n) e h k =
      ap₂ (λ a b. a ∷ b)
        (get_or-set_other buffer (ahead capacity pos (suc n)) pos x d
          (ahead-other capacity pos n h k))
        (ap (λ p. elements d capacity (set buffer p x) (after capacity pos) (suc n))
            (ahead-after capacity pos n h k)
          ∙ elements-set d x capacity buffer (after capacity pos) n e (after-lt capacity pos h)
              (omega (arith, k)))

  push-contents :
      (d x : A) (r : RingBuffer A)
      → IsValid r
      → contents d (push x r).0 ≡ (
          if ltb (length (contents d r)) r.capacity then contents d r ++ (x ∷ []) else contents d r)
  unfolding push add
  push-contents d x r v =
      let size : length (contents d r) ≡ r.num_datas =
        length-elements d r.capacity r.buffer r.get_pos r.num_datas in
      elim (Bool-cases (ltb r.num_datas r.capacity)) [
        | inr t ↦ rw (size, t) refl
        | inl t ↦
            rw (size, t)
              (ap₂ (λ p n. elements d r.capacity (set r.buffer p x) r.get_pos n) v.put_at one_more
                ∙ elements-set d x r.capacity r.buffer r.get_pos r.num_datas v.capacity_eq v.get_lt
                    (ltb→lt r.num_datas r.capacity t))
      ]
    where
      one_more : r.num_datas + 1 ≡ suc r.num_datas
      one_more = omega arith

  pop-contents :
      (d : A) (r : RingBuffer A)
      → (contents d (pop d r).0, (pop d r).1, (pop d r).2) ≡ pop_list d (contents d r)
  unfolding pop add
  pop-contents d r = elim (Bool-cases (ltb 0 r.num_datas)) [
    | inl t ↦
        rw t (sym (ap (λ n. pop_list d (elements d r.capacity r.buffer r.get_pos n)) (positive t)))
    | inr t ↦ rw t (
        ap (λ n. (elements d r.capacity r.buffer r.get_pos n, d, false)) (none_left t)
        ∙ sym (ap (λ n. pop_list d (elements d r.capacity r.buffer r.get_pos n)) (none_left t)))
  ]
    where
      positive : ltb 0 r.num_datas ≡ true → r.num_datas ≡ suc (r.num_datas - 1)
      positive t = ground (arith, t)

      none_left : ltb 0 r.num_datas ≡ false → r.num_datas ≡ 0
      none_left t = ground (arith, t)

  -- A valid ring refines a queue of at most `capacity` elements. `Push` puts its element behind the
  -- queue, if there is room, and leaves the queue as it is otherwise. `Pop` takes the first element,
  -- and on an empty queue it leaves the caller's variable as it is and returns false.
  pub push-pop-contents :
      (d x : A) (r : RingBuffer A)
      → IsValid r
      → (contents d (push x r).0 ≡ (
          if ltb (length (contents d r)) r.capacity
          then contents d r ++ (x ∷ [])
          else contents d r))
        × ((contents d (pop d r).0, (pop d r).1, (pop d r).2) ≡ pop_list d (contents d r))
  push-pop-contents d x r v = (push-contents d x r v, pop-contents d r)
