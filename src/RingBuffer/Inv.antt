-- ===== src/RingBuffer/Inv.antt =====
-- The ring's indices stay within the vector, and stay as far apart as there are elements.
use obs_rtspserver.Prelude.{
  ℕ, ◌+◌, ◌-◌, ◌≤◌, ◌<◌, ◌≡◌, refl, ◌∙◌, inl, inr, arith, ltb, ltb→lt, ◌==◌, if◌then◌else◌, length,
  length-set, Bool-cases,
}
use obs_rtspserver.RingBuffer.{RingBuffer, add, push, pop}

-- The place `n` places after `pos`.
abbrev pub ahead : ℕ → ℕ → ℕ → ℕ
ahead capacity pos n = if ltb (pos + n) capacity then pos + n else pos + n - capacity

put-step :
    (capacity get num : ℕ)
    → get < capacity
    → num < capacity
    → (if ahead capacity get num + 1 == capacity then 0 else ahead capacity get num + 1)
      ≡ ahead capacity get (num + 1)
put-step capacity get num h k = ground arith

get-step :
    (capacity get num : ℕ)
    → get < capacity
    → 0 < num
    → num ≤ capacity
    → ahead capacity get num ≡ ahead capacity (if get + 1 == capacity then 0 else get + 1) (num - 1)
get-step capacity get num h k l = ground arith

module _ {ℓ} {A : Type ℓ} where
  pub record IsValid (r : RingBuffer A) : Type 0 where
    pub capacity_eq : length r.buffer ≡ r.capacity
    pub get_lt : r.get_pos < r.capacity
    pub num_le : r.num_datas ≤ r.capacity
    pub put_at : r.put_pos ≡ ahead r.capacity r.get_pos r.num_datas

  -- On a valid ring: `Push` and `Pop` keep it valid, with the place that they write or read within
  -- the vector, and `Push` succeeds just when there are fewer than `capacity` elements, `Pop` just
  -- when there is one.
  pub push-pop-IsValid :
      (x old : A) (r : RingBuffer A)
      → IsValid r
      → IsValid (push x r).0
        × IsValid (pop old r).0
        × (r.put_pos < length r.buffer)
        × (r.get_pos < length r.buffer)
        × ((push x r).1 ≡ ltb r.num_datas r.capacity)
        × ((pop old r).2 ≡ ltb 0 r.num_datas)
  unfolding push pop add
  push-pop-IsValid x old r v = (
    pushed,
    popped,
    (ground (arith, v.put_at, v.get_lt, v.num_le, v.capacity_eq)),
    omega (arith, v.get_lt, v.capacity_eq),
    push_ok,
    pop_ok,
  )
    where
      pushed : IsValid (push x r).0
      pushed = elim (Bool-cases (ltb r.num_datas r.capacity)) [
        | inr t ↦ rw t v
        | inl t ↦ rw t (record {
          capacity_eq = omega (arith, v.capacity_eq, length-set r.buffer r.put_pos x);
          get_lt = v.get_lt;
          num_le = omega (arith, ltb→lt _ _ t);
          put_at = rw v.put_at (put-step r.capacity r.get_pos r.num_datas v.get_lt (ltb→lt _ _ t));
        })
      ]

      popped : IsValid (pop old r).0
      popped = elim (Bool-cases (ltb 0 r.num_datas)) [
        | inr t ↦ rw t v
        | inl t ↦ rw t (record {
          capacity_eq = v.capacity_eq;
          get_lt = ground (arith, v.get_lt);
          num_le = omega (arith, v.num_le);
          put_at =
              v.put_at ∙ get-step r.capacity r.get_pos r.num_datas v.get_lt (ltb→lt _ _ t) v.num_le;
        })
      ]

      push_ok : (push x r).1 ≡ ltb r.num_datas r.capacity
      push_ok = elim (Bool-cases (ltb r.num_datas r.capacity)) [
        | inl t ↦ rw t refl
        | inr t ↦ rw t refl
      ]

      pop_ok : (pop old r).2 ≡ ltb 0 r.num_datas
      pop_ok = elim (Bool-cases (ltb 0 r.num_datas)) [ inl t ↦ rw t refl | inr t ↦ rw t refl ]
