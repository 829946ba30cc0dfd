-- ===== src/RingBuffer/Tests.antt =====
-- A ring of two places.
use obs_rtspserver.Prelude.{ℕ, ◌<◌, ◌≡◌, refl, arith, [], ◌∷◌, ◌++◌, length, ltb, if◌then◌else◌}
use obs_rtspserver.RingBuffer.{RingBuffer, push, pop}
use obs_rtspserver.RingBuffer.Refine.{contents, pop_list, push-pop-contents}
use obs_rtspserver.RingBuffer.Inv.{IsValid, push-pop-IsValid}

abbrev ring : RingBuffer ℕ
ring = record { capacity = 2; put_pos = 0; get_pos = 1; num_datas = 1; buffer = 5 ∷ 6 ∷ [] }

ring-IsValid : IsValid ring
ring-IsValid = record {
  capacity_eq = refl;
  get_lt = omega arith;
  num_le = omega arith;
  put_at = refl;
}

push-pop-IsValid_example :
    IsValid (push 7 ring).0
    × IsValid (pop 0 ring).0
    × (ring.put_pos < length ring.buffer)
    × (ring.get_pos < length ring.buffer)
    × ((push 7 ring).1 ≡ ltb 1 2)
    × ((pop 0 ring).2 ≡ ltb 0 1)
push-pop-IsValid_example = push-pop-IsValid 7 0 ring ring-IsValid

push-pop-contents_example :
    (contents 0 (push 7 ring).0
      ≡ (if ltb (length (contents 0 ring)) 2 then contents 0 ring ++ (7 ∷ []) else contents 0 ring))
    × ((contents 0 (pop 0 ring).0, (pop 0 ring).1, (pop 0 ring).2) ≡ pop_list 0 (contents 0 ring))
push-pop-contents_example = push-pop-contents 0 7 ring ring-IsValid
