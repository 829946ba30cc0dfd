-- ===== src/NalUnit.antt =====
-- rtsp-server/xop/NalUnit.cpp: one NAL unit, as the bytes behind its start code.
pub mod H264
pub mod H265
use obs_rtspserver.Prelude.{
  ℕ, zero, suc, ◌+◌, ◌-◌, ◌≤◌, ◌≡◌, refl, List, [], ◌∷◌, ltb, if◌then◌else◌, length, length-take,
  length-drop, take, drop, take-past, drop-past, dec_lt, arith, min,
}

-- `NalUnit::CopyData`: the bytes that are copied. Its result is their number.
unfoldable pub copy_data : List ℕ → ℕ → ℕ → List ℕ
copy_data u size skip =
    if ltb (length u) skip
    then []
    else take (if ltb (length u) (skip + size) then length u - skip else size) (drop skip u)

-- The copy is the part of the unit that is there.
pub copy_data_lem : (u : List ℕ) (size skip : ℕ) → copy_data u size skip ≡ take size (drop skip u)
unfolding copy_data
copy_data_lem u size skip = elim (dec_lt (length u) skip) [
  | yes h ↦ ground (arith, drop-past skip u (omega arith), take-past size (drop skip u))
  | no h ↦ ground (
    arith,
    length-drop skip u,
    take-past (length u - skip) (drop skip u),
    take-past size (drop skip u),
  )
]
