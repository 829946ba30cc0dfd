-- ===== src/Nal/Tests.antt =====
-- Runs of the NAL splitter.
use obs_rtspserver.Prelude.{
  ℕ, zero, suc, ◌+◌, ◌<◌, ◌≡◌, refl, arith, Bool, true, false, some, List, [], ◌∷◌,
}
use obs_rtspserver.Nal.{find_start_code_internal, nal_unit_while, nal_new, is_code}
use obs_rtspserver.Nal.StartCode.{AllBytes, IsFirst, find_start_code_internal-IsFirst}
use obs_rtspserver.Nal.Split.{IsUnit, annexb, AllUnits}
use obs_rtspserver.Nal.RoundTrip.{fold_units, nal_unit_while-annexb}
use obs_rtspserver.Nal.Store.{filled, nal_new-annexb}

split_two :
    nal_new (0 ∷ 0 ∷ 0 ∷ 1 ∷ 9 ∷ 0 ∷ 8 ∷ 0 ∷ 0 ∷ 1 ∷ 7 ∷ 7 ∷ 0 ∷ 0 ∷ 0 ∷ 1 ∷ 6 ∷ []) 3
    ≡ some (some (9 ∷ 0 ∷ 8 ∷ []) ∷ some (7 ∷ 7 ∷ []) ∷ some (6 ∷ []) ∷ [])
unfolding nal_new
split_two = refl

-- Two H.264 units: a parameter set, and a slice.
abbrev pub parameter_set : List ℕ
parameter_set = 0x67 ∷ 0 ∷ 5 ∷ []

abbrev pub slice_unit : List ℕ
slice_unit = 0x65 ∷ 0x88 ∷ []

abbrev pub two_units : List (Bool × List ℕ)
two_units = (true, parameter_set) ∷ (false, slice_unit) ∷ []

parameter_set-IsUnit : IsUnit parameter_set
parameter_set-IsUnit = record { no_code = inner; last_ne = λ e. omega (arith, e) }
  where
    inner : (i : ℕ) → i + 2 < 3 → is_code parameter_set i ≡ false
    inner zero h = refl
    inner (suc i) h = absurd (omega arith)

pub two_units-AllUnits : AllUnits two_units
two_units-AllUnits = (
  parameter_set-IsUnit,
  (record { no_code = λ i h. absurd (omega (arith, h)); last_ne = λ e. omega (arith, e) }, tt),
)

pub two_units-AllBytes : AllBytes (annexb two_units)
two_units-AllBytes = ground arith

find_start_code_internal-IsFirst_example :
    IsFirst (annexb two_units) 4 12 (find_start_code_internal (annexb two_units) 1 4 12)
find_start_code_internal-IsFirst_example =
    find_start_code_internal-IsFirst (annexb two_units) 1 4 12 two_units-AllBytes (omega arith)

-- A callback that sums the sizes of the units.
abbrev sum_sizes : ℕ → ℕ → ℕ → ℕ × Bool
sum_sizes n start size = (n + size, true)

nal_unit_while-annexb_example :
    nal_unit_while sum_sizes (annexb two_units) 2 0 ≡ some (fold_units sum_sizes 0 two_units 0)
nal_unit_while-annexb_example =
    nal_unit_while-annexb sum_sizes two_units 2 0 two_units-AllUnits two_units-AllBytes

nal_new-annexb_example : nal_new (annexb two_units) 1 ≡ some (filled two_units)
nal_new-annexb_example =
    nal_new-annexb two_units 1 two_units-AllUnits two_units-AllBytes (omega arith)

-- Two H.265 units.
abbrev pub h265_parameter_set : List ℕ
h265_parameter_set = 0x40 ∷ 1 ∷ []

abbrev pub h265_slice : List ℕ
h265_slice = 0x26 ∷ 1 ∷ []

abbrev pub h265_units : List (Bool × List ℕ)
h265_units = (true, h265_parameter_set) ∷ (true, h265_slice) ∷ []

pub h265_units-AllUnits : AllUnits h265_units
h265_units-AllUnits = (
  record { no_code = λ i h. absurd (omega (arith, h)); last_ne = λ e. omega (arith, e) },
  (record { no_code = λ i h. absurd (omega (arith, h)); last_ne = λ e. omega (arith, e) }, tt),
)

pub h265_units-AllBytes : AllBytes (annexb h265_units)
h265_units-AllBytes = ground arith
