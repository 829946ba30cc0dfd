-- ===== src/Packetizer/Input.antt =====
-- rtsp-server/xop/Nal.h: the units that `HandleFrame` gets from a frame.
use obs_rtspserver.Prelude.{
  ℕ, suc, ◌≡◌, refl, ap, Bool, List, [], ◌∷◌, Option, none, some, ◌^◌, ◌<◌, length,
}
use obs_rtspserver.Nal.{nal_new}
use obs_rtspserver.Nal.StartCode.{AllBytes}
use obs_rtspserver.Nal.Split.{annexb, AllUnits}
use obs_rtspserver.Nal.Store.{filled, nal_new-annexb}
use obs_rtspserver.Packetizer.{Outcome, no_fuel}

-- The units behind the pointers of `nal_unit_list_`; `none` where one of them is null.
abbrev pub units : List (Option (List ℕ)) → Option (List (List ℕ))
units [] = some []
units (none ∷ slots) = none
units (some u ∷ slots) = elim (units slots) [ none ↦ none | some us ↦ some (u ∷ us) ]

-- What `HandleFrame` does with the units; `no_fuel` also stands for a null pointer met.
abbrev pub with_units :
    {S : Type 0} → Option (List (Option (List ℕ))) → (List (List ℕ) → Outcome S) → Outcome S
with_units none k = no_fuel
with_units (some slots) k = elim (units slots) [ none ↦ no_fuel | some us ↦ k us ]

-- The units of a framed frame, without their start codes.
abbrev pub bare : List (Bool × List ℕ) → List (List ℕ)
bare [] = []
bare ((long, u) ∷ us) = u ∷ bare us

units-filled : (us : List (Bool × List ℕ)) → units (filled us) ≡ some (bare us)
units-filled [] = refl
units-filled ((long, u) ∷ us) = rw (units-filled us, units) refl

pub length-bare : (us : List (Bool × List ℕ)) → length (bare us) ≡ length us
length-bare [] = refl
length-bare ((long, u) ∷ us) = ap suc (length-bare us)

pub with_units-annexb :
    {S : Type 0} (us : List (Bool × List ℕ)) (addr : ℕ) (k : List (List ℕ) → Outcome S)
    → AllUnits us
    → AllBytes (annexb us)
    → length us < 2 ^ 32
    → with_units (nal_new (annexb us) addr) k ≡ k (bare us)
with_units-annexb us addr k v b h =
    rw (nal_new-annexb us addr v b h, with_units) (rw (units-filled us, with_units) refl)
