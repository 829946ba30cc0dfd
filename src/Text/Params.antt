-- ===== src/Text/Params.antt =====
-- The `std::unordered_map` from a name to a text and a number, in which requests keep what they parse.
use Prim.Native.String.{String}
use text.Mathlib.Text.{◌==◌}
use obs_rtspserver.Prelude.{ℕ, Option, none, some, List, [], ◌∷◌, if◌then◌else◌}

abbrev pub Params : Type 0
Params = List (String × (List ℕ × ℕ))

abbrev pub find_param : String → Params → Option (List ℕ × ℕ)
find_param key [] = none
find_param key ((k, v) ∷ rest) = if k == key then some v else find_param key rest

-- `emplace` keeps the entry that is there.
abbrev pub emplace : String → List ℕ × ℕ → Params → Params
emplace key v params = elim (find_param key params) [ none ↦ (key, v) ∷ params | some w ↦ params ]

abbrev pub text_param : String → Params → List ℕ
text_param key params = elim (find_param key params) [ none ↦ [] | some (t, n) ↦ t ]

abbrev pub number_param : String → Params → ℕ
number_param key params = elim (find_param key params) [ none ↦ 0 | some (t, n) ↦ n ]
