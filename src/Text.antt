-- ===== src/Text.antt =====
-- The strings that the code handles, as lists of their bytes: what it uses of std::string and of the
-- C string functions. A place in a string that a search finds is kept as the bytes from there on.
use Prim.Native.Char.{code}
use Prim.Native.String.{String}
pub mod Decimal
pub mod Scan
pub mod Params
pub mod Facts
pub mod Numbers
pub mod Words
pub mod Bounds
use obs_rtspserver.Prelude.{
  ℕ, Bool, true, false, ◌&&◌, ◌||◌, Option, none, some, List, [], ◌∷◌, leb, ◌==◌, if◌then◌else◌,
}

-- The bytes of a literal of the source, which is ASCII.
abbrev pub codes : String → List ℕ
codes String.[] = []
codes (String.◌∷◌ c rest) = code c ∷ codes rest

-- A C string ends at its first NUL.
abbrev pub c_str : List ℕ → List ℕ
c_str [] = []
c_str (x ∷ xs) = let rest = c_str xs in if x == 0 then [] else x ∷ rest

abbrev pub equal_text : List ℕ → List ℕ → Bool
equal_text [] [] = true
equal_text [] (y ∷ ys) = false
equal_text (x ∷ xs) [] = false
equal_text (x ∷ xs) (y ∷ ys) = x == y && equal_text xs ys

abbrev pub starts_with : List ℕ → List ℕ → Bool
starts_with [] ys = true
starts_with (x ∷ xs) [] = false
starts_with (x ∷ xs) (y ∷ ys) = x == y && starts_with xs ys

-- `find` and `strstr`
abbrev pub find_text : List ℕ → List ℕ → Option (List ℕ)
find_text key [] = if starts_with key [] then some [] else none
find_text key (y ∷ ys) = if starts_with key (y ∷ ys) then some (y ∷ ys) else find_text key ys

-- `rfind`
abbrev pub rfind_text : List ℕ → List ℕ → Option (List ℕ)
rfind_text key [] = if starts_with key [] then some [] else none
rfind_text key (y ∷ ys) = elim (rfind_text key ys) [
  | some rest ↦ some rest
  | none ↦ if starts_with key (y ∷ ys) then some (y ∷ ys) else none
]

abbrev pub is_found : Option (List ℕ) → Bool
is_found none = false
is_found (some rest) = true

-- `isspace`
abbrev pub is_space : ℕ → Bool
is_space c = c == 32 || (leb 9 c && leb c 13)
