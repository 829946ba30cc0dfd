-- ===== src/Nal.antt =====
-- rtsp-server/xop/Nal.cpp and Nal.h: a frame of an H.264 or H.265 byte stream is cut into NAL
-- units at its start codes.
pub mod Tests
mod ZeroByte
pub mod StartCode
pub mod Split
pub mod RoundTrip
pub mod Store
use obs_rtspserver.Prelude.{
  ℕ, zero, suc, ◌+◌, ◌-◌, ◌*◌, ◌%◌, ◌^◌, Bool, true, false, not, ◌&&◌, ◌||◌, List, [], ◌∷◌, ◌++◌,
  Option, none, some, bit_and, ltb, ◌==◌, if◌then◌else◌, length, get_or, set, take, drop, replicate,
}

-- The byte at an index of the frame. Pointers into the frame are indices.
abbrev pub byte_at : List ℕ → ℕ → ℕ
byte_at d i = get_or d i 0

-- `p[0] == 0 && p[1] == 0 && p[2] == 1`
abbrev pub is_code : List ℕ → ℕ → Bool
is_code d p = byte_at d p == 0 && byte_at d (p + 1) == 0 && byte_at d (p + 2) == 1

-- What a scanning loop ends with: a returned pointer, or the place where its test failed.
pub data Scan : Type 0 where
  found : ℕ → Scan
  upto : ℕ → Scan

-- The word that a little-endian machine loads from `p`.
abbrev pub load_word : List ℕ → ℕ → ℕ
load_word d p =
    byte_at d p + 256 * byte_at d (p + 1) + 65536 * byte_at d (p + 2) + 16777216 * byte_at d (p + 3)

-- `x - 0x01010101 & ~x & 0x80808080`, on uint32_t
unfoldable pub zero_byte_test : ℕ → Bool
zero_byte_test x =
    not (bit_and (bit_and ((x + 2 ^ 32 - 0x01010101) % 2 ^ 32) (0xffffffff - x)) 0x80808080 == 0)

-- The first loop, up to an aligned address `a` and `end - 3`. The first argument is fuel in each of
-- the three.
unfoldable pub head_scan : ℕ → List ℕ → ℕ → ℕ → ℕ → Scan
head_scan zero d a end p = upto p
head_scan (suc n) d a end p =
    let rest = head_scan n d a end (p + 1) in
    if ltb p a && ltb (p + 3) end then (if is_code d p then found p else rest) else upto p

-- The checks on a word that has a zero byte.
unfoldable pub word_hit : List ℕ → ℕ → Option ℕ
word_hit d p =
    if b1 == 0 && b0 == 0 && b2 == 1
    then some p
    else if b1 == 0 && b2 == 0 && b3 == 1
    then some (p + 1)
    else if b3 == 0 && b2 == 0 && byte_at d (p + 4) == 1
    then some (p + 2)
    else if b3 == 0 && byte_at d (p + 4) == 0 && byte_at d (p + 5) == 1
    then some (p + 3)
    else none
  where
    b0 : ℕ
    b0 = byte_at d p

    b1 : ℕ
    b1 = byte_at d (p + 1)

    b2 : ℕ
    b2 = byte_at d (p + 2)

    b3 : ℕ
    b3 = byte_at d (p + 3)

-- The second loop, a word at a time, up to `end - 6`.
unfoldable pub word_scan : ℕ → List ℕ → ℕ → ℕ → Scan
word_scan zero d end p = upto p
word_scan (suc n) d end p =
    let rest = word_scan n d end (p + 4) in
    if ltb (p + 6) end
    then (if zero_byte_test (load_word d p)
        then elim (word_hit d p) [ some r ↦ found r | none ↦ rest ]
        else rest)
    else upto p

-- The third loop, a byte at a time, up to `end - 3`.
unfoldable pub tail_scan : ℕ → List ℕ → ℕ → ℕ → Scan
tail_scan zero d end p = upto p
tail_scan (suc n) d end p =
    let rest = tail_scan n d end (p + 1) in
    if ltb (p + 3) end then (if is_code d p then found p else rest) else upto p

-- A pointer that a loop has returned is the function's result; otherwise the next loop runs.
abbrev pub and_then : Scan → (ℕ → ℕ) → ℕ
and_then (found r) k = r
and_then (upto q) k = k q

-- `FFmpegFindStartcodeInternal`. `addr` is the address of the frame's first byte.
unfoldable pub find_start_code_internal : List ℕ → ℕ → ℕ → ℕ → ℕ
unfolding head_scan word_scan word_hit tail_scan zero_byte_test
find_start_code_internal d addr p end =
    and_then (head_scan 4 d (p + 4 - (addr + p) % 4) end p)
      λ q. and_then (word_scan end d end q) λ r. and_then (tail_scan end d end r) λ _. end

-- `FindStartCode`: a zero before the code belongs to it.
unfoldable pub find_start_code : List ℕ → ℕ → ℕ → ℕ → ℕ
unfolding find_start_code_internal
find_start_code d addr p end =
    let out = find_start_code_internal d addr p end in
    if ltb p out && ltb out end && byte_at d (out - 1) == 0 then out - 1 else out

-- `while (nal_start < end && !*nal_start++);`
unfoldable pub skip_code : ℕ → List ℕ → ℕ → ℕ → ℕ
skip_code zero d end p = p
skip_code (suc n) d end p =
    let rest = skip_code n d end (p + 1) in
    if ltb p end then (if byte_at d p == 0 then rest else p + 1) else p

module _ {ℓ} {S : Type ℓ} where
  -- The loop of `NalUnitWhile`. The callback is given a unit's start and size, and says whether to go
  -- on. `none` means that the fuel ran out.
  unfoldable pub unit_loop : ℕ → (S → ℕ → ℕ → S × Bool) → List ℕ → ℕ → ℕ → ℕ → S → Option (S × Bool)
  unfolding skip_code find_start_code
  unit_loop zero callback d addr end p s = none
  unit_loop (suc n) callback d addr end p s =
      let start = skip_code end d end p in
      let stop = find_start_code d addr start end in
      let (s', more) = callback s start (stop - start) in
      let rest = unit_loop n callback d addr end stop s' in
      if start == end then some (s, true) else if more then rest else some (s', false)

  -- `NalUnitWhile`
  unfoldable pub nal_unit_while : (S → ℕ → ℕ → S × Bool) → List ℕ → ℕ → S → Option (S × Bool)
  unfolding unit_loop
  nal_unit_while callback d addr s =
      if length d == 0
      then some (s, true)
      else unit_loop (length d + 1) callback d addr (length d) (find_start_code d addr 0 (length d))
          s

-- `GetNalUnitCount`
unfoldable pub get_nal_unit_count : List ℕ → ℕ → Option ℕ
unfolding nal_unit_while
get_nal_unit_count d addr = elim (nal_unit_while (λ n _ _. (n + 1, true)) d addr 0) [
  | some (n, _) ↦ some (n % 2 ^ 32)
  | none ↦ none
]

-- The bytes that a unit is made of.
abbrev pub slice : List ℕ → ℕ → ℕ → List ℕ
slice d start size = take size (drop start d)

-- The slots of `nal_unit_list_`, and the iterator `it`; `none` is a null pointer.
abbrev pub Slots : Type 0
Slots = List (Option (List ℕ)) × ℕ

-- The callback of the constructor. It writes through `it` before it compares; a write at the end
-- of the vector has no slot here.
unfoldable pub store_unit : List ℕ → Slots → ℕ → ℕ → Slots × Bool
store_unit d (slots, it) start size =
    ((set slots it (some (slice d start size)), it + 1), not (it == length slots))

-- The constructor of `Nal`: it counts the units, then stores them.
unfoldable pub nal_new : List ℕ → ℕ → Option (List (Option (List ℕ)))
unfolding get_nal_unit_count store_unit nal_unit_while
nal_new d addr = elim (get_nal_unit_count d addr) [
  | none ↦ none
  | some n ↦ elim (nal_unit_while (store_unit d) d addr (replicate n none, 0)) [
    | none ↦ none
    | some ((slots, _), _) ↦ some slots
  ]
]
