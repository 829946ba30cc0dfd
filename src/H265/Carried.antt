-- ===== src/H265/Carried.antt =====
-- The H.265 codec meets what the packetizer asks of it, and fits an RFC 7798 receiver.
use obs_rtspserver.Prelude.{
  ℕ, ◌+◌, ◌*◌, ◌/◌, ◌≤◌, ◌<◌, ◌≡◌, refl, ap, Bool, true, false, not, ◌&&◌, List, [], ◌∷◌, ◌++◌,
  arith, bit_and, bit_or, ◌==◌, if◌then◌else◌, length, get_or, take,
}
use obs_rtspserver.Prelude.Bits.{all_below, all_below_sound, bit_and-le}
use obs_rtspserver.NalUnit.{copy_data_lem}
use obs_rtspserver.NalUnit.H265.{get_type, copy_header, copy_body, get_body_size}
use obs_rtspserver.Packetizer.Packets.{
  IsCodec, fragment_header, first_flags, middle_flags, last_flags,
}
use obs_rtspserver.Packetizer.Receiver.{Receiver, Kind, single, aggregation, fragment, Compatible}
use obs_rtspserver.H265.{h265, Lowest, payload_header, fu_header}

pub h265-IsCodec : IsCodec h265
unfolding copy_header copy_body get_body_size payload_header
h265-IsCodec = record {
  header_pos = omega arith;
  header_small = omega arith;
  copied_header = λ u. copy_data_lem u 2 0;
  copied_body = λ u size skip. copy_data_lem u size (skip + 2);
  body_size = λ u. ground arith;
  aggregate_size = λ m. refl;
}

-- Six bits of the first byte: 48 is an aggregation packet, and 49 a fragment.
unfoldable pub kind : List ℕ → Kind
kind payload =
    let t = bit_and (get_or payload 0 0) 0x7e / 2 in
    if t == 48 then aggregation else if t == 49 then fragment else single

unfoldable pub start_bit : ℕ → Bool
start_bit flags = not (bit_and flags 0x80 == 0)

unfoldable pub end_bit : ℕ → Bool
end_bit flags = not (bit_and flags 0x40 == 0)

unfoldable pub restore : List ℕ → ℕ → List ℕ
restore header flags =
    bit_or (bit_and (get_or header 0 0) 0x81) (bit_and flags 0x3f * 2) ∷ get_or header 1 0 ∷ []

abbrev pub receiver : Receiver
receiver = record { kind = kind; is_start = start_bit; is_end = end_bit; restore = restore }

-- A unit with a whole header, of a type that RFC 7798 sends as it is.
pub record IsCarried (u : List ℕ) : Type 0 where
  pub two_bytes : 2 ≤ length u
  pub is_byte : get_or u 0 0 < 256
  pub plain_type : bit_and (get_or u 0 0) 0x7e / 2 < 48

abbrev first : ℕ → ℕ
first x = bit_or (bit_and (bit_and x 0x7e / 2) 0x3f) 0x80

abbrev middle : ℕ → ℕ
middle x = bit_and (first x) 0x3f

abbrev last : ℕ → ℕ
last x = bit_or (middle x) 0x40

-- The laws of the header bytes.
laws : ℕ → Bool
unfolding start_bit end_bit fu_header
laws x =
    (bit_and (fu_header x) 0x7e / 2 == 49)
    && start_bit (first x)
    && not (end_bit (first x))
    && not (start_bit (middle x))
    && not (end_bit (middle x))
    && not (start_bit (last x))
    && end_bit (last x)
    && (bit_or (bit_and (fu_header x) 0x81) (bit_and (first x) 0x3f * 2) == x)

table : all_below 256 laws ≡ true
unfolding all_below laws
table = refl

at : (x : ℕ) → x < 256 → laws x ≡ true
at x h = all_below_sound 256 laws x table h

aggregate_table : all_below 64 (λ x. bit_and (bit_or (x / 32) 96) 0x7e / 2 == 48) ≡ true
unfolding all_below
aggregate_table = refl

module _ (x y : ℕ) (xs : List ℕ) (h : x < 256) where
  type-at : get_type (x ∷ y ∷ xs) ≡ bit_and x 0x7e / 2
  unfolding get_type
  type-at = ground arith

  facts :
      (bit_and (fu_header x) 0x7e / 2 ≡ 49)
      × ((start_bit (first x) ≡ true) × (end_bit (first x) ≡ false))
      × ((start_bit (middle x) ≡ false) × (end_bit (middle x) ≡ false))
      × ((start_bit (last x) ≡ false) × (end_bit (last x) ≡ true))
      × (bit_or (bit_and (fu_header x) 0x81) (bit_and (first x) 0x3f * 2) ≡ x)
  facts = unfold laws in ground (arith, at x h)

pub h265-Compatible : Compatible h265 receiver IsCarried
h265-Compatible = record {
  header_le = λ u h. h.two_bytes;
  kind_single = λ u h. single_kind u h;
  kind_aggregation = λ m bytes. aggregation_kind m bytes;
  kind_fragment = fragment_kind;
  at_first = first_at;
  at_middle = middle_at;
  at_last = last_at;
  restored = restored_at;
}
  where
    single_kind : (u : List ℕ) → IsCarried u → kind u ≡ single
    single_kind u h = unfold kind in ground (arith, h.plain_type)

    aggregation_kind :
        (m : Lowest) (bytes : List ℕ) → kind (payload_header m ++ bytes) ≡ aggregation
    aggregation_kind (layer, temporal) bytes =
        unfold kind payload_header in
        ground (
          arith,
          all_below_sound 64 _ (bit_and layer 0x3f) aggregate_table
              (omega (arith, bit_and-le layer 0x3f)),
        )

    fragment_kind :
        (u bytes : List ℕ) → IsCarried u → kind (fragment_header h265 u ++ bytes) ≡ fragment
    fragment_kind [] bytes h = absurd (omega (arith, h.two_bytes))
    fragment_kind (x ∷ []) bytes h = absurd (omega (arith, h.two_bytes))
    fragment_kind (x ∷ y ∷ xs) bytes h = unfold kind in ground (arith, (facts x y xs h.is_byte).0)

    first_at :
        (u : List ℕ)
        → IsCarried u
        → (start_bit (first_flags h265 u) ≡ true) × (end_bit (first_flags h265 u) ≡ false)
    first_at [] h = absurd (omega (arith, h.two_bytes))
    first_at (x ∷ []) h = absurd (omega (arith, h.two_bytes))
    first_at (x ∷ y ∷ xs) h = rw (type-at x y xs h.is_byte) (facts x y xs h.is_byte).1

    middle_at :
        (u : List ℕ)
        → IsCarried u
        → (start_bit (middle_flags h265 u) ≡ false) × (end_bit (middle_flags h265 u) ≡ false)
    middle_at [] h = absurd (omega (arith, h.two_bytes))
    middle_at (x ∷ []) h = absurd (omega (arith, h.two_bytes))
    middle_at (x ∷ y ∷ xs) h = rw (type-at x y xs h.is_byte) (facts x y xs h.is_byte).2

    last_at :
        (u : List ℕ)
        → IsCarried u
        → (start_bit (last_flags h265 u) ≡ false) × (end_bit (last_flags h265 u) ≡ true)
    last_at [] h = absurd (omega (arith, h.two_bytes))
    last_at (x ∷ []) h = absurd (omega (arith, h.two_bytes))
    last_at (x ∷ y ∷ xs) h = rw (type-at x y xs h.is_byte) (facts x y xs h.is_byte).3

    restored_at :
        (u : List ℕ)
        → IsCarried u
        → restore (fragment_header h265 u) (first_flags h265 u) ≡ take 2 u
    restored_at [] h = absurd (omega (arith, h.two_bytes))
    restored_at (x ∷ []) h = absurd (omega (arith, h.two_bytes))
    restored_at (x ∷ y ∷ xs) h =
        unfold restore in
        rw (type-at x y xs h.is_byte) (ap (λ b. b ∷ y ∷ []) (facts x y xs h.is_byte).4)
