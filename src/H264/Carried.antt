-- ===== src/H264/Carried.antt =====
-- The H.264 codec meets what the packetizer asks of it, and fits an RFC 6184 receiver.
use obs_rtspserver.Prelude.{
  ℕ, ◌+◌, ◌*◌, ◌%◌, ◌≤◌, ◌<◌, ◌≡◌, refl, ap, Bool, true, false, not, ◌&&◌, List, [], ◌∷◌, ◌++◌,
  arith, bit_and, bit_or, ◌==◌, if◌then◌else◌, length, get_or, take,
}
use obs_rtspserver.Prelude.Bits.{all_below, all_below_sound, bit_and-le}
use obs_rtspserver.NalUnit.{copy_data_lem}
use obs_rtspserver.NalUnit.H264.{get_type, copy_header, copy_body, get_body_size}
use obs_rtspserver.Packetizer.Packets.{
  IsCodec, fragment_header, first_flags, middle_flags, last_flags,
}
use obs_rtspserver.Packetizer.Receiver.{Receiver, Kind, single, aggregation, fragment, Compatible}
use obs_rtspserver.H264.{h264, stap_header, fu_indicator}

pub h264-IsCodec : IsCodec h264
unfolding copy_header copy_body get_body_size stap_header
h264-IsCodec = record {
  header_pos = omega arith;
  header_small = omega arith;
  copied_header = λ u. copy_data_lem u 1 0;
  copied_body = λ u size skip. copy_data_lem u size (skip + 1);
  body_size = λ u. ground arith;
  aggregate_size = λ m. refl;
}

-- The low five bits of the first byte: 24 is a STAP-A, and 28 an FU-A.
unfoldable pub kind : List ℕ → Kind
kind payload =
    let t = bit_and (get_or payload 0 0) 0x1f in
    if t == 24 then aggregation else if t == 28 then fragment else single

unfoldable pub start_bit : ℕ → Bool
start_bit flags = not (bit_and flags 0x80 == 0)

unfoldable pub end_bit : ℕ → Bool
end_bit flags = not (bit_and flags 0x40 == 0)

unfoldable pub restore : List ℕ → ℕ → List ℕ
restore header flags = bit_or (bit_and (get_or header 0 0) 0xe0) (bit_and flags 0x1f) ∷ []

abbrev pub receiver : Receiver
receiver = record { kind = kind; is_start = start_bit; is_end = end_bit; restore = restore }

-- A unit of a type that RFC 6184 sends as it is, of bytes.
pub record IsCarried (u : List ℕ) : Type 0 where
  pub some_byte : 1 ≤ length u
  pub is_byte : get_or u 0 0 < 256
  pub plain_type : bit_and (get_or u 0 0) 0x1f < 24

abbrev first : ℕ → ℕ
first x = bit_or (bit_and (bit_and x 0x1f) 0x1f) 0x80

abbrev middle : ℕ → ℕ
middle x = bit_and (first x) 0x1f

abbrev last : ℕ → ℕ
last x = bit_or (middle x) 0x40

-- The laws of the header bytes.
laws : ℕ → Bool
unfolding start_bit end_bit fu_indicator
laws x =
    (bit_and (fu_indicator x) 0x1f == 28)
    && start_bit (first x)
    && not (end_bit (first x))
    && not (start_bit (middle x))
    && not (end_bit (middle x))
    && not (start_bit (last x))
    && end_bit (last x)
    && (bit_or (bit_and (fu_indicator x) 0xe0) (bit_and (first x) 0x1f) == x)

table : all_below 256 laws ≡ true
unfolding all_below laws
table = refl

at : (x : ℕ) → x < 256 → laws x ≡ true
at x h = all_below_sound 256 laws x table h

stap_table : all_below 4 (λ x. bit_and (bit_or (x * 32) 24 % 256) 0x1f == 24) ≡ true
unfolding all_below
stap_table = refl

module _ (x : ℕ) (xs : List ℕ) (h : x < 256) where
  type-at : get_type (x ∷ xs) ≡ bit_and x 0x1f
  unfolding get_type
  type-at = ground arith

  facts :
      (bit_and (fu_indicator x) 0x1f ≡ 28)
      × ((start_bit (first x) ≡ true) × (end_bit (first x) ≡ false))
      × ((start_bit (middle x) ≡ false) × (end_bit (middle x) ≡ false))
      × ((start_bit (last x) ≡ false) × (end_bit (last x) ≡ true))
      × (bit_or (bit_and (fu_indicator x) 0xe0) (bit_and (first x) 0x1f) ≡ x)
  facts = unfold laws in ground (arith, at x h)

pub h264-Compatible : Compatible h264 receiver IsCarried
h264-Compatible = record {
  header_le = λ u h. h.some_byte;
  kind_single = λ u h. single_kind u h;
  kind_aggregation = λ m bytes. aggregation_kind m bytes;
  kind_fragment = fragment_kind;
  at_first = first_at;
  at_middle = middle_at;
  at_last = last_at;
  restored = restored_at;
}
  where
    single_kind : (u : List ℕ) → IsCarried u → kind u ≡ single
    single_kind u h = unfold kind in ground (arith, h.plain_type)

    aggregation_kind : (m : ℕ) (bytes : List ℕ) → kind (stap_header m ++ bytes) ≡ aggregation
    aggregation_kind m bytes =
        unfold kind stap_header in
        ground (
          arith,
          all_below_sound 4 _ (bit_and m 0x03) stap_table (omega (arith, bit_and-le m 0x03)),
        )

    fragment_kind :
        (u bytes : List ℕ) → IsCarried u → kind (fragment_header h264 u ++ bytes) ≡ fragment
    fragment_kind [] bytes h = absurd (omega (arith, h.some_byte))
    fragment_kind (x ∷ xs) bytes h = unfold kind in ground (arith, (facts x xs h.is_byte).0)

    first_at :
        (u : List ℕ)
        → IsCarried u
        → (start_bit (first_flags h264 u) ≡ true) × (end_bit (first_flags h264 u) ≡ false)
    first_at [] h = absurd (omega (arith, h.some_byte))
    first_at (x ∷ xs) h = rw (type-at x xs h.is_byte) (facts x xs h.is_byte).1

    middle_at :
        (u : List ℕ)
        → IsCarried u
        → (start_bit (middle_flags h264 u) ≡ false) × (end_bit (middle_flags h264 u) ≡ false)
    middle_at [] h = absurd (omega (arith, h.some_byte))
    middle_at (x ∷ xs) h = rw (type-at x xs h.is_byte) (facts x xs h.is_byte).2

    last_at :
        (u : List ℕ)
        → IsCarried u
        → (start_bit (last_flags h264 u) ≡ false) × (end_bit (last_flags h264 u) ≡ true)
    last_at [] h = absurd (omega (arith, h.some_byte))
    last_at (x ∷ xs) h = rw (type-at x xs h.is_byte) (facts x xs h.is_byte).3

    restored_at :
        (u : List ℕ)
        → IsCarried u
        → restore (fragment_header h264 u) (first_flags h264 u) ≡ take 1 u
    restored_at [] h = absurd (omega (arith, h.some_byte))
    restored_at (x ∷ xs) h =
        unfold restore in rw (type-at x xs h.is_byte) (ap (λ b. b ∷ []) (facts x xs h.is_byte).4)
