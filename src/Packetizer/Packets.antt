-- ===== src/Packetizer/Packets.antt =====
-- The packets of a frame, as a function of its units alone: no buffer, no callback.
use obs_rtspserver.Prelude.{
  ℕ, zero, suc, ◌+◌, ◌-◌, ◌/◌, ◌%◌, ◌≤◌, ◌<◌, ◌≡◌, List, [], ◌∷◌, ◌++◌, bit_and, bit_or, ltb, leb,
  if◌then◌else◌, length, get_or, set, take, drop,
}
use obs_rtspserver.Rtp.{max_payload, head_size, FrameType, no_frame, RtpPacket}
use obs_rtspserver.Packetizer.{Codec, get_rtp_frame_type, join_type, window}

-- The first `n` units in an aggregation packet, each behind its size.
abbrev pub aggregated : ℕ → List (List ℕ) → List ℕ
aggregated zero us = []
aggregated (suc n) [] = []
aggregated (suc n) (u ∷ us) = length u / 256 ∷ length u % 256 ∷ (u ++ aggregated n us)

module _ {M : Type 0} (c : Codec M) where
  -- What a client of a codec may rely on.
  pub record IsCodec : Type 0 where
    pub header_pos : 0 < c.header_size
    pub header_small : c.header_size ≤ 2
    pub copied_header : (u : List ℕ) → c.copy_header u c.header_size ≡ take c.header_size u
    pub copied_body :
        (u : List ℕ) (size skip : ℕ)
        → c.copy_body u size skip ≡ take size (drop (skip + c.header_size) u)
    pub body_size : (u : List ℕ) → c.get_body_size u ≡ length u - c.header_size
    pub aggregate_size : (m : M) → length (c.aggregate_header m) ≡ c.header_size

  abbrev pub collect : ℕ → List (List ℕ) → M → M
  collect zero us m = m
  collect (suc n) [] m = m
  collect (suc n) (u ∷ us) m = collect n us (c.update m u)

  abbrev pub collect_type : ℕ → List (List ℕ) → FrameType → FrameType
  collect_type zero us t = t
  collect_type (suc n) [] t = t
  collect_type (suc n) (u ∷ us) t = collect_type n us (join_type c t (get_rtp_frame_type c u))

  -- The bytes before a fragment's header: the unit's header, its first byte changed.
  abbrev pub fragment_header : List ℕ → List ℕ
  fragment_header u = set (take c.header_size u) 0 (c.mark_fragment (get_or u 0 0))

  -- The fragment header of the first fragment, of a middle one and of the last.
  abbrev pub first_flags : List ℕ → ℕ
  first_flags u = bit_or (bit_and (c.get_type u) c.type_mask) 0x80

  abbrev pub middle_flags : List ℕ → ℕ
  middle_flags u = bit_and (first_flags u) c.type_mask

  abbrev pub last_flags : List ℕ → ℕ
  last_flags u = bit_or (middle_flags u) 0x40

  -- The body bytes of a full fragment.
  abbrev pub piece : ℕ
  piece = max_payload - c.header_size - 1

  module _ (timestamp : ℕ) where
    abbrev pub packet : List ℕ → FrameType → ℕ → RtpPacket
    packet payload type last = record {
      payload = payload;
      size = head_size + length payload;
      timestamp = timestamp;
      type = type;
      last = last;
    }

    abbrev pub aggregate_packet : ℕ → List (List ℕ) → RtpPacket
    aggregate_packet n us =
        packet (c.aggregate_header (collect n us c.start) ++ aggregated n us)
          (collect_type n us no_frame) 1

    abbrev pub fragment : List ℕ → ℕ → List ℕ → ℕ → RtpPacket
    fragment u flags bytes last =
        packet (fragment_header u ++ flags ∷ bytes) (get_rtp_frame_type c u) last

    -- The packets of the part of a unit's body that is left after the first fragment.
    unfoldable pub middle_packets : ℕ → List ℕ → List ℕ → List RtpPacket
    middle_packets zero u bytes = []
    middle_packets (suc n) u bytes =
        let rest = middle_packets n u (drop piece bytes) in
        if ltb piece (length bytes)
        then fragment u (middle_flags u) (take piece bytes) 0 ∷ rest
        else fragment u (last_flags u) bytes 1 ∷ []

    unfoldable pub fragments : List ℕ → List RtpPacket
    unfolding middle_packets
    fragments u =
        let body = drop c.header_size u in
        fragment u (first_flags u) (take piece body) 0
        ∷ middle_packets (length u) u (drop piece body)

    unfoldable pub packets : ℕ → List (List ℕ) → List RtpPacket
    unfolding fragments
    packets zero us = []
    packets (suc n) [] = []
    packets (suc n) (u ∷ us) =
        let count = (window c (u ∷ us)).1 in
        let aggregate = aggregate_packet count (u ∷ us) ∷ packets n (drop count (u ∷ us)) in
        let single = packet u (get_rtp_frame_type c u) 1 ∷ packets n us in
        let several = fragments u ++ packets n us in
        if ltb 1 count then aggregate else if leb (length u) max_payload then single else several
