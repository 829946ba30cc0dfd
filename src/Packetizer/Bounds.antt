-- ===== src/Packetizer/Bounds.antt =====
-- The sizes of the packets that a frame is sent in.
use obs_rtspserver.Prelude.{
  ℕ, zero, suc, ◌+◌, ◌≤◌, ◌≡◌, refl, inl, inr, List, [], ◌∷◌, ◌++◌, arith, leb, leb→le, ltb, ltb→lt,
  length, length-append, length-set, length-take, take, drop, get_or, Bool-cases,
}
use obs_rtspserver.Rtp.{max_payload, head_size, RtpPacket, FrameType}
use obs_rtspserver.Packetizer.{Codec, window, get_rtp_frame_type}
use obs_rtspserver.Packetizer.Packets.{
  IsCodec, aggregated, collect, piece, packet, fragment_header, middle_packets, fragments, packets,
}
use obs_rtspserver.Packetizer.Packets
use obs_rtspserver.Packetizer.Window.{Fits, window-Fits}

-- The size that a packet declares counts the two headers and its payload, which is no longer than
-- the maximum.
pub record IsSized (p : RtpPacket) : Type 0 where
  pub declared : p.size ≡ head_size + length p.payload
  pub payload_le : length p.payload ≤ max_payload

abbrev pub AllSized : List RtpPacket → Type 0
AllSized [] = Unit {0}
AllSized (p ∷ ps) = IsSized p × AllSized ps

AllSized-append : (ps qs : List RtpPacket) → AllSized ps → AllSized qs → AllSized (ps ++ qs)
AllSized-append [] qs a b = b
AllSized-append (p ∷ ps) qs a b = (a.0, AllSized-append ps qs a.1 b)

module _ {M : Type 0} (c : Codec M) (v : IsCodec c) (timestamp : ℕ) where
  packet-IsSized :
      (payload : List ℕ) (type : FrameType) (last : ℕ)
      → length payload ≤ max_payload
      → IsSized (packet c timestamp payload type last)
  packet-IsSized payload type last h = record { declared = refl; payload_le = h }

  fragment-IsSized :
      (u : List ℕ) (flags : ℕ) (bytes : List ℕ) (last : ℕ)
      → length bytes ≤ piece c
      → IsSized (Packets.fragment c timestamp u flags bytes last)
  fragment-IsSized u flags bytes last h =
      packet-IsSized (fragment_header c u ++ flags ∷ bytes) (get_rtp_frame_type c u) last (
        omega (
          arith,
          h,
          v.header_small,
          length-append {0} (fragment_header c u) (flags ∷ bytes),
          length-set {0} (take c.header_size u) 0 (c.mark_fragment (get_or u 0 0)),
          length-take {0} c.header_size u,
        ))

  middle_packets-AllSized :
      (fuel : ℕ) (u bytes : List ℕ) → AllSized (middle_packets c timestamp fuel u bytes)
  unfolding middle_packets
  middle_packets-AllSized zero u bytes = tt
  middle_packets-AllSized (suc fuel) u bytes = elim (Bool-cases (ltb (piece c) (length bytes))) [
    | inl t ↦ rw t (
      fragment-IsSized u _ (take (piece c) bytes) 0
          (omega (arith, length-take {0} (piece c) bytes)),
      middle_packets-AllSized fuel u (drop (piece c) bytes),
    )
    | inr t ↦ rw t (fragment-IsSized u _ bytes 1 (ground arith), tt)
  ]

  fragments-AllSized : (u : List ℕ) → AllSized (fragments c timestamp u)
  unfolding fragments
  fragments-AllSized u = (
    fragment-IsSized u _ (take (piece c) (drop c.header_size u)) 0
        (omega (arith, length-take {0} (piece c) (drop c.header_size u))),
    middle_packets-AllSized (length u) u (drop (piece c) (drop c.header_size u)),
  )

  pub packets-AllSized : (fuel : ℕ) (us : List (List ℕ)) → AllSized (packets c timestamp fuel us)
  unfolding packets
  packets-AllSized zero us = tt
  packets-AllSized (suc fuel) [] = tt
  packets-AllSized (suc fuel) (u ∷ us) = elim (Bool-cases (ltb 1 n)) [
    | inl t ↦ rw t (
      packet-IsSized (c.aggregate_header (collect c n (u ∷ us) c.start) ++ aggregated n (u ∷ us)) _
          1
          (omega (
            arith,
            fits.total (ltb→lt _ _ t),
            fits.fits (ltb→lt _ _ t),
            v.aggregate_size (collect c n (u ∷ us) c.start),
            length-append {0} (c.aggregate_header (collect c n (u ∷ us) c.start))
                (aggregated n (u ∷ us)),
          )),
      packets-AllSized fuel (drop n (u ∷ us)),
    )
    | inr t ↦ elim (Bool-cases (leb (length u) max_payload)) [
      | inl f ↦ rw (t, f) (packet-IsSized u _ 1 (leb→le _ _ f), packets-AllSized fuel us)
      | inr f ↦
          rw (t, f)
            (AllSized-append (fragments c timestamp u) _ (fragments-AllSized u)
              (packets-AllSized fuel us))
    ]
  ]
    where
      n : ℕ
      n = (window c (u ∷ us)).1

      fits : Fits c (u ∷ us) (window c (u ∷ us))
      fits = window-Fits c u us (omega (arith, v.header_small))
