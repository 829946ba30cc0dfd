-- ===== src/Packetizer/RoundTrip.antt =====
-- A receiver gets back the units of a frame from its packets.
use obs_rtspserver.Prelude.{
  ℕ, zero, suc, ◌+◌, ◌*◌, ◌/◌, ◌%◌, ◌≤◌, ◌<◌, ◌≡◌, refl, sym, ap, ◌∙◌, inl, inr, true, false,
  Option, none, some, List, [], ◌∷◌, ◌++◌, append_assoc, arith, length, length-append, length-take,
  length-drop, length-set, get_or, take, drop, take-append-drop, take-length-append,
  drop-length-append, ltb, leb, ltb→lt, Bool-cases,
}
use obs_rtspserver.Rtp.{max_payload, RtpPacket, FrameType}
use obs_rtspserver.Packetizer.{Codec, window}
use obs_rtspserver.Packetizer.Packets.{
  IsCodec, aggregated, piece, packet, fragment_header, first_flags, middle_flags, last_flags,
  aggregate_packet, middle_packets, fragments, packets,
}
use obs_rtspserver.Packetizer.Packets
use obs_rtspserver.Packetizer.Window.{Fits, window-Fits}
use obs_rtspserver.Packetizer.Buffer.{get_or-length-append, drop-append-add}
use obs_rtspserver.Packetizer.Receiver.{
  Receiver, unpack, assemble, depacketize, Compatible, AllCarried,
}
use obs_rtspserver.Packetizer.Packets

unpack-aggregated :
    (fuel n : ℕ) (us : List (List ℕ))
    → n ≤ fuel
    → n ≤ length us
    → length (aggregated n us) < 65536
    → unpack fuel (aggregated n us) ≡ take n us
unfolding unpack
unpack-aggregated zero zero us h k l = refl
unpack-aggregated (suc fuel) zero us h k l = refl
unpack-aggregated zero (suc n) us h k l = absurd (omega arith)
unpack-aggregated (suc fuel) (suc n) [] h k l = absurd (omega arith)
unpack-aggregated (suc fuel) (suc n) (u ∷ us) h k l =
    rw (size, take-length-append u (aggregated n us), drop-length-append u (aggregated n us))
      (ap (◌∷◌ u) (
        unpack-aggregated fuel n us (omega arith) (omega arith)
          (omega (arith, length-append {0} u (aggregated n us)))))
  where
    size : length u / 256 * 256 + length u % 256 ≡ length u
    size = omega arith

aggregated-le : (n : ℕ) (us : List (List ℕ)) → n ≤ length us → n ≤ length (aggregated n us)
aggregated-le zero us h = omega arith
aggregated-le (suc n) [] h = absurd (omega arith)
aggregated-le (suc n) (u ∷ us) h =
    omega (arith, length-append {0} u (aggregated n us), aggregated-le n us (omega arith))

module _ {M : Type 0} (c : Codec M) (v : IsCodec c) (r : Receiver) {IsCarried : List ℕ → Type 0}
    (k : Compatible c r IsCarried) (timestamp : ℕ) where
  abbrev received : Option (List ℕ) → List RtpPacket → List (List ℕ)
  received = depacketize c.header_size r

  received-single :
      (u : List ℕ) (type : FrameType) (ps : List RtpPacket)
      → IsCarried u
      → received none (packet c timestamp u type 1 ∷ ps) ≡ u ∷ received none ps
  unfolding depacketize
  received-single u type ps h = rw (k.kind_single u h, depacketize) refl

  received-aggregate :
      (n : ℕ) (us : List (List ℕ)) (ps : List RtpPacket)
      → n ≤ length us
      → c.header_size + length (aggregated n us) ≤ max_payload
      → received none (aggregate_packet c timestamp n us ∷ ps) ≡ take n us ++ received none ps
  unfolding depacketize
  received-aggregate n us ps h l =
      rw (k.kind_aggregation meta (aggregated n us), depacketize)
        (rw
          (
            stripped,
            unpack-aggregated (length (header ++ aggregated n us)) n us
                (omega (arith, length-append {0} header (aggregated n us), aggregated-le n us h)) h
                (omega arith),
          )
          refl)
    where
      meta : M
      meta = Packets.collect c n us c.start

      header : List ℕ
      header = c.aggregate_header meta

      stripped : drop c.header_size (header ++ aggregated n us) ≡ aggregated n us
      stripped =
          drop-append-add header (aggregated n us) 0 c.header_size
            (omega (arith, v.aggregate_size meta))

  -- A fragment of a unit: its headers, and the bytes that it brings.
  module _ (u : List ℕ) (h : IsCarried u) where
    len : length (fragment_header c u) ≡ c.header_size
    len = omega (
      arith,
      length-set {0} (take c.header_size u) 0 (c.mark_fragment (get_or u 0 0)),
      length-take {0} c.header_size u,
      k.header_le u h,
    )

    flags-at :
        (flags : ℕ) (bytes : List ℕ)
        → get_or (fragment_header c u ++ flags ∷ bytes) c.header_size 0 ≡ flags
    flags-at flags bytes =
        get_or-length-append (fragment_header c u) bytes flags 0 c.header_size (sym len)

    header-at :
        (flags : ℕ) (bytes : List ℕ)
        → take c.header_size (fragment_header c u ++ flags ∷ bytes) ≡ fragment_header c u
    header-at flags bytes =
        ap (λ i. take i (fragment_header c u ++ flags ∷ bytes)) (sym len)
        ∙ take-length-append (fragment_header c u) (flags ∷ bytes)

    body-at :
        (flags : ℕ) (bytes : List ℕ)
        → drop (c.header_size + 1) (fragment_header c u ++ flags ∷ bytes) ≡ bytes
    body-at flags bytes =
        drop-append-add (fragment_header c u) (flags ∷ bytes) 1 (c.header_size + 1)
          (omega (arith, len))

    fragment-more :
        (partial : Option (List ℕ)) (flags : ℕ) (bytes : List ℕ) (last : ℕ) (ps : List RtpPacket)
        → r.is_end flags ≡ false
        → received partial (Packets.fragment c timestamp u flags bytes last ∷ ps)
          ≡ received
              (some (assemble c.header_size r partial (fragment_header c u ++ flags ∷ bytes)))
              ps
    unfolding depacketize
    fragment-more partial flags bytes last ps e =
        rw (k.kind_fragment u (flags ∷ bytes) h, depacketize)
          (rw (ap r.is_end (flags-at flags bytes) ∙ e, depacketize) refl)

    fragment-end :
        (partial : Option (List ℕ)) (flags : ℕ) (bytes : List ℕ) (last : ℕ) (ps : List RtpPacket)
        → r.is_end flags ≡ true
        → received partial (Packets.fragment c timestamp u flags bytes last ∷ ps)
          ≡ assemble c.header_size r partial (fragment_header c u ++ flags ∷ bytes)
            ∷ received none ps
    unfolding depacketize
    fragment-end partial flags bytes last ps e =
        rw (k.kind_fragment u (flags ∷ bytes) h, depacketize)
          (rw (ap r.is_end (flags-at flags bytes) ∙ e, depacketize) refl)

    assemble-first :
        (partial : Option (List ℕ)) (bytes : List ℕ)
        → assemble c.header_size r partial (fragment_header c u ++ first_flags c u ∷ bytes)
          ≡ take c.header_size u ++ bytes
    unfolding assemble
    assemble-first partial bytes =
        rw
          (
            flags-at (first_flags c u) bytes,
            (k.at_first u h).0,
            header-at (first_flags c u) bytes,
            body-at (first_flags c u) bytes,
            k.restored u h,
          )
          refl

    assemble-later :
        (acc : List ℕ) (flags : ℕ) (bytes : List ℕ)
        → r.is_start flags ≡ false
        → assemble c.header_size r (some acc) (fragment_header c u ++ flags ∷ bytes) ≡ acc ++ bytes
    unfolding assemble
    assemble-later acc flags bytes e = rw (flags-at flags bytes, e, body-at flags bytes) refl

    received-middle :
        (fuel : ℕ) (acc bytes : List ℕ) (ps : List RtpPacket)
        → length bytes < fuel
        → received (some acc) (middle_packets c timestamp fuel u bytes ++ ps)
          ≡ (acc ++ bytes) ∷ received none ps
    unfolding depacketize middle_packets
    received-middle zero acc bytes ps l = absurd (omega arith)
    received-middle (suc fuel) acc bytes ps l = elim (Bool-cases (ltb (piece c) (length bytes))) [
      | inl t ↦ rw t (
          fragment-more (some acc) (middle_flags c u) (take (piece c) bytes) 0 _ (k.at_middle u h).1
          ∙ rw (assemble-later acc (middle_flags c u) (take (piece c) bytes) (k.at_middle u h).0) (
              received-middle fuel (acc ++ take (piece c) bytes) (drop (piece c) bytes) ps (
                omega (
                  arith,
                  length-drop {0} (piece c) bytes,
                  ltb→lt (piece c) (length bytes) t,
                  v.header_small,
                ))
              ∙ rw
                  (
                    append_assoc acc (take (piece c) bytes) (drop (piece c) bytes),
                    take-append-drop (piece c) bytes,
                  )
                  refl))
      | inr t ↦ rw t (
          fragment-end (some acc) (last_flags c u) bytes 1 ps (k.at_last u h).1
          ∙ rw (assemble-later acc (last_flags c u) bytes (k.at_last u h).0) refl)
    ]

    received-fragments :
        (ps : List RtpPacket)
        → max_payload < length u
        → received none (fragments c timestamp u ++ ps) ≡ u ∷ received none ps
    unfolding depacketize fragments
    received-fragments ps long =
        fragment-more none (first_flags c u) part 0 _ (k.at_first u h).1
        ∙ rw (assemble-first none part) (
            received-middle (length u) (take c.header_size u ++ part) (drop (piece c) body) ps (
              omega (
                arith,
                length-drop {0} (piece c) body,
                length-drop {0} c.header_size u,
                v.header_pos,
              ))
            ∙ rw
                (
                  append_assoc (take c.header_size u) part (drop (piece c) body),
                  take-append-drop (piece c) body,
                  take-append-drop c.header_size u,
                )
                refl)
      where
        body : List ℕ
        body = drop c.header_size u

        part : List ℕ
        part = take (piece c) body

  AllCarried-drop :
      (n : ℕ) (us : List (List ℕ)) → AllCarried IsCarried us → AllCarried IsCarried (drop n us)
  AllCarried-drop zero us h = h
  AllCarried-drop (suc n) [] h = tt
  AllCarried-drop (suc n) (u ∷ us) h = AllCarried-drop n us h.1

  pub received-packets :
      (fuel : ℕ) (us : List (List ℕ))
      → length us < fuel
      → AllCarried IsCarried us
      → depacketize c.header_size r none (packets c timestamp fuel us) ≡ us
  unfolding packets
  received-packets zero us h a = absurd (omega arith)
  received-packets (suc fuel) [] h a = unfold depacketize in refl
  received-packets (suc fuel) (u ∷ us) h a = elim (Bool-cases (ltb 1 n)) [
    | inl t ↦ rw t (
        received-aggregate n (u ∷ us) _ fits.enough
          (omega (arith, fits.total (ltb→lt _ _ t), fits.fits (ltb→lt _ _ t)))
        ∙ rw
            (
              received-packets fuel (drop n (u ∷ us))
                  (omega (arith, length-drop {0} n (u ∷ us), fits.one))
                  (AllCarried-drop n (u ∷ us) a),
              take-append-drop n (u ∷ us),
            )
            refl)
    | inr t ↦ elim (Bool-cases (leb (length u) max_payload)) [
      | inl f ↦
          rw (t, f)
            (received-single u _ _ a.0 ∙ ap (◌∷◌ u) (received-packets fuel us (omega arith) a.1))
      | inr f ↦
          rw (t, f)
            (received-fragments u a.0 _ (ground arith)
              ∙ ap (◌∷◌ u) (received-packets fuel us (omega arith) a.1))
    ]
  ]
    where
      n : ℕ
      n = (window c (u ∷ us)).1

      fits : Fits c (u ∷ us) (window c (u ∷ us))
      fits = window-Fits c u us (omega (arith, v.header_small))
