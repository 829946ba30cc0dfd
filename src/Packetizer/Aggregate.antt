-- ===== src/Packetizer/Aggregate.antt =====
-- The aggregation and the single packets of `HandleFrame`.
use obs_rtspserver.Prelude.{
  ℕ, zero, suc, ◌+◌, ◌-◌, ◌/◌, ◌%◌, ◌≤◌, ◌≡◌, refl, sym, ap, ◌∙◌, Bool, List, [], ◌∷◌, ◌++◌,
  append_assoc, append-nil, arith, length, length-append, drop, length-drop, subst, drop-add,
  take-past,
}
use obs_rtspserver.Rtp.{max_payload, head_size, RtpPacket, FrameType, no_frame, u16, write}
use obs_rtspserver.NalUnit.{copy_data, copy_data_lem}
use obs_rtspserver.Packetizer.{
  Codec, Agg, agg_unit, agg_loop, send_packet, send_aggregate, send_single, get_rtp_frame_type,
  join_type,
}
use obs_rtspserver.Packetizer.Packets.{
  IsCodec, aggregated, collect, collect_type, packet, aggregate_packet,
}
use obs_rtspserver.Packetizer.Buffer.{write-append, write-front, split_at}
use obs_rtspserver.Packetizer.Sends.{Sends, send_packet-run}

module _ {M : Type 0} (c : Codec M) where
  copied_whole : (u : List ℕ) (size : ℕ) → length u ≤ size → copy_data u size 0 ≡ u
  copied_whole u size h = copy_data_lem u size 0 ∙ take-past size u h

  abbrev agg_state : List ℕ → List ℕ → M → FrameType → Agg c
  agg_state pre rest m t = record { buf = pre ++ rest; skip = length pre; meta = m; frame_type = t }

  agg_unit_lem :
      (u pre rest : List ℕ) (m : M) (t : FrameType)
      → length u ≤ max_payload - c.header_size - 2
      → let entry = length u / 256 ∷ length u % 256 ∷ u in
        agg_unit c u (agg_state pre rest m t)
        ≡ agg_state
            (pre ++ entry)
            (drop (length entry) rest)
            (c.update m u)
            (join_type c t (get_rtp_frame_type c u))
  unfolding agg_unit
  agg_unit_lem u pre rest m t h =
      rw
        (
          copied_whole u _ h,
          small,
          write-append pre rest (length u / 256 ∷ length u % 256 ∷ u) (length pre) refl,
        )
        (ap
          (λ k. record {
            buf = (pre ++ length u / 256 ∷ length u % 256 ∷ u) ++ drop (suc (suc (length u))) rest;
            skip = k;
            meta = c.update m u;
            frame_type = join_type c t (get_rtp_frame_type c u);
          })
          (omega (arith, length-append {0} pre (length u / 256 ∷ length u % 256 ∷ u))))
    where
      small : length u % 65536 ≡ length u
      small = omega arith

  agg_loop_lem :
      (n : ℕ) (us : List (List ℕ)) (pre rest : List ℕ) (m : M) (t : FrameType)
      → c.header_size + length (aggregated n us) ≤ max_payload
      → agg_loop c n us (agg_state pre rest m t)
        ≡ agg_state
            (pre ++ aggregated n us)
            (drop (length (aggregated n us)) rest)
            (collect c n us m)
            (collect_type c n us t)
  unfolding agg_loop
  agg_loop_lem zero us pre rest m t h = ap (λ p. agg_state p rest m t) (sym (append-nil pre))
  agg_loop_lem (suc n) [] pre rest m t h = ap (λ p. agg_state p rest m t) (sym (append-nil pre))
  agg_loop_lem (suc n) (u ∷ us) pre rest m t h =
      rw (agg_unit_lem u pre rest m t (omega (arith, whole))) (
        agg_loop_lem n us (pre ++ entry) (drop (length entry) rest) (c.update m u)
          (join_type c t (get_rtp_frame_type c u)) (omega (arith, whole))
        ∙ rw
            (
              append_assoc pre entry (aggregated n us),
              drop-add (length entry) (length (aggregated n us)) rest,
              ← whole,
            )
            refl)
    where
      entry : List ℕ
      entry = length u / 256 ∷ length u % 256 ∷ u

      whole : length (aggregated (suc n) (u ∷ us)) ≡ length entry + length (aggregated n us)
      whole = length-append entry (aggregated n us)

  module _ (v : IsCodec c) {S : Type 0} (send : S → RtpPacket → S × Bool) (timestamp : ℕ) where
    send_packet-Sends :
        (s : S) (pre rest : List ℕ) (size n : ℕ) (type : FrameType) (last : ℕ)
        → size ≡ head_size + length pre
        → length (pre ++ rest) ≡ n
        → Sends send n
            (packet c timestamp pre type last ∷ [])
            s
            (send_packet c send timestamp s (pre ++ rest) size type last)
    send_packet-Sends s pre rest size n type last e l =
        (pre ++ rest, l, send_packet-run c send timestamp s pre rest size type last e)

    send_aggregate-split :
        (us : List (List ℕ)) (size_count n : ℕ) (s : S) (old rest : List ℕ)
        → size_count ≡ c.header_size + length (aggregated n us)
        → size_count ≤ max_payload
        → max_payload ≤ length (old ++ rest)
        → length old ≡ c.header_size
        → Sends send
            (length (old ++ rest))
            (aggregate_packet c timestamp n us ∷ [])
            s
            (send_aggregate c send timestamp us size_count n s (old ++ rest))
    unfolding send_aggregate
    send_aggregate-split us size_count n s old rest e l room o =
        let (b, len, same) =
          send_packet-Sends s (header ++ body) rest' _ _ (collect_type c n us no_frame) 1 size
            total in
        (b, len, rw (looped, front) same)
      where
        body : List ℕ
        body = aggregated n us

        rest' : List ℕ
        rest' = drop (length body) rest

        meta : M
        meta = collect c n us c.start

        header : List ℕ
        header = c.aggregate_header meta

        looped :
            agg_loop c n us (record {
              buf = old ++ rest;
              skip = c.header_size;
              meta = c.start;
              frame_type = no_frame;
            })
            ≡ agg_state (old ++ body) rest' meta (collect_type c n us no_frame)
        looped =
            ap
              (λ k.
                agg_loop c n us
                  (record { buf = old ++ rest; skip = k; meta = c.start; frame_type = no_frame }))
              (sym o)
            ∙ agg_loop_lem n us old rest c.start no_frame (omega arith)

        front : write ((old ++ body) ++ rest') 0 header ≡ (header ++ body) ++ rest'
        front =
            rw (append_assoc old body rest', append_assoc header body rest')
              (write-front old (body ++ rest') header (v.aggregate_size meta ∙ sym o))

        size : u16 (head_size + u16 size_count) ≡ head_size + length (header ++ body)
        size = omega (arith, length-append {0} header body, v.aggregate_size meta)

        total : length ((header ++ body) ++ rest') ≡ length (old ++ rest)
        total = omega (
          arith,
          length-append {0} (header ++ body) rest',
          length-append {0} header body,
          v.aggregate_size meta,
          length-drop (length body) rest,
          length-append {0} old rest,
        )

    pub send_aggregate-Sends :
        (us : List (List ℕ)) (size_count n : ℕ) (s : S) (buf : List ℕ)
        → size_count ≡ c.header_size + length (aggregated n us)
        → size_count ≤ max_payload
        → max_payload ≤ length buf
        → Sends send
            (length buf)
            (aggregate_packet c timestamp n us ∷ [])
            s
            (send_aggregate c send timestamp us size_count n s buf)
    send_aggregate-Sends us size_count n s buf e l room =
        let (old, rest, q, o) = split_at c.header_size buf (omega arith) in
        subst
          (λ b.
            Sends send (length b) (aggregate_packet c timestamp n us ∷ []) s
              (send_aggregate c send timestamp us size_count n s b))
          (sym q) (send_aggregate-split us size_count n s old rest e l (rw q at room) o)

    send_single-split :
        (u : List ℕ) (s : S) (old rest : List ℕ)
        → length u ≤ max_payload
        → length old ≡ length u
        → Sends send
            (length (old ++ rest))
            (packet c timestamp u (get_rtp_frame_type c u) 1 ∷ [])
            s
            (send_single c send timestamp u s (old ++ rest))
    unfolding send_single
    send_single-split u s old rest h o =
        let (b, len, same) =
          send_packet-Sends s u rest (u16 (head_size + u16 (length u))) _ (get_rtp_frame_type c u) 1
            (omega arith) total in
        (b, len, rw (copied_whole u max_payload h, write-front old rest u (sym o)) same)
      where
        total : length (u ++ rest) ≡ length (old ++ rest)
        total = omega (arith, length-append {0} u rest, length-append {0} old rest)

    pub send_single-Sends :
        (u : List ℕ) (s : S) (buf : List ℕ)
        → length u ≤ max_payload
        → max_payload ≤ length buf
        → Sends send
            (length buf)
            (packet c timestamp u (get_rtp_frame_type c u) 1 ∷ [])
            s
            (send_single c send timestamp u s buf)
    send_single-Sends u s buf h room =
        let (old, rest, q, o) = split_at (length u) buf (omega arith) in
        subst
          (λ b.
            Sends send (length b) (packet c timestamp u (get_rtp_frame_type c u) 1 ∷ []) s
              (send_single c send timestamp u s b))
          (sym q) (send_single-split u s old rest h o)
