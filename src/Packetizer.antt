-- ===== src/Packetizer.antt =====
-- The body that H264Source.cpp and H265Source.cpp share in `HandleFrame`: the units of a frame are
-- sent in aggregation packets, single packets and fragments. A `Codec` holds what differs.
pub mod Packets
pub mod Window
pub mod Buffer
pub mod Sends
pub mod Aggregate
pub mod Fragment
pub mod Frame
pub mod Receiver
pub mod RoundTrip
pub mod Input
pub mod Frames
pub mod Bounds
use obs_rtspserver.Prelude.{
  ℕ, zero, suc, ◌+◌, ◌-◌, ◌/◌, ◌%◌, ◌<◌, Bool, true, false, List, [], ◌∷◌, Option, none, some,
  bit_and, bit_or, ltb, leb, ◌==◌, if◌then◌else◌, length, get_or, set, drop,
}
use obs_rtspserver.Rtp.{
  max_payload, head_size, FrameType, video_frame_idr, video_frame_notidr, no_frame, RtpPacket, u16,
  packet_of, write,
}
use obs_rtspserver.NalUnit.{copy_data}

-- `M` is what an aggregation packet collects from its units for its header.
pub record Codec (M : Type 0) : Type 0 where
  pub header_size : ℕ
  pub get_type : List ℕ → ℕ
  pub copy_header : List ℕ → ℕ → List ℕ
  pub copy_body : List ℕ → ℕ → ℕ → List ℕ
  pub get_body_size : List ℕ → ℕ
  pub is_idr_frame : List ℕ → Bool
  pub is_frame : List ℕ → Bool
  pub start : M
  pub update : M → List ℕ → M
  pub aggregate_header : M → List ℕ
  -- What is done to the first header byte of a fragment.
  pub mark_fragment : ℕ → ℕ
  -- The mask of the type in the fragment header.
  pub type_mask : ℕ

-- How a part of the frame's work ends. `no_fuel` is no end of the code's.
pub data Outcome (S : Type 0) : Type 0 where
  sent : S → List ℕ → Outcome S
  refused : S → Outcome S
  no_fuel : Outcome S

-- What comes after a part, on the state of the callback and the packet's buffer.
abbrev pub and_then : {S : Type 0} → Outcome S → (S → List ℕ → Outcome S) → Outcome S
and_then (sent s buf) k = k s buf
and_then (refused s) k = refused s
and_then no_fuel k = no_fuel

module _ {M : Type 0} (c : Codec M) where
  open c use {header_size}

  -- `GetRtpFrameType`
  unfoldable pub get_rtp_frame_type : List ℕ → FrameType
  get_rtp_frame_type u =
      if c.is_idr_frame u
      then video_frame_idr
      else if c.is_frame u
      then video_frame_notidr
      else no_frame

  -- `while (size_count < MAX_RTP_PAYLOAD_SIZE && end_index < nal.GetCount())`, over the units from
  -- `nal_index` on. The result is `size_count` and the number of units counted.
  unfoldable pub count_units : List (List ℕ) → ℕ → ℕ → ℕ × ℕ
  count_units [] size_count n = (size_count, n)
  count_units (u ∷ us) size_count n =
      let rest = count_units us (size_count + (length u + 2)) (n + 1) in
      if ltb size_count max_payload then rest else (size_count, n)

  -- The units of the next packet: `size_count`, and `end_index - nal_index + 1`.
  unfoldable pub window : List (List ℕ) → ℕ × ℕ
  unfolding count_units
  window us =
      let (size_count, n) = count_units us header_size 0 in
      if ltb max_payload size_count
      then (if ltb 1 n
          then (size_count - (length (get_or us (n - 1) []) + 2), n - 1)
          else (size_count, n))
      else (size_count, n)

  -- The variables of the aggregation loop.
  pub record Agg : Type 0 where
    pub buf : List ℕ
    pub skip : ℕ
    pub meta : M
    pub frame_type : FrameType

  -- `all_frame_type` after a unit of type `t`.
  unfoldable pub join_type : FrameType → FrameType → FrameType
  join_type old video_frame_idr = video_frame_idr
  join_type no_frame t = t
  join_type old t = old

  -- One round of the aggregation loop.
  unfoldable pub agg_unit : List ℕ → Agg → Agg
  unfolding join_type get_rtp_frame_type copy_data write
  agg_unit u a =
      let size = u16 (length u) in
      let copied = copy_data u (max_payload - header_size - 2) 0 in
      record {
        buf = write a.buf a.skip (size / 256 ∷ size % 256 ∷ copied);
        skip = a.skip + 2 + length copied;
        meta = c.update a.meta u;
        frame_type = join_type a.frame_type (get_rtp_frame_type u);
      }

  -- `for (; nal_index <= end_index; nal_index++)`, `n` rounds.
  unfoldable pub agg_loop : ℕ → List (List ℕ) → Agg → Agg
  unfolding agg_unit
  agg_loop zero us a = a
  agg_loop (suc n) [] a = a
  agg_loop (suc n) (u ∷ us) a = agg_loop n us (agg_unit u a)

  -- The room for a part of the body in a fragment.
  abbrev pub chunk : ℕ
  chunk = max_payload - header_size - 1

  -- The headers that the fragments of a unit begin with, the first one's start bit included.
  unfoldable pub fragment_start : List ℕ → List ℕ → List ℕ
  unfolding write
  fragment_start u buf =
      let b0 = write buf 0 (c.copy_header u header_size) in
      let b1 = set b0 0 (c.mark_fragment (get_or b0 0 0)) in
      let b2 = set b1 header_size (bit_and (c.get_type u) c.type_mask) in
      set b2 header_size (bit_or (get_or b2 header_size 0) 0x80)

  module _ {S : Type 0} (send : S → RtpPacket → S × Bool) (timestamp : ℕ) where
    -- `if (!send_frame_callback_(channelId, rtp_packet)) return false;`
    unfoldable pub send_packet : S → List ℕ → ℕ → FrameType → ℕ → Outcome S
    send_packet s buf size type last =
        let (s', ok) = send s (packet_of buf size timestamp type last) in
        if ok then sent s' buf else refused s'

    -- An aggregation packet of the first `n` units.
    unfoldable pub send_aggregate : List (List ℕ) → ℕ → ℕ → S → List ℕ → Outcome S
    unfolding agg_loop send_packet write
    send_aggregate us size_count n s buf =
        let a =
          agg_loop n us
            (record { buf = buf; skip = header_size; meta = c.start; frame_type = no_frame }) in
        send_packet s (write a.buf 0 (c.aggregate_header a.meta)) (u16 (head_size + u16 size_count))
          a.frame_type 1

    unfoldable pub send_single : List ℕ → S → List ℕ → Outcome S
    unfolding send_packet write copy_data get_rtp_frame_type
    send_single u s buf =
        let copied = copy_data u max_payload 0 in
        send_packet s (write buf 0 copied) (u16 (head_size + u16 (length copied)))
          (get_rtp_frame_type u) 1

    -- The middle fragments, and the last one when the loop has ended. `skip` never passes `size`.
    unfoldable pub send_middle : ℕ → List ℕ → ℕ → ℕ → S → List ℕ → Outcome S
    unfolding send_packet write get_rtp_frame_type
    send_middle zero u size skip s buf = no_fuel
    send_middle (suc fuel) u size skip s buf =
        let copied = c.copy_body u chunk skip in
        let buf' = write buf (header_size + 1) copied in
        let rest =
          and_then (send_packet s buf' (head_size + max_payload) (get_rtp_frame_type u) 0)
            (λ s' b. send_middle fuel u size (skip + length copied) s' b) in
        let ended = set buf header_size (bit_or (get_or buf header_size 0) 0x40) in
        let final = c.copy_body u chunk skip in
        if ltb chunk (size - skip)
        then rest
        else send_packet s (write ended (header_size + 1) final)
            (u16 (head_size + u16 (length final) + header_size + 1)) (get_rtp_frame_type u) 1

    unfoldable pub send_fragments : List ℕ → S → List ℕ → Outcome S
    unfolding send_middle fragment_start send_packet write get_rtp_frame_type
    send_fragments u s buf =
        let copied = c.copy_body u chunk 0 in
        let b = write (fragment_start u buf) (header_size + 1) copied in
        and_then (send_packet s b (head_size + max_payload) (get_rtp_frame_type u) 0) λ s' b'.
          send_middle (length u) u (c.get_body_size u) (length copied) s'
            (set b' header_size (bit_and (get_or b' header_size 0) c.type_mask))

    -- `while (nal_index < nal.GetCount())`, over the units from `nal_index` on.
    unfoldable pub frame_loop : ℕ → List (List ℕ) → S → List ℕ → Outcome S
    unfolding window send_aggregate send_single send_fragments
    frame_loop zero us s buf = no_fuel
    frame_loop (suc fuel) [] s buf = sent s buf
    frame_loop (suc fuel) (u ∷ us) s buf =
        let (size_count, n) = window (u ∷ us) in
        let aggregate =
          and_then (send_aggregate (u ∷ us) size_count n s buf)
            (frame_loop fuel (drop n (u ∷ us))) in
        let single = and_then (send_single u s buf) (frame_loop fuel us) in
        let fragments = and_then (send_fragments u s buf) (frame_loop fuel us) in
        if ltb 1 n then aggregate else if leb (length u) max_payload then single else fragments

    -- `HandleFrame`, on the units of the frame and the packet's new buffer.
    unfoldable pub handle_units : List (List ℕ) → S → List ℕ → Outcome S
    unfolding frame_loop
    handle_units [] s buf = refused s
    handle_units (u ∷ us) s buf = frame_loop (suc (length (u ∷ us))) (u ∷ us) s buf
