-- ===== src/RtpConnection/Gate.antt =====
-- When packets pass: from the first key frame, on the channels that play, and until `Teardown`.
use obs_rtspserver.Prelude.{
  ℕ, zero, suc, ◌+◌, ◌<◌, ◌≡◌, refl, ap, ◌∙◌, Bool, true, false, ◌&&◌, ◌||◌, none, some,
  if◌then◌else◌, List, [], ◌∷◌, ◌++◌, map, arith, length, length-set, get_or, get_or-set, set,
}
use obs_rtspserver.Rtp.{RtpPacket, head_size}
use obs_rtspserver.RtpConnection.{
  Channel, RtpConnection, blank, new_channel, channel_at, opens, is_live, header_bytes, output_of,
  Link, Output, tcp, lost, nothing, on_packet, teardown, is_over_multicast, stopped, played, play,
  run_events, send_rtp_packet, setup_rtp_over_tcp,
}
use obs_rtspserver.RtpConnection.Frames.{IsInterleaved, is_open, send_rtp_over_tcp-IsInterleaved}
use obs_rtspserver.RtpConnection.Events.{
  opened, stamped, after, after-at, on_packet-idle, on_packet-live, get_or-map-stopped,
}

abbrev pub AllNothing : List Output → Type 0
AllNothing [] = Unit {0}
AllNothing (o ∷ os) = (o ≡ nothing) × AllNothing os

-- No packet of these is of a key frame, or of the frame type NONE.
abbrev pub NoneOpens : List (Link × ℕ × RtpPacket) → Type 0
NoneOpens [] = Unit {0}
NoneOpens ((link, i, p) ∷ events) = (opens p.type ≡ false) × NoneOpens events

-- On a connection that has had no packet of a key frame or of the frame type NONE: nothing is sent for
-- packets that are of neither kind, on any channel, and it has had none of them still.
pub run_events-waits :
    (events : List (Link × ℕ × RtpPacket)) (c : RtpConnection)
    → c.has_key_frame ≡ false
    → NoneOpens events
    → AllNothing (run_events events c).1 × ((run_events events c).0.has_key_frame ≡ false)
unfolding run_events
run_events-waits [] c k h = (tt, k)
run_events-waits ((link, i, p) ∷ events) c k h = rw (on_packet-idle link i p c idle) (
  (refl, (run_events-waits events (opened p c) shut h.1).0),
  (run_events-waits events (opened p c) shut h.1).1,
)
  where
    shut : (c.has_key_frame || opens p.type) ≡ false
    shut = ground (arith, k, h.0)

    idle : is_live (opened p c) i ≡ false
    idle = ground (arith, shut)

-- Neither playing nor recording, on any channel.
abbrev IsStopped : List Channel → Type 0
unfolding new_channel
IsStopped chs = (k : ℕ) → ((get_or chs k blank).is_play || (get_or chs k blank).is_record) ≡ false

run_events-stopped :
    (events : List (Link × ℕ × RtpPacket)) (c : RtpConnection)
    → IsStopped c.channels
    → AllNothing (run_events events c).1
unfolding run_events IsStopped new_channel
run_events-stopped [] c h = tt
run_events-stopped ((link, i, p) ∷ events) c h =
    rw (on_packet-idle link i p c (ap (λ b. b && (c.has_key_frame || opens p.type)) (h i)))
      (refl, run_events-stopped events (opened p c) h)

-- After `Teardown` of a connection that was open and not over multicast, `SendRtpPacket` queues
-- nothing, and the events that are still queued send nothing.
pub teardown-quiet :
    (c : RtpConnection) (added : Bool) (i : ℕ) (p : RtpPacket)
    (events : List (Link × ℕ × RtpPacket))
    → c.is_closed ≡ false
    → is_over_multicast c.transport_mode ≡ false
    → (send_rtp_packet added i p (teardown c) ≡ (none, false))
      × AllNothing (run_events events (teardown c)).1
unfolding teardown send_rtp_packet IsStopped new_channel
teardown-quiet c added i p events h m = rw (h, m) (refl, run_events-stopped events _ quiet)
  where
    quiet : IsStopped (map stopped c.channels)
    quiet k = ap (λ ch. ch.is_play || ch.is_record) (get_or-map-stopped c.channels k)

get_or-map-played :
    (chs : List Channel) (i : ℕ) → get_or (map played chs) i blank ≡ played (get_or chs i blank)
unfolding new_channel
get_or-map-played [] i = refl
get_or-map-played (ch ∷ chs) zero = refl
get_or-map-played (ch ∷ chs) (suc i) = get_or-map-played chs i

length-map-played : (chs : List Channel) → length (map played chs) ≡ length chs
length-map-played [] = refl
length-map-played (ch ∷ chs) = ap suc (length-map-played chs)

-- For a connection that was not torn down: after `SetupRtpOverTcp` of a channel and `Play`,
-- `SendRtpPacket` queues an event, if the scheduler takes it. The event of a packet that is of a key frame
-- or of the frame type NONE, and declares its size, below 2^16, puts one interleaved frame on the queue
-- of the RTSP connection, which is there and open and whose queue has room. The frame is on the RTP
-- channel that was set up, with a header of twelve bytes before the payload.
pub setup-play-sends :
    (c : RtpConnection) (link : Link) (i rtp_channel rtcp_channel : ℕ) (p : RtpPacket)
    → c.is_closed ≡ false
    → is_open link.conn ≡ true
    → i < length c.channels
    → opens p.type ≡ true
    → p.size ≡ head_size + length p.payload
    → p.size < 65536
    → (send_rtp_packet true i p (play (setup_rtp_over_tcp true i rtp_channel rtcp_channel c).0)
        ≡ (some (i, p), true))
      × (frame header : List ℕ) × ((on_packet link i p
            (play (setup_rtp_over_tcp true i rtp_channel rtcp_channel c).0)).1
          ≡ tcp i frame)
      × IsInterleaved frame rtp_channel (header ++ p.payload)
      × (length header ≡ 12)
unfolding play setup_rtp_over_tcp send_rtp_packet new_channel output_of
setup-play-sends c link i rtp_channel rtcp_channel p n t l o e h =
    let (frame, q, framed) = send_rtp_over_tcp-IsInterleaved link.conn i p (after i p ready) e h in
    (
      rw n refl,
      frame,
      header_bytes (channel_at (after i p ready) i),
      ap (λ r. r.1) (on_packet-live link i p ready live)
          ∙ (q ∙ ap (λ b. if b then tcp i frame else lost i) t),
      rw (ap (λ ch. ch.rtp_channel) (after-at i p ready room ∙ ap (stamped p) at_i)) at framed,
      refl,
    )
  where
    chosen : Channel
    chosen = record (channel_at c i) {
      rtp_channel = rtp_channel;
      rtcp_channel = rtcp_channel;
      is_setup = true;
    }

    ready : RtpConnection
    ready = play (setup_rtp_over_tcp true i rtp_channel rtcp_channel c).0

    at_i : channel_at ready i ≡ played chosen
    at_i =
        get_or-map-played (set c.channels i chosen) i
        ∙ ap played (get_or-set c.channels i chosen blank l)

    live : is_live (opened p ready) i ≡ true
    live =
        ap (λ ch. (ch.is_play || ch.is_record) && (c.has_key_frame || opens p.type)) at_i
        ∙ ground (arith, o)

    room : i < length ready.channels
    room =
        omega (
          arith,
          l,
          length-set {0} c.channels i chosen,
          length-map-played (set c.channels i chosen),
        )
