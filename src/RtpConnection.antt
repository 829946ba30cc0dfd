-- ===== src/RtpConnection.antt =====
-- rtsp-server/xop/RtpConnection.cpp: the RTP channels of one client.
mod Tests
pub mod Frames
pub mod Events
pub mod Marks
pub mod Sequence
pub mod Gate
use obs_rtspserver.Prelude.{
  ℕ, zero, suc, ◌+◌, ◌-◌, ◌*◌, ◌/◌, ◌%◌, Bool, true, false, not, ◌&&◌, ◌||◌, Option, none, some,
  List, [], ◌∷◌, ◌++◌, map, bit_and, if◌then◌else◌, get_or, set,
}
use obs_rtspserver.BufferWriter.{BufferWriter, append_copy}
use obs_rtspserver.Rtp.{
  RtpPacket, FrameType, video_frame_idr, video_frame_notidr, audio_frame, no_frame,
}

-- `TransportMode`
pub data TransportMode : Type 0 where
  no_transport rtp_over_tcp rtp_over_udp rtp_over_multicast : TransportMode

-- `MediaChannelInfo`, with the channel's local ports. Of the header's bit fields only the two that
-- are assigned to are kept; `version` is always 2 and the others 0.
pub record Channel : Type 0 where
  pub payload_type : ℕ
  pub marker : ℕ
  pub seq : ℕ
  pub ts : ℕ
  pub ssrc : ℕ
  pub rtp_channel : ℕ
  pub rtcp_channel : ℕ
  pub rtp_port : ℕ
  pub rtcp_port : ℕ
  pub local_rtp_port : ℕ
  pub local_rtcp_port : ℕ
  pub packet_seq : ℕ
  pub is_setup : Bool
  pub is_play : Bool
  pub is_record : Bool

pub record RtpConnection : Type 0 where
  pub transport_mode : TransportMode
  pub channels : List Channel
  pub is_closed : Bool
  pub is_multicast : Bool
  pub has_key_frame : Bool
  pub frame_type : FrameType

-- A cleared `MediaChannelInfo`, with the three random numbers that the constructor draws for it.
unfoldable pub new_channel : ℕ × ℕ × ℕ → Channel
new_channel (r, ts, ssrc) = record {
  payload_type = 0;
  marker = 0;
  seq = 0;
  ts = ts;
  ssrc = ssrc;
  rtp_channel = 0;
  rtcp_channel = 0;
  rtp_port = 0;
  rtcp_port = 0;
  local_rtp_port = 0;
  local_rtcp_port = 0;
  packet_seq = bit_and r 0xffff;
  is_setup = false;
  is_play = false;
  is_record = false;
}

-- The constructor; the list has the random numbers of each of the `max_channel_count` channels.
unfoldable pub rtp_connection_new : List (ℕ × ℕ × ℕ) → RtpConnection
unfolding new_channel
rtp_connection_new rds = record {
  transport_mode = no_transport;
  channels = map new_channel rds;
  is_closed = false;
  is_multicast = false;
  has_key_frame = false;
  frame_type = no_frame;
}

abbrev pub blank : Channel
unfolding new_channel
blank = new_channel (0, 0, 0)

-- `media_channel_info_[channel]`, which the code reads and writes without a check of its bounds.
abbrev pub channel_at : RtpConnection → ℕ → Channel
unfolding new_channel
channel_at c i = get_or c.channels i blank

abbrev pub with_channel : RtpConnection → ℕ → Channel → RtpConnection
with_channel c i ch = record c { channels = set c.channels i ch }

-- `SetupRtpOverTcp`; the first argument says whether the RTSP connection is still there.
unfoldable pub setup_rtp_over_tcp : Bool → ℕ → ℕ → ℕ → RtpConnection → RtpConnection × Bool
setup_rtp_over_tcp conn i rtp_channel rtcp_channel c =
    if conn
    then (
      record (with_channel c i (record (channel_at c i) {
        rtp_channel = rtp_channel;
        rtcp_channel = rtcp_channel;
        is_setup = true;
      })) { transport_mode = rtp_over_tcp },
      true,
    )
    else (c, false)

-- The loop that looks for free ports, from attempt `n` of at most ten: a random number, and whether
-- each of the sockets could be bound. The result is the channel's ports as they are left.
unfoldable pub bind_ports : (ℕ → ℕ × Bool × Bool) → ℕ → ℕ → Channel → Channel × Bool
bind_ports attempt zero n ch = (ch, false)
bind_ports attempt (suc k) n ch =
    let (rd, rtp, rtcp) = attempt n in
    let port = bit_and rd 0xfffe in
    let ch' = record ch { local_rtp_port = port; local_rtcp_port = (port + 1) % 65536 } in
    let rest = bind_ports attempt k (n + 1) ch' in
    if rtp then (if rtcp then (ch', true) else rest) else rest

-- `SetupRtpOverUdp`; the second argument says whether the peer's address is known.
unfoldable pub setup_rtp_over_udp :
    Bool → Bool → (ℕ → ℕ × Bool × Bool) → ℕ → ℕ → ℕ → RtpConnection → RtpConnection × Bool
unfolding bind_ports
setup_rtp_over_udp conn peer attempt i rtp_port rtcp_port c =
    let (ch, bound) =
      bind_ports attempt 10 0
        (record (channel_at c i) { rtp_port = rtp_port; rtcp_port = rtcp_port }) in
    if conn && peer
    then (if bound
        then (
          record (with_channel c i (record ch { is_setup = true })) {
            transport_mode = rtp_over_udp;
          },
          true,
        )
        else (with_channel c i ch, false))
    else (c, false)

-- The same loop of `SetupRtpOverMulticast`, for one socket.
unfoldable pub bind_port : (ℕ → ℕ × Bool) → ℕ → ℕ → Channel → Channel × Bool
bind_port attempt zero n ch = (ch, false)
bind_port attempt (suc k) n ch =
    let (rd, ok) = attempt n in
    let ch' = record ch { local_rtp_port = bit_and rd 0xfffe } in
    let rest = bind_port attempt k (n + 1) ch' in if ok then (ch', true) else rest

unfoldable pub setup_rtp_over_multicast :
    (ℕ → ℕ × Bool) → ℕ → ℕ → RtpConnection → RtpConnection × Bool
unfolding bind_port
setup_rtp_over_multicast attempt i port c =
    let (ch, bound) = bind_port attempt 10 0 (channel_at c i) in
    if bound
    then (
      record (with_channel c i (record ch { rtp_port = port; is_setup = true })) {
        transport_mode = rtp_over_multicast;
        is_multicast = true;
      },
      true,
    )
    else (with_channel c i ch, false)

abbrev pub played : Channel → Channel
played ch = if ch.is_setup then record ch { is_play = true } else ch

abbrev pub recorded : Channel → Channel
recorded ch = if ch.is_setup then record ch { is_record = true; is_play = true } else ch

abbrev pub stopped : Channel → Channel
stopped ch = record ch { is_play = false; is_record = false }

unfoldable pub play : RtpConnection → RtpConnection
play c = record c { channels = map played c.channels }

unfoldable pub start_record : RtpConnection → RtpConnection
start_record c = record c { channels = map recorded c.channels }

abbrev pub is_over_multicast : TransportMode → Bool
is_over_multicast rtp_over_multicast = true
is_over_multicast m = false

unfoldable pub teardown : RtpConnection → RtpConnection
teardown c =
    if not c.is_closed && not (is_over_multicast c.transport_mode)
    then record c { is_closed = true; channels = map stopped c.channels }
    else c

-- `frame_type == FrameType::NONE || frame_type == FrameType::VIDEO_FRAME_IDR`
abbrev pub opens : FrameType → Bool
opens no_frame = true
opens video_frame_idr = true
opens t = false

unfoldable pub set_frame_type : FrameType → RtpConnection → RtpConnection
set_frame_type t c = record c { frame_type = t; has_key_frame = c.has_key_frame || opens t }

-- The guard of `SetRtpHeader` and of the send that follows it.
abbrev pub is_live : RtpConnection → ℕ → Bool
unfolding new_channel
is_live c i = ((channel_at c i).is_play || (channel_at c i).is_record) && c.has_key_frame

unfoldable pub set_rtp_header : ℕ → RtpPacket → RtpConnection → RtpConnection
unfolding new_channel
set_rtp_header i p c =
    let ch = channel_at c i in
    if is_live c i
    then with_channel c i (record ch {
      marker = p.last % 2;
      ts = p.timestamp;
      seq = ch.packet_seq;
      packet_seq = (ch.packet_seq + 1) % 65536;
    })
    else c

abbrev pub big_endian_16 : ℕ → List ℕ
big_endian_16 n = n / 256 % 256 ∷ n % 256 ∷ []

abbrev pub big_endian_32 : ℕ → List ℕ
big_endian_32 n = n / 16777216 % 256 ∷ n / 65536 % 256 ∷ n / 256 % 256 ∷ n % 256 ∷ []

-- The `RtpHeader` in memory: `seq` and `ts` have been put in network order.
abbrev pub header_bytes : Channel → List ℕ
header_bytes ch =
    0x80
    ∷ (ch.marker * 128 + ch.payload_type % 128)
    ∷ (big_endian_16 ch.seq ++ (big_endian_32 ch.ts ++ big_endian_32 ch.ssrc))

-- The part of a `TcpConnection` that `Send` reads and writes.
pub record TcpConnection : Type 0 where
  pub is_closed : Bool
  pub write_buffer : BufferWriter

-- `TcpConnection::Send`, up to the write of the queue, and whether the packet is on the queue.
unfoldable pub tcp_send : List ℕ → ℕ → TcpConnection → TcpConnection × Bool
unfolding append_copy
tcp_send contents size t =
    let (w, queued) = append_copy t.write_buffer contents size 0 in
    if t.is_closed then (t, false) else (record t { write_buffer = w }, queued)

-- What an event meets when it runs: the RTSP connection, if it is still there, and whether `sendto`
-- succeeds.
pub record Link : Type 0 where
  pub conn : Option TcpConnection
  pub is_sent : Bool

-- What comes of a packet; the number is the channel. `tcp` are the bytes put on the queue of the RTSP
-- connection, `udp` those of a datagram that `sendto` took. A packet that got a header and went
-- nowhere is `lost`, and `nothing` is one of a channel that is not live.
pub data Output : Type 0 where
  tcp udp : ℕ → List ℕ → Output
  lost : ℕ → Output
  nothing : Output

-- The four bytes of the interleaved frame, the RTP header and the payload.
abbrev pub interleaved_bytes : ℕ → RtpPacket → RtpConnection → List ℕ
unfolding new_channel
interleaved_bytes i p c =
    0x24
    ∷ (channel_at c i).rtp_channel
    ∷ bit_and (p.size - 4) 0xff00 / 256
    ∷ bit_and (p.size - 4) 0xff
    ∷ (header_bytes (channel_at c i) ++ p.payload)

-- `SendRtpOverTcp`. What it does to the queue is not kept: the next event brings its own.
unfoldable pub send_rtp_over_tcp : Option TcpConnection → ℕ → RtpPacket → RtpConnection → Output
unfolding new_channel tcp_send
send_rtp_over_tcp none i p c = lost i
send_rtp_over_tcp (some t) i p c =
    if (tcp_send (interleaved_bytes i p c) p.size t).1
    then tcp i (interleaved_bytes i p c)
    else lost i

-- What `SendRtpOverUdp` sends.
unfoldable pub datagram : Bool → ℕ → RtpPacket → RtpConnection → Output
unfolding new_channel
datagram is_sent i p c =
    if is_sent then udp i (header_bytes (channel_at c i) ++ p.payload) else lost i

-- What comes of a packet on a live channel.
unfoldable pub output_of : Link → ℕ → RtpPacket → RtpConnection → TransportMode → Output
unfolding send_rtp_over_tcp datagram new_channel
output_of link i p c no_transport = lost i
output_of link i p c rtp_over_tcp = send_rtp_over_tcp link.conn i p c
output_of link i p c rtp_over_udp = datagram link.is_sent i p c
output_of link i p c rtp_over_multicast = datagram link.is_sent i p c

abbrev pub is_datagram : TransportMode → Bool
is_datagram rtp_over_udp = true
is_datagram rtp_over_multicast = true
is_datagram m = false

-- The event that `SendRtpPacket` queues; `SendRtpOverUdp` tears down where `sendto` fails.
unfoldable pub on_packet : Link → ℕ → RtpPacket → RtpConnection → RtpConnection × Output
unfolding set_frame_type set_rtp_header output_of teardown new_channel
on_packet link i p c =
    let c' = set_rtp_header i p (set_frame_type p.type c) in
    if is_live c' i
    then (
      if is_datagram c'.transport_mode && not link.is_sent then teardown c' else c',
      output_of link i p c' c'.transport_mode,
    )
    else (c', nothing)

-- `SendRtpPacket`; `added` says whether the queue took the event. The event is `none` where none was
-- queued.
unfoldable pub send_rtp_packet :
    Bool → ℕ → RtpPacket → RtpConnection → Option (ℕ × RtpPacket) × Bool
send_rtp_packet added i p c =
    if c.is_closed then (none, false) else if added then (some (i, p), true) else (none, false)

-- The events, in the order in which the scheduler runs them.
unfoldable pub run_events :
    List (Link × ℕ × RtpPacket) → RtpConnection → RtpConnection × List Output
unfolding on_packet
run_events [] c = (c, [])
run_events ((link, i, p) ∷ events) c =
    let (c', o) = on_packet link i p c in let (c'', os) = run_events events c' in (c'', o ∷ os)
