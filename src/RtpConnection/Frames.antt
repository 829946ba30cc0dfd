-- ===== src/RtpConnection/Frames.antt =====
-- One packet over TCP: when the queue of the RTSP connection takes it, and the bytes that go out.
use obs_rtspserver.Prelude.{
  ℕ, ◌+◌, ◌-◌, ◌*◌, ◌/◌, ◌<◌, ◌≡◌, refl, ap, ◌∙◌, Bool, false, not, ◌&&◌, ltb, Option, none, some,
  List, ◌∷◌, ◌++◌, arith, length, leb, if◌then◌else◌, bit_and,
}
use obs_rtspserver.Prelude.Bits.{bit_and-shift_byte}
use obs_rtspserver.ByteOrder.{low_byte}
use obs_rtspserver.Rtp.{RtpPacket, head_size}
use obs_rtspserver.BufferWriter.{append_copy}
use obs_rtspserver.RtpConnection.{
  RtpConnection, TcpConnection, channel_at, header_bytes, interleaved_bytes, tcp_send, tcp, lost,
  send_rtp_over_tcp,
}

-- The bytes of an interleaved frame: `$`, the channel, the length of the rest, and the rest.
abbrev pub IsInterleaved : List ℕ → ℕ → List ℕ → Type 0
IsInterleaved frame channel rest =
    (high : ℕ) × (low : ℕ) × (frame ≡ 0x24 ∷ channel ∷ high ∷ low ∷ rest)
    × (high * 256 + low ≡ length rest)

-- Whether a packet can be put on the queue of the RTSP connection: it is there and open, and its queue
-- has room.
abbrev pub is_open : Option TcpConnection → Bool
is_open none = false
is_open (some t) =
    if t.is_closed
    then false
    else not (leb t.write_buffer.max_queue_length (length t.write_buffer.buffer))

pub tcp_send-is_open :
    (contents : List ℕ) (size : ℕ) (t : TcpConnection)
    → (tcp_send contents size t).1 ≡ (is_open (some t) && ltb 0 size)
unfolding tcp_send append_copy
tcp_send-is_open contents size t = ground arith

-- For a packet that declares its size, below 2^16: when the RTSP connection is there and open, and its
-- queue has room, what goes out over TCP is one interleaved frame, on the channel's RTP channel, whose
-- length field is the length of the header and the payload; otherwise the packet is lost.
pub send_rtp_over_tcp-IsInterleaved :
    (conn : Option TcpConnection) (i : ℕ) (p : RtpPacket) (c : RtpConnection)
    → p.size ≡ head_size + length p.payload
    → p.size < 65536
    → (frame : List ℕ) × (send_rtp_over_tcp conn i p c
        ≡ (if is_open conn then tcp i frame else lost i))
      × IsInterleaved frame
          (channel_at c i).rtp_channel
          (header_bytes (channel_at c i) ++ p.payload)
unfolding send_rtp_over_tcp
send_rtp_over_tcp-IsInterleaved conn i p c e h =
    (interleaved_bytes i p c, handed conn, (_, _, refl, lengths))
  where
    sized : (b : Bool) → (b && ltb 0 p.size) ≡ b
    sized b = ground (arith, e)

    handed :
        (conn : Option TcpConnection)
        → send_rtp_over_tcp conn i p c
          ≡ (if is_open conn then tcp i (interleaved_bytes i p c) else lost i)
    handed none = refl
    handed (some t) =
        ap (λ b. if b then tcp i (interleaved_bytes i p c) else lost i)
          (tcp_send-is_open (interleaved_bytes i p c) p.size t ∙ sized (is_open (some t)))

    lengths :
        bit_and (p.size - 4) 0xff00 / 256 * 256 + bit_and (p.size - 4) 0xff
        ≡ length (header_bytes (channel_at c i) ++ p.payload)
    lengths = omega (
      arith,
      e,
      h,
      bit_and-shift_byte (p.size - 4) 0xff00,
      low_byte ((p.size - 4) / 256),
      low_byte (p.size - 4),
    )
