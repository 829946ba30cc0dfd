-- ===== src/Rtp.antt =====
-- rtsp-server/xop/rtp.h and media.h: the packet that a media source hands to its session.
use obs_rtspserver.Prelude.{ℕ, ◌+◌, ◌-◌, ◌%◌, List, ◌++◌, length, take, drop}

-- `MAX_RTP_PAYLOAD_SIZE`
abbrev pub max_payload : ℕ
max_payload = 1420

-- `RTP_TCP_HEAD_SIZE + RTP_HEADER_SIZE`: the place before the payload, for the two headers.
abbrev pub head_size : ℕ
head_size = 16

-- `enum class FrameType`
pub data FrameType : Type 0 where
  video_frame_idr video_frame_notidr audio_frame no_frame : FrameType

-- `RtpPacket` as a receiver of it sees it: the bytes of `data` behind the two headers, up to `size`.
pub record RtpPacket : Type 0 where
  pub payload : List ℕ
  pub size : ℕ
  pub timestamp : ℕ
  pub type : FrameType
  pub last : ℕ

-- The result of an assignment to a `uint16_t`.
abbrev pub u16 : ℕ → ℕ
u16 n = n % 65536

-- The packet at a call of `send_frame_callback_`. `buf` is `data` from behind the headers on.
abbrev pub packet_of : List ℕ → ℕ → ℕ → FrameType → ℕ → RtpPacket
packet_of buf size timestamp type last = record {
  payload = take (size - head_size) buf;
  size = size;
  timestamp = timestamp;
  type = type;
  last = last;
}

-- A `memcpy` of `bytes` to offset `off`. A copy past the end would make the buffer longer.
unfoldable pub write : List ℕ → ℕ → List ℕ → List ℕ
write buf off bytes = take off buf ++ (bytes ++ drop (off + length bytes) buf)
