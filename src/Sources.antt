-- ===== src/Sources.antt =====
-- rtsp-server/xop/VP8Source.cpp, G711ASource.cpp and AACSource.cpp: the sources whose frames are not
-- made of NAL units.
mod Tests
pub mod Payloads
use obs_rtspserver.Prelude.{
  ℕ, zero, suc, ◌+◌, ◌-◌, ◌*◌, ◌/◌, ◌%◌, Bool, true, false, List, [], ◌∷◌, ◌++◌, bit_and, ltb,
  if◌then◌else◌, length, take, drop,
}
use obs_rtspserver.Rtp.{max_payload, head_size, RtpPacket, FrameType, audio_frame, no_frame, u16}

-- A packet of these payload bytes.
abbrev pub with_payload : List ℕ → ℕ → ℕ → FrameType → ℕ → RtpPacket
with_payload payload size timestamp type last = record {
  payload = payload;
  size = size;
  timestamp = timestamp;
  type = type;
  last = last;
}

-- What a call of `HandleFrame` ends with; `no_fuel` is no end of the code's.
pub data Handled (S : Type 0) : Type 0 where
  done : S → Bool → Handled S
  no_fuel : Handled S

-- The packet of a part of a VP8 frame: a descriptor byte, and the first bytes that are left.
unfoldable pub vp8_packet : ℕ → ℕ → List ℕ → RtpPacket
vp8_packet timestamp descriptor rest =
    if ltb (length rest) max_payload
    then with_payload (descriptor ∷ rest) (u16 (head_size + 1 + u16 (length rest))) timestamp
        no_frame 1
    else with_payload (descriptor ∷ take max_payload rest) (head_size + 1 + max_payload) timestamp
        no_frame 0

-- The packet of an AAC frame: an AU header section of four bytes, and the frame behind its ADTS
-- header.
unfoldable pub aac_packet : Bool → List ℕ → ℕ → RtpPacket
aac_packet has_adts frame timestamp =
    let frame_buf = drop (if has_adts then 7 else 0) frame in
    let size = length frame_buf in
    let header = 0x00 ∷ 0x10 ∷ bit_and size 0x1fe0 / 32 ∷ bit_and size 0x1f * 8 ∷ [] in
    with_payload (header ++ frame_buf) (u16 (u16 size + head_size + 4)) timestamp audio_frame 1

-- `send` is `send_frame_callback_`, which is set before any frame comes.
module _ {S : Type 0} (send : S → RtpPacket → S × Bool) where
  -- `while (frame_size > 0)` of `VP8Source::HandleFrame`; the first argument is fuel.
  unfoldable pub vp8_loop : ℕ → ℕ → ℕ → List ℕ → S → Handled S
  unfolding vp8_packet
  vp8_loop zero timestamp descriptor rest s = no_fuel
  vp8_loop (suc fuel) timestamp descriptor [] s = done s true
  vp8_loop (suc fuel) timestamp descriptor (x ∷ xs) s =
      let (s', ok) = send s (vp8_packet timestamp descriptor (x ∷ xs)) in
      let next = vp8_loop fuel timestamp 0x00 (drop max_payload (x ∷ xs)) s' in
      if ok then next else done s' false

  -- `VP8Source::HandleFrame`; a frame without a timestamp gets the time `now`.
  unfoldable pub vp8_handle_frame : ℕ → List ℕ → ℕ → S → Handled S
  unfolding vp8_loop
  vp8_handle_frame now frame timestamp s =
      vp8_loop (suc (length frame)) (elim timestamp [ zero ↦ now | suc t ↦ suc t ]) 0x10 frame s

  -- `G711ASource::HandleFrame`
  unfoldable pub g711a_handle_frame : List ℕ → ℕ → S → S × Bool
  g711a_handle_frame frame timestamp s =
      if ltb max_payload (length frame)
      then (s, false)
      else send s
          (with_payload frame (u16 (u16 (length frame) + head_size)) timestamp audio_frame 1)

  -- `AACSource::HandleFrame`, on a frame that is no shorter than its ADTS header: a shorter one wraps
  -- the size around in the code.
  unfoldable pub aac_handle_frame : Bool → List ℕ → ℕ → S → S × Bool
  unfolding aac_packet
  aac_handle_frame has_adts frame timestamp s =
      if ltb (max_payload - 4) (length frame)
      then (s, false)
      else send s (aac_packet has_adts frame timestamp)
