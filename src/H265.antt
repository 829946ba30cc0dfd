-- ===== src/H265.antt =====
-- rtsp-server/xop/H265Source.cpp: `HandleFrame` for H.265.
pub mod Carried
pub mod RoundTrip
mod Tests
use obs_rtspserver.Prelude.{
  ℕ, ◌*◌, ◌/◌, ◌%◌, Bool, List, [], ◌∷◌, bit_and, bit_or, ltb, if◌then◌else◌,
}
use obs_rtspserver.Rtp.{RtpPacket}
use obs_rtspserver.Nal.{nal_new}
use obs_rtspserver.NalUnit.H265.{
  header_size, get_type, get_layer_id, get_temporal_id, copy_header, copy_body, get_body_size,
  is_idr_frame, is_frame,
}
use obs_rtspserver.Packetizer.{Codec, Outcome, handle_units}
use obs_rtspserver.Packetizer.Input.{with_units}

-- `lowest_layer_id` and `lowest_temporal_id`.
abbrev pub Lowest : Type 0
Lowest = ℕ × ℕ

unfoldable pub lower : Lowest → List ℕ → Lowest
lower (layer, temporal) u = (
  if ltb (get_layer_id u) layer then get_layer_id u else layer,
  if ltb (get_temporal_id u) temporal then get_temporal_id u else temporal,
)

-- `(lowest_layer_id & 0x3f) >> 5 | 48 << 1`, and
-- `(lowest_layer_id & 0x3f) << 3 | (lowest_temporal_id & 0x07)` as a byte.
unfoldable pub payload_header : Lowest → List ℕ
payload_header (layer, temporal) =
    bit_or (bit_and layer 0x3f / 32) 96
    ∷ bit_or (bit_and layer 0x3f * 8) (bit_and temporal 0x07) % 256
    ∷ []

-- `rtp_packet_data[0] &= 0x81; rtp_packet_data[0] |= 49 << 1;`
unfoldable pub fu_header : ℕ → ℕ
fu_header b = bit_or (bit_and b 0x81) 98

abbrev pub h265 : Codec Lowest
h265 = record {
  header_size = header_size;
  get_type = get_type;
  copy_header = copy_header;
  copy_body = copy_body;
  get_body_size = get_body_size;
  is_idr_frame = is_idr_frame;
  is_frame = is_frame;
  start = (0x3f, 0x07);
  update = lower;
  aggregate_header = payload_header;
  mark_fragment = fu_header;
  type_mask = 0x3f;
}

-- `HandleFrame`: `frame` lies at address `addr`, and `buf` is the payload part of the new packet.
unfoldable pub handle_frame :
    {S : Type 0} → (S → RtpPacket → S × Bool) → List ℕ → ℕ → ℕ → S → List ℕ → Outcome S
handle_frame send frame addr timestamp s buf =
    with_units (nal_new frame addr) (λ us. handle_units h265 send timestamp us s buf)
