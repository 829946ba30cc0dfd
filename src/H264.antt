-- ===== src/H264.antt =====
-- rtsp-server/xop/H264Source.cpp: `HandleFrame` for H.264.
pub mod Carried
pub mod RoundTrip
mod Tests
use obs_rtspserver.Prelude.{
  ℕ, ◌*◌, ◌%◌, Bool, List, [], ◌∷◌, Option, none, some, bit_and, bit_or, ltb, if◌then◌else◌,
}
use obs_rtspserver.Rtp.{RtpPacket}
use obs_rtspserver.Nal.{nal_new}
use obs_rtspserver.NalUnit.H264.{
  header_size, get_type, get_ref_idc, copy_header, copy_body, get_body_size, is_idr_frame, is_frame,
}
use obs_rtspserver.Packetizer.{Codec, Outcome, handle_units}
use obs_rtspserver.Packetizer.Input.{with_units}

-- `if (maximum_ref_idc < ref_idc) maximum_ref_idc = ref_idc;`
unfoldable pub max_ref_idc : ℕ → List ℕ → ℕ
max_ref_idc m u = if ltb m (get_ref_idc u) then get_ref_idc u else m

-- `(maximum_ref_idc & 0x03) << 5 | 24`
unfoldable pub stap_header : ℕ → List ℕ
stap_header m = bit_or (bit_and m 0x03 * 32) 24 % 256 ∷ []

-- `rtp_packet_data[0] &= 0xe0; rtp_packet_data[0] |= 28;`
unfoldable pub fu_indicator : ℕ → ℕ
fu_indicator b = bit_or (bit_and b 0xe0) 28

abbrev pub h264 : Codec ℕ
h264 = record {
  header_size = header_size;
  get_type = get_type;
  copy_header = copy_header;
  copy_body = copy_body;
  get_body_size = get_body_size;
  is_idr_frame = is_idr_frame;
  is_frame = is_frame;
  start = 0;
  update = max_ref_idc;
  aggregate_header = stap_header;
  mark_fragment = fu_indicator;
  type_mask = 0x1f;
}

-- `HandleFrame`: `frame` lies at address `addr`, and `buf` is the payload part of the new packet.
unfoldable pub handle_frame :
    {S : Type 0} → (S → RtpPacket → S × Bool) → List ℕ → ℕ → ℕ → S → List ℕ → Outcome S
handle_frame send frame addr timestamp s buf =
    with_units (nal_new frame addr) (λ us. handle_units h264 send timestamp us s buf)
