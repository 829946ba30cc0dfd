-- ===== src/NalUnit/H265.antt =====
-- rtsp-server/xop/H265NalUnit.cpp: the two-byte header of an H.265 unit.
use obs_rtspserver.Prelude.{
  ℕ, ◌+◌, ◌-◌, ◌*◌, ◌/◌, Bool, ◌||◌, List, bit_and, bit_or, ltb, leb, ◌==◌, if◌then◌else◌, length,
  get_or,
}
use obs_rtspserver.NalUnit.{copy_data}

-- `H265_NALU_HEADER_SIZE`
abbrev pub header_size : ℕ
header_size = 2

unfoldable pub get_header : List ℕ → ℕ
get_header u = if leb header_size (length u) then header_size else 0

unfoldable pub get_type : List ℕ → ℕ
unfolding get_header
get_type u = if get_header u == header_size then bit_and (get_or u 0 0) 0x7e / 2 else 0

-- `(data[0] << 5 & 0x20) | (data[1] >> 3 & 0x1f)`
unfoldable pub get_layer_id : List ℕ → ℕ
unfolding get_header
get_layer_id u =
    if get_header u == header_size
    then bit_or (bit_and (get_or u 0 0 * 32) 0x20) (bit_and (get_or u 1 0 / 8) 0x1f)
    else 0

unfoldable pub get_temporal_id : List ℕ → ℕ
unfolding get_header
get_temporal_id u = if get_header u == header_size then bit_and (get_or u 1 0) 0x07 else 0

unfoldable pub copy_header : List ℕ → ℕ → List ℕ
unfolding copy_data
copy_header u size = copy_data u (if ltb header_size size then header_size else size) 0

unfoldable pub copy_body : List ℕ → ℕ → ℕ → List ℕ
unfolding copy_data
copy_body u size skip = copy_data u size (skip + header_size)

unfoldable pub get_body_size : List ℕ → ℕ
get_body_size u = if ltb header_size (length u) then length u - header_size else 0

-- `H265_NAL_IDR_N_LP` is 20, `H265_NAL_IDR_W_RADL` is 19 and `H265_NAL_CRA_NUT` is 21.
unfoldable pub is_idr_frame : List ℕ → Bool
unfolding get_type
is_idr_frame u = get_type u == 20 || get_type u == 19

unfoldable pub is_frame : List ℕ → Bool
unfolding get_type
is_frame u = leb (get_type u) 21
