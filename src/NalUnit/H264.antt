-- ===== src/NalUnit/H264.antt =====
-- rtsp-server/xop/H264NalUnit.cpp: the one-byte header of an H.264 unit.
use obs_rtspserver.Prelude.{
  ℕ, ◌+◌, ◌-◌, ◌/◌, Bool, ◌&&◌, List, bit_and, ltb, leb, ◌==◌, if◌then◌else◌, length, get_or,
}
use obs_rtspserver.NalUnit.{copy_data}

-- `H264_NALU_HEADER_SIZE`
abbrev pub header_size : ℕ
header_size = 1

-- `GetHeader`: the size of the header, or 0 where the unit is too short for one.
unfoldable pub get_header : List ℕ → ℕ
get_header u = if leb header_size (length u) then header_size else 0

unfoldable pub get_type : List ℕ → ℕ
unfolding get_header
get_type u = if get_header u == header_size then bit_and (get_or u 0 0) 0x1f else 0

unfoldable pub get_ref_idc : List ℕ → ℕ
unfolding get_header
get_ref_idc u = if get_header u == header_size then bit_and (get_or u 0 0) 0x60 / 32 else 0

unfoldable pub copy_header : List ℕ → ℕ → List ℕ
unfolding copy_data
copy_header u size = copy_data u (if ltb header_size size then header_size else size) 0

unfoldable pub copy_body : List ℕ → ℕ → ℕ → List ℕ
unfolding copy_data
copy_body u size skip = copy_data u size (skip + header_size)

unfoldable pub get_body_size : List ℕ → ℕ
get_body_size u = if ltb header_size (length u) then length u - header_size else 0

-- `H264_NAL_SLICE_IDR` is 5, and `H264_NAL_SLICE` is 1.
unfoldable pub is_idr_frame : List ℕ → Bool
unfolding get_type
is_idr_frame u = get_type u == 5

unfoldable pub is_frame : List ℕ → Bool
unfolding get_type
is_frame u = leb 1 (get_type u) && leb (get_type u) 5
