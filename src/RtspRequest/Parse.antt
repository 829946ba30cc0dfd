-- ===== src/RtspRequest/Parse.antt =====
-- rtsp-server/xop/RtspMessage.cpp: `ParseRequest`, which takes what has been received from the buffer.
use obs_rtspserver.Prelude.{◌+◌, Bool, true, none, some, take, get_or, ◌==◌, if◌then◌else◌}
use obs_rtspserver.BufferReader.{
  BufferReader, readable, retrieve, retrieve_all, find_first_crlf, find_last_crlf,
}
use obs_rtspserver.RtspRequest.{
  RtspRequest, rtcp, ParseState, parse_request_line_state, parse_headers_line_state, got_all_state,
  Outcome, returned, stack_overrun, out_of_range, parse_request_line,
}
use obs_rtspserver.RtspRequest.Headers.{parse_headers_line}

-- What a round leaves when a line has been parsed; the buffer has been cut behind it.
abbrev pub after_headers :
    BufferReader → Outcome (RtspRequest × Bool) → Outcome (BufferReader × RtspRequest × Bool)
after_headers b (returned (r, ret)) = returned (b, r, ret)
after_headers b stack_overrun = stack_overrun
after_headers b out_of_range = out_of_range

-- One round of the loop in the state `kParseHeadersLine`; `ret` is what the round before left.
unfoldable pub parse_headers_round :
    BufferReader → RtspRequest → Bool → Outcome (BufferReader × RtspRequest × Bool)
unfolding find_last_crlf retrieve parse_headers_line
parse_headers_round b r ret = elim (find_last_crlf b) [
  | none ↦ returned (b, r, ret)
  | some i ↦ after_headers (retrieve (i + 2) b) (parse_headers_line (take i (readable b)) r)
]

-- The loop goes on with the header lines, or is left.
unfoldable pub next_round :
    ParseState → BufferReader → RtspRequest → Bool → Outcome (BufferReader × RtspRequest × Bool)
unfolding parse_headers_round
next_round parse_headers_line_state b r ret = parse_headers_round b r ret
next_round parse_request_line_state b r ret = returned (b, r, ret)
next_round got_all_state b r ret = returned (b, r, ret)

unfoldable pub after_line :
    BufferReader → Outcome (RtspRequest × Bool) → Outcome (BufferReader × RtspRequest × Bool)
unfolding next_round
after_line b (returned (r, ret)) = next_round r.state b r ret
after_line b stack_overrun = stack_overrun
after_line b out_of_range = out_of_range

-- One round in the state `kParseRequestLine`.
unfoldable pub parse_line_round :
    BufferReader → RtspRequest → Outcome (BufferReader × RtspRequest × Bool)
unfolding find_first_crlf retrieve parse_request_line after_line
parse_line_round b r = elim (find_first_crlf b) [
  | none ↦ returned (b, r, true)
  | some i ↦ after_line (retrieve (i + 2) b) (parse_request_line (take i (readable b)) r)
]

-- The loop, which goes from the request line to the header lines at most once.
unfoldable pub parse_rounds :
    ParseState → BufferReader → RtspRequest → Outcome (BufferReader × RtspRequest × Bool)
unfolding parse_line_round parse_headers_round retrieve_all
parse_rounds parse_request_line_state b r = parse_line_round b r
parse_rounds parse_headers_line_state b r = parse_headers_round b r true
parse_rounds got_all_state b r = returned (retrieve_all b, r, true)

unfoldable pub parse_request :
    BufferReader → RtspRequest → Outcome (BufferReader × RtspRequest × Bool)
unfolding parse_rounds
parse_request b r =
    if get_or b.buffer b.reader_index 0 == b'$'
    then returned (b, record r { method = rtcp }, true)
    else parse_rounds r.state b r
