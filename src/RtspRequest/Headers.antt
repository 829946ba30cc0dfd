-- ===== src/RtspRequest/Headers.antt =====
-- rtsp-server/xop/RtspMessage.cpp: the header lines of a request.
use Prim.Native.String.{String}
use obs_rtspserver.Prelude.{
  ℕ, ◌%◌, Bool, true, false, not, ◌&&◌, none, some, List, [], ◌∷◌, ◌++◌, map, take, drop, ltb, ◌==◌,
  if◌then◌else◌, length,
}
use obs_rtspserver.Text.{codes, c_str, find_text, rfind_text, is_found}
use obs_rtspserver.Text.Params.{find_param, emplace}
use obs_rtspserver.Text.Scan.{
  Directive, literal, skip_until, space, unsigned_word, signed_word, Value, sscanf, number_at,
}
use obs_rtspserver.RtpConnection.{rtp_over_tcp, rtp_over_udp, rtp_over_multicast}
use obs_rtspserver.RtspRequest.{
  Method, options, describe, setup, play, teardown, get_parameter, rtcp, no_method, RtspRequest,
  got_all_state, Outcome, returned, stack_overrun, out_of_range,
}

-- `sscanf` with a format that stores no text.
abbrev pub scan_numbers : List Directive → List ℕ → List Value
scan_numbers format xs = elim (sscanf format xs) [ none ↦ [] | some vs ↦ vs ]

-- `"%*[^:]: %u"`
abbrev pub header_number_format : List Directive
header_number_format = skip_until b':' ∷ literal b':' ∷ space ∷ unsigned_word 32 ∷ []

-- `"%*[^;];%*[^;];%*[^=]=%hu-%hu"`
abbrev pub transport_format : List Directive
transport_format =
    skip_until b';'
    ∷ literal b';'
    ∷ skip_until b';'
    ∷ literal b';'
    ∷ skip_until b'='
    ∷ literal b'='
    ∷ unsigned_word 16
    ∷ literal b'-'
    ∷ unsigned_word 16
    ∷ []

unfoldable pub parse_cseq : List ℕ → RtspRequest → RtspRequest × Bool
parse_cseq message r = elim (find_text (codes "CSeq") message) [
  | none ↦ (r, false)
  | some rest ↦ (
    record r {
      header_line_param =
          emplace "cseq" ([], number_at 0 (scan_numbers header_number_format (c_str rest)))
            r.header_line_param;
    },
    true,
  )
]

unfoldable pub parse_accept : List ℕ → Bool
parse_accept message =
    is_found (rfind_text (codes "Accept") message) && is_found (rfind_text (codes "sdp") message)

-- The two numbers of the transport line, which `sscanf` may not find, and the names they get.
abbrev pub store_pair : String → String → List Value → RtspRequest → RtspRequest × Bool
store_pair first second vs r =
    if length vs == 2
    then (
      record r {
        header_line_param =
            emplace second ([], number_at 1 vs)
              (emplace first ([], number_at 0 vs) r.header_line_param);
      },
      true,
    )
    else (r, false)

-- The branch for `RTP/AVP`; `rest` begins there.
unfoldable pub parse_datagram_transport : List ℕ → RtspRequest → RtspRequest × Bool
parse_datagram_transport rest r =
    if is_found (find_text (codes "unicast") rest)
    then store_pair "rtp_port" "rtcp_port" (scan_numbers transport_format (c_str rest))
        (record r { transport = rtp_over_udp })
    else if is_found (find_text (codes "multicast") rest)
    then (
      record r {
        transport = rtp_over_multicast;
        header_line_param =
            emplace "rtcp_port" ([], 0) (emplace "rtp_port" ([], 0) r.header_line_param);
      },
      true,
    )
    else (r, false)

unfoldable pub parse_transport : List ℕ → RtspRequest → RtspRequest × Bool
unfolding parse_datagram_transport
parse_transport message r =
    if is_found (find_text (codes "Transport") message)
    then elim (find_text (codes "RTP/AVP/TCP") message) [
      | some rest ↦
          store_pair "rtp_channel" "rtcp_channel" (scan_numbers transport_format (c_str rest))
            (record r { transport = rtp_over_tcp })
      | none ↦ elim (find_text (codes "RTP/AVP") message) [
        | some rest ↦ parse_datagram_transport rest r
        | none ↦ (r, false)
      ]
    ]
    else (r, false)

unfoldable pub parse_session_id : List ℕ → Bool
parse_session_id message = elim (find_text (codes "Session") message) [
  | none ↦ false
  | some rest ↦ length (scan_numbers header_number_format (c_str rest)) == 1
]

-- `"/track%d"`; the cast to `MediaChannelId` keeps the low byte.
unfoldable pub parse_media_channel : RtspRequest → RtspRequest × Bool
parse_media_channel r = elim (find_param "url" r.request_line_param) [
  | none ↦ (r, false)
  | some (url, n) ↦ elim (rfind_text (codes "/track") url) [
    | none ↦ (r, false)
    | some rest ↦
        (let vs =
            scan_numbers (map literal (codes "/track") ++ (signed_word 32 ∷ [])) (c_str rest) in
          if length vs == 1
          then (record r { channel_id = number_at 0 vs % 256 }, true)
          else (r, false))
  ]
]

abbrev pub clear_auth_response : RtspRequest → RtspRequest
clear_auth_response r = record r { auth_response = [] }

-- `message.substr(pos + 10, 32)` throws when the message ends less than ten bytes behind `pos`.
unfoldable pub parse_authorization : List ℕ → RtspRequest → Outcome RtspRequest
parse_authorization message r =
    if is_found (find_text (codes "Authorization") message)
    then elim (find_text (codes "response=") message) [
      | none ↦ returned (clear_auth_response r)
      | some rest ↦
          if ltb (length rest) 10
          then out_of_range
          else if length (take 32 (drop 10 rest)) == 32
          then returned (record r { auth_response = take 32 (drop 10 rest) })
          else returned (clear_auth_response r)
    ]
    else returned (clear_auth_response r)

-- `method_` is `DESCRIBE`, `SETUP` or `PLAY`.
abbrev pub needs_authorization : Method → Bool
needs_authorization describe = true
needs_authorization setup = true
needs_authorization play = true
needs_authorization m = false

abbrev pub finished : RtspRequest → RtspRequest
finished r = record r { state = got_all_state }

abbrev pub finished_if : RtspRequest × Bool → RtspRequest
finished_if (r, b) = if b then finished r else r

-- The rest of `ParseHeadersLine`, for each method.
unfoldable pub finish_headers : Method → List ℕ → RtspRequest → RtspRequest
unfolding parse_accept parse_transport parse_media_channel parse_session_id
finish_headers options message r = finished r
finish_headers describe message r = if parse_accept message then finished r else r
finish_headers setup message r =
    let (r', ok) = parse_transport message r in
    if ok then finished_if (parse_media_channel r') else r'
finish_headers play message r = if parse_session_id message then finished r else r
finish_headers teardown message r = finished r
finish_headers get_parameter message r = finished r
finish_headers rtcp message r = r
finish_headers no_method message r = r

abbrev pub has_cseq : RtspRequest → Bool
has_cseq r = elim (find_param "cseq" r.header_line_param) [ none ↦ false | some v ↦ true ]

unfoldable pub after_authorization : List ℕ → Outcome RtspRequest → Outcome (RtspRequest × Bool)
unfolding finish_headers
after_authorization message (returned r) = returned (finish_headers r.method message r, true)
after_authorization message stack_overrun = stack_overrun
after_authorization message out_of_range = out_of_range

-- What `ParseHeadersLine` does with the result of `ParseCSeq`.
unfoldable pub after_cseq : List ℕ → RtspRequest × Bool → Outcome (RtspRequest × Bool)
unfolding parse_authorization after_authorization
after_cseq message (r, found) =
    if not found && not (has_cseq r)
    then returned (r, false)
    else after_authorization message
        (if needs_authorization r.method then parse_authorization message r else returned r)

unfoldable pub parse_headers_line : List ℕ → RtspRequest → Outcome (RtspRequest × Bool)
unfolding parse_cseq after_cseq
parse_headers_line message r = after_cseq message (parse_cseq message r)
