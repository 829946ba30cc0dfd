-- ===== src/RtspResponse.antt =====
-- rtsp-server/xop/RtspMessage.h and RtspMessage.cpp, class RtspResponse: the requests that a pusher
-- sends, and the responses to them.
use Prim.Native.String.{String}
mod Tests
pub mod RoundTrip
use obs_rtspserver.Prelude.{
  ℕ, ◌+◌, ◌*◌, ◌%◌, Bool, true, false, Option, none, some, List, [], ◌∷◌, ◌++◌, length, drop, ◌==◌,
  if◌then◌else◌,
}
use obs_rtspserver.BufferReader.{BufferReader, retrieve}
use obs_rtspserver.Text.{codes, c_str, find_text, is_found}
use obs_rtspserver.Text.Decimal.{print_number}
use obs_rtspserver.Text.Scan.{Directive, literal, skip_until, space, word, Value, sscanf, text_at}
use obs_rtspserver.RtspRequest.{Outcome, returned, stack_overrun, out_of_range}
use obs_rtspserver.RtspRequest.Respond.{snprintf}

-- `Method`
pub data PushMethod : Type 0 where
  push_options push_describe push_announce push_setup push_record push_rtcp no_push : PushMethod

-- `method_` has no initial value.
pub record RtspResponse : Type 0 where
  pub method : PushMethod
  pub cseq : ℕ
  pub user_agent : List ℕ
  pub rtsp_url : List ℕ
  pub session : List ℕ

unfoldable pub set_user_agent : List ℕ → RtspResponse → RtspResponse
set_user_agent t r = record r { user_agent = t }

unfoldable pub set_rtsp_url : List ℕ → RtspResponse → RtspResponse
set_rtsp_url t r = record r { rtsp_url = t }

-- `"%*[^:]: %s"`
abbrev pub session_format : List Directive
session_format = skip_until b':' ∷ literal b':' ∷ space ∷ word 50 ∷ []

-- The session of a response, from `Session` on.
abbrev pub store_session : List ℕ → RtspResponse → Outcome RtspResponse
store_session rest r = elim (sscanf session_format rest) [
  | none ↦ stack_overrun
  | some vs ↦ if length vs == 1 then returned (record r { session = text_at 0 vs }) else returned r
]

abbrev pub found_session : Option (List ℕ) → RtspResponse → Outcome RtspResponse
found_session none r = returned r
found_session (some rest) r = store_session rest r

-- The end of `ParseResponse`, when the session has been stored.
abbrev pub next_response :
    BufferReader → Outcome RtspResponse → Outcome (BufferReader × RtspResponse × Bool)
next_response b (returned r) = returned (b, record r { cseq = (r.cseq + 1) % 4294967296 }, true)
next_response b stack_overrun = stack_overrun
next_response b out_of_range = out_of_range

-- `ParseResponse`: `gap` stands for the distance from `Peek()` to the string literal that is given to
-- `RetrieveUntil`, which is no place in the buffer.
unfoldable pub parse_response :
    ℕ → BufferReader → RtspResponse → Outcome (BufferReader × RtspResponse × Bool)
unfolding retrieve
parse_response gap b r =
    let t = c_str (drop b.reader_index b.buffer) in
    if is_found (find_text (codes "\r\n\r\n") t)
    then if is_found (find_text (codes "OK") t)
      then next_response (retrieve gap b) (found_session (find_text (codes "Session") t) r)
      else returned (b, r, false)
    else returned (b, r, true)

-- `GetCSeq() + 1`
abbrev pub next_cseq : RtspResponse → ℕ
next_cseq r = (r.cseq + 1) % 4294967296

unfoldable pub build_option_req : ℕ → RtspResponse → RtspResponse × List ℕ
unfolding print_number
build_option_req size r = (
  record r { method = push_options },
  snprintf size (
      codes "OPTIONS "
      ++ (c_str r.rtsp_url
          ++ (codes " RTSP/1.0\r\nCSeq: "
              ++ (print_number (next_cseq r)
                  ++ (codes "\r\nUser-Agent: " ++ (c_str r.user_agent ++ codes "\r\n\r\n")))))),
)

unfoldable pub build_announce_req : ℕ → List ℕ → RtspResponse → RtspResponse × List ℕ
unfolding print_number
build_announce_req size sdp r = (
  record r { method = push_announce },
  snprintf size (
      codes "ANNOUNCE "
      ++ (c_str r.rtsp_url
          ++ (codes " RTSP/1.0\r\nContent-Type: application/sdp\r\nCSeq: "
              ++ (print_number (next_cseq r)
                  ++ (codes "\r\nUser-Agent: "
                      ++ (c_str r.user_agent
                          ++ (codes "\r\nSession: "
                              ++ (c_str r.session
                                  ++ (codes "\r\nContent-Length: "
                                      ++ (print_number (length sdp)
                                          ++ (codes "\r\n\r\n" ++ sdp))))))))))),
)

unfoldable pub build_describe_req : ℕ → RtspResponse → RtspResponse × List ℕ
unfolding print_number
build_describe_req size r = (
  record r { method = push_describe },
  snprintf size (
      codes "DESCRIBE "
      ++ (c_str r.rtsp_url
          ++ (codes " RTSP/1.0\r\nCSeq: "
              ++ (print_number (next_cseq r)
                  ++ (codes "\r\nAccept: application/sdp\r\nUser-Agent: "
                      ++ (c_str r.user_agent ++ codes "\r\n\r\n")))))),
)

abbrev interleaved : ℕ → ℕ × ℕ
interleaved track_id = if track_id == 1 then (2, 3) else (0, 1)

unfoldable pub build_setup_tcp_req : ℕ → ℕ → RtspResponse → RtspResponse × List ℕ
unfolding print_number
build_setup_tcp_req size track_id r = (
  record r { method = push_setup },
  snprintf size (
      codes "SETUP "
      ++ (c_str r.rtsp_url
          ++ (codes "/track"
              ++ (print_number track_id
                  ++ (codes " RTSP/1.0\r\nTransport: RTP/AVP/TCP;unicast;mode=record;interleaved="
                      ++ (print_number (interleaved track_id).0
                          ++ (codes "-"
                              ++ (print_number (interleaved track_id).1
                                  ++ (codes "\r\nCSeq: "
                                      ++ (print_number (next_cseq r)
                                          ++ (codes "\r\nUser-Agent: "
                                              ++ (c_str r.user_agent
                                                  ++ (codes "\r\nSession: "
                                                      ++ (c_str r.session
                                                          ++ codes "\r\n\r\n")))))))))))))),
)

unfoldable pub build_record_req : ℕ → RtspResponse → RtspResponse × List ℕ
unfolding print_number
build_record_req size r = (
  record r { method = push_record },
  snprintf size (
      codes "RECORD "
      ++ (c_str r.rtsp_url
          ++ (codes " RTSP/1.0\r\nRange: npt=0.000-\r\nCSeq: "
              ++ (print_number (next_cseq r)
                  ++ (codes "\r\nUser-Agent: "
                      ++ (c_str r.user_agent
                          ++ (codes "\r\nSession: " ++ (c_str r.session ++ codes "\r\n\r\n")))))))),
)
