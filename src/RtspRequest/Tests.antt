-- ===== src/RtspRequest/Tests.antt =====
-- Runs of the request parser, and the witnesses.
use obs_rtspserver.Prelude.{
  ℕ, ◌≡◌, refl, Bool, true, none, List, [], ◌∷◌, ◌++◌, arith, length, replicate,
}
use obs_rtspserver.Text.{codes}
use obs_rtspserver.Text.Decimal.{print_number}
use obs_rtspserver.BufferReader.{BufferReader}
use obs_rtspserver.RtpConnection.{no_transport}
use obs_rtspserver.RtspRequest.{
  RtspRequest, describe, setup, no_method, method_text, parse_request_line_state, Outcome, returned,
  stack_overrun, out_of_range, get_cseq, get_rtsp_url_suffix, got_all, parse_request_line,
}
use obs_rtspserver.RtspRequest.Headers.{parse_headers_line}
use obs_rtspserver.RtspRequest.Parse.{parse_request}
use obs_rtspserver.RtspRequest.RoundTrip.{HasLine, parse_request_line-print_line}
use obs_rtspserver.RtspRequest.Lines.{parse_request_line-Returns}
use obs_rtspserver.RtspRequest.Outcomes.{
  IsLineResult, parse_request_line-IsLineResult, parse_request_line-overrun,
}
use obs_rtspserver.RtspRequest.Replies.{Echoes, responses-Echoes}
use obs_rtspserver.RtspRequest.Respond.{
  build_option_res, build_describe_res, build_setup_multicast_res, build_setup_udp_res,
  build_setup_tcp_res, build_play_res, build_teardown_res, build_get_paramter_res,
  build_not_found_res, build_server_error_res, build_unsupported_res, build_unauthorized_res,
}

abbrev fresh : RtspRequest
fresh = record {
  method = no_method;
  channel_id = 0;
  transport = no_transport;
  auth_response = [];
  request_line_param = [];
  header_line_param = [];
  state = parse_request_line_state;
}

abbrev received : List ℕ → BufferReader
received xs = record { buffer = xs; reader_index = 0; writer_index = length xs }

abbrev seen : Outcome (BufferReader × RtspRequest × Bool) → List (ℕ × List ℕ × Bool)
unfolding get_cseq get_rtsp_url_suffix got_all
seen (returned (b, r, ok)) = (get_cseq r, get_rtsp_url_suffix r, got_all r) ∷ []
seen stack_overrun = []
seen out_of_range = []

abbrev options_text : List ℕ
options_text =
    codes "OPTIONS rtsp://10.0.0.1:8554/live RTSP/1.0\r\nCSeq: 17\r\nUser-Agent: a\r\n\r\n"

options_run : seen (parse_request (received options_text) fresh) ≡ (17, codes "live", true) ∷ []
unfolding parse_request get_cseq get_rtsp_url_suffix got_all
options_run = refl

-- The request that names its method, its URL and its number.
parse_request_line-print_line_example :
    (r : RtspRequest) × (parse_request_line (codes "SETUP rtsp://10.0.0.1:8554/live RTSP/1.0") fresh
      ≡ returned (r, true))
    × HasLine setup (codes "rtsp://10.0.0.1:8554/live") (codes "live") fresh r
unfolding method_text print_number
parse_request_line-print_line_example =
    parse_request_line-print_line setup (codes "10.0.0.1") (codes "live") (codes "RTSP/1.0") 8554
      fresh refl refl (omega arith) refl refl refl

parse_request_line-IsLineResult_example :
    IsLineResult fresh (parse_request_line (codes "RECORD rtsp://10.0.0.1/live RTSP/1.0") fresh)
parse_request_line-IsLineResult_example =
    parse_request_line-IsLineResult (codes "RECORD rtsp://10.0.0.1/live RTSP/1.0") fresh

parse_request_line-Returns_example :
    (r : RtspRequest) × (ok : Bool) × (parse_request_line
        (codes "PLAY rtsp://10.0.0.1/live RTSP/1.0")
        fresh
      ≡ returned (r, ok))
parse_request_line-Returns_example =
    parse_request_line-Returns (codes "PLAY rtsp://10.0.0.1/live RTSP/1.0") fresh (omega arith)

-- A long word behind a space and in front of a tab.
parse_request_line-overrun_example :
    parse_request_line (32 ∷ 65 ∷ (replicate 63 65 ++ (9 ∷ codes "u v"))) fresh ≡ stack_overrun
parse_request_line-overrun_example =
    parse_request_line-overrun (32 ∷ []) 65 (replicate 63 65) (9 ∷ codes "u v") fresh refl refl
      (omega arith)

abbrev numbered : RtspRequest
numbered = record fresh { header_line_param = ("cseq", ([], 17)) ∷ [] }

responses-Echoes_example :
    Echoes 17 (build_option_res 2048 numbered)
    × Echoes 17 (build_describe_res 2048 (codes "v=0") numbered)
    × Echoes 17 (build_setup_multicast_res 2048 (codes "232.0.0.1") 1 3 numbered)
    × Echoes 17 (build_setup_udp_res 2048 1 2 3 numbered)
    × Echoes 17 (build_setup_tcp_res 2048 1 2 3 numbered)
    × Echoes 17 (build_play_res 2048 none 3 numbered)
    × Echoes 17 (build_teardown_res 2048 3 numbered)
    × Echoes 17 (build_get_paramter_res 2048 3 numbered)
    × Echoes 17 (build_not_found_res 2048 numbered)
    × Echoes 17 (build_server_error_res 2048 numbered)
    × Echoes 17 (build_unsupported_res 2048 numbered)
    × Echoes 17 (build_unauthorized_res 2048 (codes "r") (codes "n") numbered)
unfolding get_cseq
responses-Echoes_example =
    responses-Echoes numbered 2048 (codes "v=0") (codes "232.0.0.1") (codes "r") (codes "n") none 1
      2 3 (omega arith) (omega arith)

-- The header lines end behind `response=`: `substr` starts behind the end of the message.
short_response :
    parse_headers_line
      (codes "CSeq: 2\r\nAuthorization: response=")
      (record fresh { method = describe })
    ≡ out_of_range
unfolding parse_headers_line
short_response = refl
