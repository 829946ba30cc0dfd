-- ===== src/RtspResponse/Tests.antt =====
-- The witnesses for the requests of a pusher.
use obs_rtspserver.Prelude.{◌≡◌, refl, true, [], arith, length}
use obs_rtspserver.BufferReader.{BufferReader, readable}
use obs_rtspserver.BufferReader.Queue.{IsValid}
use obs_rtspserver.RtpConnection.{no_transport}
use obs_rtspserver.Text.{codes}
use obs_rtspserver.Text.Decimal.{print_number}
use obs_rtspserver.RtspRequest.{RtspRequest, no_method, parse_request_line_state, returned}
use obs_rtspserver.RtspRequest.Parse.{parse_request}
use obs_rtspserver.RtspResponse.{RtspResponse, no_push, build_option_req}
use obs_rtspserver.RtspResponse.RoundTrip.{IsRead, parse_request-build_option_req}

abbrev new_request : RtspRequest
new_request = record {
  method = no_method;
  channel_id = 0;
  transport = no_transport;
  auth_response = [];
  request_line_param = [];
  header_line_param = [];
  state = parse_request_line_state;
}

abbrev pusher : RtspResponse
pusher = record {
  method = no_push;
  cseq = 0;
  user_agent = codes "-_-";
  rtsp_url = codes "rtsp://10.0.0.1:8554/live";
  session = [];
}

abbrev sent : BufferReader
unfolding build_option_req print_number
sent = record {
  buffer = (build_option_req 2048 pusher).1;
  reader_index = 0;
  writer_index = length (build_option_req 2048 pusher).1;
}

sent-IsValid : IsValid sent
unfolding sent
sent-IsValid = record { reader_le = omega arith; writer_le = omega arith }

parse_request-build_option_req_example :
    (b : BufferReader) × (r : RtspRequest) × (parse_request sent new_request
      ≡ returned (b, r, true))
    × (readable b ≡ [])
    × IsRead 1 (codes "rtsp://10.0.0.1:8554/live") (codes "live") r
unfolding sent build_option_req print_number
parse_request-build_option_req_example =
    parse_request-build_option_req pusher (codes "10.0.0.1") (codes "live") 8554 sent new_request
      refl (omega arith) refl refl (omega arith) sent-IsValid refl refl refl refl
