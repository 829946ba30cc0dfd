-- ===== src/RtspConnection/Tests.antt =====
-- A client that has not been authenticated, and the witnesses.
use obs_rtspserver.Prelude.{
  ℕ, ◌+◌, ◌≡◌, refl, arith, inl, Bool, true, false, Option, none, some, List, [], ◌∷◌, length,
}
use obs_rtspserver.BufferReader.{BufferReader}
use obs_rtspserver.DigestAuthentication.{DigestAuthentication}
use obs_rtspserver.RtpConnection.{no_transport, rtp_connection_new}
use obs_rtspserver.RtspRequest.{
  RtspRequest, options, describe, setup, play, teardown, no_method, parse_request_line_state,
  Outcome, returned, stack_overrun, out_of_range,
}
use obs_rtspserver.RtspServer.{RtspServer}
use obs_rtspserver.RtspResponse.{RtspResponse, no_push}
use obs_rtspserver.RtspConnection.{RtspConnection, Environment, rtsp_connection_new, is_answered}
use obs_rtspserver.RtspConnection.Commands.{World}
use obs_rtspserver.RtspConnection.Read.{run_command, on_read}
use obs_rtspserver.RtspConnection.Guard.{
  IsLocked, StaysLocked, Unanswered, stop, read, Unanswered-StaysLocked,
}
use obs_rtspserver.RtspConnection.Answers.{AnswersOnce, run_command-AnswersOnce}
use obs_rtspserver.RtspConnection.Undescribed.{
  run_requests, count_answers, IsUndescribed, run_requests-unanswered,
}
use obs_rtspserver.RtspConnection.Ready.{HasRtp, run_command-HasRtp}
use obs_rtspserver.Text.{codes}

abbrev digest : DigestAuthentication
digest = record { realm = codes "r"; username = codes "u"; password = codes "p" }

abbrev idle_request : RtspRequest
idle_request = record {
  method = no_method;
  channel_id = 0;
  transport = no_transport;
  auth_response = [];
  request_line_param = [];
  header_line_param = [];
  state = parse_request_line_state;
}

abbrev idle_response : RtspResponse
idle_response = record { method = no_push; cseq = 0; user_agent = []; rtsp_url = []; session = [] }

abbrev client : Option DigestAuthentication → RtspConnection
unfolding rtsp_connection_new
client auth = rtsp_connection_new 5 auth idle_request idle_response

abbrev env : Environment
unfolding rtp_connection_new
env = record {
  md5 = λ t. t;
  timestamp = 3;
  rd = 4;
  is_ipv6 = false;
  draws = λ n. [];
  get_sdp_message = λ m. [];
  multicast_rtp_connection = λ m. rtp_connection_new [];
  rtp_session_id = 70000;
  is_peer_known = true;
  attempt = λ n. (n, true, true);
}

abbrev describe_text : List ℕ
describe_text =
    codes "DESCRIBE rtsp://10.0.0.1/live RTSP/1.0\r\nCSeq: 2\r\nAccept: application/sdp\r\n\r\n"

abbrev arrived : BufferReader
arrived = record { buffer = describe_text; reader_index = 0; writer_index = length describe_text }

abbrev left_by : Outcome (BufferReader × World × Bool) → World → World
left_by (returned (b, w, ok)) old = w
left_by stack_overrun old = old
left_by out_of_range old = old

client-IsLocked : IsLocked digest (client (some digest))
unfolding client
client-IsLocked = record {
  not_auth = refl;
  asks = refl;
  no_rtp = refl;
  no_session = refl;
  not_playing = refl;
}

-- What DESCRIBE without a digest leaves: one message has been sent.
abbrev asked : World
unfolding on_read client env
asked = left_by (on_read env arrived (none, client (some digest))) (none, client (some digest))

asked_once : length asked.1.sent ≡ 1
unfolding asked
asked_once = refl

describe_run : Unanswered digest (none, client (some digest)) asked
unfolding asked client is_answered
describe_run = read env arrived _ true (λ b r ok e. refl) refl stop

Unanswered-StaysLocked_example : StaysLocked digest none asked
Unanswered-StaysLocked_example =
    Unanswered-StaysLocked digest none (client (some digest)) asked client-IsLocked describe_run

run_command-AnswersOnce_example :
    AnswersOnce (client none) (run_command env options (none, client none)).1
run_command-AnswersOnce_example = run_command-AnswersOnce env options none (client none) refl

-- A client that plays at once, and one that sets up.
abbrev eager : List (Environment × Option RtspServer × RtspRequest)
eager =
    (env, none, record idle_request { method = play })
    ∷ (env, none, record idle_request { method = setup })
    ∷ (env, none, record idle_request { method = teardown })
    ∷ []

run_requests-unanswered_example :
    IsUndescribed (run_requests eager (client none))
    × (length (run_requests eager (client none)).sent
        ≡ length (client none).sent + count_answers eager)
unfolding client
run_requests-unanswered_example =
    run_requests-unanswered eager (client none) (refl, refl, refl)
      ((λ e. ground (arith, e)), ((λ e. ground (arith, e)), ((λ e. ground (arith, e)), tt)))

run_command-HasRtp_example : HasRtp (run_command env describe (none, client none)).1
unfolding client
run_command-HasRtp_example = run_command-HasRtp env describe none (client none) (inl refl)
