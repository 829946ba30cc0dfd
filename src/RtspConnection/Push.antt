-- ===== src/RtspConnection/Push.antt =====
-- rtsp-server/xop/RtspConnection.cpp: the connection of a pusher.
use obs_rtspserver.Prelude.{
  ℕ, zero, suc, ◌+◌, ◌*◌, ◌%◌, Bool, true, false, not, Option, none, some, List, [], ◌∷◌,
  if◌then◌else◌,
}
use obs_rtspserver.BufferReader.{BufferReader}
use obs_rtspserver.RtpConnection.{RtpConnection, channel_at, setup_rtp_over_tcp, start_record}
use obs_rtspserver.RtspRequest.{Outcome, returned, stack_overrun, out_of_range}
use obs_rtspserver.RtspResponse.{
  PushMethod, push_options, push_describe, push_announce, push_setup, push_record, push_rtcp,
  no_push, RtspResponse, set_user_agent, set_rtsp_url, parse_response, build_option_req,
  build_announce_req, build_describe_req, build_setup_tcp_req, build_record_req,
}
use obs_rtspserver.RtspServer.{Session, RtspServer, look_media_session, get_media_source}
use obs_rtspserver.RtspConnection.{
  RtspConnection, Environment, ConnectionMode, start_push, send, join_session, take_sources,
  add_session_client,
}
use obs_rtspserver.RtspConnection.Commands.{World}
use obs_rtspserver.Text.{codes}

abbrev close : RtspConnection → RtspConnection
close c = record c { is_closing = true }

abbrev with_response : RtspResponse × List ℕ → RtspConnection → RtspConnection
with_response (r, t) c = send t (record c { response = r })

abbrev session_one : Option RtspServer → ℕ → Option Session
unfolding look_media_session
session_one none id = none
session_one (some s) id = look_media_session id s

-- `SendOptions`, to the server at `url`; the result is `none` where there is no session 1, whose null
-- pointer is used when there is no `rtp_conn_` yet.
unfoldable pub send_options : Environment → ConnectionMode → List ℕ → World → Option World
unfolding join_session set_user_agent set_rtsp_url build_option_req look_media_session
send_options env mode url (none, c) = some (none, close c)
send_options env mode url (some s, c) = elim c.rtp_conn [
  | some rtp ↦ some (some s, options_sent rtp)
  | none ↦ elim (look_media_session 1 s) [
    | none ↦ none
    | some m ↦ some (some s, options_sent (join_session env m))
  ]
]
  where
    options_sent : RtpConnection → RtspConnection
    options_sent rtp =
        with_response
          (build_option_req 2048 (set_rtsp_url url (set_user_agent (codes "-_-") c.response)))
          (record c { rtp_conn = some rtp; conn_mode = mode })

-- `SendAnnounce`
unfoldable pub send_announce : Environment → World → World
unfolding look_media_session take_sources add_session_client build_announce_req
send_announce env (none, c) = (none, close c)
send_announce env (some s, c) = elim (look_media_session 1 s) [
  | none ↦ (some s, close c)
  | some m ↦ (
    some (add_session_client m.session_id c.socket s),
    announced m (record c { session_id = m.session_id; rtp_conn = with_sources m c.rtp_conn }),
  )
]
  where
    with_sources : Session → Option RtpConnection → Option RtpConnection
    with_sources m none = none
    with_sources m (some rtp) = some (take_sources m m.max_channel_count rtp)

    announced : Session → RtspConnection → RtspConnection
    announced m c = elim (env.get_sdp_message m) [
      | [] ↦ close c
      | ◌∷◌ x xs ↦ with_response (build_announce_req 4096 (x ∷ xs) c.response) c
    ]

unfoldable pub send_describe : RtspConnection → RtspConnection
unfolding build_describe_req
send_describe c = with_response (build_describe_req 2048 c.response) c

-- `GetMediaSource(chn) && !IsSetup(chn)`
unfoldable pub needs_setup : Session → ℕ → RtpConnection → Bool
unfolding get_media_source
needs_setup m chn rtp = elim (get_media_source chn m) [
  | none ↦ false
  | some source ↦ not (channel_at rtp chn).is_setup
]

-- The loop of `SendSetup` over the channels, from 0 on; every round writes its request over that of
-- the round before.
unfoldable pub setup_rounds :
    Session → ℕ → RtpConnection × RtspResponse × List ℕ → RtpConnection × RtspResponse × List ℕ
unfolding needs_setup setup_rtp_over_tcp build_setup_tcp_req build_record_req
setup_rounds m zero p = p
setup_rounds m (suc chn) p =
    let (rtp, response, t) = setup_rounds m chn p in
    let (set_up, asked) = build_setup_tcp_req 2048 chn response in
    let (recorded, started) = build_record_req 2048 response in
    if needs_setup m chn rtp
    then ((setup_rtp_over_tcp true chn (chn * 2 % 256) ((chn * 2 + 1) % 256) rtp).0, set_up, asked)
    else (rtp, recorded, started)

-- `SendSetup`; without an `rtp_conn_`, which `SendOptions` has made, nothing is said here.
unfoldable pub send_setup : World → World
unfolding look_media_session setup_rounds
send_setup (server, c) = elim (session_one server c.session_id) [
  | none ↦ (server, close c)
  | some m ↦ (
    server,
    elim c.rtp_conn [
      | none ↦ c
      | some rtp ↦
          (let (rtp', response, t) = setup_rounds m m.max_channel_count (rtp, c.response, []) in
            send t (record c { rtp_conn = some rtp'; response = response }))
    ],
  )
]

unfoldable pub handle_record : RtspConnection → RtspConnection
unfolding start_record
handle_record c = record c {
  conn_state = start_push;
  rtp_conn = elim c.rtp_conn [ none ↦ none | some rtp ↦ some (start_record rtp) ];
}

-- The `switch` over the request that the response answers.
unfoldable pub run_response : Environment → PushMethod → World → World
unfolding send_announce send_setup handle_record
run_response env push_options w = send_announce env w
run_response env push_announce w = send_setup w
run_response env push_describe w = send_setup w
run_response env push_setup w = send_setup w
run_response env push_record (server, c) = (server, handle_record c)
run_response env push_rtcp w = w
run_response env no_push w = w

-- `HandleRtspResponse` of a pusher; `gap` is as in `ParseResponse`.
unfoldable pub handle_rtsp_response :
    Environment → ℕ → BufferReader → World → Outcome (BufferReader × World × Bool)
unfolding parse_response run_response
handle_rtsp_response env gap b (server, c) = elim (parse_response gap b c.response) [
  | returned (b', response, ok) ↦ returned (
    b',
    if ok
        then run_response env response.method (server, record c { response = response })
        else (server, record c { response = response }),
    ok,
  )
  | stack_overrun ↦ stack_overrun
  | out_of_range ↦ out_of_range
]
