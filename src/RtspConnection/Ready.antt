-- ===== src/RtspConnection/Ready.antt =====
-- A connection with a session has an RTP connection, so that `rtp_conn_` is never null where SETUP uses
-- it.
use obs_rtspserver.Prelude.{
  ℕ, ◌≡◌, refl, ◌⊎◌, inl, inr, true, Option, none, some, List, [], ◌∷◌, Bool-cases, Option-cases,
}
use obs_rtspserver.RtpConnection.{
  TransportMode, no_transport, rtp_over_tcp, rtp_over_udp, rtp_over_multicast, RtpConnection,
  channel_at, setup_rtp_over_udp,
}
use obs_rtspserver.RtspRequest.{
  Method, options, describe, setup, play, teardown, get_parameter, rtcp, no_method, get_rtp_port,
  get_rtcp_port,
}
use obs_rtspserver.RtspServer.{Session, RtspServer}
use obs_rtspserver.RtspConnection.{
  RtspConnection, Environment, handle_authentication, is_answered, take_sources,
}
use obs_rtspserver.RtspConnection.Commands.{
  World, authenticated, answer_describe, rtp_of, described, describe_session, describe_body, joined,
  reads_rtp_conn, setup_session, setup_joined, setup_multicast, setup_unicast, setup_body, play_rtp,
  play_body, teardown_rtp, get_paramter_rtp, handle_cmd_option, handle_cmd_describe,
  handle_cmd_setup, handle_cmd_play, handle_cmd_teardown, handle_cmd_get_paramter,
}
use obs_rtspserver.RtspConnection.Read.{run_command}

abbrev pub HasRtp : RtspConnection → Type 0
HasRtp c = (c.session_id ≡ 0) ⊎ ((rtp : RtpConnection) × (c.rtp_conn ≡ some rtp))

handle_authentication-HasRtp :
    (env : Environment) (c : RtspConnection) → HasRtp c → HasRtp (handle_authentication env c).0
unfolding handle_authentication
handle_authentication-HasRtp env c h = elim (Option-cases c.auth_info) [
  | inl e ↦ rw (e, handle_authentication) h
  | inr (d, e) ↦ elim (Bool-cases c.has_auth) [
    | inl t ↦ rw (e, handle_authentication, t) h
    | inr t ↦ elim (Bool-cases (is_answered env d c)) [
      | inl u ↦ rw (e, handle_authentication, t, u) h
      | inr u ↦ rw (e, handle_authentication, t, u) h
    ]
  ]
]

authenticated-HasRtp :
    (env : Environment) (body : RtspConnection → World) (server : Option RtspServer)
    (c : RtspConnection)
    → HasRtp c
    → ((c' : RtspConnection) → HasRtp c' → HasRtp (body c').1)
    → HasRtp (authenticated env body (server, c)).1
unfolding authenticated
authenticated-HasRtp env body server c h keeps = elim (Bool-cases (handle_authentication env c).1) [
  | inl t ↦ rw t (keeps (handle_authentication env c).0 (handle_authentication-HasRtp env c h))
  | inr t ↦ rw t (handle_authentication-HasRtp env c h)
]

answer_describe-HasRtp :
    (sdp : List ℕ) (c : RtspConnection) → HasRtp c → HasRtp (answer_describe sdp c)
unfolding answer_describe
answer_describe-HasRtp [] c h = h
answer_describe-HasRtp (x ∷ xs) c h = h

describe_body-HasRtp :
    (env : Environment) (server : Option RtspServer) (c : RtspConnection)
    → HasRtp c
    → HasRtp (describe_body env server c).1
unfolding describe_body describe_session
describe_body-HasRtp env server c h = elim (Option-cases (described c server)) [
  | inl e ↦ rw (e, describe_body) h
  | inr ((s, m), e) ↦
      rw (e, describe_body)
        (answer_describe-HasRtp (env.get_sdp_message m)
          (record c {
            session_id = m.session_id;
            rtp_conn = some (take_sources m m.max_channel_count (rtp_of env m c.rtp_conn));
          })
          (inr (_, refl)))
]

setup_multicast-HasRtp :
    (env : Environment) (m : Session) (rtp : RtpConnection) (mode : TransportMode)
    (c : RtspConnection)
    → HasRtp c
    → HasRtp (setup_multicast env m rtp mode c)
unfolding setup_multicast
setup_multicast-HasRtp env m rtp rtp_over_multicast c h =
    elim (Bool-cases (channel_at rtp c.request.channel_id).is_setup) [
      | inl t ↦ rw (t, setup_multicast) h
      | inr t ↦ rw (t, setup_multicast) h
    ]
setup_multicast-HasRtp env m rtp no_transport c h = h
setup_multicast-HasRtp env m rtp rtp_over_tcp c h = h
setup_multicast-HasRtp env m rtp rtp_over_udp c h = h

setup_unicast-HasRtp :
    (env : Environment) (rtp : RtpConnection) (mode : TransportMode) (c : RtspConnection)
    → HasRtp c
    → HasRtp (setup_unicast env rtp mode c)
unfolding setup_unicast
setup_unicast-HasRtp env rtp rtp_over_tcp c h = inr (_, refl)
setup_unicast-HasRtp env rtp rtp_over_udp c h =
    elim (Bool-cases
      (setup_rtp_over_udp true env.is_peer_known env.attempt c.request.channel_id
        (get_rtp_port c.request) (get_rtcp_port c.request) rtp).1) [
          | inl t ↦ rw (t, setup_unicast) (inr (_, refl))
          | inr t ↦ rw (t, setup_unicast) (inr (_, refl))
        ]
setup_unicast-HasRtp env rtp rtp_over_multicast c h = h
setup_unicast-HasRtp env rtp no_transport c h = h

setup_session-HasRtp :
    (env : Environment) (m : Session) (o : Option RtpConnection) (c : RtspConnection)
    → HasRtp c
    → HasRtp (setup_session env m o c)
unfolding setup_joined
setup_session-HasRtp env m none c h =
    elim (Bool-cases (reads_rtp_conn m.is_multicast c.request.transport)) [
      | inl t ↦ rw t h
      | inr t ↦ rw t h
    ]
setup_session-HasRtp env m (some rtp) c h = elim (Bool-cases m.is_multicast) [
  | inl t ↦ rw t (setup_multicast-HasRtp env m rtp c.request.transport c h)
  | inr t ↦ rw t (setup_unicast-HasRtp env rtp c.request.transport c h)
]

setup_joined-HasRtp :
    (env : Environment) (c : RtspConnection) (o : Option Session)
    → HasRtp c
    → HasRtp (setup_joined env c o)
unfolding setup_joined
setup_joined-HasRtp env c none h = h
setup_joined-HasRtp env c (some m) h = setup_session-HasRtp env m c.rtp_conn c h

play_rtp-HasRtp :
    (env : Environment) (server : Option RtspServer) (c : RtspConnection) (o : Option RtpConnection)
    → HasRtp c
    → HasRtp (play_rtp env server c o).1
unfolding play_rtp
play_rtp-HasRtp env server c none h = h
play_rtp-HasRtp env server c (some rtp) h = inr (_, refl)

teardown_rtp-HasRtp :
    (env : Environment) (c : RtspConnection) (o : Option RtpConnection)
    → HasRtp c
    → HasRtp (teardown_rtp env c o)
unfolding teardown_rtp
teardown_rtp-HasRtp env c none h = h
teardown_rtp-HasRtp env c (some rtp) h = inr (_, refl)

get_paramter_rtp-HasRtp :
    (env : Environment) (c : RtspConnection) (o : Option RtpConnection)
    → HasRtp c
    → HasRtp (get_paramter_rtp env c o)
unfolding get_paramter_rtp
get_paramter_rtp-HasRtp env c none h = h
get_paramter_rtp-HasRtp env c (some rtp) h = h

-- Every command keeps this: the connection has no session, or it has an RTP connection.
pub run_command-HasRtp :
    (env : Environment) (m : Method) (server : Option RtspServer) (c : RtspConnection)
    → HasRtp c
    → HasRtp (run_command env m (server, c)).1
unfolding run_command handle_cmd_option handle_cmd_describe handle_cmd_setup handle_cmd_play
    handle_cmd_teardown handle_cmd_get_paramter setup_body
run_command-HasRtp env options server c h = h
run_command-HasRtp env describe server c h =
    authenticated-HasRtp env (describe_body env server) server c h (describe_body-HasRtp env server)
run_command-HasRtp env setup server c h =
    authenticated-HasRtp env (setup_body env server) server c h
      (λ c' h'. setup_joined-HasRtp env c' (joined c' server) h')
run_command-HasRtp env play server c h =
    authenticated-HasRtp env (play_body env server) server c h
      (λ c' h'. play_rtp-HasRtp env server c' c'.rtp_conn h')
run_command-HasRtp env teardown server c h = teardown_rtp-HasRtp env c c.rtp_conn h
run_command-HasRtp env get_parameter server c h = get_paramter_rtp-HasRtp env c c.rtp_conn h
run_command-HasRtp env rtcp server c h = h
run_command-HasRtp env no_method server c h = h
