-- ===== src/RtspConnection/Commands.antt =====
-- rtsp-server/xop/RtspConnection.cpp: the commands that a client sends.
use obs_rtspserver.Prelude.{
  ℕ, ◌%◌, Bool, true, false, Option, none, some, List, [], ◌∷◌, ◌==◌, if◌then◌else◌,
}
use obs_rtspserver.RtpConnection.{
  TransportMode, rtp_over_tcp, rtp_over_udp, rtp_over_multicast, RtpConnection, channel_at,
  setup_rtp_over_tcp, setup_rtp_over_udp, teardown, play,
}
use obs_rtspserver.RtspRequest.{
  get_rtsp_url_suffix, get_rtp_channel, get_rtcp_channel, get_rtp_port, get_rtcp_port,
}
use obs_rtspserver.RtspRequest.Respond.{
  build_option_res, build_describe_res, build_setup_multicast_res, build_setup_udp_res,
  build_setup_tcp_res, build_play_res, build_teardown_res, build_get_paramter_res,
  build_not_found_res, build_server_error_res, build_unsupported_res,
}
use obs_rtspserver.RtspServer.{
  Session, RtspServer, look_suffix, look_media_session, get_multicast_ip, get_multicast_port,
}
use obs_rtspserver.RtspConnection.{
  RtspConnection, Environment, start_play, send, handle_authentication, join_session, take_sources,
  add_session_client,
}

-- The server, if it is still there, and the connection.
abbrev pub World : Type 0
World = Option RtspServer × RtspConnection

-- `GetRtpSessionId`, which the code keeps in 16 bits.
abbrev pub rtp_session_id : Environment → ℕ
rtp_session_id env = env.rtp_session_id % 65536

unfoldable pub handle_cmd_option : RtspConnection → RtspConnection
unfolding build_option_res
handle_cmd_option c = send (build_option_res 2048 c.request) c

-- The body of a command that needs authentication.
unfoldable pub authenticated : Environment → (RtspConnection → World) → World → World
unfolding handle_authentication
authenticated env body (server, c) =
    let (c', ok) = handle_authentication env c in if ok then body c' else (server, c')

-- `rtp_conn_`, which is made when there is none.
abbrev pub rtp_of : Environment → Session → Option RtpConnection → RtpConnection
unfolding join_session
rtp_of env m none = join_session env m
rtp_of env m (some rtp) = rtp

-- The response to DESCRIBE, for the description of the session.
unfoldable pub answer_describe : List ℕ → RtspConnection → RtspConnection
unfolding build_describe_res build_server_error_res
answer_describe [] c = send (build_server_error_res 4096 c.request) c
answer_describe (x ∷ xs) c = send (build_describe_res 4096 (x ∷ xs) c.request) c

-- `HandleCmdDescribe` where the session has been found.
unfoldable pub describe_session : Environment → RtspServer → Session → RtspConnection → World
unfolding join_session take_sources add_session_client answer_describe
describe_session env s m c =
    let c' = record c {
      session_id = m.session_id;
      rtp_conn = some (take_sources m m.max_channel_count (rtp_of env m c.rtp_conn));
    } in
    (some (add_session_client m.session_id c.socket s), answer_describe (env.get_sdp_message m) c')

-- The session that has the URL's suffix.
abbrev pub described : RtspConnection → Option RtspServer → Option (RtspServer × Session)
unfolding look_suffix get_rtsp_url_suffix
described c none = none
described c (some s) = elim (look_suffix (get_rtsp_url_suffix c.request) s) [
  | none ↦ none
  | some m ↦ some (s, m)
]

unfoldable pub describe_body : Environment → Option RtspServer → RtspConnection → World
unfolding look_suffix get_rtsp_url_suffix describe_session build_not_found_res
describe_body env server c = elim (described c server) [
  | none ↦ (server, send (build_not_found_res 4096 c.request) c)
  | some (s, m) ↦ describe_session env s m c
]

unfoldable pub handle_cmd_describe : Environment → World → World
unfolding authenticated describe_body
handle_cmd_describe env (server, c) = authenticated env (describe_body env server) (server, c)

abbrev pub server_error : RtspConnection → RtspConnection
unfolding build_server_error_res
server_error c = send (build_server_error_res 4096 c.request) c

abbrev pub transport_unsupport : RtspConnection → RtspConnection
unfolding build_unsupported_res
transport_unsupport c = send (build_unsupported_res 4096 c.request) c

-- SETUP of a session that is multicast.
unfoldable pub setup_multicast :
    Environment → Session → RtpConnection → TransportMode → RtspConnection → RtspConnection
unfolding get_multicast_ip get_multicast_port build_setup_multicast_res build_unsupported_res
    build_server_error_res
setup_multicast env m rtp rtp_over_multicast c =
    if (channel_at rtp c.request.channel_id).is_setup
    then send
        (build_setup_multicast_res 4096 (get_multicast_ip env.is_ipv6 m)
          (get_multicast_port c.request.channel_id m) (rtp_session_id env) c.request)
        c
    else server_error c
setup_multicast env m rtp mode c = transport_unsupport c

-- SETUP of a session that is not.
unfoldable pub setup_unicast :
    Environment → RtpConnection → TransportMode → RtspConnection → RtspConnection
unfolding get_rtp_channel get_rtcp_channel get_rtp_port get_rtcp_port setup_rtp_over_tcp
    setup_rtp_over_udp build_setup_tcp_res build_setup_udp_res build_unsupported_res
    build_server_error_res
setup_unicast env rtp rtp_over_tcp c =
    let rtp_channel = get_rtp_channel c.request in
    let rtcp_channel = get_rtcp_channel c.request in
    send (build_setup_tcp_res 4096 rtp_channel rtcp_channel (rtp_session_id env) c.request)
      (record c {
        rtp_conn =
            some (setup_rtp_over_tcp true c.request.channel_id rtp_channel rtcp_channel rtp).0;
      })
setup_unicast env rtp rtp_over_udp c =
    let (rtp', ok) =
      setup_rtp_over_udp true env.is_peer_known env.attempt c.request.channel_id
        (get_rtp_port c.request) (get_rtcp_port c.request) rtp in
    let ch = channel_at rtp' c.request.channel_id in
    let c' = record c { rtp_conn = some rtp' } in
    if ok
    then send
        (build_setup_udp_res 4096 ch.local_rtp_port ch.local_rtcp_port (rtp_session_id env)
          c.request)
        (record c' { rtcp_channels = c.request.channel_id ∷ c.rtcp_channels })
    else server_error c'
setup_unicast env rtp mode c = transport_unsupport c

-- The session of the connection, if it has one.
abbrev pub joined : RtspConnection → Option RtspServer → Option Session
unfolding look_media_session
joined c none = none
joined c (some s) = if c.session_id == 0 then none else look_media_session c.session_id s

-- Whether SETUP of a session that is multicast, or not, reads `rtp_conn_` for this transport.
abbrev pub reads_rtp_conn : Bool → TransportMode → Bool
reads_rtp_conn true rtp_over_multicast = true
reads_rtp_conn true mode = false
reads_rtp_conn false rtp_over_tcp = true
reads_rtp_conn false rtp_over_udp = true
reads_rtp_conn false mode = false

-- `rtp_conn_` is dereferenced without a test. Where that is a null pointer, the code has no result, and
-- the connection is left as it is here; any other transport is refused as always.
abbrev pub setup_session :
    Environment → Session → Option RtpConnection → RtspConnection → RtspConnection
unfolding setup_multicast setup_unicast build_unsupported_res
setup_session env m none c =
    if reads_rtp_conn m.is_multicast c.request.transport then c else transport_unsupport c
setup_session env m (some rtp) c =
    if m.is_multicast
    then setup_multicast env m rtp c.request.transport c
    else setup_unicast env rtp c.request.transport c

-- SETUP, for the session of the connection.
unfoldable pub setup_joined : Environment → RtspConnection → Option Session → RtspConnection
unfolding setup_multicast setup_unicast build_server_error_res
setup_joined env c none = server_error c
setup_joined env c (some m) = setup_session env m c.rtp_conn c

unfoldable pub setup_body : Environment → Option RtspServer → RtspConnection → World
unfolding look_media_session setup_joined
setup_body env server c = (server, setup_joined env c (joined c server))

unfoldable pub handle_cmd_setup : Environment → World → World
unfolding authenticated setup_body
handle_cmd_setup env (server, c) = authenticated env (setup_body env server) (server, c)

-- `HandleCmdPlay` behind the authentication, for the connection's `rtp_conn_`.
unfoldable pub play_rtp :
    Environment → Option RtspServer → RtspConnection → Option RtpConnection → World
unfolding play build_play_res
play_rtp env server c none = (server, c)
play_rtp env server c (some rtp) = (
  server,
  send (build_play_res 2048 none (rtp_session_id env) c.request)
      (record c { conn_state = start_play; rtp_conn = some (play rtp) }),
)

abbrev pub play_body : Environment → Option RtspServer → RtspConnection → World
unfolding play_rtp
play_body env server c = play_rtp env server c c.rtp_conn

unfoldable pub handle_cmd_play : Environment → World → World
unfolding authenticated play_rtp
handle_cmd_play env (server, c) = authenticated env (play_body env server) (server, c)

unfoldable pub teardown_rtp : Environment → RtspConnection → Option RtpConnection → RtspConnection
unfolding teardown build_teardown_res
teardown_rtp env c none = c
teardown_rtp env c (some rtp) =
    send (build_teardown_res 2048 (rtp_session_id env) c.request)
      (record c { rtp_conn = some (teardown rtp) })

unfoldable pub handle_cmd_teardown : Environment → RtspConnection → RtspConnection
unfolding teardown_rtp
handle_cmd_teardown env c = teardown_rtp env c c.rtp_conn

unfoldable pub get_paramter_rtp :
    Environment → RtspConnection → Option RtpConnection → RtspConnection
unfolding build_get_paramter_res
get_paramter_rtp env c none = c
get_paramter_rtp env c (some rtp) =
    send (build_get_paramter_res 2048 (rtp_session_id env) c.request) c

unfoldable pub handle_cmd_get_paramter : Environment → RtspConnection → RtspConnection
unfolding get_paramter_rtp
handle_cmd_get_paramter env c = get_paramter_rtp env c c.rtp_conn
