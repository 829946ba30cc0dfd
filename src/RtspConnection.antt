-- ===== src/RtspConnection.antt =====
-- rtsp-server/xop/RtspConnection.cpp: the state of a connection, and what it sends. The child modules
-- have the commands of a server and those of a pusher.
mod Tests
pub mod Commands
pub mod Read
pub mod Push
pub mod Guard
pub mod Answers
pub mod Undescribed
pub mod Ready
use obs_rtspserver.Prelude.{
  ℕ, zero, suc, ◌+◌, ◌%◌, Bool, true, false, not, ◌&&◌, Option, none, some, List, [], ◌∷◌, ◌++◌,
  map, set, if◌then◌else◌,
}
use obs_rtspserver.DigestAuthentication.{DigestAuthentication, get_nonce, get_response}
use obs_rtspserver.MediaSession.{MediaSession, add_client}
use obs_rtspserver.RtpConnection.{RtpConnection, channel_at, with_channel, rtp_connection_new}
use obs_rtspserver.RtspRequest.{RtspRequest, method_text, get_rtsp_url}
use obs_rtspserver.RtspRequest.Respond.{build_unauthorized_res}
use obs_rtspserver.RtspResponse.{RtspResponse}
use obs_rtspserver.RtspServer.{Session, Source, RtspServer, same_id, get_media_source}
use obs_rtspserver.Text.{equal_text}

pub data ConnectionMode : Type 0 where
  rtsp_server_mode rtsp_pusher_mode : ConnectionMode

pub data ConnectionState : Type 0 where
  start_connect start_play start_push : ConnectionState

-- `sent` has the messages that have been given to `Send`, `is_closing` says whether `HandleClose` has
-- been called, and `rtcp_channels` has the numbers of the channels with an RTCP socket.
pub record RtspConnection : Type 0 where
  pub socket : ℕ
  pub alive_count : ℕ
  pub conn_mode : ConnectionMode
  pub conn_state : ConnectionState
  pub session_id : ℕ
  pub has_auth : Bool
  pub nonce : List ℕ
  pub auth_info : Option DigestAuthentication
  pub rtcp_channels : List ℕ
  pub request : RtspRequest
  pub response : RtspResponse
  pub rtp_conn : Option RtpConnection
  pub sent : List (List ℕ)
  pub is_closing : Bool

-- What a call takes from outside: the hash, the clock and the random numbers, the description of a
-- session, the multicast connections, the low bits of the RTP connection's address, and the peer and
-- the sockets for UDP.
pub record Environment : Type 0 where
  pub md5 : List ℕ → List ℕ
  pub timestamp : ℕ
  pub rd : ℕ
  pub is_ipv6 : Bool
  pub draws : ℕ → List (ℕ × ℕ × ℕ)
  pub get_sdp_message : Session → List ℕ
  pub multicast_rtp_connection : Session → RtpConnection
  pub rtp_session_id : ℕ
  pub is_peer_known : Bool
  pub attempt : ℕ → ℕ × Bool × Bool

-- The constructor, for a server with or without `has_auth_info_`.
unfoldable pub rtsp_connection_new :
    ℕ → Option DigestAuthentication → RtspRequest → RtspResponse → RtspConnection
rtsp_connection_new socket auth request response = record {
  socket = socket;
  alive_count = 1;
  conn_mode = rtsp_server_mode;
  conn_state = start_connect;
  session_id = 0;
  has_auth = elim auth [ none ↦ true | some d ↦ false ];
  nonce = [];
  auth_info = auth;
  rtcp_channels = [];
  request = request;
  response = response;
  rtp_conn = none;
  sent = [];
  is_closing = false;
}

-- `SendRtspMessage`
abbrev pub send : List ℕ → RtspConnection → RtspConnection
send t c = record c { sent = c.sent ++ (t ∷ []) }

-- `nonce_` is not empty and the client has answered to it.
unfoldable pub is_answered : Environment → DigestAuthentication → RtspConnection → Bool
unfolding get_response method_text get_rtsp_url
is_answered env d c =
    not (equal_text c.nonce [])
    && equal_text
        (get_response env.md5 d c.nonce (method_text c.request.method) (get_rtsp_url c.request))
        c.request.auth_response

-- `HandleAuthentication`
unfoldable pub handle_authentication : Environment → RtspConnection → RtspConnection × Bool
unfolding is_answered get_nonce build_unauthorized_res
handle_authentication env c = elim c.auth_info [
  | none ↦ (c, true)
  | some d ↦
      if c.has_auth
      then (c, true)
      else if is_answered env d c
      then (record c { nonce = []; has_auth = true }, true)
      else (
        (let nonce = get_nonce env.md5 env.timestamp env.rd in
            send (build_unauthorized_res 4096 d.realm nonce c.request)
              (record c { nonce = nonce })),
        false,
      )
]

-- A new `RtpConnection`, or the one of the session's multicast.
unfoldable pub join_session : Environment → Session → RtpConnection
unfolding rtp_connection_new
join_session env m =
    if m.is_multicast
    then env.multicast_rtp_connection m
    else rtp_connection_new (env.draws m.max_channel_count)

-- `SetPayloadType`; the clock rate, which nothing reads, is not kept.
unfoldable pub set_payload_type : ℕ → ℕ → RtpConnection → RtpConnection
set_payload_type channel payload rtp =
    with_channel rtp channel (record (channel_at rtp channel) { payload_type = payload })

-- The loop over the sources of the session, from channel 0 on.
unfoldable pub take_sources : Session → ℕ → RtpConnection → RtpConnection
unfolding set_payload_type get_media_source
take_sources m zero rtp = rtp
take_sources m (suc chn) rtp =
    let rtp' = take_sources m chn rtp in
    elim (get_media_source chn m) [
      | none ↦ rtp'
      | some source ↦ set_payload_type chn source.payload_type rtp'
    ]

-- The session with that number gets a client.
abbrev pub with_client : ℕ → ℕ × Session → ℕ × Session
unfolding add_client
with_client fd (id, m) = (id, record m { media = (add_client fd m.media).0 })

unfoldable pub add_session_client : ℕ → ℕ → RtspServer → RtspServer
unfolding add_client
add_session_client id fd s = record s {
  media_sessions = map (λ e. if same_id e.0 id then with_client fd e else e) s.media_sessions;
}
