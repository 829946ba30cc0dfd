-- ===== src/RtspConnection/Answers.antt =====
-- How many responses a command gets.
use obs_rtspserver.Prelude.{
  ℕ, ◌≡◌, refl, sym, ap, ◌∙◌, ◌⊎◌, inl, inr, true, false, Option, none, some, List, [], ◌∷◌, ◌++◌,
  if◌then◌else◌, Bool-cases, Option-cases, ◌==◌, subst,
}
use obs_rtspserver.RtpConnection.{
  TransportMode, no_transport, rtp_over_tcp, rtp_over_udp, rtp_over_multicast, RtpConnection,
  channel_at, setup_rtp_over_udp,
}
use obs_rtspserver.RtspRequest.{
  Method, options, describe, setup, play, teardown, get_parameter, rtcp, no_method, get_rtp_port,
  get_rtcp_port,
}
use obs_rtspserver.RtspServer.{Session, RtspServer}
use obs_rtspserver.RtspConnection.{
  RtspConnection, Environment, handle_authentication, is_answered, take_sources,
}
use obs_rtspserver.RtspConnection.Commands.{
  World, authenticated, answer_describe, rtp_of, described, describe_session, describe_body, joined,
  setup_session, setup_joined, setup_multicast, setup_unicast, setup_body, play_rtp, play_body,
  teardown_rtp, get_paramter_rtp, handle_cmd_option, handle_cmd_describe, handle_cmd_setup,
  handle_cmd_play, handle_cmd_teardown, handle_cmd_get_paramter,
}
use obs_rtspserver.RtspServer.Agree.{none-some}
use obs_rtspserver.RtspConnection.Read.{run_command}

-- One message more has been sent.
abbrev pub AnswersOnce : RtspConnection → RtspConnection → Type 0
AnswersOnce c c' = (t : List ℕ) × (c'.sent ≡ c.sent ++ (t ∷ []))

-- What the connection needs for a command: an RTP connection, once it has a session.
abbrev pub IsReady : Method → RtspConnection → Type 0
IsReady options c = c ≡ c
IsReady describe c = c ≡ c
IsReady setup c = (c.session_id ≡ 0) ⊎ ((rtp : RtpConnection) × (c.rtp_conn ≡ some rtp))
IsReady play c = (rtp : RtpConnection) × (c.rtp_conn ≡ some rtp)
IsReady teardown c = (rtp : RtpConnection) × (c.rtp_conn ≡ some rtp)
IsReady get_parameter c = (rtp : RtpConnection) × (c.rtp_conn ≡ some rtp)
IsReady rtcp c = ⊥
IsReady no_method c = ⊥

-- The authentication answers itself, or it goes on and has sent nothing.
authentication-cases :
    (env : Environment) (c : RtspConnection)
    → (((handle_authentication env c).1 ≡ false) × AnswersOnce c (handle_authentication env c).0)
      ⊎ (((handle_authentication env c).1 ≡ true)
          × ((handle_authentication env c).0.sent ≡ c.sent)
          × ((handle_authentication env c).0.session_id ≡ c.session_id)
          × ((handle_authentication env c).0.rtp_conn ≡ c.rtp_conn))
unfolding handle_authentication
authentication-cases env c = elim (Option-cases c.auth_info) [
  | inl e ↦ inr (rw (e, handle_authentication) (refl, refl, refl, refl))
  | inr (d, e) ↦ elim (Bool-cases c.has_auth) [
    | inl t ↦ inr (rw (e, handle_authentication, t) (refl, refl, refl, refl))
    | inr t ↦ elim (Bool-cases (is_answered env d c)) [
      | inl u ↦ inr (rw (e, handle_authentication, t, u) (refl, refl, refl, refl))
      | inr u ↦ inl (rw (e, handle_authentication, t, u) (refl, (_, refl)))
    ]
  ]
]

authenticated-AnswersOnce :
    (env : Environment) (body : RtspConnection → World) (server : Option RtspServer)
    (c : RtspConnection)
    → ((c' : RtspConnection)
        → c'.session_id ≡ c.session_id
        → c'.rtp_conn ≡ c.rtp_conn
        → AnswersOnce c' (body c').1)
    → AnswersOnce c (authenticated env body (server, c)).1
unfolding authenticated
authenticated-AnswersOnce env body server c h = elim (authentication-cases env c) [
  | inl (f, a) ↦
      subst
        (λ b.
          AnswersOnce c
            (if b
              then body (handle_authentication env c).0
              else (server, (handle_authentication env c).0)).1)
        (sym f) a
  | inr (t, s, i, r) ↦
      (let (m, e) = h (handle_authentication env c).0 i r in
        subst
          (λ b.
            AnswersOnce c
              (if b
                then body (handle_authentication env c).0
                else (server, (handle_authentication env c).0)).1)
          (sym t) (m, e ∙ ap (λ z. z ++ (m ∷ [])) s))
]

answer_describe-AnswersOnce :
    (sdp : List ℕ) (c : RtspConnection) → AnswersOnce c (answer_describe sdp c)
unfolding answer_describe
answer_describe-AnswersOnce [] c = (_, refl)
answer_describe-AnswersOnce (x ∷ xs) c = (_, refl)

describe_session-AnswersOnce :
    (env : Environment) (s : RtspServer) (m : Session) (c : RtspConnection)
    → AnswersOnce c (describe_session env s m c).1
unfolding describe_session
describe_session-AnswersOnce env s m c =
    answer_describe-AnswersOnce (env.get_sdp_message m) (record c {
      session_id = m.session_id;
      rtp_conn = some (take_sources m m.max_channel_count (rtp_of env m c.rtp_conn));
    })

describe_body-AnswersOnce :
    (env : Environment) (server : Option RtspServer) (c : RtspConnection)
    → AnswersOnce c (describe_body env server c).1
unfolding describe_body
describe_body-AnswersOnce env server c = elim (Option-cases (described c server)) [
  | inl e ↦ rw (e, describe_body) (_, refl)
  | inr ((s, m), e) ↦ rw (e, describe_body) (describe_session-AnswersOnce env s m c)
]

setup_multicast-AnswersOnce :
    (env : Environment) (m : Session) (rtp : RtpConnection) (mode : TransportMode)
    (c : RtspConnection)
    → AnswersOnce c (setup_multicast env m rtp mode c)
unfolding setup_multicast
setup_multicast-AnswersOnce env m rtp rtp_over_multicast c =
    elim (Bool-cases (channel_at rtp c.request.channel_id).is_setup) [
      | inl t ↦ rw (t, setup_multicast) (_, refl)
      | inr t ↦ rw (t, setup_multicast) (_, refl)
    ]
setup_multicast-AnswersOnce env m rtp no_transport c = (_, refl)
setup_multicast-AnswersOnce env m rtp rtp_over_tcp c = (_, refl)
setup_multicast-AnswersOnce env m rtp rtp_over_udp c = (_, refl)

setup_unicast-AnswersOnce :
    (env : Environment) (rtp : RtpConnection) (mode : TransportMode) (c : RtspConnection)
    → AnswersOnce c (setup_unicast env rtp mode c)
unfolding setup_unicast
setup_unicast-AnswersOnce env rtp rtp_over_tcp c = (_, refl)
setup_unicast-AnswersOnce env rtp rtp_over_udp c =
    elim (Bool-cases
      (setup_rtp_over_udp true env.is_peer_known env.attempt c.request.channel_id
        (get_rtp_port c.request) (get_rtcp_port c.request) rtp).1) [
          | inl t ↦ rw (t, setup_unicast) (_, refl)
          | inr t ↦ rw (t, setup_unicast) (_, refl)
        ]
setup_unicast-AnswersOnce env rtp rtp_over_multicast c = (_, refl)
setup_unicast-AnswersOnce env rtp no_transport c = (_, refl)

setup_session-AnswersOnce :
    (env : Environment) (m : Session) (rtp : RtpConnection) (c : RtspConnection)
    → AnswersOnce c (setup_session env m (some rtp) c)
unfolding setup_joined
setup_session-AnswersOnce env m rtp c = elim (Bool-cases m.is_multicast) [
  | inl t ↦ rw t (setup_multicast-AnswersOnce env m rtp c.request.transport c)
  | inr t ↦ rw t (setup_unicast-AnswersOnce env rtp c.request.transport c)
]

setup_joined-AnswersOnce :
    (env : Environment) (c : RtspConnection) (o : Option Session)
    → ((m : Session) → o ≡ some m → (rtp : RtpConnection) × (c.rtp_conn ≡ some rtp))
    → AnswersOnce c (setup_joined env c o)
unfolding setup_joined
setup_joined-AnswersOnce env c none h = (_, refl)
setup_joined-AnswersOnce env c (some m) h =
    let (rtp, e) = h m refl in
    subst (λ z. AnswersOnce c (setup_session env m z c)) (sym e)
      (setup_session-AnswersOnce env m rtp c)

-- Without a session there is nothing to set up.
pub joined-none :
    (c : RtspConnection) (server : Option RtspServer) → c.session_id ≡ 0 → joined c server ≡ none
unfolding setup_body
joined-none c none h = refl
joined-none c (some s) h = let t : (c.session_id == 0) ≡ true = ap (λ z. z == 0) h in rw t refl

setup_body-AnswersOnce :
    (env : Environment) (server : Option RtspServer) (c : RtspConnection)
    → IsReady setup c
    → AnswersOnce c (setup_body env server c).1
unfolding setup_body
setup_body-AnswersOnce env server c (inl i) =
    setup_joined-AnswersOnce env c (joined c server)
      (λ m e. absurd (none-some (joined-none c server i) e))
setup_body-AnswersOnce env server c (inr r) =
    setup_joined-AnswersOnce env c (joined c server) (λ m e. r)

play_rtp-AnswersOnce :
    (env : Environment) (server : Option RtspServer) (c : RtspConnection) (rtp : RtpConnection)
    → AnswersOnce c (play_rtp env server c (some rtp)).1
unfolding play_rtp
play_rtp-AnswersOnce env server c rtp = (_, refl)

teardown_rtp-AnswersOnce :
    (env : Environment) (c : RtspConnection) (rtp : RtpConnection)
    → AnswersOnce c (teardown_rtp env c (some rtp))
unfolding teardown_rtp
teardown_rtp-AnswersOnce env c rtp = (_, refl)

get_paramter_rtp-AnswersOnce :
    (env : Environment) (c : RtspConnection) (rtp : RtpConnection)
    → AnswersOnce c (get_paramter_rtp env c (some rtp))
unfolding get_paramter_rtp
get_paramter_rtp-AnswersOnce env c rtp = (_, refl)

-- For every method that a request can have, on a connection that is ready for it: exactly one message
-- is sent. OPTIONS and DESCRIBE are always ready for. SETUP needs that a connection with a session has
-- an RTP connection; PLAY, TEARDOWN and GET_PARAMETER need an RTP connection.
pub run_command-AnswersOnce :
    (env : Environment) (m : Method) (server : Option RtspServer) (c : RtspConnection)
    → IsReady m c
    → AnswersOnce c (run_command env m (server, c)).1
unfolding run_command handle_cmd_option handle_cmd_describe handle_cmd_setup handle_cmd_play
    handle_cmd_teardown handle_cmd_get_paramter
run_command-AnswersOnce env options server c h = (_, refl)
run_command-AnswersOnce env describe server c h =
    authenticated-AnswersOnce env (describe_body env server) server c
      (λ c' i r. describe_body-AnswersOnce env server c')
run_command-AnswersOnce env setup server c h =
    authenticated-AnswersOnce env (setup_body env server) server c
      (λ c' i r. setup_body-AnswersOnce env server c' (moved c' i r h))
  where
    moved :
        (c' : RtspConnection)
        → c'.session_id ≡ c.session_id
        → c'.rtp_conn ≡ c.rtp_conn
        → IsReady setup c
        → IsReady setup c'
    moved c' i r (inl z) = inl (i ∙ z)
    moved c' i r (inr (rtp, e)) = inr (rtp, r ∙ e)
run_command-AnswersOnce env play server c (rtp, h) =
    authenticated-AnswersOnce env (play_body env server) server c (λ c' i r.
      subst (λ z. AnswersOnce c' (play_rtp env server c' z).1) (sym (r ∙ h))
        (play_rtp-AnswersOnce env server c' rtp))
run_command-AnswersOnce env teardown server c (rtp, h) =
    subst (λ z. AnswersOnce c (teardown_rtp env c z)) (sym h) (teardown_rtp-AnswersOnce env c rtp)
run_command-AnswersOnce env get_parameter server c (rtp, h) =
    subst (λ z. AnswersOnce c (get_paramter_rtp env c z)) (sym h)
      (get_paramter_rtp-AnswersOnce env c rtp)
run_command-AnswersOnce env rtcp server c h = absurd h
run_command-AnswersOnce env no_method server c h = absurd h
