-- ===== src/RtspConnection/Undescribed.antt =====
-- A connection before its first DESCRIBE: it has no session and no RTP connection.
use obs_rtspserver.Prelude.{
  ℕ, ◌+◌, ◌≡◌, ◌≢◌, refl, ap, ◌∙◌, true, none, Option, List, [], ◌∷◌, arith, length, length-append,
  subst, sym, if◌then◌else◌,
}
use obs_rtspserver.RtspRequest.{
  Method, options, describe, setup, play, teardown, get_parameter, rtcp, no_method, RtspRequest,
}
use obs_rtspserver.RtspServer.{RtspServer}
use obs_rtspserver.RtspConnection.{RtspConnection, Environment, send, handle_authentication}
use obs_rtspserver.RtspConnection.Commands.{
  World, authenticated, setup_body, setup_joined, server_error, play_rtp, play_body, teardown_rtp,
  get_paramter_rtp, handle_cmd_option, handle_cmd_setup, handle_cmd_play, handle_cmd_teardown,
  handle_cmd_get_paramter,
}
use obs_rtspserver.RtspConnection.Answers.{joined-none}
use obs_rtspserver.RtspConnection.Read.{run_command}

-- The requests that a connection runs, one after another, each with what the call takes from outside
-- and the server as it then is.
abbrev pub run_requests :
    List (Environment × Option RtspServer × RtspRequest) → RtspConnection → RtspConnection
unfolding run_command
run_requests [] c = c
run_requests ((env, server, r) ∷ rs) c =
    run_requests rs (run_command env r.method (server, record c { request = r })).1

-- How many messages a method is answered with, where there has been no DESCRIBE.
abbrev pub answers : Method → ℕ
answers options = 1
answers setup = 1
answers m = 0

abbrev pub count_answers : List (Environment × Option RtspServer × RtspRequest) → ℕ
count_answers [] = 0
count_answers ((env, server, r) ∷ rs) = answers r.method + count_answers rs

-- None of the requests is a DESCRIBE.
abbrev pub NoDescribe : List (Environment × Option RtspServer × RtspRequest) → Type 0
NoDescribe [] = Unit {0}
NoDescribe ((env, server, r) ∷ rs) = (r.method ≢ describe) × NoDescribe rs

-- No session, no RTP connection, and no need to authenticate.
abbrev pub IsUndescribed : RtspConnection → Type 0
IsUndescribed c = (c.session_id ≡ 0) × (c.rtp_conn ≡ none) × (c.auth_info ≡ none)

-- A command leaves the connection so, and sends this many messages.
abbrev IsStep : RtspConnection → RtspConnection → ℕ → Type 0
IsStep c c' n = IsUndescribed c' × (length c'.sent ≡ length c.sent + n)

send-IsStep : (t : List ℕ) (c : RtspConnection) → IsUndescribed c → IsStep c (send t c) 1
send-IsStep t c u = (u, length-append c.sent (t ∷ []))

idle-IsStep : (c : RtspConnection) → IsUndescribed c → IsStep c c 0
idle-IsStep c u = (u, omega arith)

handle_authentication-none :
    (env : Environment) (c : RtspConnection)
    → c.auth_info ≡ none
    → handle_authentication env c ≡ (c, true)
unfolding handle_authentication
handle_authentication-none env c a = simp (a, handle_authentication) refl

authenticated-none :
    (env : Environment) (body : RtspConnection → World) (server : Option RtspServer)
    (c : RtspConnection)
    → c.auth_info ≡ none
    → authenticated env body (server, c) ≡ body c
unfolding authenticated
authenticated-none env body server c a =
    ap (λ o. if o.1 then body o.0 else (server, o.0)) (handle_authentication-none env c a)

setup-error :
    (env : Environment) (server : Option RtspServer) (c : RtspConnection)
    → IsUndescribed c
    → (run_command env setup (server, c)).1 ≡ server_error c
unfolding run_command handle_cmd_setup setup_body setup_joined
setup-error env server c (i, r, a) =
    ap (λ w. w.1) (authenticated-none env (setup_body env server) server c a)
    ∙ ap (setup_joined env c) (joined-none c server i)

play-idle :
    (env : Environment) (server : Option RtspServer) (c : RtspConnection)
    → IsUndescribed c
    → (run_command env play (server, c)).1 ≡ c
unfolding run_command handle_cmd_play play_rtp
play-idle env server c (i, r, a) =
    ap (λ w. w.1) (authenticated-none env (play_body env server) server c a)
    ∙ ap (λ o. (play_rtp env server c o).1) r

run_command-IsStep :
    (env : Environment) (m : Method) (server : Option RtspServer) (c : RtspConnection)
    → IsUndescribed c
    → m ≢ describe
    → IsStep c (run_command env m (server, c)).1 (answers m)
unfolding run_command handle_cmd_option handle_cmd_teardown handle_cmd_get_paramter teardown_rtp
    get_paramter_rtp
run_command-IsStep env options server c u n = send-IsStep _ c u
run_command-IsStep env describe server c u n = absurd (n refl)
run_command-IsStep env setup server c u n =
    subst (λ z. IsStep c z 1) (sym (setup-error env server c u)) (send-IsStep _ c u)
run_command-IsStep env play server c u n =
    subst (λ z. IsStep c z 0) (sym (play-idle env server c u)) (idle-IsStep c u)
run_command-IsStep env teardown server c u n =
    subst (λ o. IsStep c (teardown_rtp env c o) 0) (sym u.1) (idle-IsStep c u)
run_command-IsStep env get_parameter server c u n =
    subst (λ o. IsStep c (get_paramter_rtp env c o) 0) (sym u.1) (idle-IsStep c u)
run_command-IsStep env rtcp server c u n = idle-IsStep c u
run_command-IsStep env no_method server c u n = idle-IsStep c u

-- On a connection without a session, without an RTP connection and without the need to authenticate, for
-- any requests of which none is a DESCRIBE: the connection stays so, OPTIONS and SETUP are answered with
-- one message each, and PLAY, TEARDOWN and GET_PARAMETER are not answered.
pub run_requests-unanswered :
    (rs : List (Environment × Option RtspServer × RtspRequest)) (c : RtspConnection)
    → IsUndescribed c
    → NoDescribe rs
    → IsUndescribed (run_requests rs c)
      × (length (run_requests rs c).sent ≡ length c.sent + count_answers rs)
unfolding run_requests
run_requests-unanswered [] c u n = (u, omega arith)
run_requests-unanswered ((env, server, r) ∷ rs) c u n =
    let (u', l) = run_command-IsStep env r.method server (record c { request = r }) u n.0 in
    let (v, k) = run_requests-unanswered rs _ u' n.1 in (v, omega (arith, l, k))
