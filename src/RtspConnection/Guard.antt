-- ===== src/RtspConnection/Guard.antt =====
-- A connection that asks for authentication serves nothing before it has been answered.
use obs_rtspserver.Prelude.{
  ◌+◌, ◌≡◌, ◌≤◌, refl, sym, ap, ◌∙◌, inl, inr, Bool, true, false, ◌&&◌, Option, none, some, arith,
  if◌then◌else◌, Bool-cases, ltb, ◌==◌, subst,
}
use obs_rtspserver.BufferReader.{BufferReader, readable_bytes}
use obs_rtspserver.DigestAuthentication.{DigestAuthentication}
use obs_rtspserver.RtspRequest.{
  Method, options, describe, setup, play, teardown, get_parameter, rtcp, no_method, RtspRequest,
  Outcome, returned, stack_overrun, out_of_range, got_all,
}
use obs_rtspserver.RtspRequest.Parse.{parse_request}
use obs_rtspserver.RtspServer.{RtspServer}
use obs_rtspserver.RtspConnection.{
  RtspConnection, Environment, start_connect, handle_authentication, is_answered,
}
use obs_rtspserver.RtspConnection.Commands.{
  World, teardown_rtp, get_paramter_rtp, authenticated, describe_body, setup_body, play_body,
  handle_cmd_option, handle_cmd_describe, handle_cmd_setup, handle_cmd_play, handle_cmd_teardown,
  handle_cmd_get_paramter,
}
use obs_rtspserver.RtspConnection.Read.{
  run_command, reset_done, after_parse, handle_rtsp_request, on_read, is_rtcp, after_request,
  keep_buffers, keep_buffer,
}

-- The client has not been authenticated for `d`: no session and no RTP connection is there for it, and
-- nothing is played.
pub record IsLocked (d : DigestAuthentication) (c : RtspConnection) : Type 0 where
  pub not_auth : c.has_auth ≡ false
  pub asks : c.auth_info ≡ some d
  pub no_rtp : c.rtp_conn ≡ none
  pub no_session : c.session_id ≡ 0
  pub not_playing : c.conn_state ≡ start_connect

-- The server is as it was, and the connection is locked.
abbrev pub StaysLocked : DigestAuthentication → Option RtspServer → World → Type 0
StaysLocked d server (server', c) = (server' ≡ server) × IsLocked d c

refused :
    (env : Environment) (d : DigestAuthentication) (c : RtspConnection)
    → IsLocked d c
    → is_answered env d c ≡ false
    → ((handle_authentication env c).1 ≡ false) × IsLocked d (handle_authentication env c).0
unfolding handle_authentication
refused env d c l n =
    rw (l.asks, handle_authentication, l.not_auth, n)
      (
        refl,
        record {
          not_auth = refl;
          asks = l.asks;
          no_rtp = l.no_rtp;
          no_session = l.no_session;
          not_playing = l.not_playing;
        },
      )

authenticated-refused :
    (env : Environment) (d : DigestAuthentication) (body : RtspConnection → World)
    (server : Option RtspServer) (c : RtspConnection)
    → IsLocked d c
    → is_answered env d c ≡ false
    → StaysLocked d server (authenticated env body (server, c))
unfolding authenticated
authenticated-refused env d body server c l n =
    let (e, l') = refused env d c l n in
    subst (StaysLocked d server)
      (sym (
        ap
          (λ b.
            if b
            then body (handle_authentication env c).0
            else (server, (handle_authentication env c).0))
          e))
      (refl, l')

handle_cmd_teardown-none :
    (env : Environment) (c : RtspConnection) → c.rtp_conn ≡ none → handle_cmd_teardown env c ≡ c
unfolding handle_cmd_teardown teardown_rtp
handle_cmd_teardown-none env c e = ap (teardown_rtp env c) e

handle_cmd_get_paramter-none :
    (env : Environment) (c : RtspConnection) → c.rtp_conn ≡ none → handle_cmd_get_paramter env c ≡ c
unfolding handle_cmd_get_paramter get_paramter_rtp
handle_cmd_get_paramter-none env c e = ap (get_paramter_rtp env c) e

run_command-locked :
    (env : Environment) (d : DigestAuthentication) (m : Method) (server : Option RtspServer)
    (c : RtspConnection)
    → IsLocked d c
    → is_answered env d c ≡ false
    → StaysLocked d server (run_command env m (server, c))
unfolding run_command handle_cmd_option handle_cmd_describe handle_cmd_setup handle_cmd_play
    handle_cmd_teardown handle_cmd_get_paramter
run_command-locked env d options server c l n = (
  refl,
  record {
    not_auth = l.not_auth;
    asks = l.asks;
    no_rtp = l.no_rtp;
    no_session = l.no_session;
    not_playing = l.not_playing;
  },
)
run_command-locked env d describe server c l n =
    authenticated-refused env d (describe_body env server) server c l n
run_command-locked env d setup server c l n =
    authenticated-refused env d (setup_body env server) server c l n
run_command-locked env d play server c l n =
    authenticated-refused env d (play_body env server) server c l n
run_command-locked env d teardown server c l n =
    (refl, subst (IsLocked d) (sym (handle_cmd_teardown-none env c l.no_rtp)) l)
run_command-locked env d get_parameter server c l n =
    (refl, subst (IsLocked d) (sym (handle_cmd_get_paramter-none env c l.no_rtp)) l)
run_command-locked env d rtcp server c l n = (refl, l)
run_command-locked env d no_method server c l n = (refl, l)

reset_done-locked :
    (d : DigestAuthentication) (server : Option RtspServer) (w : World)
    → StaysLocked d server w
    → StaysLocked d server (reset_done w)
unfolding reset_done
reset_done-locked d server (server', c) (e, l) = elim (Bool-cases (got_all c.request)) [
  | inl t ↦ rw t (
    e,
    record {
      not_auth = l.not_auth;
      asks = l.asks;
      no_rtp = l.no_rtp;
      no_session = l.no_session;
      not_playing = l.not_playing;
    },
  )
  | inr t ↦ rw t (e, l)
]

-- The same connection with a parsed request.
abbrev pub with_request : RtspRequest → RtspConnection → RtspConnection
with_request r c = record c { request = r }

with_request-IsLocked :
    (d : DigestAuthentication) (r : RtspRequest) (c : RtspConnection)
    → IsLocked d c
    → IsLocked d (with_request r c)
with_request-IsLocked d r c l = record {
  not_auth = l.not_auth;
  asks = l.asks;
  no_rtp = l.no_rtp;
  no_session = l.no_session;
  not_playing = l.not_playing;
}

abbrev alive : RtspConnection → RtspConnection
alive c = record c { alive_count = c.alive_count + 1 }

alive-IsLocked :
    (d : DigestAuthentication) (c : RtspConnection) → IsLocked d c → IsLocked d (alive c)
alive-IsLocked d c l = record {
  not_auth = l.not_auth;
  asks = l.asks;
  no_rtp = l.no_rtp;
  no_session = l.no_session;
  not_playing = l.not_playing;
}

after_parse-locked :
    (env : Environment) (d : DigestAuthentication) (b : BufferReader) (r : RtspRequest) (ok : Bool)
    (server : Option RtspServer) (c : RtspConnection)
    → IsLocked d c
    → is_answered env d (with_request r c) ≡ false
    → StaysLocked d server (after_parse env (b, r, ok) (server, c)).1
unfolding after_parse
after_parse-locked env d b r false server c l n = (refl, with_request-IsLocked d r c l)
after_parse-locked env d b r true server c l n = elim (Bool-cases (is_rtcp r.method)) [
  | inl t ↦ rw t (refl, with_request-IsLocked d r c l)
  | inr t ↦ elim (Bool-cases (got_all r)) [
    | inl u ↦
        rw (t, u)
          (reset_done-locked d server (run_command env r.method (server, with_request r c)) (
            run_command-locked env d r.method server (with_request r c)
              (with_request-IsLocked d r c l) n))
    | inr u ↦ rw (t, u) (refl, with_request-IsLocked d r c l)
  ]
]

-- What is left, if the call returns.
abbrev LeavesLocked :
    DigestAuthentication → Option RtspServer → Outcome (BufferReader × World × Bool) → Type 0
LeavesLocked d server (returned (b, w, ok)) = StaysLocked d server w
LeavesLocked d server stack_overrun = 0 ≤ 0
LeavesLocked d server out_of_range = 0 ≤ 0

-- The client does not answer: whatever request is parsed from the buffer, its digest is not the one
-- for the nonce that was sent.
abbrev pub NoAnswer : Environment → DigestAuthentication → BufferReader → RtspConnection → Type 0
NoAnswer env d b c =
    (b' : BufferReader) (r : RtspRequest) (ok : Bool)
    → parse_request b c.request ≡ returned (b', r, ok)
    → is_answered env d (with_request r c) ≡ false

after_request-locked :
    (env : Environment) (d : DigestAuthentication) (server : Option RtspServer) (c : RtspConnection)
    (o : Outcome (BufferReader × RtspRequest × Bool))
    → IsLocked d c
    → ((b' : BufferReader) (r : RtspRequest) (ok : Bool)
        → o ≡ returned (b', r, ok)
        → is_answered env d (with_request r c) ≡ false)
    → LeavesLocked d server (keep_buffers (after_request env (server, c) o))
unfolding keep_buffers after_request
after_request-locked env d server c (returned (b, r, ok)) l n =
    kept (after_parse env (b, r, ok) (server, c))
      (after_parse-locked env d b r ok server c l (n b r ok refl))
  where
    kept :
        (p : BufferReader × World × Bool)
        → StaysLocked d server p.1
        → LeavesLocked d server (returned (keep_buffer p))
    kept (b, w, ok) h = elim (Bool-cases (ok && ltb 2048 (readable_bytes b))) [
      | inl t ↦ rw (t, keep_buffer) h
      | inr t ↦ rw (t, keep_buffer) h
    ]
after_request-locked env d server c stack_overrun l n = omega arith
after_request-locked env d server c out_of_range l n = omega arith

on_read-locked :
    (env : Environment) (d : DigestAuthentication) (b : BufferReader) (server : Option RtspServer)
    (c : RtspConnection)
    → IsLocked d c
    → NoAnswer env d b c
    → LeavesLocked d server (on_read env b (server, c))
unfolding on_read handle_rtsp_request
on_read-locked env d b server c l n = elim (Bool-cases (readable_bytes b == 0)) [
  | inl t ↦ rw t (refl, alive-IsLocked d c l)
  | inr t ↦ rw t (
      after_request-locked env d server (alive c) (parse_request b c.request) (alive-IsLocked d c l)
        n)
]

-- `OnRead` again and again, with whatever has been received and whatever the environment gives; the
-- client never answers the nonce that it was sent.
pub data Unanswered (d : DigestAuthentication) : World → World → Type 0 where
  stop : {w : World} → Unanswered d w w
  read :
      {server : Option RtspServer} {c : RtspConnection} {w w' : World} (env : Environment)
      (b b' : BufferReader) (ok : Bool)
      → NoAnswer env d b c
      → on_read env b (server, c) ≡ returned (b', w, ok)
      → Unanswered d w w'
      → Unanswered d (server, c) w'

run-locked :
    (d : DigestAuthentication) (w w' : World)
    → IsLocked d w.1
    → Unanswered d w w'
    → StaysLocked d w.0 w'
run-locked d w w' l stop = (refl, l)
run-locked d w w' l (read {server = server} {c = c} {w = mid} env b b' ok n e rest) =
    let (same, l') = subst (LeavesLocked d server) e (on_read-locked env d b server c l n) in
    let (same', l'') = run-locked d mid w' l' rest in (same' ∙ same, l'')

-- As long as the client does not answer with the digest for the nonce that it was sent, whatever else
-- it sends: a locked connection stays locked, that is, it has no RTP connection and no session and
-- plays nothing, and the server keeps its sessions and their clients as they were.
pub Unanswered-StaysLocked :
    (d : DigestAuthentication) (server : Option RtspServer) (c : RtspConnection) (w : World)
    → IsLocked d c
    → Unanswered d (server, c) w
    → StaysLocked d server w
Unanswered-StaysLocked d server c w l run = run-locked d (server, c) w l run
