-- ===== src/RtspConnection/Read.antt =====
-- rtsp-server/xop/RtspConnection.cpp: what a connection does with the bytes that it has received, and
-- when it is closed.
use Prim.Native.Nat.{bit_or}
use obs_rtspserver.Prelude.{
  ℕ, ◌+◌, ◌-◌, ◌*◌, ◌%◌, ◌^◌, Bool, true, false, ◌&&◌, Option, none, some, [], map, ltb, leb, ◌==◌,
  get_or, if◌then◌else◌,
}
use obs_rtspserver.BufferReader.{BufferReader, readable_bytes, retrieve, retrieve_all}
use obs_rtspserver.MediaSession.{remove_client}
use obs_rtspserver.RtspRequest.{
  Method, options, describe, setup, play, teardown, get_parameter, rtcp, no_method, RtspRequest,
  Outcome, returned, stack_overrun, out_of_range, got_all, reset,
}
use obs_rtspserver.RtspRequest.Parse.{parse_request}
use obs_rtspserver.RtspServer.{Session, RtspServer, same_id}
use obs_rtspserver.RtspConnection.{RtspConnection, Environment}
use obs_rtspserver.RtspConnection.Commands.{
  World, handle_cmd_option, handle_cmd_describe, handle_cmd_setup, handle_cmd_play,
  handle_cmd_teardown, handle_cmd_get_paramter,
}

-- A `char` that is promoted to `int` and cast to `size_t`: a byte from 128 on is negative.
abbrev pub signed_char : ℕ → ℕ
signed_char b = if ltb b 128 then b else b + (2 ^ 64 - 256)

-- `peek[2] << 8 | peek[3]`
abbrev pub packet_size : ℕ → ℕ → ℕ
packet_size a b = bit_or (signed_char a * 256 % 2 ^ 64) (signed_char b)

-- `HandleRtcp` of the buffer.
unfoldable pub handle_rtcp : BufferReader → BufferReader
unfolding readable_bytes retrieve
handle_rtcp b =
    let size =
      packet_size (get_or b.buffer (b.reader_index + 2) 0)
        (get_or b.buffer (b.reader_index + 3) 0) in
    if get_or b.buffer b.reader_index 0 == b'$' && ltb 4 (readable_bytes b)
    then (if leb (readable_bytes b) ((size + 4) % 2 ^ 64)
        then retrieve ((size + 4) % 2 ^ 64) b
        else b)
    else b

-- `HandleRtcp` of a socket, for the result of `recv`.
unfoldable pub handle_rtcp_socket : ℕ → RtspConnection → RtspConnection
handle_rtcp_socket received c =
    if ltb 0 received then record c { alive_count = c.alive_count + 1 } else c

-- The `switch` over the methods.
unfoldable pub run_command : Environment → Method → World → World
unfolding handle_cmd_option handle_cmd_describe handle_cmd_setup handle_cmd_play handle_cmd_teardown
    handle_cmd_get_paramter
run_command env options (server, c) = (server, handle_cmd_option c)
run_command env describe w = handle_cmd_describe env w
run_command env setup w = handle_cmd_setup env w
run_command env play w = handle_cmd_play env w
run_command env teardown (server, c) = (server, handle_cmd_teardown env c)
run_command env get_parameter (server, c) = (server, handle_cmd_get_paramter env c)
run_command env rtcp w = w
run_command env no_method w = w

-- `if (rtsp_request_->GotAll()) rtsp_request_->Reset();`
unfoldable pub reset_done : World → World
unfolding got_all reset
reset_done (server, c) =
    if got_all c.request then (server, record c { request = reset c.request }) else (server, c)

abbrev pub is_rtcp : Method → Bool
is_rtcp rtcp = true
is_rtcp m = false

-- What `HandleRtspRequest` does with a request that `ParseRequest` has returned.
unfoldable pub after_parse :
    Environment → BufferReader × RtspRequest × Bool → World → BufferReader × World × Bool
unfolding handle_rtcp run_command reset_done got_all
after_parse env (b, r, ok) (server, c) =
    let c' = record c { request = r } in
    if ok
    then (if is_rtcp r.method
        then (handle_rtcp b, (server, c'), true)
        else if got_all r
        then (b, reset_done (run_command env r.method (server, c')), true)
        else (b, (server, c'), true))
    else (b, (server, c'), false)

unfoldable pub after_request :
    Environment
    → World
    → Outcome (BufferReader × RtspRequest × Bool)
    → Outcome (BufferReader × World × Bool)
unfolding after_parse
after_request env w (returned p) = returned (after_parse env p w)
after_request env w stack_overrun = stack_overrun
after_request env w out_of_range = out_of_range

unfoldable pub handle_rtsp_request :
    Environment → BufferReader → World → Outcome (BufferReader × World × Bool)
unfolding parse_request after_request
handle_rtsp_request env b (server, c) = after_request env (server, c) (parse_request b c.request)

-- What is kept of the buffer: nothing, if more than `MAX_RTSP_MESSAGE_SIZE` bytes are left.
unfoldable pub keep_buffer : BufferReader × World × Bool → BufferReader × World × Bool
unfolding readable_bytes retrieve_all
keep_buffer (b, w, ok) =
    if ok && ltb 2048 (readable_bytes b) then (retrieve_all b, w, true) else (b, w, ok)

unfoldable pub keep_buffers :
    Outcome (BufferReader × World × Bool) → Outcome (BufferReader × World × Bool)
unfolding keep_buffer
keep_buffers (returned p) = returned (keep_buffer p)
keep_buffers stack_overrun = stack_overrun
keep_buffers out_of_range = out_of_range

abbrev pub kept_alive : World → World
kept_alive (server, c) = (server, record c { alive_count = c.alive_count + 1 })

-- `OnRead` of a connection of a server.
unfoldable pub on_read : Environment → BufferReader → World → Outcome (BufferReader × World × Bool)
unfolding readable_bytes handle_rtsp_request keep_buffers
on_read env b w =
    if readable_bytes b == 0
    then returned (b, kept_alive w, false)
    else keep_buffers (handle_rtsp_request env b (kept_alive w))

-- The session with that number loses a client; `alive` says whether the client's `RtpConnection` is
-- still there.
abbrev pub without_client : Bool → ℕ → ℕ × Session → ℕ × Session
unfolding remove_client
without_client alive fd (id, m) = (id, record m { media = (remove_client alive fd m.media).0 })

unfoldable pub remove_session_client : Bool → ℕ → ℕ → RtspServer → RtspServer
unfolding remove_client
remove_session_client alive id fd s = record s {
  media_sessions =
      map (λ e. if same_id e.0 id then without_client alive fd e else e) s.media_sessions;
}

abbrev is_some_rtp {ℓ} : {A : Type ℓ} → Option A → Bool
is_some_rtp none = false
is_some_rtp (some a) = true

-- `OnClose`; all RTCP channels wait for reading, so all are taken out of the scheduler.
unfoldable pub on_close : World → World
unfolding remove_session_client
on_close (none, c) = (none, record c { rtcp_channels = [] })
on_close (some s, c) = (
  if c.session_id == 0
      then some s
      else some (remove_session_client (is_some_rtp c.rtp_conn) c.session_id c.socket s),
  record c { rtcp_channels = [] },
)
