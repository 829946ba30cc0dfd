-- ===== src/Rtsp.antt =====
-- rtsp-server/xop/rtsp.h, class Rtsp, and RtspPusher.cpp: the account and the URL of a server or a
-- pusher, and the session of a pusher.
use Prim.Native.String.{String}
mod Tests
pub mod Url
use obs_rtspserver.Prelude.{
  ℕ, ◌-◌, Bool, true, false, not, ◌||◌, ◌&&◌, Option, none, some, List, [], ◌∷◌, drop, ◌==◌,
  if◌then◌else◌,
}
use obs_rtspserver.Text.{codes, c_str, equal_text}
use obs_rtspserver.RtspRequest.{
  Outcome, returned, stack_overrun, out_of_range, UrlParts, try_format, ipv6_port_format,
  ipv6_format, host_port_format, host_format, with_port, without_port,
}
use obs_rtspserver.RtspServer.{Session}

-- `rtsp_url_info_` is `url`, `ip`, `port` and `suffix`.
pub record Rtsp : Type 0 where
  pub has_auth_info : Bool
  pub realm : List ℕ
  pub username : List ℕ
  pub password : List ℕ
  pub version : List ℕ
  pub url : List ℕ
  pub ip : List ℕ
  pub port : ℕ
  pub suffix : List ℕ

unfoldable pub set_auth_config : List ℕ → List ℕ → List ℕ → Rtsp → Rtsp
set_auth_config realm username password r = record r {
  realm = realm;
  username = username;
  password = password;
  has_auth_info = not (equal_text realm [] || equal_text username []);
}

unfoldable pub set_version : List ℕ → Rtsp → Rtsp
set_version version r = record r { version = version }

-- The four tests of `ParseRtspUrl` where it uses `sscanf`, for the URL from its eighth byte on.
unfoldable pub parse_pusher_url : List ℕ → Outcome UrlParts
parse_pusher_url url =
    try_format (ipv6_port_format 100) (λ n. n == 3) with_port
      (try_format (ipv6_format 100) (λ n. n == 2) without_port
        (try_format (host_port_format 100) (λ n. n == 3) with_port
          (try_format (host_format 100) (λ n. n == 2) without_port (returned none) url) url)
        url)
      url

unfoldable pub store_parts_of : List ℕ → Rtsp → Outcome UrlParts → Outcome (Rtsp × Bool)
store_parts_of url r (returned none) = returned (r, false)
store_parts_of url r (returned (some (host, port, suffix))) =
    returned (record r { url = url; ip = host; port = port; suffix = suffix }, true)
store_parts_of url r stack_overrun = stack_overrun
store_parts_of url r out_of_range = out_of_range

-- `ParseRtspUrl` does not look at the first seven bytes. Of a URL that is shorter it reads bytes that
-- are not its own; here there are none.
unfoldable pub parse_rtsp_url : List ℕ → Rtsp → Outcome (Rtsp × Bool)
unfolding parse_pusher_url store_parts_of
parse_rtsp_url url r = store_parts_of url r (parse_pusher_url (drop 7 (c_str url)))

-- `media_session_` and whether there is an `rtsp_conn_`
pub record RtspPusher : Type 0 where
  pub media_session : Option Session
  pub is_connected : Bool

unfoldable pub pusher_add_session : Session → RtspPusher → RtspPusher
pusher_add_session m p = record p { media_session = some m }

-- The number is not looked at.
unfoldable pub pusher_remove_session : ℕ → RtspPusher → RtspPusher
pusher_remove_session id p = record p { media_session = none }

unfoldable pub pusher_look_media_session : ℕ → RtspPusher → Option Session
pusher_look_media_session id p = p.media_session

-- `PushFrame`, where `handle_frame` is `HandleFrame` of the session.
unfoldable pub pusher_push_frame : (Session → Bool) → RtspPusher → Bool
pusher_push_frame handle_frame p = elim p.media_session [
  | none ↦ false
  | some m ↦ if p.is_connected then handle_frame m else false
]
