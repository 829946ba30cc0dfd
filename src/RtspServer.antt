-- ===== src/RtspServer.antt =====
-- rtsp-server/xop/RtspServer.cpp: the sessions of the server, by their numbers and by their suffixes.
-- Of xop/MediaSession.h it has what a session tells a connection.
mod Tests
pub mod Keys
pub mod Agree
pub mod Lookup
use obs_rtspserver.Prelude.{
  ℕ, Bool, true, false, not, ◌&&◌, Option, none, some, List, [], ◌∷◌, leb, ◌==◌, if◌then◌else◌,
  get_or, length,
}
use obs_rtspserver.Text.{equal_text}
use obs_rtspserver.MediaSession.{MediaSession}

-- What a `MediaSource` tells: `GetPayloadType` and `GetClockRate`.
pub record Source : Type 0 where
  pub payload_type : ℕ
  pub clock_rate : ℕ

-- `is_scheduled` says whether `task_scheduler_` is set, that is, whether a server has the session.
pub record Session : Type 0 where
  pub session_id : ℕ
  pub suffix : List ℕ
  pub is_scheduled : Bool
  pub is_multicast : Bool
  pub max_channel_count : ℕ
  pub media_sources : List (Option Source)
  pub multicast_ip : List ℕ
  pub multicast_ip6 : List ℕ
  pub multicast_port : List ℕ
  pub media : MediaSession

-- `media_sessions_` and `rtsp_suffix_map_`
pub record RtspServer : Type 0 where
  pub media_sessions : List (ℕ × Session)
  pub rtsp_suffix_map : List (List ℕ × ℕ)

unfoldable pub get_num_client : Session → ℕ
get_num_client m = length m.media.clients

unfoldable pub get_multicast_ip : Bool → Session → List ℕ
get_multicast_ip ipv6 m = if ipv6 then m.multicast_ip6 else m.multicast_ip

unfoldable pub get_multicast_port : ℕ → Session → ℕ
get_multicast_port channel m =
    if leb (length m.multicast_port) channel then 0 else get_or m.multicast_port channel 0

unfoldable pub get_media_source : ℕ → Session → Option Source
get_media_source channel m =
    if leb m.max_channel_count channel then none else get_or m.media_sources channel none

-- `find` and `erase` of a map whose keys are compared by `same`.
module _ {ℓ} {K : Type ℓ} {V : Type ℓ} where
  abbrev pub find_key : (K → K → Bool) → K → List (K × V) → Option V
  find_key same key [] = none
  find_key same key ((k, v) ∷ rest) = if same k key then some v else find_key same key rest

  abbrev pub erase_key : (K → K → Bool) → K → List (K × V) → List (K × V)
  erase_key same key [] = []
  erase_key same key ((k, v) ∷ rest) =
      let others = erase_key same key rest in if same k key then others else (k, v) ∷ others

  -- `emplace` keeps the entry that is there.
  abbrev pub emplace_key : (K → K → Bool) → K → V → List (K × V) → List (K × V)
  emplace_key same key v m = elim (find_key same key m) [ none ↦ (key, v) ∷ m | some w ↦ m ]

abbrev pub same_id : ℕ → ℕ → Bool
same_id a b = a == b

abbrev pub find_session : ℕ → RtspServer → Option Session
find_session id s = find_key same_id id s.media_sessions

abbrev pub find_suffix : List ℕ → RtspServer → Option ℕ
find_suffix suffix s = find_key equal_text suffix s.rtsp_suffix_map

-- `AddSession`: the server, and the number of the session, or 0.
unfoldable pub add_session : Session → RtspServer → RtspServer × ℕ
add_session m s = elim (find_suffix m.suffix s) [
  | some id ↦ (s, 0)
  | none ↦ if m.is_scheduled then (s, 0) else (
    record {
      media_sessions =
          emplace_key same_id m.session_id (record m { is_scheduled = true }) s.media_sessions;
      rtsp_suffix_map = emplace_key equal_text m.suffix m.session_id s.rtsp_suffix_map;
    },
    m.session_id,
  )
]

unfoldable pub remove_session : ℕ → RtspServer → RtspServer
remove_session id s = elim (find_session id s) [
  | none ↦ s
  | some m ↦ record {
    media_sessions = erase_key same_id id s.media_sessions;
    rtsp_suffix_map = erase_key equal_text m.suffix s.rtsp_suffix_map;
  }
]

-- `LookMediaSession` of a number.
unfoldable pub look_media_session : ℕ → RtspServer → Option Session
look_media_session id s = find_session id s

abbrev pub session_of : RtspServer → Option ℕ → Option Session
session_of s none = none
session_of s (some id) = find_session id s

-- `LookMediaSession` of a suffix. `media_sessions_[id]` of a number that is not there would give a
-- null pointer (and store it).
unfoldable pub look_suffix : List ℕ → RtspServer → Option Session
look_suffix suffix s = session_of s (find_suffix suffix s)

-- `PushFrame`, where `handle_frame` is `HandleFrame` of the session.
unfoldable pub push_frame : (Session → Bool) → ℕ → RtspServer → Bool
unfolding get_num_client
push_frame handle_frame id s = elim (find_session id s) [
  | none ↦ false
  | some m ↦ if not (get_num_client m == 0) then handle_frame m else false
]
