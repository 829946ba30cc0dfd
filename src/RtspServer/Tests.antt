-- ===== src/RtspServer/Tests.antt =====
-- A server with one session, and the witnesses.
use obs_rtspserver.Prelude.{
  ℕ, ◌≡◌, refl, ◌⊎◌, true, false, none, some, List, [], ◌∷◌, arith, if◌then◌else◌,
}
use obs_rtspserver.Text.{codes, equal_text}
use obs_rtspserver.RtspServer.{Session, RtspServer, add_session, remove_session, look_suffix}
use obs_rtspserver.RtspServer.Agree.{Agrees, added, added-Agrees, add_remove-Agrees}
use obs_rtspserver.RtspServer.Lookup.{
  IsRefused, without, look_suffix-add_session, look_suffix-remove_session,
}

abbrev empty_server : RtspServer
empty_server = record { media_sessions = []; rtsp_suffix_map = [] }

abbrev session : ℕ → List ℕ → Session
session id suffix = record {
  session_id = id;
  suffix = suffix;
  is_scheduled = false;
  is_multicast = false;
  max_channel_count = 2;
  media_sources = none ∷ none ∷ [];
  multicast_ip = [];
  multicast_ip6 = [];
  multicast_port = [];
  media = record { clients = []; has_new_client = false };
}

empty-Agrees : Agrees empty_server
empty-Agrees = record {
  by_suffix = λ suffix id h. absurd (grind (arith, h));
  by_id = λ id m h. absurd (grind (arith, h));
}

abbrev one_server : RtspServer
one_server = added (session 1 (codes "live")) empty_server

one-Agrees : Agrees one_server
one-Agrees = added-Agrees (session 1 (codes "live")) empty_server empty-Agrees refl refl

add_remove-Agrees_example :
    Agrees (add_session (session 2 (codes "cam")) one_server).0
    × Agrees (remove_session 1 one_server)
add_remove-Agrees_example = add_remove-Agrees one_server (session 2 (codes "cam")) 1 one-Agrees refl

look_suffix-add_session_example :
    (IsRefused (session 2 (codes "cam")) one_server
      × (add_session (session 2 (codes "cam")) one_server ≡ (one_server, 0)))
    ⊎ ((false ≡ false)
        × (look_suffix (codes "cam") one_server ≡ none)
        × ((add_session (session 2 (codes "cam")) one_server).1 ≡ 2)
        × (look_suffix (codes "live") (add_session (session 2 (codes "cam")) one_server).0 ≡ (
            if equal_text (codes "cam") (codes "live")
            then some (record (session 2 (codes "cam")) { is_scheduled = true })
            else look_suffix (codes "live") one_server)))
look_suffix-add_session_example =
    look_suffix-add_session (session 2 (codes "cam")) one_server (codes "live") one-Agrees refl

look_suffix-remove_session_example :
    look_suffix (codes "live") (remove_session 1 one_server)
    ≡ without 1 (look_suffix (codes "live") one_server)
look_suffix-remove_session_example =
    look_suffix-remove_session 1 one_server (codes "live") one-Agrees
