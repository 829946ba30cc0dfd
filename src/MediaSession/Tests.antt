-- ===== src/MediaSession/Tests.antt =====
-- A session with two clients.
use obs_rtspserver.Prelude.{◌≡◌, true, false, not, ◌&&◌, ◌||◌, [], ◌∷◌, ◌==◌}
use obs_rtspserver.MediaSession.{MediaSession, has_client, add_client, remove_client}
use obs_rtspserver.MediaSession.Clients.{clients-after}

abbrev session : MediaSession
session = record { clients = 5 ∷ 7 ∷ []; has_new_client = false }

clients-after_example :
    ((add_client 5 session).1 ≡ not (has_client 5 session.clients))
    × (has_client 7 (add_client 5 session).0.clients ≡ (5 == 7 || has_client 7 session.clients))
    × (has_client 7 (remove_client true 5 session).0.clients
        ≡ (not (5 == 7) && has_client 7 session.clients))
clients-after_example = clients-after 5 7 true session
