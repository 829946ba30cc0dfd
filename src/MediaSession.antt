-- ===== src/MediaSession.antt =====
-- rtsp-server/xop/MediaSession.cpp: the clients of a session.
mod Tests
pub mod Clients
use obs_rtspserver.Prelude.{ℕ, Bool, true, false, ◌||◌, List, [], ◌∷◌, ◌==◌, if◌then◌else◌}

-- `clients_`, by their sockets, and `has_new_client_`.
pub record MediaSession : Type 0 where
  pub clients : List ℕ
  pub has_new_client : Bool

-- Whether the callbacks for connected or for disconnected clients have been called.
pub data Notified : Type 0 where
  connected disconnected silent : Notified

-- `clients_.find` and `clients_.erase`
abbrev pub has_client : ℕ → List ℕ → Bool
has_client fd [] = false
has_client fd (x ∷ xs) = x == fd || has_client fd xs

abbrev pub erase : ℕ → List ℕ → List ℕ
erase fd [] = []
erase fd (x ∷ xs) = let rest = erase fd xs in if x == fd then rest else x ∷ rest

unfoldable pub add_client : ℕ → MediaSession → MediaSession × Bool × Notified
add_client fd s =
    if has_client fd s.clients
    then (s, false, silent)
    else (record { clients = fd ∷ s.clients; has_new_client = true }, true, connected)

-- `alive` says whether the client's connection is still there.
unfoldable pub remove_client : Bool → ℕ → MediaSession → MediaSession × Notified
remove_client alive fd s =
    if has_client fd s.clients
    then (record s { clients = erase fd s.clients }, if alive then disconnected else silent)
    else (s, silent)
