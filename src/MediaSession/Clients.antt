-- ===== src/MediaSession/Clients.antt =====
-- Which clients a session has after each operation.
use obs_rtspserver.Prelude.{
  ℕ, ◌≡◌, refl, ap, ◌∙◌, inl, inr, Bool, true, false, not, ◌&&◌, ◌||◌, List, [], ◌∷◌, arith, ◌==◌,
  Bool-cases,
}
use obs_rtspserver.MediaSession.{MediaSession, has_client, erase, add_client, remove_client}

has_client-erase :
    (k fd : ℕ) (xs : List ℕ) → has_client k (erase fd xs) ≡ (not (fd == k) && has_client k xs)
has_client-erase k fd [] = ground arith
has_client-erase k fd (x ∷ xs) = ground (arith, has_client-erase k fd xs)

-- For any two sockets: `AddClient` succeeds just when the first is no client yet, and after it the
-- second is a client if it was one or is the first; after `RemoveClient` it is one if it was one and
-- is not the first.
pub clients-after :
    (fd k : ℕ) (alive : Bool) (s : MediaSession)
    → ((add_client fd s).1 ≡ not (has_client fd s.clients))
      × (has_client k (add_client fd s).0.clients ≡ (fd == k || has_client k s.clients))
      × (has_client k (remove_client alive fd s).0.clients
          ≡ (not (fd == k) && has_client k s.clients))
unfolding add_client remove_client
clients-after fd k alive s = elim (Bool-cases (has_client fd s.clients)) [
  | inl t ↦ rw t (refl, there t, has_client-erase k fd s.clients)
  | inr t ↦ rw t (refl, refl, gone t)
]
  where
    same : (fd == k) ≡ true → has_client k s.clients ≡ has_client fd s.clients
    same e = let q : k ≡ fd = ground (arith, e) in ap (λ n. has_client n s.clients) q

    there :
        has_client fd s.clients ≡ true
        → has_client k s.clients ≡ (fd == k || has_client k s.clients)
    there t = elim (Bool-cases (fd == k)) [ inl e ↦ rw e (same e ∙ t) | inr e ↦ rw e refl ]

    gone :
        has_client fd s.clients ≡ false
        → has_client k s.clients ≡ (not (fd == k) && has_client k s.clients)
    gone t = elim (Bool-cases (fd == k)) [ inl e ↦ rw e (same e ∙ t) | inr e ↦ rw e refl ]
