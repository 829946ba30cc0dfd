-- ===== src/RtspServer/Lookup.antt =====
-- Looking a session up by its suffix: the two maps act like one partial function.
use obs_rtspserver.Prelude.{
  ℕ, ◌≡◌, refl, sym, ap, ◌∙◌, ◌⊎◌, inl, inr, Bool, true, false, Option, none, some, List, arith,
  ◌==◌, if◌then◌else◌, Bool-cases, Option-cases,
}
use obs_rtspserver.Text.{equal_text}
use obs_rtspserver.RtspServer.{
  Session, RtspServer, same_id, find_session, find_suffix, session_of, add_session, remove_session,
  look_suffix,
}
use obs_rtspserver.RtspServer.Keys.{
  equal_text→≡, equal_text-same, same_id→≡, same_id-same, find_key-erase_same, find_key-erase_other,
}
use obs_rtspserver.RtspServer.Agree.{
  Agrees, clash, none-some, some-inj, find-here, find-there, added, removed, add_session-cases,
  remove_session-cases, find_session-added,
}

if_true {ℓ} : {A : Type ℓ} {b : Bool} (x y : A) → b ≡ true → (if b then x else y) ≡ x
if_true x y t = rw t refl

if_false {ℓ} : {A : Type ℓ} {b : Bool} (x y : A) → b ≡ false → (if b then x else y) ≡ y
if_false x y t = rw t refl

look_suffix-added :
    (m : Session) (s : RtspServer) (x : List ℕ)
    → Agrees s
    → find_session m.session_id s ≡ none
    → look_suffix x (added m s)
      ≡ (if equal_text m.suffix x then some (record m { is_scheduled = true }) else look_suffix x s)
unfolding look_suffix
look_suffix-added m s x a fresh = elim (Bool-cases (equal_text m.suffix x)) [
  | inl t ↦
      ap (session_of (added m s)) (find-here equal_text m.suffix x m.session_id s.rtsp_suffix_map t)
      ∙ (find-here same_id m.session_id m.session_id (record m { is_scheduled = true })
            s.media_sessions (same_id-same m.session_id)
          ∙ sym (if_true _ _ t))
  | inr t ↦
      ap (session_of (added m s))
        (find-there equal_text m.suffix x m.session_id s.rtsp_suffix_map t)
      ∙ (elim (Option-cases (find_suffix x s)) [
        | inl n ↦ ap (session_of (added m s)) n ∙ sym (ap (session_of s) n)
        | inr (i, e) ↦
            (let (m', f, g) = a.by_suffix x i e in
              ap (session_of (added m s)) e
              ∙ (find_session-added m s i m' fresh f ∙ sym (ap (session_of s) e)))
      ]
          ∙ sym (if_false _ _ t))
]

-- A suffix that is in the map leads to a session.
look_suffix-found :
    (x : List ℕ) (id : ℕ) (s : RtspServer)
    → Agrees s
    → find_suffix x s ≡ some id
    → (m : Session) × (look_suffix x s ≡ some m)
unfolding look_suffix
look_suffix-found x id s a e = let (m, f, g) = a.by_suffix x id e in (m, ap (session_of s) e ∙ f)

-- Why `AddSession` refuses a session: its suffix leads to another one, or it has a scheduler.
abbrev pub IsRefused : Session → RtspServer → Type 0
IsRefused m s = ((m' : Session) × (look_suffix m.suffix s ≡ some m')) ⊎ (m.is_scheduled ≡ true)

-- On a server whose maps agree, for a session whose number is new: when the session's suffix leads to a
-- session, or the session has been given to a server before, `AddSession` changes nothing and returns 0.
-- Otherwise it returns the session's number, and from then on that suffix leads to the session, and every
-- other suffix to where it led before.
pub look_suffix-add_session :
    (m : Session) (s : RtspServer) (x : List ℕ)
    → Agrees s
    → find_session m.session_id s ≡ none
    → (IsRefused m s × (add_session m s ≡ (s, 0)))
      ⊎ ((m.is_scheduled ≡ false)
          × (look_suffix m.suffix s ≡ none)
          × ((add_session m s).1 ≡ m.session_id)
          × (look_suffix x (add_session m s).0 ≡ (
              if equal_text m.suffix x
              then some (record m { is_scheduled = true })
              else look_suffix x s)))
look_suffix-add_session m s x a fresh = elim (add_session-cases m s fresh) [
  | inl (inl (id, f), e) ↦ inl (inl (look_suffix-found m.suffix id s a f), e)
  | inl (inr t, e) ↦ inl (inr t, e)
  | inr (t, free, e) ↦ inr (
    t,
    unfold look_suffix in ap (session_of s) free,
    ap (λ z. z.1) e,
    ap (λ z. look_suffix x z.0) e ∙ look_suffix-added m s x a fresh,
  )
]

-- A session, unless it has that number.
abbrev pub without : ℕ → Option Session → Option Session
without id none = none
without id (some m) = if m.session_id == id then none else some m

-- On a server whose maps agree: `RemoveSession` takes the session with that number away from every
-- suffix, and no other.
pub look_suffix-remove_session :
    (id : ℕ) (s : RtspServer) (x : List ℕ)
    → Agrees s
    → look_suffix x (remove_session id s) ≡ without id (look_suffix x s)
unfolding look_suffix
look_suffix-remove_session id s x a = elim (Option-cases (find_suffix x s)) [
  | inl n ↦
      ap (session_of (remove_session id s)) (gone n) ∙ sym (ap (λ o. without id (session_of s o)) n)
  | inr (i, e) ↦
      (let (m, f, g) = a.by_suffix x i e in
        elim (Bool-cases (same_id id i)) [
          | inl t ↦
              ap (session_of (remove_session id s)) (taken i m t f g)
              ∙ sym (
                  ap (λ o. without id (session_of s o)) e
                  ∙ (ap (without id) f
                      ∙ same_number m id ((a.by_id i m f).1 ∙ sym (same_id→≡ id i t))))
          | inr t ↦
              kept i m t e f
              ∙ sym (
                  ap (λ o. without id (session_of s o)) e
                  ∙ (ap (without id) f ∙ other_number m id i t (a.by_id i m f).1))
        ])
]
  where
    removed_here :
        (m : Session) → equal_text m.suffix x ≡ true → find_suffix x (removed id m s) ≡ none
    removed_here m t =
        ap (λ z. find_suffix z (removed id m s)) (sym (equal_text→≡ m.suffix x t))
        ∙ find_key-erase_same equal_text equal_text→≡ m.suffix s.rtsp_suffix_map

    gone : find_suffix x s ≡ none → find_suffix x (remove_session id s) ≡ none
    gone n = elim (remove_session-cases id s) [
      | inl (u, e) ↦ ap (find_suffix x) e ∙ n
      | inr (m, f, e) ↦ ap (find_suffix x) e ∙ elim (Bool-cases (equal_text m.suffix x)) [
        | inl t ↦ removed_here m t
        | inr t ↦ find_key-erase_other equal_text equal_text→≡ m.suffix x s.rtsp_suffix_map t ∙ n
      ]
    ]

    taken :
        (i : ℕ) (m : Session)
        → same_id id i ≡ true
        → find_session i s ≡ some m
        → m.suffix ≡ x
        → find_suffix x (remove_session id s) ≡ none
    taken i m t f g = elim (remove_session-cases id s) [
      | inl (u, e) ↦ absurd (none-some u (ap (λ z. find_session z s) (same_id→≡ id i t) ∙ f))
      | inr (m', f', e) ↦
          ap (find_suffix x) e
          ∙ removed_here m' (
              ap (λ z. equal_text z.suffix x)
                (some-inj f' (ap (λ z. find_session z s) (same_id→≡ id i t) ∙ f))
              ∙ (ap (λ z. equal_text z x) g ∙ equal_text-same x))
    ]

    kept :
        (i : ℕ) (m : Session)
        → same_id id i ≡ false
        → find_suffix x s ≡ some i
        → find_session i s ≡ some m
        → session_of (remove_session id s) (find_suffix x (remove_session id s)) ≡ some m
    kept i m t e f = elim (remove_session-cases id s) [
      | inl (u, r) ↦ ap (λ z. session_of z (find_suffix x z)) r ∙ (ap (session_of s) e ∙ f)
      | inr (m', f', r) ↦
          ap (λ z. session_of z (find_suffix x z)) r
          ∙ (ap (session_of (removed id m' s)) (still m' f')
              ∙ (find_key-erase_other same_id same_id→≡ id i s.media_sessions t ∙ f))
    ]
      where
        still :
            (m' : Session) → find_session id s ≡ some m' → find_suffix x (removed id m' s) ≡ some i
        still m' f' = elim (Bool-cases (equal_text m'.suffix x)) [
          | inl u ↦ absurd (
              clash (
                sym t
                ∙ (ap (same_id id) (
                      some-inj e (
                        ap (λ z. find_suffix z s) (sym (equal_text→≡ m'.suffix x u))
                        ∙ (a.by_id id m' f').0))
                    ∙ same_id-same id)))
          | inr u ↦ find_key-erase_other equal_text equal_text→≡ m'.suffix x s.rtsp_suffix_map u ∙ e
        ]

    same_number : (m : Session) (id : ℕ) → m.session_id ≡ id → without id (some m) ≡ none
    same_number m id h = ground (arith, h)

    other_number :
        (m : Session) (id i : ℕ)
        → same_id id i ≡ false
        → m.session_id ≡ i
        → without id (some m) ≡ some m
    other_number m id i t h = ground (arith, t, h)
