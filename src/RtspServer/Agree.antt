-- ===== src/RtspServer/Agree.antt =====
-- The two maps of the server agree, so that a suffix leads to the session that has it.
use obs_rtspserver.Prelude.{
  ℕ, ◌≡◌, refl, sym, ap, ap₂, ◌∙◌, ◌⊎◌, inl, inr, Bool, true, false, Option, none, some, List, ◌∷◌,
  arith, Bool-cases, Option-cases, subst,
}
use obs_rtspserver.Text.{equal_text}
use obs_rtspserver.RtspServer.{
  Session, RtspServer, find_key, erase_key, emplace_key, same_id, find_session, find_suffix,
  add_session, remove_session,
}
use obs_rtspserver.RtspServer.Keys.{
  equal_text→≡, equal_text-same, same_id→≡, same_id-same, find_key-erase_same, find_key-erase_other,
}

-- A suffix leads to a session that has it, and a session is found by its own number and its suffix.
pub record Agrees (s : RtspServer) : Type 0 where
  pub by_suffix :
      (suffix : List ℕ) (id : ℕ)
      → find_suffix suffix s ≡ some id
      → (m : Session) × (find_session id s ≡ some m) × (m.suffix ≡ suffix)
  pub by_id :
      (id : ℕ) (m : Session)
      → find_session id s ≡ some m
      → (find_suffix m.suffix s ≡ some id) × (m.session_id ≡ id)

pub clash : false ≡ true → ⊥
clash h = ground (arith, h)

module _ {ℓ} {A : Type ℓ} where
  pub none-some : {o : Option A} {a : A} → o ≡ none → o ≡ some a → ⊥
  none-some h k = grind (arith, sym h ∙ k)

  pub some-inj : {a b : A} {o : Option A} → o ≡ some a → o ≡ some b → a ≡ b
  some-inj h k = grind (arith, sym h ∙ k)

module _ {ℓ} {K : Type ℓ} {V : Type ℓ} where
  -- The first entry of a map is found, or all else is looked at.
  pub find-here :
      (same : K → K → Bool) (k key : K) (v : V) (rest : List (K × V))
      → same k key ≡ true
      → find_key same key ((k, v) ∷ rest) ≡ some v
  find-here same k key v rest t = rw t refl

  pub find-there :
      (same : K → K → Bool) (k key : K) (v : V) (rest : List (K × V))
      → same k key ≡ false
      → find_key same key ((k, v) ∷ rest) ≡ find_key same key rest
  find-there same k key v rest t = rw t refl

  emplace_key-new :
      (same : K → K → Bool) (key : K) (v : V) (m : List (K × V))
      → find_key same key m ≡ none
      → emplace_key same key v m ≡ (key, v) ∷ m
  emplace_key-new same key v m h = rw (h, emplace_key) refl

-- The state behind an added session.
abbrev pub added : Session → RtspServer → RtspServer
added m s = record {
  media_sessions = (m.session_id, record m { is_scheduled = true }) ∷ s.media_sessions;
  rtsp_suffix_map = (m.suffix, m.session_id) ∷ s.rtsp_suffix_map;
}

-- `AddSession` refuses a suffix that is in use and a session that a server has already.
pub add_session-cases :
    (m : Session) (s : RtspServer)
    → find_session m.session_id s ≡ none
    → ((((id : ℕ) × (find_suffix m.suffix s ≡ some id)) ⊎ (m.is_scheduled ≡ true))
        × (add_session m s ≡ (s, 0)))
      ⊎ ((m.is_scheduled ≡ false)
          × (find_suffix m.suffix s ≡ none)
          × (add_session m s ≡ (added m s, m.session_id)))
unfolding add_session
add_session-cases m s fresh = elim (Option-cases (find_suffix m.suffix s)) [
  | inr (id, e) ↦ inl (inl (id, e), rw (e, add_session) refl)
  | inl e ↦ elim (Bool-cases m.is_scheduled) [
    | inl t ↦ inl (inr t, rw (e, add_session, t) refl)
    | inr t ↦ inr (
      t,
      e,
      rw (e, add_session, t)
          (ap₂ (λ a b. (record { media_sessions = a; rtsp_suffix_map = b }, m.session_id))
            (emplace_key-new same_id m.session_id (record m { is_scheduled = true })
              s.media_sessions fresh)
            (emplace_key-new equal_text m.suffix m.session_id s.rtsp_suffix_map e)),
    )
  ]
]

pub find_session-added :
    (m : Session) (s : RtspServer) (i : ℕ) (m' : Session)
    → find_session m.session_id s ≡ none
    → find_session i s ≡ some m'
    → find_session i (added m s) ≡ find_session i s
find_session-added m s i m' fresh f = elim (Bool-cases (same_id m.session_id i)) [
  | inl t ↦ absurd (none-some fresh (ap (λ j. find_session j s) (same_id→≡ m.session_id i t) ∙ f))
  | inr t ↦ find-there same_id m.session_id i (record m { is_scheduled = true }) s.media_sessions t
]

pub added-Agrees :
    (m : Session) (s : RtspServer)
    → Agrees s
    → find_session m.session_id s ≡ none
    → find_suffix m.suffix s ≡ none
    → Agrees (added m s)
added-Agrees m s a fresh free = record { by_suffix = suffixes; by_id = numbers }
  where
    suffixes :
        (suffix : List ℕ) (id : ℕ)
        → find_suffix suffix (added m s) ≡ some id
        → (m' : Session) × (find_session id (added m s) ≡ some m') × (m'.suffix ≡ suffix)
    suffixes suffix id h = elim (Bool-cases (equal_text m.suffix suffix)) [
      | inl t ↦ (
        record m { is_scheduled = true },
        ap (λ i. find_session i (added m s)) (sym (some-inj (suffix-here suffix t) h))
            ∙ find-here same_id m.session_id m.session_id (record m { is_scheduled = true })
                s.media_sessions (same_id-same m.session_id),
        equal_text→≡ m.suffix suffix t,
      )
      | inr t ↦
          (let (m', f, g) = a.by_suffix suffix id (sym (suffix-there suffix t) ∙ h) in
            (m', not_new id m' f ∙ f, g))
    ]
      where
        not_new :
            (i : ℕ) (m' : Session)
            → find_session i s ≡ some m'
            → find_session i (added m s) ≡ find_session i s
        not_new i m' f = find_session-added m s i m' fresh f

        suffix-here :
            (x : List ℕ)
            → equal_text m.suffix x ≡ true
            → find_suffix x (added m s) ≡ some m.session_id
        suffix-here x t = find-here equal_text m.suffix x m.session_id s.rtsp_suffix_map t

        suffix-there :
            (x : List ℕ)
            → equal_text m.suffix x ≡ false
            → find_suffix x (added m s) ≡ find_suffix x s
        suffix-there x t = find-there equal_text m.suffix x m.session_id s.rtsp_suffix_map t

    numbers :
        (id : ℕ) (m' : Session)
        → find_session id (added m s) ≡ some m'
        → (find_suffix m'.suffix (added m s) ≡ some id) × (m'.session_id ≡ id)
    numbers id m' h = elim (Bool-cases (same_id m.session_id id)) [
      | inl t ↦
          (let e =
              some-inj
                (find-here same_id m.session_id id (record m { is_scheduled = true })
                  s.media_sessions t)
                h in
            let f = same_id→≡ m.session_id id t in
            (
              ap (λ z. find_suffix z.suffix (added m s)) (sym e)
                  ∙ (find-here equal_text m.suffix m.suffix m.session_id s.rtsp_suffix_map
                        (equal_text-same m.suffix)
                      ∙ ap some f),
              ap (λ z. z.session_id) (sym e) ∙ f,
            ))
      | inr t ↦
          (let (f, g) = a.by_id id m' (
              sym (
                find-there same_id m.session_id id (record m { is_scheduled = true })
                  s.media_sessions t)
              ∙ h) in
            (other m'.suffix id f ∙ f, g))
    ]
      where
        other :
            (x : List ℕ) (id : ℕ)
            → find_suffix x s ≡ some id
            → find_suffix x (added m s) ≡ find_suffix x s
        other x id f = elim (Bool-cases (equal_text m.suffix x)) [
          | inl t ↦
              absurd (none-some free (ap (λ j. find_suffix j s) (equal_text→≡ m.suffix x t) ∙ f))
          | inr t ↦ find-there equal_text m.suffix x m.session_id s.rtsp_suffix_map t
        ]

-- The state behind a removed session.
abbrev pub removed : ℕ → Session → RtspServer → RtspServer
removed id m s = record {
  media_sessions = erase_key same_id id s.media_sessions;
  rtsp_suffix_map = erase_key equal_text m.suffix s.rtsp_suffix_map;
}

pub remove_session-cases :
    (id : ℕ) (s : RtspServer)
    → ((find_session id s ≡ none) × (remove_session id s ≡ s))
      ⊎ ((m : Session) × (find_session id s ≡ some m) × (remove_session id s ≡ removed id m s))
unfolding remove_session
remove_session-cases id s = elim (Option-cases (find_session id s)) [
  | inl e ↦ inl (e, rw (e, remove_session) refl)
  | inr (m, e) ↦ inr (m, e, rw (e, remove_session) refl)
]

removed-Agrees :
    (id : ℕ) (m : Session) (s : RtspServer)
    → Agrees s
    → find_session id s ≡ some m
    → Agrees (removed id m s)
removed-Agrees id m s a here = record { by_suffix = suffixes; by_id = numbers }
  where
    suffixes :
        (x : List ℕ) (i : ℕ)
        → find_suffix x (removed id m s) ≡ some i
        → (m' : Session) × (find_session i (removed id m s) ≡ some m') × (m'.suffix ≡ x)
    suffixes x i h = elim (Bool-cases (equal_text m.suffix x)) [
      | inl t ↦ absurd (
          none-some (find_key-erase_same equal_text equal_text→≡ m.suffix s.rtsp_suffix_map)
            (ap (λ z. find_suffix z (removed id m s)) (equal_text→≡ m.suffix x t) ∙ h))
      | inr t ↦
          (let (m', f, g) = a.by_suffix x i (
              sym (find_key-erase_other equal_text equal_text→≡ m.suffix x s.rtsp_suffix_map t)
              ∙ h) in
            elim (Bool-cases (same_id id i)) [
              | inl u ↦ absurd (
                  clash (
                    sym t
                    ∙ (ap (λ z. equal_text z x)
                          (ap (λ z. z.suffix)
                              (some-inj (ap (λ z. find_session z s) (sym (same_id→≡ id i u)) ∙ here)
                                f)
                            ∙ g)
                        ∙ equal_text-same x)))
              | inr u ↦ (m', find_key-erase_other same_id same_id→≡ id i s.media_sessions u ∙ f, g)
            ])
    ]

    numbers :
        (i : ℕ) (m' : Session)
        → find_session i (removed id m s) ≡ some m'
        → (find_suffix m'.suffix (removed id m s) ≡ some i) × (m'.session_id ≡ i)
    numbers i m' h = elim (Bool-cases (same_id id i)) [
      | inl u ↦ absurd (
          none-some (find_key-erase_same same_id same_id→≡ id s.media_sessions)
            (ap (λ z. find_session z (removed id m s)) (same_id→≡ id i u) ∙ h))
      | inr u ↦
          (let (f, g) =
              a.by_id i m'
                (sym (find_key-erase_other same_id same_id→≡ id i s.media_sessions u) ∙ h) in
            elim (Bool-cases (equal_text m.suffix m'.suffix)) [
              | inl t ↦ absurd (
                  clash (
                    sym u
                    ∙ (ap (same_id id) (
                          some-inj
                            (ap (λ z. find_suffix z s) (equal_text→≡ m.suffix m'.suffix t) ∙ f)
                            (a.by_id id m here).0)
                        ∙ same_id-same id)))
              | inr t ↦ (
                find_key-erase_other equal_text equal_text→≡ m.suffix m'.suffix s.rtsp_suffix_map t
                    ∙ f,
                g,
              )
            ])
    ]

-- Both maps agree after every call: `AddSession` of a session whose number is new, and
-- `RemoveSession` of any number.
pub add_remove-Agrees :
    (s : RtspServer) (m : Session) (id : ℕ)
    → Agrees s
    → find_session m.session_id s ≡ none
    → Agrees (add_session m s).0 × Agrees (remove_session id s)
add_remove-Agrees s m id a fresh = (adds, removes)
  where
    adds : Agrees (add_session m s).0
    adds = elim (add_session-cases m s fresh) [
      | inl (why, e) ↦ subst (λ z. Agrees z.0) (sym e) a
      | inr (t, free, e) ↦ subst (λ z. Agrees z.0) (sym e) (added-Agrees m s a fresh free)
    ]

    removes : Agrees (remove_session id s)
    removes = elim (remove_session-cases id s) [
      | inl (n, e) ↦ subst Agrees (sym e) a
      | inr (m', f, e) ↦ subst Agrees (sym e) (removed-Agrees id m' s a f)
    ]
