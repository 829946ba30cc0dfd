-- ===== src/TimerQueue/Due.antt =====
-- `HandleTimerEvent` ends: a callback that stays gets a later time, so each is called once at most.
use obs_rtspserver.Prelude.{
  ℕ, zero, suc, ◌+◌, ◌<◌, ◌≤◌, ◌≡◌, refl, ap, inl, inr, Bool, true, false, ◌&&◌, List, [], ◌∷◌,
  arith, leb, if◌then◌else◌, length, Bool-cases,
}
use obs_rtspserver.Text.Facts.{and-right}
use obs_rtspserver.TimerQueue.{
  Event, TimerQueue, set_next_timeout, comes_before, has_key, emplace_event, fire, has_timers,
  next_event, handle_events, handle_timer_event,
}

-- The events that are due.
abbrev pub count_due : ℕ → List Event → ℕ
count_due now [] = 0
count_due now (e ∷ es) = if leb e.due now then suc (count_due now es) else count_due now es

-- Every timer has an interval, as the constructor of `Timer` sees to.
abbrev pub HaveIntervals : List Event → Type 0
HaveIntervals [] = 0 ≤ 0
HaveIntervals (e ∷ es) = (0 < e.timer.interval) × HaveIntervals es

count_due-emplace_event :
    (now : ℕ) (e : Event) (es : List Event)
    → leb e.due now ≡ false
    → count_due now (emplace_event e es) ≡ count_due now es
unfolding emplace_event
count_due-emplace_event now e [] h = rw h refl
count_due-emplace_event now e (f ∷ fs) h = elim (Bool-cases (comes_before e f)) [
  | inl t ↦ rw (t, h) refl
  | inr t ↦ elim (Bool-cases (has_key e.due e.timer.timer_id f)) [
    | inl u ↦ rw (t, u) refl
    | inr u ↦
        rw (t, u)
          (ap (λ n. if leb f.due now then suc n else n) (count_due-emplace_event now e fs h))
  ]
]

emplace_event-HaveIntervals :
    (e : Event) (es : List Event)
    → 0 < e.timer.interval
    → HaveIntervals es
    → HaveIntervals (emplace_event e es)
unfolding emplace_event
emplace_event-HaveIntervals e [] h k = (h, k)
emplace_event-HaveIntervals e (f ∷ fs) h (k, l) = elim (Bool-cases (comes_before e f)) [
  | inl t ↦ rw t (h, (k, l))
  | inr t ↦ elim (Bool-cases (has_key e.due e.timer.timer_id f)) [
    | inl u ↦ rw (t, u) (k, l)
    | inr u ↦ rw (t, u) (k, emplace_event-HaveIntervals e fs h l)
  ]
]

fire-events :
    (now : ℕ) (again : Bool) (e : Event) (es : List Event) (q : TimerQueue)
    → 0 < e.timer.interval
    → HaveIntervals es
    → (count_due now (fire now again e es q).events ≡ count_due now es)
      × HaveIntervals (fire now again e es q).events
unfolding fire set_next_timeout
fire-events now false e es q h k = (refl, k)
fire-events now true e es q h k = (
  count_due-emplace_event now
      (record { due = now + e.timer.interval; timer = set_next_timeout now e.timer }) es (later h),
  emplace_event-HaveIntervals
      (record { due = now + e.timer.interval; timer = set_next_timeout now e.timer }) es h k,
)
  where
    later : 0 < e.timer.interval → leb (now + e.timer.interval) now ≡ false
    later h = ground (arith, h)

-- The loop has ended, after `n` calls at most.
abbrev pub EndsWithin : ℕ → TimerQueue × List ℕ × Bool → Type 0
EndsWithin n (q, called, done) = (done ≡ true) × (length called ≤ n)

next_event-EndsWithin :
    (callback : ℕ → Bool) (now fuel : ℕ) (others : TimerQueue → TimerQueue × List ℕ × Bool)
    (q : TimerQueue) (es : List Event)
    → ((q' : TimerQueue)
        → HaveIntervals q'.events
        → count_due now q'.events < fuel
        → EndsWithin (count_due now q'.events) (others q'))
    → HaveIntervals es
    → count_due now es < suc fuel
    → EndsWithin (count_due now es) (next_event callback now others q es)
unfolding next_event
next_event-EndsWithin callback now fuel others q [] ends h k = (refl, omega arith)
next_event-EndsWithin callback now fuel others q (e ∷ es) ends (h, l) k =
    elim (Bool-cases (has_timers q.timers && leb e.due now)) [
      | inr t ↦ rw t (refl, omega arith)
      | inl t ↦
          (let due = and-right (has_timers q.timers) (leb e.due now) t in
            let counted : count_due now (e ∷ es) ≡ suc (count_due now es) = rw due refl in
            let (same, l') = fire-events now (callback e.timer.timer_id) e es q h l in
            let (done, few) =
              ends (fire now (callback e.timer.timer_id) e es q) l'
                (omega (arith, k, counted, same)) in
            rw t (done, omega (arith, few, counted, same)))
    ]

handle_events-EndsWithin :
    (callback : ℕ → Bool) (now fuel : ℕ) (q : TimerQueue)
    → HaveIntervals q.events
    → count_due now q.events < fuel
    → EndsWithin (count_due now q.events) (handle_events callback now fuel q)
unfolding handle_events
handle_events-EndsWithin callback now zero q h k = absurd (omega (arith, k))
handle_events-EndsWithin callback now (suc fuel) q h k =
    next_event-EndsWithin callback now fuel (handle_events callback now fuel) q q.events
      (λ q' a b. handle_events-EndsWithin callback now fuel q' a b) h k

count_due-length : (now : ℕ) (es : List Event) → count_due now es ≤ length es
count_due-length now [] = omega arith
count_due-length now (e ∷ es) = elim (Bool-cases (leb e.due now)) [
  | inl t ↦ rw t (omega (arith, count_due-length now es))
  | inr t ↦ rw t (omega (arith, count_due-length now es))
]

-- When every timer has an interval, and for any callbacks: the loop of `HandleTimerEvent` ends, after
-- at most one call for each event that was due when it began.
pub handle_timer_event-EndsWithin :
    (callback : ℕ → Bool) (now : ℕ) (q : TimerQueue)
    → HaveIntervals q.events
    → EndsWithin (count_due now q.events) (handle_timer_event callback now q)
unfolding handle_timer_event
handle_timer_event-EndsWithin callback now q h =
    handle_events-EndsWithin callback now (suc (length q.events)) q h
      (omega (arith, count_due-length now q.events))
