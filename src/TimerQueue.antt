-- ===== src/TimerQueue.antt =====
-- rtsp-server/net/Timer.cpp and Timer.h: the timers of a scheduler, by their ids and by the times at
-- which they are due. Times are those of the steady clock, in milliseconds.
mod Tests
pub mod Due
use obs_rtspserver.Prelude.{
  ℕ, zero, suc, ◌+◌, ◌-◌, ◌%◌, Bool, true, false, not, ◌&&◌, ◌||◌, Option, none, some, List, [],
  ◌∷◌, ltb, leb, ◌==◌, if◌then◌else◌, length,
}

-- A `Timer`, with the id that its callback is known by.
pub record Timer : Type 0 where
  pub timer_id : ℕ
  pub interval : ℕ
  pub next_timeout : ℕ

-- An entry of `events_`: its key, and the timer, whose `next_timeout_` the code changes in place.
pub record Event : Type 0 where
  pub due : ℕ
  pub timer : Timer

-- `timers_`, `events_` and `last_timer_id_`; the events are in the order of their keys.
pub record TimerQueue : Type 0 where
  pub timers : List Timer
  pub events : List Event
  pub last_timer_id : ℕ

unfoldable pub timer_new : ℕ → ℕ → Timer
timer_new id msec = record {
  timer_id = id;
  interval = if msec == 0 then 1 else msec;
  next_timeout = 0;
}

unfoldable pub set_next_timeout : ℕ → Timer → Timer
set_next_timeout time_point t = record t { next_timeout = time_point + t.interval }

-- The order of the keys, which are pairs.
abbrev pub comes_before : Event → Event → Bool
comes_before a b = ltb a.due b.due || (a.due == b.due && ltb a.timer.timer_id b.timer.timer_id)

abbrev pub has_key : ℕ → ℕ → Event → Bool
has_key due id e = e.due == due && e.timer.timer_id == id

-- `events_.emplace`; an entry with the same key stays as it is.
unfoldable pub emplace_event : Event → List Event → List Event
emplace_event e [] = e ∷ []
emplace_event e (f ∷ fs) =
    let rest = emplace_event e fs in
    if comes_before e f
    then e ∷ f ∷ fs
    else if has_key e.due e.timer.timer_id f
    then f ∷ fs
    else f ∷ rest

unfoldable pub erase_event : ℕ → ℕ → List Event → List Event
erase_event due id [] = []
erase_event due id (e ∷ es) =
    let rest = erase_event due id es in if has_key due id e then rest else e ∷ rest

unfoldable pub erase_timer : ℕ → List Timer → List Timer
erase_timer id [] = []
erase_timer id (t ∷ ts) =
    let rest = erase_timer id ts in if t.timer_id == id then rest else t ∷ rest

unfoldable pub find_timer : ℕ → List Timer → Option Timer
find_timer id [] = none
find_timer id (t ∷ ts) = if t.timer_id == id then some t else find_timer id ts

-- `AddTimer` at the time `now`: the queue and the new id.
unfoldable pub add_timer : ℕ → ℕ → TimerQueue → TimerQueue × ℕ
unfolding timer_new set_next_timeout emplace_event find_timer
add_timer now ms q =
    let id = (q.last_timer_id + 1) % 4294967296 in
    let t = set_next_timeout now (timer_new id ms) in
    (
      record {
        timers = elim (find_timer id q.timers) [ none ↦ t ∷ q.timers | some u ↦ q.timers ];
        events = emplace_event (record { due = now + ms; timer = t }) q.events;
        last_timer_id = id;
      },
      id,
    )

unfoldable pub remove_timer : ℕ → TimerQueue → TimerQueue
unfolding find_timer erase_event erase_timer
remove_timer id q = elim (find_timer id q.timers) [
  | none ↦ q
  | some t ↦ record q {
    timers = erase_timer id q.timers;
    events = erase_event t.next_timeout id q.events;
  }
]

-- `GetTimeRemaining`; `none` stands for -1, and for an element that is not there.
unfoldable pub get_time_remaining : ℕ → TimerQueue → Option ℕ
get_time_remaining now q = elim q.timers [
  | [] ↦ none
  | ◌∷◌ t ts ↦ elim q.events [ [] ↦ none | ◌∷◌ e es ↦ some (e.due - now) ]
]

-- The timer in `timers_` is the same object as the one of the event.
abbrev pub with_timer : Timer → List Timer → List Timer
with_timer t [] = []
with_timer t (u ∷ us) =
    if u.timer_id == t.timer_id then t ∷ with_timer t us else u ∷ with_timer t us

-- One round of the loop of `HandleTimerEvent`, for the first event, which is due, and what its callback
-- returned.
unfoldable pub fire : ℕ → Bool → Event → List Event → TimerQueue → TimerQueue
unfolding set_next_timeout emplace_event erase_timer
fire now again e es q =
    let t = set_next_timeout now e.timer in
    if again
    then record q {
      timers = with_timer t q.timers;
      events = emplace_event (record { due = t.next_timeout; timer = t }) es;
    }
    else record q { timers = erase_timer e.timer.timer_id q.timers; events = es }

abbrev pub has_timers : List Timer → Bool
has_timers [] = false
has_timers (t ∷ ts) = true

-- The test of the loop of `HandleTimerEvent` and one round, with `others` for the rounds behind it. Where
-- timers are left but no events, the code looks at an element that is not there; the loop is said to end.
unfoldable pub next_event :
    (ℕ → Bool)
    → ℕ
    → (TimerQueue → TimerQueue × List ℕ × Bool)
    → TimerQueue
    → List Event
    → TimerQueue × List ℕ × Bool
unfolding fire
next_event callback now others q [] = (q, [], true)
next_event callback now others q (e ∷ es) =
    if has_timers q.timers && leb e.due now
    then (let (q', called, done) = others (fire now (callback e.timer.timer_id) e es q) in
        (q', e.timer.timer_id ∷ called, done))
    else (q, [], true)

-- The loop, on fuel: the queue, the ids whose callbacks have been called, and whether it has ended.
-- `callback` says what the callback of a timer returns.
unfoldable pub handle_events : (ℕ → Bool) → ℕ → ℕ → TimerQueue → TimerQueue × List ℕ × Bool
unfolding next_event
handle_events callback now zero q = (q, [], false)
handle_events callback now (suc fuel) q =
    next_event callback now (handle_events callback now fuel) q q.events

-- `HandleTimerEvent` at the time `now`, with a round for each event that is due and one more.
unfoldable pub handle_timer_event : (ℕ → Bool) → ℕ → TimerQueue → TimerQueue × List ℕ × Bool
unfolding handle_events
handle_timer_event callback now q = handle_events callback now (suc (length q.events)) q
