-- ===== src/TaskScheduler.antt =====
-- rtsp-server/net/TaskScheduler.cpp: the trigger events, which other threads hand to a scheduler. An
-- event is whatever `A` is; `act` is what its callback does to the queue.
mod Tests
pub mod Order
use obs_rtspserver.Prelude.{ℕ, zero, suc, Bool, true, false, List, [], ◌∷◌, ltb, if◌then◌else◌}
use obs_rtspserver.RingBuffer.{RingBuffer, push, pop}

abbrev pub max_trigget_events : ℕ
max_trigget_events = 50000

module _ {ℓ} {A : Type ℓ} where
  -- `AddTriggerEvent`; the byte that wakes the scheduler is not kept.
  unfoldable pub add_trigger_event : A → RingBuffer A → RingBuffer A × Bool
  unfolding push
  add_trigger_event event r =
      if ltb r.num_datas max_trigget_events then ((push event r).0, true) else (r, false)

  -- One round of the loop of `HandleTriggerEvent`, for the result of `Pop`, with `others` for the rounds
  -- behind it.
  unfoldable pub trigger_round :
      (A → RingBuffer A → RingBuffer A)
      → (RingBuffer A → RingBuffer A × List A × Bool)
      → RingBuffer A × A × Bool
      → RingBuffer A × List A × Bool
  trigger_round act others (r, event, false) = if ltb 0 r.num_datas then others r else (r, [], true)
  trigger_round act others (r, event, true) =
      let next = act event r in
      if ltb 0 next.num_datas
      then (let (left, called, done) = others next in (left, event ∷ called, done))
      else (next, event ∷ [], true)

  -- `HandleTriggerEvent`, on fuel: the events that have been called, in order, and whether the loop has
  -- ended. `d` is the callback that is empty.
  unfoldable pub handle_trigger_event :
      A → (A → RingBuffer A → RingBuffer A) → ℕ → RingBuffer A → RingBuffer A × List A × Bool
  unfolding pop trigger_round
  handle_trigger_event d act zero r = (r, [], false)
  handle_trigger_event d act (suc fuel) r =
      trigger_round act (handle_trigger_event d act fuel) (pop d r)
