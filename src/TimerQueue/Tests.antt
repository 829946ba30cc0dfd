-- ===== src/TimerQueue/Tests.antt =====
-- Queues with one timer, and the witness.
use obs_rtspserver.Prelude.{ℕ, ◌≡◌, refl, Bool, true, [], arith, length}
use obs_rtspserver.TimerQueue.{TimerQueue, add_timer, remove_timer, handle_timer_event}
use obs_rtspserver.TimerQueue.Due.{EndsWithin, HaveIntervals, handle_timer_event-EndsWithin}

abbrev no_timers : TimerQueue
no_timers = record { timers = []; events = []; last_timer_id = 0 }

abbrev one_timer : ℕ → TimerQueue
unfolding add_timer
one_timer ms = (add_timer 100 ms no_timers).0

one-HaveIntervals : HaveIntervals (one_timer 5).events
unfolding one_timer
one-HaveIntervals = (omega arith, omega arith)

abbrev again : ℕ → Bool
again id = true

handle_timer_event-EndsWithin_example : EndsWithin 1 (handle_timer_event again 105 (one_timer 5))
unfolding one_timer
handle_timer_event-EndsWithin_example =
    handle_timer_event-EndsWithin again 105 (one_timer 5) one-HaveIntervals

-- A timer with an interval of 0 is removed, but its event stays.
removed_stays : length (remove_timer 1 (one_timer 0)).events ≡ 1
unfolding one_timer remove_timer
removed_stays = refl
