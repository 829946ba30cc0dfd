-- ===== src/TaskScheduler/Tests.antt =====
-- Two events, and the witness.
use obs_rtspserver.Prelude.{ℕ, ◌≡◌, refl, [], ◌∷◌, arith}
use obs_rtspserver.RingBuffer.{RingBuffer}
use obs_rtspserver.TaskScheduler.{handle_trigger_event}
use obs_rtspserver.TaskScheduler.Order.{IsRun, quiet, handle_trigger_event-IsRun}

abbrev events : RingBuffer ℕ
events = record { capacity = 3; put_pos = 1; get_pos = 2; num_datas = 2; buffer = 6 ∷ 0 ∷ 5 ∷ [] }

handle_trigger_event-IsRun_example : IsRun 0 events (handle_trigger_event 0 quiet 3 events)
handle_trigger_event-IsRun_example = handle_trigger_event-IsRun 0 3 events (omega arith)

in_order : (handle_trigger_event 0 quiet 3 events).1 ≡ 5 ∷ 6 ∷ []
unfolding handle_trigger_event
in_order = refl
