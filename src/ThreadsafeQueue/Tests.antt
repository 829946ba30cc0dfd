-- ===== src/ThreadsafeQueue/Tests.antt =====
-- A queue with a limit of two, and the witness.
use obs_rtspserver.Prelude.{ℕ, ◌≡◌, refl, [], ◌∷◌, arith}
use obs_rtspserver.ThreadsafeQueue.{ThreadsafeQueue, threadsafe_queue_new, move_push}
use obs_rtspserver.ThreadsafeQueue.Dropped.{IsPushed, push_all, push_all-IsPushed}

abbrev queue : ThreadsafeQueue ℕ
unfolding threadsafe_queue_new
queue = threadsafe_queue_new 2 0

push_all-IsPushed_example : IsPushed (5 ∷ 6 ∷ 7 ∷ []) queue (push_all (5 ∷ 6 ∷ 7 ∷ []) queue)
unfolding queue
push_all-IsPushed_example = push_all-IsPushed (5 ∷ 6 ∷ 7 ∷ []) queue refl (omega arith)

-- The first element has been dropped.
pushed_three : (push_all (5 ∷ 6 ∷ 7 ∷ []) queue).data_queue ≡ 6 ∷ 7 ∷ []
unfolding queue move_push
pushed_three = refl
