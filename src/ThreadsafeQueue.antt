-- ===== src/ThreadsafeQueue.antt =====
-- threadsafe_queue.h: the queue between the encoder's callback and the thread that sends. Each
-- operation holds the mutex, so it is one step.
mod Tests
pub mod Dropped
use obs_rtspserver.Prelude.{
  ℕ, ◌+◌, Bool, true, false, Option, none, some, List, [], ◌∷◌, ◌++◌, ltb, if◌then◌else◌, length,
}

-- `m_dropped_count` has no initial value.
pub record ThreadsafeQueue {ℓ} (A : Type ℓ) : Type ℓ where
  pub data_queue : List A
  pub size_limit : ℕ
  pub is_terminated : Bool
  pub dropped : ℕ

-- What a call of `wait_and_pop` does when it holds the mutex: it waits on, or it returns.
pub data Woken {ℓ} (A : Type ℓ) : Type ℓ where
  waits : Woken A
  returns : ThreadsafeQueue A → Option A → Woken A

module _ {ℓ} {A : Type ℓ} where
  unfoldable pub threadsafe_queue_new : ℕ → ℕ → ThreadsafeQueue A
  threadsafe_queue_new size_limit uninitialised = record {
    data_queue = [];
    size_limit = size_limit;
    is_terminated = false;
    dropped = uninitialised;
  }

  -- `data_queue.pop()`
  abbrev pub behind_front : List A → List A
  behind_front [] = []
  behind_front (x ∷ xs) = xs

  -- `move_push`, and `push`: without a place for the new element the front one is dropped.
  unfoldable pub move_push : A → ThreadsafeQueue A → ThreadsafeQueue A
  move_push x q =
      if q.is_terminated
      then q
      else if ltb q.size_limit (length (q.data_queue ++ (x ∷ [])))
      then record q {
        data_queue = behind_front (q.data_queue ++ (x ∷ []));
        dropped = q.dropped + 1;
      }
      else record q { data_queue = q.data_queue ++ (x ∷ []) }

  -- `try_pop`; `none` stands for `nullptr`.
  unfoldable pub try_pop : ThreadsafeQueue A → ThreadsafeQueue A × Option A
  try_pop q = elim q.data_queue [
    | [] ↦ (q, none)
    | ◌∷◌ x xs ↦ (record q { data_queue = xs }, some x)
  ]

  unfoldable pub wait_and_pop : ThreadsafeQueue A → Woken A
  wait_and_pop q = elim q.data_queue [
    | [] ↦ if q.is_terminated then returns q none else waits
    | ◌∷◌ x xs ↦ returns (record q { data_queue = xs }) (some x)
  ]

  unfoldable pub termination : ThreadsafeQueue A → ThreadsafeQueue A
  termination q = record q { is_terminated = true }

  unfoldable pub size : ThreadsafeQueue A → ℕ
  size q = length q.data_queue
