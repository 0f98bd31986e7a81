-- ===== src/Executor.antt =====
-- include/cpplinq/driver/async_executor.h: BoundedTaskExecutor. Each function is one section that
-- holds the mutex; Executor.Steps puts them together. A job is its number.
pub mod Steps
pub mod Invariant
pub mod Taken
use cpplinq.Common.{
  ℕ, Bool, true, false, ◌||◌, List, [], ◌∷◌, ◌++◌, Option, none, some, Exception, Outcome, ok,
  throws, db_exception, length, leb, ◌==◌, if◌then◌else◌,
}

-- `queue` has its front first.
pub record Executor : Type 0 where
  pub queue_capacity : ℕ
  pub queue : List ℕ
  pub stopping : Bool

unfoldable pub make_executor : ℕ → Executor
make_executor queue_capacity = record {
  queue_capacity = if queue_capacity == 0 then 1 else queue_capacity;
  queue = [];
  stopping = false;
}

pub data Queued : Type 0 where
  queued : Queued

-- submit, up to the point where the future is handed out: the job is queued, or its promise fails.
-- `spawn_error` is what starting the workers throws.
unfoldable pub submit : Option Exception → ℕ → Executor → Executor × Outcome Queued
submit spawn_error job x =
    if x.stopping || leb x.queue_capacity (length x.queue)
    then (x, throws db_exception)
    else elim spawn_error [
      | some e ↦ (x, throws e)
      | none ↦ (record x { queue = x.queue ++ job ∷ [] }, ok queued)
    ]

-- The first part of shutdown: the new state, and the jobs that are cancelled.
unfoldable pub shutdown : Executor → Executor × List ℕ
shutdown x = (record x { queue = []; stopping = true }, x.queue)

-- What a worker does behind the wait.
pub data Turn : Type 0 where
  runs : ℕ → Turn
  waits exits : Turn

unfoldable pub take_from : Executor → List ℕ → Executor × Turn
take_from x [] = if x.stopping then (x, exits) else (x, waits)
take_from x (job ∷ rest) = (record x { queue = rest }, runs job)

unfoldable pub take : Executor → Executor × Turn
unfolding take_from
take x = take_from x x.queue
