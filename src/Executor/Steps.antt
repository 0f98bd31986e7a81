-- ===== src/Executor/Steps.antt =====
-- The executor, its callers and its workers, with what has become of the jobs.
use cpplinq.Common.{ℕ, List, [], ◌∷◌, ◌++◌, Option, Exception, Outcome, ok, throws}
use cpplinq.Executor.{
  Executor, make_executor, Queued, submit, shutdown, Turn, runs, waits, exits, take,
}

-- `accepted` are the jobs that submit has queued, `begun` those that a worker has taken, and
-- `cancelled` those that shutdown has cancelled, each in order.
pub record System : Type 0 where
  pub executor : Executor
  pub accepted : List ℕ
  pub begun : List ℕ
  pub cancelled : List ℕ

unfoldable pub after_submit : ℕ → System → Executor × Outcome Queued → System
after_submit job s (x, ok q) = record s { executor = x; accepted = s.accepted ++ job ∷ [] }
after_submit job s (x, throws e) = record s { executor = x }

unfoldable pub after_take : System → Executor × Turn → System
after_take s (x, runs job) = record s { executor = x; begun = s.begun ++ job ∷ [] }
after_take s (x, waits) = record s { executor = x }
after_take s (x, exits) = record s { executor = x }

unfoldable pub after_shutdown : System → Executor × List ℕ → System
after_shutdown s (x, jobs) = record s { executor = x; cancelled = s.cancelled ++ jobs }

pub data Step : System → System → Type 0 where
  submits :
      (s : System) (spawn_error : Option Exception) (job : ℕ)
      → Step s (after_submit job s (submit spawn_error job s.executor))
  takes : (s : System) → Step s (after_take s (take s.executor))
  shuts : (s : System) → Step s (after_shutdown s (shutdown s.executor))

unfoldable pub started : ℕ → System
unfolding make_executor
started queue_capacity = record {
  executor = make_executor queue_capacity;
  accepted = [];
  begun = [];
  cancelled = [];
}

pub data Reachable (queue_capacity : ℕ) : System → Type 0 where
  start : Reachable queue_capacity (started queue_capacity)
  after : {s t : System} → Reachable queue_capacity s → Step s t → Reachable queue_capacity t
