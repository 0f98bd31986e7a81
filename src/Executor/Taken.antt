-- ===== src/Executor/Taken.antt =====
-- What becomes of a job that is handed to submit, of BoundedTaskExecutor.
use cpplinq.Common.{
  ℕ, zero, suc, Bool, true, false, not, ◌&&◌, List, [], ◌∷◌, Option, none, some, Exception, Outcome,
  length, ltb, if◌then◌else◌,
}
use cpplinq.Executor.{Executor, Queued, runs, waits, exits, take}

-- The jobs that the next turns of workers begin, one after the other.
abbrev pub jobs_taken : ℕ → Executor → List ℕ
jobs_taken zero x = []
jobs_taken (suc turns) x =
    let rest = jobs_taken turns (take x).0 in
    elim (take x).1 [ runs job ↦ job ∷ rest | waits ↦ [] | exits ↦ [] ]

-- The executor runs, its queue is shorter than its capacity, and the workers can be started.
abbrev pub accepts : Option Exception → Executor → Bool
accepts none x = not x.stopping && ltb (length x.queue) x.queue_capacity
accepts (some e) x = false

abbrev pub job_if : Bool → ℕ → List ℕ
job_if true job = job ∷ []
job_if false job = []

abbrev left_if : Bool → Executor × Outcome Queued → Executor × Outcome Queued → Executor
left_if refused a b = (if refused then a else b).0
