-- ===== src/Tests/Pools.antt =====
-- The connection pool and the executor.
use cpplinq.Common.{ℕ, false, List, [], ◌∷◌, ◌≡◌, refl, none, ok, returns}
use cpplinq.Pool.{PoolConfig, Pool, clamp, at_least_one, initialize, make_pool}
use cpplinq.Pool.Acquire.{
  acquire, try_acquire, attempt, grant, available, try_acquire-acquire, acquire-returns,
}
use cpplinq.Pool.Steps
use cpplinq.Pool.Invariant.{IsValid, Reachable-IsValid}
use cpplinq.Executor.{Executor, submit, make_executor, take, take_from}
use cpplinq.Executor.Steps as Jobs
use cpplinq.Executor.Invariant.{IsOrdered, Reachable-IsOrdered}

-- At most one connection; none to start with.
abbrev config : PoolConfig
config = record {
  min_connections = 0;
  max_connections = 0;
  async_worker_count = 9;
  async_queue_capacity = 0;
}

abbrev one_config : PoolConfig
one_config = record {
  min_connections = 0;
  max_connections = 1;
  async_worker_count = 1;
  async_queue_capacity = 1;
}

abbrev empty_pool : Pool
empty_pool = record {
  config = one_config;
  idle_connections = [];
  total_connections = 0;
  closed = false;
}

abbrev full_pool : Pool
full_pool = record empty_pool { total_connections = 1 }

abbrev system : Pool → List ℕ → ℕ → Steps.System
system p leased creating = record { pool = p; leased = leased; creating = creating }

run_start : Steps.Reachable config (system empty_pool [] 0)
unfolding Steps.started make_pool initialize clamp at_least_one
run_start = Steps.start [] refl

run_creating : Steps.Reachable config (system full_pool [] 1)
unfolding Steps.after_acquire acquire available grant
run_creating = Steps.after run_start (Steps.acquires (system empty_pool [] 0) false false)

run_leased : Steps.Reachable config (system full_pool (7 ∷ []) 0)
run_leased = Steps.after run_creating (Steps.creates (system full_pool [] 1) 0 7 refl)

Reachable-IsValid_example : IsValid one_config (system full_pool (7 ∷ []) 0)
unfolding clamp at_least_one
Reachable-IsValid_example = Reachable-IsValid config (system full_pool (7 ∷ []) 0) run_leased

acquire-returns_example : returns (acquire false false full_pool).1 ≡ false
acquire-returns_example = acquire-returns false false full_pool

try_acquire-acquire_example : try_acquire false false full_pool ≡ (full_pool, ok none)
unfolding acquire available grant attempt
try_acquire-acquire_example = try_acquire-acquire false false full_pool

abbrev executor : List ℕ → Executor
executor queue = record { queue_capacity = 1; queue = queue; stopping = false }

abbrev jobs : List ℕ → List ℕ → List ℕ → Jobs.System
jobs queue accepted begun = record {
  executor = executor queue;
  accepted = accepted;
  begun = begun;
  cancelled = [];
}

jobs_start : Jobs.Reachable 0 (jobs [] [] [])
unfolding Jobs.started make_executor
jobs_start = Jobs.start

jobs_queued : Jobs.Reachable 0 (jobs (5 ∷ []) (5 ∷ []) [])
unfolding Jobs.after_submit submit
jobs_queued = Jobs.after jobs_start (Jobs.submits (jobs [] [] []) none 5)

jobs_begun : Jobs.Reachable 0 (jobs [] (5 ∷ []) (5 ∷ []))
unfolding Jobs.after_take take take_from
jobs_begun = Jobs.after jobs_queued (Jobs.takes (jobs (5 ∷ []) (5 ∷ []) []))

Reachable-IsOrdered_example : IsOrdered (jobs [] (5 ∷ []) (5 ∷ []))
Reachable-IsOrdered_example = Reachable-IsOrdered 0 (jobs [] (5 ∷ []) (5 ∷ [])) jobs_begun

-- Room for the second of two jobs.
abbrev roomy : List ℕ → Executor
roomy queue = record { queue_capacity = 2; queue = queue; stopping = false }
