-- ===== src/Pool.antt =====
-- include/cpplinq/driver/connection_pool.h: ConnectionPoolState. Each function is one section that
-- holds the mutex; Pool.Steps puts them together. A connection is its number.
pub mod Acquire
pub mod Steps
pub mod Invariant
use cpplinq.Common.{
  ℕ, ◌+◌, ◌-◌, Bool, true, false, ◌||◌, not, List, [], ◌∷◌, ◌++◌, length, is_empty, ltb, ◌==◌,
  if◌then◌else◌,
}

pub record PoolConfig : Type 0 where
  pub min_connections : ℕ
  pub max_connections : ℕ
  pub async_worker_count : ℕ
  pub async_queue_capacity : ℕ

-- The constructor, one `if` after the other.
unfoldable pub at_least_one : ℕ → ℕ
at_least_one n = if n == 0 then 1 else n

unfoldable pub clamp : PoolConfig → PoolConfig
unfolding at_least_one
clamp config =
    let most = at_least_one config.max_connections in
    record {
      min_connections = if ltb most config.min_connections then most else config.min_connections;
      max_connections = most;
      async_worker_count =
          if config.async_worker_count == 0 || ltb most config.async_worker_count
          then most
          else config.async_worker_count;
      async_queue_capacity = at_least_one config.async_queue_capacity;
    }

-- idle_connections_ with its back first.
pub record Pool : Type 0 where
  pub config : PoolConfig
  pub idle_connections : List ℕ
  pub total_connections : ℕ
  pub closed : Bool

unfoldable pub make_pool : PoolConfig → Pool
unfolding clamp
make_pool config = record {
  config = clamp config;
  idle_connections = [];
  total_connections = 0;
  closed = false;
}

-- The last loop of initialize, over the connections that it has created.
unfoldable pub initialize : List ℕ → Pool → Pool
initialize [] p = p
initialize (conn ∷ created) p = initialize created (record p {
  idle_connections = conn ∷ p.idle_connections;
  total_connections = p.total_connections + 1;
})

-- The new state, and `to_close`. The subtraction does not go below 0 in a valid pool.
unfoldable pub close : Pool → Pool × List ℕ
close p = if p.closed then (p, []) else (
  record p {
    idle_connections = [];
    total_connections = p.total_connections - length p.idle_connections;
    closed = true;
  },
  p.idle_connections,
)

-- The new state, and `need_close`. `is_open` is what conn->is_open() says.
unfoldable pub return_connection : ℕ → Bool → Pool → Pool × Bool
return_connection conn is_open p =
    if p.closed || not is_open
    then (record p { total_connections = p.total_connections - 1 }, is_open)
    else (record p { idle_connections = conn ∷ p.idle_connections }, false)

-- The catch block: create_new_connection has thrown.
unfoldable pub creation_failed : Pool → Pool
creation_failed p = record p { total_connections = p.total_connections - 1 }
