-- ===== src/Pool/Steps.antt =====
-- The pool and the threads that use it. Between two steps nobody holds the mutex.
use cpplinq.Common.{ℕ, suc, ◌≡◌, Bool, List, [], ◌∷◌, ◌++◌, Outcome, ok, throws, length}
use cpplinq.Pool.{
  PoolConfig, Pool, clamp, make_pool, initialize, close, return_connection, creation_failed,
}
use cpplinq.Pool.Acquire.{Grant, lease, create, acquire}

-- `leased` are the connections that PooledConnection objects hold, and `creating` counts the
-- threads between the two locked sections of acquire.
pub record System : Type 0 where
  pub pool : Pool
  pub leased : List ℕ
  pub creating : ℕ

unfoldable pub after_acquire : System → Pool × Outcome Grant → System
after_acquire s (p, ok (lease conn)) = record s { pool = p; leased = conn ∷ s.leased }
after_acquire s (p, ok create) = record s { pool = p; creating = suc s.creating }
after_acquire s (p, throws e) = record s { pool = p }

-- One locked section of one thread.
pub data Step : System → System → Type 0 where
  acquires :
      (s : System) (stop_at_wait stop_after : Bool)
      → Step s (after_acquire s (acquire stop_at_wait stop_after s.pool))
  creates :
      (s : System) (n conn : ℕ)
      → s.creating ≡ suc n
      → Step s (record s { creating = n; leased = conn ∷ s.leased })
  fails :
      (s : System) (n : ℕ)
      → s.creating ≡ suc n
      → Step s (record s { creating = n; pool = creation_failed s.pool })
  releases :
      (s : System) (before : List ℕ) (conn : ℕ) (behind : List ℕ) (is_open : Bool)
      → s.leased ≡ before ++ conn ∷ behind
      → Step s
          (record s { leased = before ++ behind; pool = (return_connection conn is_open s.pool).0 })
  closes : (s : System) → Step s (record s { pool = (close s.pool).0 })

-- The pool after its construction, with the connections that initialize has created.
unfoldable pub started : PoolConfig → List ℕ → System
unfolding make_pool initialize
started config created = record {
  pool = initialize created (make_pool config);
  leased = [];
  creating = 0;
}

pub data Reachable (config : PoolConfig) : System → Type 0 where
  start :
      (created : List ℕ)
      → length created ≡ (clamp config).min_connections
      → Reachable config (started config created)
  after : {s t : System} → Reachable config s → Step s t → Reachable config t
