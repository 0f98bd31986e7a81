-- ===== src/Pool/Invariant.antt =====
-- The bound on connections, and what a closed pool keeps.
use cpplinq.Common.{
  ℕ, suc, ◌+◌, ◌≤◌, ◌≡◌, refl, ap, subst, Bool, true, false, ◌||◌, not, List, [], ◌∷◌, ◌++◌,
  Outcome, ok, throws, length, ltb, if◌then◌else◌, arith, length-append,
}
use cpplinq.Pool.{
  PoolConfig, Pool, clamp, at_least_one, make_pool, initialize, close, return_connection,
  creation_failed,
}
use cpplinq.Pool.Acquire.{Grant, lease, create, available, grant, acquire}
use cpplinq.Pool.Steps.{
  System, after_acquire, Step, acquires, creates, fails, releases, closes, started, Reachable,
  start, after,
}

-- Every connection that is counted is idle, held by somebody, or being created; there are at most
-- max_connections of them; a closed pool keeps none idle; the configuration never changes.
pub record IsValid (config : PoolConfig) (s : System) : Type 0 where
  pub counted :
      s.pool.total_connections ≡ length s.pool.idle_connections + (length s.leased + s.creating)
  pub bounded : s.pool.total_connections ≤ config.max_connections
  pub drained : s.pool.closed ≡ true → length s.pool.idle_connections ≡ 0
  pub configured : s.pool.config ≡ config

-- What holds of the pool alone, when `out` connections are held or being created.
record Balanced (config : PoolConfig) (out : ℕ) (p : Pool) : Type 0 where
  counted : p.total_connections ≡ length p.idle_connections + out
  bounded : p.total_connections ≤ config.max_connections
  drained : p.closed ≡ true → length p.idle_connections ≡ 0
  configured : p.config ≡ config

Balanced-pool :
    (config : PoolConfig) (s : System)
    → IsValid config s
    → Balanced config (length s.leased + s.creating) s.pool
Balanced-pool config s h = record {
  counted = h.counted;
  bounded = h.bounded;
  drained = h.drained;
  configured = h.configured;
}

IsValid-system :
    (config : PoolConfig) (s : System) (out : ℕ)
    → out ≡ length s.leased + s.creating
    → Balanced config out s.pool
    → IsValid config s
IsValid-system config s out e h = record {
  counted = omega (arith, h.counted, e);
  bounded = h.bounded;
  drained = h.drained;
  configured = h.configured;
}

close-Balanced :
    (config : PoolConfig) (out : ℕ) (p : Pool)
    → Balanced config out p
    → Balanced config out (close p).0
unfolding close
close-Balanced config out p h = record {
  counted = ground (arith, h.counted);
  bounded = ground (arith, h.bounded);
  drained = λ x. ground (arith, h.drained);
  configured = ground (arith, h.configured);
}

return_connection-Balanced :
    (config : PoolConfig) (out : ℕ) (conn : ℕ) (is_open : Bool) (p : Pool)
    → Balanced config (suc out) p
    → Balanced config out (return_connection conn is_open p).0
unfolding return_connection
return_connection-Balanced config out conn is_open p h = record {
  counted = ground (arith, h.counted);
  bounded = ground (arith, h.bounded);
  drained = λ x. ground (arith, h.drained, x);
  configured = ground (arith, h.configured);
}

creation_failed-Balanced :
    (config : PoolConfig) (out : ℕ) (p : Pool)
    → Balanced config (suc out) p
    → Balanced config out (creation_failed p)
unfolding creation_failed
creation_failed-Balanced config out p h = record {
  counted = omega (arith, h.counted);
  bounded = omega (arith, h.bounded);
  drained = h.drained;
  configured = h.configured;
}

-- A pool that hands out is balanced with one more connection out.
abbrev Granted : PoolConfig → ℕ → Pool × Outcome Grant → Type 0
Granted config out (p, ok g) = Balanced config (suc out) p
Granted config out (p, throws e) = Balanced config out p

choose-Granted :
    (config : PoolConfig) (out : ℕ) (x y : Pool × Outcome Grant) (b : Bool)
    → (b ≡ true → Granted config out x)
    → (b ≡ false → Granted config out y)
    → Granted config out (if b then x else y)
choose-Granted config out x y true f g = f refl
choose-Granted config out x y false f g = g refl

grant-Granted :
    (config : PoolConfig) (out : ℕ) (p : Pool)
    → Balanced config out p
    → p.closed ≡ false
    → (idle : List ℕ) → p.idle_connections ≡ idle
    → Granted config out (grant p idle)
unfolding grant
grant-Granted config out p h open_ (conn ∷ rest) e = record {
  counted = omega (arith, h.counted, ap length e);
  bounded = h.bounded;
  drained = λ x. ground (arith, x, open_);
  configured = h.configured;
}
grant-Granted config out p h open_ [] e =
    choose-Granted config out _ _ (ltb p.total_connections p.config.max_connections)
      (λ less. record {
        counted = omega (arith, h.counted);
        bounded = ground (arith, less, ap (λ c. c.max_connections) h.configured);
        drained = λ x. ground (arith, x, open_);
        configured = h.configured;
      })
      (λ full. h)

acquire-Granted :
    (config : PoolConfig) (out : ℕ) (stop_at_wait stop_after : Bool) (p : Pool)
    → Balanced config out p
    → Granted config out (acquire stop_at_wait stop_after p)
unfolding acquire
acquire-Granted config out stop_at_wait stop_after p h =
    choose-Granted config out _ _ stop_after (λ stopped. h)
      (λ goes_on.
        choose-Granted config out _ _ p.closed (λ shut. h)
          (λ open_.
            choose-Granted config out _ _ (not (stop_at_wait || available p)) (λ late. h)
              (λ in_time. grant-Granted config out p h open_ p.idle_connections refl)))

after_acquire-IsValid :
    (config : PoolConfig) (s : System) (x : Pool × Outcome Grant)
    → Granted config (length s.leased + s.creating) x
    → IsValid config (after_acquire s x)
unfolding after_acquire
after_acquire-IsValid config s (p, ok (lease conn)) h = IsValid-system config _ _ (omega arith) h
after_acquire-IsValid config s (p, ok create) h = IsValid-system config _ _ (omega arith) h
after_acquire-IsValid config s (p, throws e) h = IsValid-system config _ _ refl h

released_length :
    (before behind : List ℕ) (conn : ℕ)
    → length (before ++ conn ∷ behind) ≡ suc (length (before ++ behind))
released_length before behind conn =
    omega (arith, length-append before (conn ∷ behind), length-append before behind)

-- Every locked section keeps the invariant.
pub Step-IsValid :
    (config : PoolConfig) {s t : System} → Step s t → IsValid config s → IsValid config t
Step-IsValid config (acquires s w a) h =
    after_acquire-IsValid config s (acquire w a s.pool)
      (acquire-Granted config _ w a s.pool (Balanced-pool config s h))
Step-IsValid config (creates s n conn e) h =
    IsValid-system config _ (length s.leased + s.creating) (omega (arith, e))
      (Balanced-pool config s h)
Step-IsValid config (fails s n e) h = IsValid-system config _ (length s.leased + n) refl (
    creation_failed-Balanced config (length s.leased + n) s.pool
      (subst (λ k. Balanced config k s.pool) (omega (arith, e)) (Balanced-pool config s h)))
Step-IsValid config (releases s before conn behind is_open e) h =
    IsValid-system config _ (length (before ++ behind) + s.creating) refl (
      return_connection-Balanced config (length (before ++ behind) + s.creating) conn is_open s.pool
        (subst (λ k. Balanced config k s.pool)
          (omega (arith, ap length e, released_length before behind conn))
          (Balanced-pool config s h)))
Step-IsValid config (closes s) h =
    IsValid-system config _ _ refl (close-Balanced config _ s.pool (Balanced-pool config s h))

-- What initialize adds.
initialize_lem :
    (config : PoolConfig) (created : List ℕ) (p : Pool)
    → Balanced config 0 p
    → p.closed ≡ false
    → p.total_connections + length created ≤ config.max_connections
    → Balanced config 0 (initialize created p)
unfolding initialize
initialize_lem config [] p h o room = h
initialize_lem config (conn ∷ created) p h o room =
    initialize_lem config created _
      (record {
        counted = omega (arith, h.counted);
        bounded = omega (arith, room);
        drained = λ x. ground (arith, x, o);
        configured = h.configured;
      })
      o (omega (arith, room))

clamp-ordered :
    (config : PoolConfig) → (clamp config).min_connections ≤ (clamp config).max_connections
unfolding clamp at_least_one
clamp-ordered config = ground arith

started-IsValid :
    (config : PoolConfig) (created : List ℕ)
    → length created ≡ (clamp config).min_connections
    → IsValid (clamp config) (started config created)
unfolding started make_pool
started-IsValid config created e = IsValid-system (clamp config) _ 0 refl (
    initialize_lem (clamp config) created _
      (record { counted = refl; bounded = omega arith; drained = λ x. refl; configured = refl })
      refl (omega (arith, e, clamp-ordered config)))

-- For every configuration, in every state that the pool reaches after its construction by any
-- interleaving of the locked sections of its users: every connection that is counted is idle, held
-- or being created, at most max_connections of the clamped configuration are counted, a closed
-- pool keeps none idle, and the configuration is the clamped one.
pub Reachable-IsValid :
    (config : PoolConfig) (s : System) → Reachable config s → IsValid (clamp config) s
Reachable-IsValid config s (start created e) = started-IsValid config created e
Reachable-IsValid config s (after h step) =
    Step-IsValid (clamp config) step (Reachable-IsValid config _ h)
