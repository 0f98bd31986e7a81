-- ===== src/Pool/Acquire.antt =====
-- acquire and try_acquire, from the wait on.
use cpplinq.Common.{
  ℕ, ◌+◌, ◌≡◌, refl, Bool, ◌||◌, ◌&&◌, not, List, [], ◌∷◌, Exception, Outcome, ok, throws,
  operation_cancelled, db_exception, returns, is_empty, ltb, if◌then◌else◌, arith, Option, none,
  some,
}
use cpplinq.Pool.{Pool}

-- What the locked section comes to: an idle connection, or the right to create one.
pub data Grant : Type 0 where
  lease : ℕ → Grant
  create : Grant

unfoldable pub available : Pool → Bool
available p =
    p.closed
    || (not (is_empty p.idle_connections) || ltb p.total_connections p.config.max_connections)

abbrev refuse : Exception → Pool → Pool × Outcome Grant
refuse e p = (p, throws e)

-- The last two conditionals of acquire, and the throw behind them.
unfoldable pub grant : Pool → List ℕ → Pool × Outcome Grant
grant p (conn ∷ rest) = (record p { idle_connections = rest }, ok (lease conn))
grant p [] =
    if ltb p.total_connections p.config.max_connections
    then (record p { total_connections = p.total_connections + 1 }, ok create)
    else refuse db_exception p

-- The wait ends with `success`: its condition held, or the time was up. `stop_at_wait` and
-- `stop_after` are what the stop token says in the condition and behind the wait.
unfoldable pub acquire : Bool → Bool → Pool → Pool × Outcome Grant
unfolding available grant
acquire stop_at_wait stop_after p =
    let success = stop_at_wait || available p in
    if stop_after
    then refuse operation_cancelled p
    else if p.closed
    then refuse db_exception p
    else if not success
    then refuse db_exception p
    else grant p p.idle_connections

-- try_acquire hands out nothing where acquire throws a DbException.
unfoldable pub try_grant : Pool → List ℕ → Pool × Outcome (Option Grant)
try_grant p (conn ∷ rest) = (record p { idle_connections = rest }, ok (some (lease conn)))
try_grant p [] =
    if ltb p.total_connections p.config.max_connections
    then (record p { total_connections = p.total_connections + 1 }, ok (some create))
    else (p, ok none)

unfoldable pub try_acquire : Bool → Bool → Pool → Pool × Outcome (Option Grant)
unfolding available try_grant
try_acquire stop_at_wait stop_after p =
    let success = stop_at_wait || available p in
    if stop_after
    then (p, throws operation_cancelled)
    else if p.closed || not success
    then (p, ok none)
    else try_grant p p.idle_connections

-- What acquire says as a value of try_acquire.
unfoldable pub attempt : Outcome Grant → Outcome (Option Grant)
attempt (ok g) = ok (some g)
attempt (throws db_exception) = ok none
attempt (throws e) = throws e

try_grant-grant :
    (p : Pool) (idle : List ℕ) → try_grant p idle ≡ ((grant p idle).0, attempt (grant p idle).1)
unfolding try_grant grant attempt
try_grant-grant p [] = ground arith
try_grant-grant p (conn ∷ rest) = refl

returns-grant :
    (p : Pool) (idle : List ℕ)
    → returns (grant p idle).1
      ≡ (not (is_empty idle) || ltb p.total_connections p.config.max_connections)
unfolding grant
returns-grant p [] = ground arith
returns-grant p (conn ∷ rest) = refl

-- For every pool and whatever the stop token says: try_acquire leaves the pool as acquire does and
-- hands out the same, but hands out nothing where acquire throws a DbException.
pub try_acquire-acquire :
    (stop_at_wait stop_after : Bool) (p : Pool)
    → try_acquire stop_at_wait stop_after p
      ≡ ((acquire stop_at_wait stop_after p).0, attempt (acquire stop_at_wait stop_after p).1)
unfolding try_acquire acquire attempt
try_acquire-acquire stop_at_wait stop_after p = ground (arith, try_grant-grant p p.idle_connections)

-- For every pool and whatever the stop token says: acquire hands out a connection or the right to
-- create one exactly if it is not stopped, the pool is open, and a connection is idle or fewer
-- than max_connections are counted.
pub acquire-returns :
    (stop_at_wait stop_after : Bool) (p : Pool)
    → returns (acquire stop_at_wait stop_after p).1 ≡ (
        not stop_after
        && (not p.closed
            && (not (is_empty p.idle_connections)
                || ltb p.total_connections p.config.max_connections)))
unfolding acquire available
acquire-returns stop_at_wait stop_after p = ground (arith, returns-grant p p.idle_connections)
