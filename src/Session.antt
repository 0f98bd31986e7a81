-- ===== src/Session.antt =====
-- include/cpplinq/driver/connection.h: the calls that the library makes on an IConnection and on its
-- IPreparedStatement and IDataReader. What a driver answers is up to the driver: it is a function
-- of the calls made so far. An operation of the library uses only the statement that it has prepared
-- last, so a call names no statement.
pub mod Transaction
pub mod Observed
pub mod Triples
pub mod Rows
pub mod Lists
use cpplinq.Common.{ℕ, suc, ◌+◌, Bool, List, [], ◌∷◌, Outcome, ok, throws, returns, Exception}
use cpplinq.Common.Int.{ℤ}
use cpplinq.Text.{Text}
use cpplinq.Value.{BoundValue}

pub data Command : Type 0 where
  prepare : Text → Command
  reset : Command
  bind : ℕ → BoundValue → Command
  execute_query : Command
  next : Command
  get_int64 is_null get_double : ℕ → Command
  set_timeout : ℕ → Command
  set_stop_token : Command
  execute_non_query : Command
  execute : Text → Command
  execute_query_direct : Text → Command
  execute_non_query_direct : Text → Command
  insert_many_batch : Text → List BoundValue → ℕ → ℕ → Command
  begin_transaction : Command
  commit : Command
  rollback : Command

-- What a call returns: whether a reader is there, whether there is a row, the affected rows, a
-- value. A double is its 64 bits.
abbrev pub Answer : Command → Type 0
Answer Command.execute_query = Bool
Answer Command.next = Bool
Answer (Command.get_int64 col) = ℤ
Answer (Command.is_null col) = Bool
Answer (Command.get_double col) = ℕ
Answer Command.execute_non_query = ℕ
Answer (Command.execute_query_direct sql) = Bool
Answer (Command.execute_non_query_direct sql) = ℕ
Answer (Command.insert_many_batch sql flat_params col_count row_count) = ℕ
Answer _ = Unit

pub record Event : Type 0 where
  pub command : Command
  pub succeeded : Bool

-- The calls made so far, the last one first.
abbrev pub History : Type 0
History = List Event

abbrev pub Driver : Type 0
Driver = History → (c : Command) → Outcome (Answer c)

abbrev pub Session {ℓ} : Type ℓ → Type ℓ
Session A = History → Outcome A × History

abbrev pub pure {ℓ} : {A : Type ℓ} → A → Session A
pure a h = (ok a, h)

abbrev pub raise {ℓ} : {A : Type ℓ} → Exception → Session A
raise e h = (throws e, h)

-- A call of code that talks to no driver.
abbrev pub lift {ℓ} : {A : Type ℓ} → Outcome A → Session A
lift r h = (r, h)

infixl 5 ◌>>=◌ ◌>>◌
abbrev pub ◌>>=◌ {ℓ κ} : {A : Type ℓ} {B : Type κ} → Session A → (A → Session B) → Session B
◌>>=◌ m f h = let (r, h') = m h in elim r [ ok a ↦ f a h' | throws e ↦ (throws e, h') ]

abbrev pub ◌>>◌ {ℓ κ} : {A : Type ℓ} {B : Type κ} → Session A → Session B → Session B
m >> k = m >>= λ _. k

abbrev pub send : Driver → (c : Command) → Session (Answer c)
send driver c h = let r = driver h c in (r, record { command = c; succeeded = returns r } ∷ h)

-- A loop that adds up the affected rows of its rounds.
abbrev pub sum_of {ℓ} : {A : Type ℓ} → (A → Session ℕ) → ℕ → List A → Session ℕ
sum_of f total [] = pure total
sum_of f total (x ∷ xs) = f x >>= λ n. sum_of f (total + n) xs

-- stmt->bind(i, values[i]) for each value, from index `i` on.
abbrev pub bind_all : Driver → ℕ → List BoundValue → Session {0} Unit
bind_all driver i [] = pure {0} tt
bind_all driver i (v ∷ vs) = send driver (Command.bind i v) >> bind_all driver (suc i) vs
