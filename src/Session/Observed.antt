-- ===== src/Session/Observed.antt =====
-- What a database makes of the calls: an independent description, against which the operations are
-- stated. It executes a statement with the values bound to it. Inside a transaction, what has been
-- executed stays pending until the commit, and is dropped by a rollback.
use cpplinq.Common.{ℕ, Bool, true, false, List, [], ◌∷◌, ◌++◌, map, ◌==◌, ◌||◌, if◌then◌else◌}
use cpplinq.Text.{Text}
use cpplinq.Value.{BoundValue}
pub use cpplinq.Session.Lists.{take, drop, rows, place}
use cpplinq.Session.{Command, Event, History}

pub record Execution : Type 0 where
  pub sql : Text
  pub values : List BoundValue

pub record Observed : Type 0 where
  pub statement : Text
  pub bound : List BoundValue
  pub within : Bool
  pub pending : List Execution
  pub executed : List Execution

abbrev pub executes : List Execution → Observed → Observed
executes es s =
    if s.within
    then record s { pending = s.pending ++ es }
    else record s { executed = s.executed ++ es }

abbrev pub run_statement : Observed → Observed
run_statement s = executes (record { sql = s.statement; values = s.bound } ∷ []) s

abbrev pub run_text : Text → Observed → Observed
run_text sql = executes (record { sql = sql; values = [] } ∷ [])

-- The executions of an array of rows.
abbrev pub array_of : Text → List BoundValue → ℕ → ℕ → List Execution
array_of sql flat_params col_count row_count =
    if row_count == 0 || col_count == 0
    then []
    else map (λ r. record { sql = sql; values = r }) (rows row_count col_count flat_params)

abbrev pub succeed : Command → Observed → Observed
succeed (Command.prepare sql) s = record s { statement = sql; bound = [] }
succeed Command.reset s = record s { bound = [] }
succeed (Command.bind i v) s = record s { bound = place i v s.bound }
succeed Command.execute_query s = run_statement s
succeed Command.next s = s
succeed (Command.get_int64 col) s = s
succeed (Command.is_null col) s = s
succeed (Command.get_double col) s = s
succeed (Command.set_timeout seconds) s = s
succeed Command.set_stop_token s = s
succeed Command.execute_non_query s = run_statement s
succeed (Command.execute sql) s = run_text sql s
succeed (Command.execute_query_direct sql) s = run_text sql s
succeed (Command.execute_non_query_direct sql) s = run_text sql s
succeed (Command.insert_many_batch sql flat_params col_count row_count) s =
    executes (array_of sql flat_params col_count row_count) s
succeed Command.begin_transaction s = record s { within = true; pending = [] }
succeed Command.commit s = record s {
  within = false;
  pending = [];
  executed = s.executed ++ s.pending;
}
succeed Command.rollback s = record s { within = false; pending = [] }

-- A call that throws executes nothing; a rollback ends the transaction all the same.
abbrev pub fail : Command → Observed → Observed
fail Command.rollback s = record s { within = false; pending = [] }
fail _ s = s

abbrev pub observe_event : Event → Observed → Observed
observe_event e s = if e.succeeded then succeed e.command s else fail e.command s

abbrev pub nothing_yet : Observed
nothing_yet = record { statement = []; bound = []; within = false; pending = []; executed = [] }

abbrev pub observe : History → Observed
observe [] = nothing_yet
observe (e ∷ h) = observe_event e (observe h)
