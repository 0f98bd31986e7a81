-- ===== src/Builder/Terminals/Executed.antt =====
-- What the terminal operations have executed.
use cpplinq.Common.{
  ◌+◌, true, false, List, [], ◌∷◌, ◌++◌, length, is_empty, if◌then◌else◌, ok, ◌≡◌, refl, ap, sym,
  ◌∙◌, arith,
}
use cpplinq.Value.{BoundValue}
use cpplinq.Generator.State.{GeneratedSql, ParameterSlot}
use cpplinq.Generator.Request.{Request, generate}
use cpplinq.Agree.Requests.{regular_request}
use cpplinq.Agree.Writer.{static_values}
use cpplinq.Placeholders.{Database, dialect_of, style_of, count_placeholders}
use cpplinq.Placeholders.Count.{generate-count_placeholders, generate-static_values}
use cpplinq.Session.{Command, Driver, History, Session, send, ◌>>◌, bind_all}
use cpplinq.Session.Observed.{Observed, Execution, observe, succeed, fail, run_statement}
use cpplinq.Session.Triples.{Ends, Leads, Outside, send-Leads, call-Leads}
use cpplinq.Session.Rows.{executes-Outside, execute_row-Outside}
use cpplinq.Context.{filter}
use cpplinq.Builder.Terminals.{open_reader, run_command}

abbrev pub execution_of : GeneratedSql → Execution
execution_of g = record { sql = g.sql; values = g.params }

module _ (driver : Driver) (g : GeneratedSql) (s : Observed) (out : s.within ≡ false) where
  -- A statement that is prepared, and executed by the call `c`.
  prepared-Leads :
      (c : Command) (vs : List BoundValue)
      → ((t : Observed) → succeed c t ≡ run_statement t)
      → ((t : Observed) → fail c t ≡ t)
      → Leads
          (Outside s.executed)
          s
          (send driver (Command.prepare g.sql) >> (bind_all driver 0 vs >> send driver c))
          (Outside (s.executed ++ record { sql = g.sql; values = vs } ∷ []))
  prepared-Leads c vs runs keeps =
      call-Leads driver (Command.prepare g.sql) (Outside s.executed)
        (Outside (s.executed ++ record { sql = g.sql; values = vs } ∷ [])) s
        (λ _. bind_all driver 0 vs >> send driver c) (out, refl)
        (λ _.
          execute_row-Outside driver c g.sql vs (succeed (Command.prepare g.sql) s) runs keeps refl
            refl out)

  open_reader-Leads :
      Leads
        (Outside s.executed)
        s
        (open_reader driver g)
        (Outside (s.executed ++ execution_of g ∷ []))
  unfolding open_reader
  open_reader-Leads = go g.params
    where
      go :
          (vs : List BoundValue)
          → Leads
              (Outside s.executed)
              s
              (if is_empty vs
                then send driver (Command.execute_query_direct g.sql)
                else send driver (Command.prepare g.sql)
                  >> (bind_all driver 0 vs >> send driver Command.execute_query))
              (Outside (s.executed ++ record { sql = g.sql; values = vs } ∷ []))
      go [] =
          send-Leads driver (Command.execute_query_direct g.sql) (Outside s.executed)
            (Outside (s.executed ++ record { sql = g.sql; values = [] } ∷ [])) s (out, refl)
            (executes-Outside (record { sql = g.sql; values = [] } ∷ []) s out)
      go (v ∷ vs) = prepared-Leads Command.execute_query (v ∷ vs) (λ _. refl) (λ _. refl)

  run_command-Leads :
      Leads
        (Outside s.executed)
        s
        (run_command driver g)
        (Outside (s.executed ++ execution_of g ∷ []))
  unfolding run_command
  run_command-Leads = go g.params
    where
      go :
          (vs : List BoundValue)
          → Leads
              (Outside s.executed)
              s
              (if is_empty vs
                then send driver (Command.execute_non_query_direct g.sql)
                else send driver (Command.prepare g.sql)
                  >> (bind_all driver 0 vs >> send driver Command.execute_non_query))
              (Outside (s.executed ++ record { sql = g.sql; values = vs } ∷ []))
      go [] =
          send-Leads driver (Command.execute_non_query_direct g.sql) (Outside s.executed)
            (Outside (s.executed ++ record { sql = g.sql; values = [] } ∷ [])) s (out, refl)
            (executes-Outside (record { sql = g.sql; values = [] } ∷ []) s out)
      go (v ∷ vs) = prepared-Leads Command.execute_non_query (v ∷ vs) (λ _. refl) (λ _. refl)

-- The slots that a call fills when it executes.
abbrev pub dynamic_slots : List ParameterSlot → List ParameterSlot
dynamic_slots slots = filter (λ slot. slot.is_dynamic) slots

slots-split :
    (slots : List ParameterSlot)
    → length slots ≡ length (static_values slots) + length (dynamic_slots slots)
slots-split [] = omega arith
slots-split (slot ∷ slots) = ground (arith, slots-split slots)

-- One statement executed, or nothing.
abbrev pub RunsOne {ℓ} : {A : Type ℓ} → Execution → Session A → Type 0
RunsOne x m =
    (h : History)
    → (observe h).within ≡ false
    → Ends (Outside (observe h).executed) (Outside ((observe h).executed ++ x ∷ [])) (m h)

-- For each of the six dialects, every regular request, the statement that is generated, and every
-- driver, from a state outside of transactions: whether the statement is run directly or prepared,
-- as a query or as a command, if the run returns, the database has executed the statement once with
-- its parameters, and if it throws, nothing more than before; and the statement shows one
-- placeholder for each of these parameters and for each dynamic slot.
pub run-placeholders :
    (driver : Driver) (db : Database) (q : Request) (g : GeneratedSql)
    → regular_request q ≡ true
    → generate (dialect_of db) q ≡ ok g
    → RunsOne (execution_of g) (open_reader driver g)
      × RunsOne (execution_of g) (run_command driver g)
      × (count_placeholders (style_of db) g.sql ≡ length g.params + length (dynamic_slots g.slots))
run-placeholders driver db q g regular e = (
  λ h out. open_reader-Leads driver g (observe h) out h refl,
  λ h out. run_command-Leads driver g (observe h) out h refl,
  generate-count_placeholders db q g regular e
      ∙ slots-split g.slots
      ∙ ap (λ vs. length vs + length (dynamic_slots g.slots))
          (sym (generate-static_values db q g regular e)),
)
