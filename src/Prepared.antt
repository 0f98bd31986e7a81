-- ===== src/Prepared.antt =====
-- include/cpplinq/core/prepared_query.h: how PreparedQuery and PreparedCommand bind the slots of a
-- statement. IPreparedStatement belongs to the drivers; the model lists the calls that it gets.
pub mod Binding
use cpplinq.Common.{
  ℕ, suc, Bool, true, false, List, [], ◌∷◌, Option, none, some, Outcome, ok, throws, db_exception,
  ltb, length, get_elem?, if◌then◌else◌,
}
use cpplinq.Value.{BoundValue}
use cpplinq.Generator.State.{ParameterSlot}

pub data Call : Type 0 where
  reset : Call
  bind : ℕ → BoundValue → Call

pub data Done : Type 0 where
  done : Done

-- The value that a slot is bound to: none for a dynamic slot that has no argument.
unfoldable pub slot_value : List BoundValue → ParameterSlot → Option BoundValue
slot_value dynamic_args slot =
    if slot.is_dynamic then get_elem? dynamic_args slot.dynamic_index else some slot.static_value

abbrev then_bind : ℕ → BoundValue → List Call × Outcome Done → List Call × Outcome Done
then_bind i v rest = (bind i v ∷ rest.0, rest.1)

-- The loop from slot `i` on: the calls, and whether it ran to its end.
unfoldable pub bind_from : List BoundValue → ℕ → List ParameterSlot → List Call × Outcome Done
unfolding slot_value
bind_from dynamic_args i [] = ([], ok done)
bind_from dynamic_args i (slot ∷ slots) =
    let rest = bind_from dynamic_args (suc i) slots in
    elim (slot_value dynamic_args slot) [
      | none ↦ ([], throws db_exception)
      | some v ↦ then_bind i v rest
    ]

-- PreparedQuery::bind_and_execute and PreparedCommand::bind_slots; `has_stmt` is `stmt_ != nullptr`.
unfoldable pub bind_slots : Bool → List ParameterSlot → List BoundValue → List Call × Outcome Done
unfolding bind_from
bind_slots has_stmt slots dynamic_args =
    let run = bind_from dynamic_args 0 slots in
    if has_stmt then (reset ∷ run.0, run.1) else ([], throws db_exception)
