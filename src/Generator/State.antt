-- ===== src/Generator/State.antt =====
-- What a run of the generator keeps: the parameter list of the result, and SqlGenerator::Context.
-- A `Writer` is a piece of code that appends text and may bind parameters on the way.
use cpplinq.Common.{ℕ, suc, Bool, true, false, List, [], ◌∷◌, ◌++◌}
use cpplinq.Text.{Text}
use cpplinq.Value.{
  SqlValue, BoundValue, null, int64, uint64, double, string, wide, boolean_value, bytes, numeric,
  date_value, time_value, timestamp_value, interval_value, guid_value,
}

pub record ParameterSlot : Type 0 where
  pub is_dynamic : Bool
  pub dynamic_index : ℕ
  pub static_value : BoundValue

-- The two constructors.
abbrev pub dynamic_slot : ℕ → ParameterSlot
dynamic_slot dyn_idx = record { is_dynamic = true; dynamic_index = dyn_idx; static_value = null }

abbrev pub static_slot : BoundValue → ParameterSlot
static_slot val = record { is_dynamic = false; dynamic_index = 0; static_value = val }

unfoldable pub sql_value_to_bound_value : SqlValue → BoundValue
sql_value_to_bound_value null = null
sql_value_to_bound_value (int64 v) = int64 v
sql_value_to_bound_value (uint64 v) = uint64 v
sql_value_to_bound_value (double v) = double v
sql_value_to_bound_value (string v) = string v
sql_value_to_bound_value (wide v) = wide v
sql_value_to_bound_value (boolean_value v) = boolean_value v
sql_value_to_bound_value (bytes v) = bytes v
sql_value_to_bound_value (numeric v) = numeric v
sql_value_to_bound_value (date_value v) = date_value v
sql_value_to_bound_value (time_value v) = time_value v
sql_value_to_bound_value (timestamp_value v) = timestamp_value v
sql_value_to_bound_value (interval_value v) = interval_value v
sql_value_to_bound_value (guid_value v) = guid_value v

pub record GeneratedSql : Type 0 where
  pub sql : Text
  pub params : List BoundValue
  pub slots : List ParameterSlot

pub record State : Type 0 where
  pub params : List BoundValue
  pub param_counter : ℕ
  pub slots : List ParameterSlot

abbrev pub initial : State
initial = record { params = []; param_counter = 0; slots = [] }

abbrev pub Writer : Type 0
Writer = State → Text × State

unfoldable pub write : Text → Writer
write t st = (t, st)

-- First the left piece, then the right one, appended to it.
infixr 60 ◌<>◌
unfoldable pub ◌<>◌ : Writer → Writer → Writer
◌<>◌ a b st = let (s, st') = a st in let (t, st'') = b st' in (s ++ t, st'')

-- A piece that is run for its effect on the state, with another text in place of its own.
unfoldable pub replace_by : Text → Writer → Writer
replace_by t a st = (t, (a st).1)

unfoldable pub wrap : (Text → Text) → Writer → Writer
wrap f a st = let (s, st') = a st in (f s, st')

-- Both pieces, left first; `f` puts the texts together.
unfoldable pub wrap_two : (Text → Text → Text) → Writer → Writer → Writer
wrap_two f a b st = let (s, st') = a st in let (t, st'') = b st' in (f s t, st'')

-- params.push_back(v); slots.emplace_back(v); return placeholder(param_counter++);
unfoldable pub bind_value : (ℕ → Text) → BoundValue → Writer
bind_value placeholder v st = (
  placeholder st.param_counter,
  record st {
    params = st.params ++ v ∷ [];
    param_counter = suc st.param_counter;
    slots = st.slots ++ static_slot v ∷ [];
  },
)

-- slots.emplace_back(index); return placeholder(param_counter++);
unfoldable pub bind_dynamic : (ℕ → Text) → ℕ → Writer
bind_dynamic placeholder index st = (
  placeholder st.param_counter,
  record st { param_counter = suc st.param_counter; slots = st.slots ++ dynamic_slot index ∷ [] },
)

-- result.sql = sql; result.slots = ctx.slots; return result;
unfoldable pub finish : Writer → GeneratedSql
finish a = let (t, st) = a initial in record { sql = t; params = st.params; slots = st.slots }
