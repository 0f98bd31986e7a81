-- ===== src/Prepared/Binding.antt =====
-- What the slots are bound to.
use cpplinq.Common.{
  returns, ℕ, suc, Bool, true, false, not, List, [], ◌∷◌, ◌++◌, ◌≡◌, refl, ap, sym, ◌∙◌, arith,
  Option, none, some, Outcome, ok, ltb, length, imap, get_elem?, if◌then◌else◌,
}
use cpplinq.Value.{BoundValue}
use cpplinq.Generator.State.{ParameterSlot, GeneratedSql}
use cpplinq.Generator.Request.{Request, generate}
use cpplinq.Agree.Requests.{all_of, regular_request}
use cpplinq.Agree.Writer.{static_values}
use cpplinq.Placeholders.{Database, dialect_of}
use cpplinq.Placeholders.Count.{generate-static_values}
use cpplinq.Prepared.{Call, reset, bind, Done, done, slot_value, bind_from, bind_slots}

-- A slot that has a value: it is static, or its index is one of the arguments.
abbrev pub has_argument : List BoundValue → ParameterSlot → Bool
has_argument dynamic_args slot =
    if slot.is_dynamic then ltb slot.dynamic_index (length dynamic_args) else true

abbrev has_value : Option BoundValue → Bool
has_value none = false
has_value (some v) = true

in_range : (vs : List BoundValue) (i : ℕ) → has_value (get_elem? vs i) ≡ ltb i (length vs)
in_range [] i = ground arith
in_range (v ∷ vs) ℕ.zero = ground arith
in_range (v ∷ vs) (suc i) = ground (arith, in_range vs i)

has_value-slot_value :
    (vs : List BoundValue) (slot : ParameterSlot)
    → has_value (slot_value vs slot) ≡ has_argument vs slot
unfolding slot_value
has_value-slot_value vs slot = ground (arith, in_range vs slot.dynamic_index)

returns-bind_from :
    (vs : List BoundValue) (i : ℕ) (slots : List ParameterSlot)
    → returns (bind_from vs i slots).1 ≡ all_of (has_argument vs) slots
unfolding bind_from all_of
returns-bind_from vs i [] = refl
returns-bind_from vs i (slot ∷ slots) =
    ground (arith, has_value-slot_value vs slot, returns-bind_from vs (suc i) slots)

-- For a statement that is there, any slots and any arguments: binding returns exactly if each
-- dynamic slot has an index below the number of arguments.
pub bind_slots-returns :
    (slots : List ParameterSlot) (dynamic_args : List BoundValue)
    → returns (bind_slots true slots dynamic_args).1 ≡ all_of (has_argument dynamic_args) slots
unfolding bind_slots
bind_slots-returns slots dynamic_args = returns-bind_from dynamic_args 0 slots

abbrev pub is_static : ParameterSlot → Bool
is_static slot = not slot.is_dynamic

static_calls :
    (vs : List BoundValue) (i : ℕ) (slots : List ParameterSlot)
    → all_of is_static slots ≡ true
    → bind_from vs i slots ≡ (imap bind i (static_values slots), ok done)
unfolding bind_from all_of slot_value imap
static_calls vs i [] h = refl
static_calls vs i (slot ∷ slots) h = ground (arith, h, static_calls vs (suc i) slots)

-- For each of the six dialects, every regular request that returns a statement without dynamic
-- slots, and any arguments: binding resets the statement once and then binds the parameters of the
-- statement, in order, from index 0, and returns.
pub bind_slots-generate :
    (db : Database) (q : Request) (s : GeneratedSql) (dynamic_args : List BoundValue)
    → regular_request q ≡ true
    → generate (dialect_of db) q ≡ ok s
    → all_of is_static s.slots ≡ true
    → bind_slots true s.slots dynamic_args ≡ (reset ∷ imap bind 0 s.params, ok done)
unfolding bind_slots
bind_slots-generate db q s dynamic_args h e x =
    ap (λ (r : List Call × Outcome Done). (reset ∷ r.0, r.1))
      (static_calls dynamic_args 0 s.slots x)
    ∙ ap (λ ps. (reset ∷ imap bind 0 ps, ok done)) (sym (generate-static_values db q s h e))

-- The value at an index, where there is one.
abbrev pub argument_at : List BoundValue → ℕ → List BoundValue
argument_at [] i = []
argument_at (v ∷ vs) ℕ.zero = v ∷ []
argument_at (v ∷ vs) (suc i) = argument_at vs i

-- What the slots ask for: a dynamic one for the argument at its index, another for its value.
abbrev pub values_of : List BoundValue → List ParameterSlot → List BoundValue
values_of vs [] = []
values_of vs (slot ∷ slots) =
    (if slot.is_dynamic then argument_at vs slot.dynamic_index else slot.static_value ∷ [])
    ++ values_of vs slots

abbrev as_list : Option BoundValue → List BoundValue
as_list none = []
as_list (some v) = v ∷ []

get_elem?-argument_at : (vs : List BoundValue) (i : ℕ) → as_list (get_elem? vs i) ≡ argument_at vs i
get_elem?-argument_at [] i = refl
get_elem?-argument_at (v ∷ vs) ℕ.zero = refl
get_elem?-argument_at (v ∷ vs) (suc i) = get_elem?-argument_at vs i

all_calls :
    (vs : List BoundValue) (i : ℕ) (slots : List ParameterSlot)
    → all_of (has_argument vs) slots ≡ true
    → bind_from vs i slots ≡ (imap bind i (values_of vs slots), ok done)
unfolding bind_from slot_value all_of imap
all_calls vs i [] h = refl
all_calls vs i (slot ∷ slots) h = ground (
  arith,
  h,
  in_range vs slot.dynamic_index,
  get_elem?-argument_at vs slot.dynamic_index,
  all_calls vs (suc i) slots,
)

-- For a statement that is there and arguments that cover each dynamic slot: binding resets the
-- statement once and binds each slot, in order, to its static value or to the argument at its
-- index, and returns.
pub bind_slots-values_of :
    (slots : List ParameterSlot) (dynamic_args : List BoundValue)
    → all_of (has_argument dynamic_args) slots ≡ true
    → bind_slots true slots dynamic_args
      ≡ (reset ∷ imap bind 0 (values_of dynamic_args slots), ok done)
unfolding bind_slots
bind_slots-values_of slots dynamic_args h =
    ap (λ (r : List Call × Outcome Done). (reset ∷ r.0, r.1)) (all_calls dynamic_args 0 slots h)
