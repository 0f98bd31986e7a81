-- ===== src/Agree/Follow.antt =====
-- Writers that agree on any number of parameters, and the statements that they finish.
use cpplinq.Common.{ℕ, ◌+◌, Bool, ◌≡◌, true, refl, sym, subst, ap, length, if◌then◌else◌}
use cpplinq.Text.{Text, quiet}
use cpplinq.Generator.State.{GeneratedSql, Writer, initial, write, ◌<>◌, finish}
use cpplinq.Agree.Relation.{Relation}
use cpplinq.Agree.Writer.{Agrees, write_rel, write-quiet, choose_quiet, <>_rel, static_values}

module _ (r : Relation) where
  abbrev pub Follows : Writer → Writer → Type 0
  Follows a a' = (n : ℕ) × Agrees r n a a'

  pub follow_quiet : (t : Text) → quiet t ≡ true → Follows (write t) (write t)
  follow_quiet t q = (0, write-quiet r t q)

  pub follow_text : {t t' : Text} → ((i : ℕ) → r.Rel i i t t') → Follows (write t) (write t')
  follow_text {t} {t'} h = (0, write_rel r t t' h)

  pub follow_choice :
      (b : Bool) (s t : Text)
      → quiet s ≡ true
      → quiet t ≡ true
      → Follows (write (if b then s else t)) (write (if b then s else t))
  follow_choice b s t p q = (0, choose_quiet r b s t p q)

  -- One piece and then the next.
  pub follow : {a a' b b' : Writer} → Follows a a' → Follows b b' → Follows (a <> b) (a' <> b')
  follow g h = (g.0 + h.0, <>_rel r g.1 h.1)

  -- Related texts, with as many parameters as there are slots; the same parameters and slots; and
  -- the parameters are the values of the static slots, in order.
  pub record SameStatement (s s' : GeneratedSql) : Type 0 where
    pub related : r.Rel 0 (length s.slots) s.sql s'.sql
    pub same_params : s.params ≡ s'.params
    pub same_slots : s.slots ≡ s'.slots
    pub bound_values : s.params ≡ static_values s.slots

  pub finish_same : {a a' : Writer} → Follows a a' → SameStatement (finish a) (finish a')
  unfolding finish
  finish_same {a} {a'} (n, h) =
      let w = h initial in
      let g = w.good (record { counted = refl; static = refl }) in
      record {
        related = subst (λ k. r.Rel 0 k (a initial).0 (a' initial).0) (sym g.counted) w.related;
        same_params = ap (λ s. s.params) w.same_state;
        same_slots = ap (λ s. s.slots) w.same_state;
        bound_values = g.static;
      }
