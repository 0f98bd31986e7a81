-- ===== src/Agree/Writer.antt =====
-- Writers that agree, piece by piece.
use cpplinq.Common.{
  ℕ, suc, ◌+◌, List, [], ◌∷◌, ◌++◌, ◌≡◌, refl, sym, subst, ap, ◌∙◌, append-nil, Bool, true, false,
  arith, length, length-append, if◌then◌else◌,
}
use cpplinq.Text.{Text, quiet}
use cpplinq.Value.{BoundValue}
use cpplinq.Generator.State.{
  ParameterSlot, dynamic_slot, static_slot, State, Writer, write, ◌<>◌, replace_by, wrap, wrap_two,
  bind_value, bind_dynamic,
}
use cpplinq.Agree.Relation.{Relation}

-- The values of the slots that hold one.
abbrev pub static_values : List ParameterSlot → List BoundValue
static_values [] = []
static_values (s ∷ ss) =
    if s.is_dynamic then static_values ss else s.static_value ∷ static_values ss

static_values-append :
    (ss ts : List ParameterSlot) → static_values (ss ++ ts) ≡ static_values ss ++ static_values ts
static_values-append [] ts = refl
static_values-append (s ∷ ss) ts = ground (arith, static_values-append ss ts)

-- There is a slot for each parameter, and the parameter list holds the values of the static ones.
pub record IsGood (st : State) : Type 0 where
  pub counted : length st.slots ≡ st.param_counter
  pub static : st.params ≡ static_values st.slots

module _ (r : Relation) where
  -- The runs write related texts, bind `n` parameters, and end in one state.
  pub record Writes (n : ℕ) (a a' : Writer) (st : State) : Type 0 where
    pub related : r.Rel st.param_counter (a st).1.param_counter (a st).0 (a' st).0
    pub same_state : (a st).1 ≡ (a' st).1
    pub bound : (a st).1.param_counter ≡ st.param_counter + n
    pub good : IsGood st → IsGood (a st).1

  abbrev pub Agrees : ℕ → Writer → Writer → Type 0
  Agrees n a a' = (st : State) → Writes n a a' st

  -- A piece that binds nothing.
  pub write_rel : (t t' : Text) → ((i : ℕ) → r.Rel i i t t') → Agrees 0 (write t) (write t')
  unfolding write
  write_rel t t' h st = record {
    related = h st.param_counter;
    same_state = refl;
    bound = omega arith;
    good = λ g. g;
  }

  pub write-quiet : (t : Text) → quiet t ≡ true → Agrees 0 (write t) (write t)
  write-quiet t q = write_rel t t (λ i. r.quiet_rel i t q)

  -- Two pieces, one after the other, whose texts are put together by `f` and `f'`.
  pub wrap_two_rel :
      (f f' : Text → Text → Text) (m n : ℕ) (a a' b b' : Writer)
      → ((i j k : ℕ) (s s' t t' : Text)
          → r.Rel i j s s'
          → r.Rel j k t t'
          → r.Rel i k (f s t) (f' s' t'))
      → Agrees m a a'
      → Agrees n b b'
      → Agrees (m + n) (wrap_two f a b) (wrap_two f' a' b')
  unfolding wrap_two
  wrap_two_rel f f' m n a a' b b' join g h st =
      let first = g st in
      let second = h (a st).1 in
      record {
        related =
            subst
              (λ s.
                r.Rel st.param_counter (b (a st).1).1.param_counter (f (a st).0 (b (a st).1).0)
                  (f' (a' st).0 (b' s).0))
              first.same_state (join _ _ _ _ _ _ _ first.related second.related);
        same_state = second.same_state ∙ ap (λ s. (b' s).1) first.same_state;
        bound = omega (arith, first.bound, second.bound);
        good = λ x. second.good (first.good x);
      }

  pub <>_rel :
      {m n : ℕ} {a a' b b' : Writer}
      → Agrees m a a'
      → Agrees n b b'
      → Agrees (m + n) (a <> b) (a' <> b')
  unfolding ◌<>◌ wrap_two
  <>_rel {m} {n} {a} {a'} {b} {b'} g h = wrap_two_rel ◌++◌ ◌++◌ m n a a' b b' r.append_rel g h

  pub wrap_rel :
      (f f' : Text → Text) (n : ℕ) (a a' : Writer)
      → ((i j : ℕ) (t t' : Text) → r.Rel i j t t' → r.Rel i j (f t) (f' t'))
      → Agrees n a a'
      → Agrees n (wrap f a) (wrap f' a')
  unfolding wrap
  wrap_rel f f' n a a' h g st = record {
    related = h _ _ _ _ (g st).related;
    same_state = (g st).same_state;
    bound = (g st).bound;
    good = (g st).good;
  }

  -- A piece that binds nothing may have its text replaced.
  pub replace_by_rel :
      (t : Text) (a a' : Writer)
      → quiet t ≡ true
      → Agrees 0 a a'
      → Agrees 0 (replace_by t a) (replace_by t a')
  unfolding replace_by
  replace_by_rel t a a' q g st = record {
    related =
        subst (λ k. r.Rel st.param_counter k t t) (omega (arith, (g st).bound))
          (r.quiet_rel st.param_counter t q);
    same_state = (g st).same_state;
    bound = (g st).bound;
    good = (g st).good;
  }

  pub bind_value_rel :
      (p p' : ℕ → Text) (v : BoundValue)
      → ((i : ℕ) → r.Rel i (suc i) (p i) (p' i))
      → Agrees 1 (bind_value p v) (bind_value p' v)
  unfolding bind_value
  bind_value_rel p p' v h st = record {
    related = h st.param_counter;
    same_state = refl;
    bound = omega arith;
    good = λ g. record {
      counted = omega (arith, g.counted, length-append {0} st.slots (static_slot v ∷ []));
      static =
          ap (λ l. l ++ v ∷ []) g.static ∙ sym (static_values-append st.slots (static_slot v ∷ []));
    };
  }

  pub bind_dynamic_rel :
      (p p' : ℕ → Text) (index : ℕ)
      → ((i : ℕ) → r.Rel i (suc i) (p i) (p' i))
      → Agrees 1 (bind_dynamic p index) (bind_dynamic p' index)
  unfolding bind_dynamic
  bind_dynamic_rel p p' index h st = record {
    related = h st.param_counter;
    same_state = refl;
    bound = omega arith;
    good = λ g. record {
      counted = omega (arith, g.counted, length-append {0} st.slots (dynamic_slot index ∷ []));
      static =
          g.static
          ∙ sym (append-nil _)
          ∙ sym (static_values-append st.slots (dynamic_slot index ∷ []));
    };
  }

  -- The number of parameters may be written another way.
  pub count_as : {m n : ℕ} {a a' : Writer} → m ≡ n → Agrees m a a' → Agrees n a a'
  count_as {m} {n} {a} {a'} e g st = subst (λ k. Writes k a a' st) e (g st)

  pub choose_quiet :
      (b : Bool) (s t : Text)
      → quiet s ≡ true
      → quiet t ≡ true
      → Agrees 0 (write (if b then s else t)) (write (if b then s else t))
  choose_quiet true s t p q = write-quiet s p
  choose_quiet false s t p q = write-quiet t q
