-- ===== src/Session/Rows.antt =====
-- Binding the values of a row and executing the statement.
use cpplinq.Common.{
  ℕ, zero, suc, true, false, List, [], ◌∷◌, ◌++◌, ◌≡◌, refl, ap, sym, ◌∙◌, subst, length, arith,
  append_assoc, append-nil, length-append, if◌then◌else◌,
}
use cpplinq.Text.{Text}
use cpplinq.Value.{BoundValue}
use cpplinq.Session.{Command, Driver, Session, send, ◌>>◌, bind_all}
use cpplinq.Session.Observed.{Observed, Execution, succeed, fail, place, executes, run_statement}
use cpplinq.Session.Triples.{
  Leads, Inside, Outside, Working, pure-Leads, then-Leads, send-Leads, call-Leads,
}

place_at_end :
    {A : Type 0} (v : A) (done : List A) (i : ℕ) → i ≡ length done → place i v done ≡ done ++ v ∷ []
place_at_end v [] zero e = refl
place_at_end v [] (suc i) e = absurd (omega (arith, e))
place_at_end v (x ∷ done) zero e = absurd (omega (arith, e))
place_at_end v (x ∷ done) (suc i) e = ap (λ l. x ∷ l) (place_at_end v done i (omega (arith, e)))

module _ (driver : Driver) (R Q : Observed → Type 0) where
  bind_from-Leads :
      (vs done : List BoundValue) (i : ℕ) (s : Observed)
      → i ≡ length done
      → s.bound ≡ done
      → ((b : List BoundValue) → R (record s { bound = b }))
      → Q (record s { bound = done ++ vs })
      → Leads R s (bind_all driver i vs) Q
  bind_from-Leads [] done i s size e r q =
      pure-Leads {0} R Q s tt (subst (λ l. Q (record s { bound = l })) (append-nil done ∙ sym e) q)
  bind_from-Leads (v ∷ vs) done i s size e r q =
      call-Leads driver (Command.bind i v) R Q s (λ _. bind_all driver (suc i) vs) (r s.bound)
        (λ _.
          bind_from-Leads vs (done ++ v ∷ []) (suc i) (succeed (Command.bind i v) s)
            (omega (arith, size, length-append done (v ∷ [])))
            (ap (place i v) e ∙ place_at_end v done i size) r
            (subst (λ l. Q (record s { bound = l })) (sym (append_assoc done (v ∷ []) vs)) q))

-- All values of a row bound to a statement without bound values, and then the rest.
pub bind_row-Leads {ℓ} :
    {A : Type ℓ} (driver : Driver) (R Q : Observed → Type 0) (vs : List BoundValue) (s : Observed)
    (k : Session A)
    → s.bound ≡ []
    → ((b : List BoundValue) → R (record s { bound = b }))
    → Leads R (record s { bound = vs }) k Q
    → Leads R s (bind_all driver 0 vs >> k) Q
bind_row-Leads driver R Q vs s k e r rest =
    then-Leads R (λ t. t ≡ record s { bound = vs }) Q s (bind_all driver 0 vs) (λ _. k)
      (bind_from-Leads driver R (λ t. t ≡ record s { bound = vs }) vs [] 0 s refl e r refl)
      (λ _ s' e' h e''. rest h (e'' ∙ e'))

executes_within :
    (es : List Execution) (s : Observed)
    → s.within ≡ true
    → executes es s ≡ record s { pending = s.pending ++ es }
executes_within es s e =
    ap
      (λ b.
        if b
        then record s { pending = s.pending ++ es }
        else record s { executed = s.executed ++ es })
      e

-- Inside a transaction, with `sql` prepared.
abbrev pub Prepared : Text → List Execution → List Execution → Observed → Type 0
Prepared sql w p s = (s.statement ≡ sql) × Working w p s

-- What is executed inside a transaction is pending.
pub executes-Working :
    (w p es : List Execution) (s : Observed) → Working w p s → Working w (p ++ es) (executes es s)
executes-Working w p es s i =
    subst (Working w (p ++ es)) (sym (executes_within es s i.0.0)) (i.0, ap (λ l. l ++ es) i.1)

pub executes-Prepared :
    (sql : Text) (w p es : List Execution) (s : Observed)
    → Prepared sql w p s
    → Prepared sql w (p ++ es) (executes es s)
executes-Prepared sql w p es s i =
    (ap (λ t. t.statement) (executes_within es s i.1.0.0) ∙ i.0, executes-Working w p es s i.1)

-- The statement executed with a row that has been bound.
pub execute_row-Leads :
    (driver : Driver) (sql : Text) (vs : List BoundValue) (w p : List Execution) (s : Observed)
    → Prepared sql w p s
    → s.bound ≡ []
    → Leads
        (Inside w)
        s
        (bind_all driver 0 vs >> send driver Command.execute_non_query)
        (Prepared sql w (p ++ record { sql = sql; values = vs } ∷ []))
execute_row-Leads driver sql vs w p s i e =
    let t : Observed = record s { bound = vs } in
    bind_row-Leads driver (Inside w) (Prepared sql w (p ++ record { sql = sql; values = vs } ∷ []))
      vs s (send driver Command.execute_non_query) e (λ b. i.1.0)
      (send-Leads driver Command.execute_non_query (Inside w)
        (Prepared sql w (p ++ record { sql = sql; values = vs } ∷ [])) t i.1.0
        (subst
          (λ q.
            Prepared sql w (p ++ record { sql = q; values = vs } ∷ [])
              (executes (record { sql = s.statement; values = vs } ∷ []) t))
          i.0 (executes-Prepared sql w p (record { sql = s.statement; values = vs } ∷ []) t i)))

executes_outside :
    (es : List Execution) (s : Observed)
    → s.within ≡ false
    → executes es s ≡ record s { executed = s.executed ++ es }
executes_outside es s e =
    ap
      (λ b.
        if b
        then record s { pending = s.pending ++ es }
        else record s { executed = s.executed ++ es })
      e

-- What is executed outside of transactions is executed at once.
pub executes-Outside :
    (es : List Execution) (s : Observed)
    → s.within ≡ false
    → Outside (s.executed ++ es) (executes es s)
executes-Outside es s out =
    subst (Outside (s.executed ++ es)) (sym (executes_outside es s out)) (out, refl)

-- A row bound and the statement executed by the call `c`, outside of transactions.
pub execute_row-Outside :
    (driver : Driver) (c : Command) (sql : Text) (vs : List BoundValue) (s : Observed)
    → ((t : Observed) → succeed c t ≡ run_statement t)
    → ((t : Observed) → fail c t ≡ t)
    → s.statement ≡ sql
    → s.bound ≡ []
    → s.within ≡ false
    → Leads
        (Outside s.executed)
        s
        (bind_all driver 0 vs >> send driver c)
        (Outside (s.executed ++ record { sql = sql; values = vs } ∷ []))
execute_row-Outside driver c sql vs s runs keeps e empty out =
    let t : Observed = record s { bound = vs } in
    let done = Outside (s.executed ++ record { sql = sql; values = vs } ∷ []) in
    bind_row-Leads driver (Outside s.executed) done vs s (send driver c) empty (λ b. (out, refl))
      (send-Leads driver c (Outside s.executed) done t
        (subst (Outside s.executed) (sym (keeps t)) (out, refl))
        (subst done (sym (runs t)) (
          subst
            (λ q. Outside (s.executed ++ record { sql = q; values = vs } ∷ []) (run_statement t)) e
            (executes-Outside (record { sql = s.statement; values = vs } ∷ []) t out))))
