-- ===== src/Session/Triples.antt =====
-- Programs over observed states: what holds after a session that starts in a state, and what is left
-- behind when it throws.
use cpplinq.Common.{
  ℕ, ◌+◌, Bool, true, false, List, [], ◌∷◌, ◌++◌, Outcome, ok, throws, ◌≡◌, refl, ap, sym, ◌∙◌,
  subst, append_assoc, append-nil, returns,
}
use cpplinq.Session.{Command, Answer, History, Driver, Session, pure, send, ◌>>=◌, sum_of}
use cpplinq.Session.Transaction.{in_transaction, finish, leave, settle}
use cpplinq.Session.Observed.{Observed, Execution, observe, observe_event, succeed, fail}

-- Where a run has ended: where `Q` holds, or with an exception where `R` holds.
abbrev pub Ends {ℓ} :
    {A : Type ℓ} → (Observed → Type 0) → (Observed → Type 0) → Outcome A × History → Type 0
Ends R Q (ok a, h) = Q (observe h)
Ends R Q (throws e, h) = R (observe h)

abbrev pub Leads {ℓ} :
    {A : Type ℓ} → (Observed → Type 0) → Observed → Session A → (Observed → Type 0) → Type 0
Leads R s m Q = (h : History) → observe h ≡ s → Ends R Q (m h)

abbrev pub Inside : List Execution → Observed → Type 0
Inside w s = (s.within ≡ true) × (s.executed ≡ w)

abbrev pub Outside : List Execution → Observed → Type 0
Outside w s = (s.within ≡ false) × (s.executed ≡ w)

-- Inside a transaction, with the executions `p` since its begin, and `w` before it.
abbrev pub Working : List Execution → List Execution → Observed → Type 0
Working w p s = Inside w s × (s.pending ≡ p)

pub pure-Leads {ℓ} :
    {A : Type ℓ} (R Q : Observed → Type 0) (s : Observed) (a : A) → Q s → Leads R s (pure a) Q
pure-Leads R Q s a q h e = subst Q (sym e) q

pub weaken-Leads {ℓ} :
    {A : Type ℓ} (R P Q : Observed → Type 0) (s : Observed) (m : Session A)
    → ((t : Observed) → P t → Q t)
    → Leads R s m P
    → Leads R s m Q
weaken-Leads {A = A} R P Q s m weaker first h e = go (m h) (first h e)
  where
    go : (r : Outcome A × History) → Ends {A = A} R P r → Ends {A = A} R Q r
    go (ok a, h') p = weaker (observe h') p
    go (throws x, h') p = p

module _ {ℓ κ} {A : Type ℓ} {B : Type κ} where
  pub then-Leads :
      (R P Q : Observed → Type 0) (s : Observed) (m : Session A) (k : A → Session B)
      → Leads R s m P
      → ((a : A) (s' : Observed) → P s' → Leads R s' (k a) Q)
      → Leads R s (m >>= k) Q
  then-Leads R P Q s m k first rest h e = go (m h) (first h e)
    where
      go :
          (r : Outcome A × History)
          → Ends {A = A} R P r
          → Ends {A = B} R Q (elim r.0 [ ok a ↦ k a r.1 | throws x ↦ (throws x, r.1) ])
      go (ok a, h') p = rest a (observe h') p h' refl
      go (throws x, h') p = p

pub send-Leads :
    (driver : Driver) (c : Command) (R Q : Observed → Type 0) (s : Observed)
    → R (fail c s)
    → Q (succeed c s)
    → Leads R s (send driver c) Q
send-Leads driver c R Q s failed succeeded h e = go (driver h c)
  where
    go : (r : Outcome (Answer c)) → Ends R Q (r, record { command = c; succeeded = returns r } ∷ h)
    go (ok a) = subst (λ t. Q (succeed c t)) (sym e) succeeded
    go (throws x) = subst (λ t. R (fail c t)) (sym e) failed

-- A call, and then the rest.
pub call-Leads {ℓ} :
    {A : Type ℓ} (driver : Driver) (c : Command) (R Q : Observed → Type 0) (s : Observed)
    (k : Answer c → Session A)
    → R (fail c s)
    → ((a : Answer c) → Leads R (succeed c s) (k a) Q)
    → Leads R s (send driver c >>= k) Q
call-Leads driver c R Q s k failed rest =
    then-Leads R (λ t. t ≡ succeed c s) Q s (send driver c) k
      (send-Leads driver c R (λ t. t ≡ succeed c s) s failed refl) (λ a s' e h q. rest a h (q ∙ e))

-- A loop that keeps an invariant of what is pending.
module _ {ℓ} {A : Type ℓ} where
  abbrev pub gathered : (A → List Execution) → List A → List Execution
  gathered g [] = []
  gathered g (x ∷ xs) = g x ++ gathered g xs

  pub sum_of-Leads :
      (R : Observed → Type 0) (Inv : List Execution → Observed → Type 0) (f : A → Session ℕ)
      (g : A → List Execution)
      → ((x : A) (p : List Execution) (s : Observed) → Inv p s → Leads R s (f x) (Inv (p ++ g x)))
      → (xs : List A) (total : ℕ) (p : List Execution) (s : Observed) → Inv p s
      → Leads R s (sum_of f total xs) (Inv (p ++ gathered g xs))
  sum_of-Leads R Inv f g step [] total p s i =
      pure-Leads R (Inv (p ++ [])) s total (subst (λ l. Inv l s) (sym (append-nil p)) i)
  sum_of-Leads R Inv f g step (x ∷ xs) total p s i =
      then-Leads R (Inv (p ++ g x)) (Inv (p ++ (g x ++ gathered g xs))) s (f x)
        (λ n. sum_of f (total + n) xs) (step x p s i)
        (λ n s' i'.
          subst (λ l. Leads R s' (sum_of f (total + n) xs) (Inv l))
            (append_assoc p (g x) (gathered g xs))
            (sum_of-Leads R Inv f g step xs (total + n) (p ++ g x) s' i'))

rolled_back :
    (b : Bool) (s : Observed)
    → Outside s.executed (observe_event (record { command = Command.rollback; succeeded = b }) s)
rolled_back true s = (refl, refl)
rolled_back false s = (refl, refl)

module _ {ℓ} {A : Type ℓ} where
  leave-Outside :
      (driver : Driver) (w : List Execution) (r : Outcome A) (h : History)
      → (observe h).executed ≡ w
      → Outside w (observe (leave driver false r h).1)
  unfolding leave
  leave-Outside driver w r h e =
      let out = rolled_back (returns (driver h Command.rollback)) (observe h) in (out.0, out.1 ∙ e)

  finish-Leads :
      (driver : Driver) (w p : List Execution) (r : Outcome A) (h : History)
      → Ends (Inside w) (Working w p) (r, h)
      → Ends (Outside w) (Outside (w ++ p)) (finish driver r h)
  unfolding finish leave settle
  finish-Leads driver w p (throws x) h i = leave-Outside driver w (throws x) h i.1
  finish-Leads driver w p (ok a) h i = go (driver h Command.commit)
    where
      go :
          (r : Outcome (Answer Command.commit))
          → Ends {A = A}
              (Outside w)
              (Outside (w ++ p))
              (settle driver a r (record { command = Command.commit; succeeded = returns r } ∷ h))
      go (ok _) = (refl, ap (λ l. l ++ (observe h).pending) i.0.1 ∙ ap (λ l. w ++ l) i.1)
      go (throws x) =
          leave-Outside driver w (throws x)
            (record { command = Command.commit; succeeded = false } ∷ h) i.0.1

  -- A scope executes what its body does if the body and the commit return, and else nothing.
  pub in_transaction-Leads :
      (driver : Driver) (s : Observed) (p : List Execution) (body : Session A)
      → s.within ≡ false
      → Leads (Inside s.executed) (succeed Command.begin_transaction s) body (Working s.executed p)
      → Leads (Outside s.executed) s (in_transaction driver body) (Outside (s.executed ++ p))
  unfolding in_transaction
  in_transaction-Leads driver s p body out inner =
      call-Leads driver Command.begin_transaction (Outside s.executed) (Outside (s.executed ++ p)) s
        (λ _ h. finish driver (body h).0 (body h).1) (out, refl)
        (λ _ h e. finish-Leads driver s.executed p (body h).0 (body h).1 (inner h e))
