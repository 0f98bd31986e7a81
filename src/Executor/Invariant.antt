-- ===== src/Executor/Invariant.antt =====
-- Jobs are begun in the order in which they are accepted, and none is lost.
use cpplinq.Common.{
  ℕ, ◌≤◌, ◌≡◌, refl, ap, sym, ◌∙◌, Bool, true, false, ◌||◌, List, [], ◌∷◌, ◌++◌, Option, none, some,
  Exception, Outcome, ok, throws, db_exception, length, leb, append_assoc, append-nil,
  length-append, arith, if◌then◌else◌,
}
use cpplinq.Executor.{
  Executor, make_executor, Queued, queued, submit, shutdown, waits, exits, take_from, take,
}
use cpplinq.Executor.Steps.{
  System, after_submit, after_take, after_shutdown, Step, submits, takes, shuts, started, Reachable,
  start, after,
}

pub record IsOrdered (s : System) : Type 0 where
  pub in_order : s.accepted ≡ s.begun ++ (s.cancelled ++ s.executor.queue)
  pub bounded : length s.executor.queue ≤ s.executor.queue_capacity
  pub stopped : s.executor.stopping ≡ true → s.executor.queue ≡ []
  pub running : s.executor.stopping ≡ false → s.cancelled ≡ []

abbrev Submitted : ℕ → System → Executor × Outcome Queued → Type 0
Submitted job s x = IsOrdered (after_submit job s x)

choose-Submitted :
    (job : ℕ) (s : System) (x y : Executor × Outcome Queued) (b : Bool)
    → Submitted job s x
    → (b ≡ false → Submitted job s y)
    → Submitted job s (if b then x else y)
choose-Submitted job s x y true f g = f
choose-Submitted job s x y false f g = g refl

append_last : (a b c : List ℕ) (job : ℕ) → (a ++ (b ++ c)) ++ job ∷ [] ≡ a ++ (b ++ (c ++ job ∷ []))
append_last a b c job =
    append_assoc a (b ++ c) (job ∷ []) ∙ ap (λ l. a ++ l) (append_assoc b c (job ∷ []))

unchanged :
    (job : ℕ) (s : System) (e : Exception) → IsOrdered s → Submitted job s (s.executor, throws e)
unfolding after_submit
unchanged job s e h = record {
  in_order = h.in_order;
  bounded = h.bounded;
  stopped = h.stopped;
  running = h.running;
}

abbrev refuses : Executor → Bool
refuses x = x.stopping || leb x.queue_capacity (length x.queue)

submit-IsOrdered :
    (spawn_error : Option Exception) (job : ℕ) (s : System)
    → IsOrdered s
    → Submitted job s (submit spawn_error job s.executor)
unfolding submit after_submit
submit-IsOrdered (some e) job s h =
    choose-Submitted job s (s.executor, throws db_exception) (s.executor, throws e)
      (refuses s.executor) (unchanged job s db_exception h) (λ room. unchanged job s e h)
submit-IsOrdered none job s h =
    choose-Submitted job s (s.executor, throws db_exception)
      (record (s.executor) { queue = s.executor.queue ++ job ∷ [] }, ok queued) (refuses s.executor)
      (unchanged job s db_exception h)
      (λ room. record {
        in_order =
            ap (λ l. l ++ job ∷ []) h.in_order
            ∙ append_last s.begun s.cancelled s.executor.queue job;
        bounded = ground (arith, room, length-append s.executor.queue (job ∷ []));
        stopped = λ x. absurd (ground (arith, x, room));
        running = h.running;
      })

still_running :
    (s : System) (job : ℕ) (rest : List ℕ)
    → s.executor.queue ≡ job ∷ rest
    → IsOrdered s
    → s.executor.stopping ≡ false
still_running s job rest e h = go s.executor.stopping refl
  where
    go : (b : Bool) → s.executor.stopping ≡ b → b ≡ false
    go true on = absurd (ground (arith, h.stopped on, e))
    go false off = refl

take-IsOrdered :
    (s : System) (jobs : List ℕ)
    → s.executor.queue ≡ jobs
    → IsOrdered s
    → IsOrdered (after_take s (take_from s.executor jobs))
unfolding take_from after_take
take-IsOrdered s [] e h = go s.executor.stopping
  where
    go :
        (b : Bool)
        → IsOrdered (after_take s (if b then (s.executor, exits) else (s.executor, waits)))
    go true = h
    go false = h
take-IsOrdered s (job ∷ rest) e h =
    let none_cancelled = h.running (still_running s job rest e h) in
    record {
      in_order =
          h.in_order
          ∙ ap (λ q. s.begun ++ (s.cancelled ++ q)) e
          ∙ ap (λ c. s.begun ++ (c ++ job ∷ rest)) none_cancelled
          ∙ sym (append_assoc s.begun (job ∷ []) rest)
          ∙ ap (λ c. (s.begun ++ job ∷ []) ++ (c ++ rest)) (sym none_cancelled);
      bounded = omega (arith, h.bounded, ap length e);
      stopped = λ x. absurd (ground (arith, x, still_running s job rest e h));
      running = h.running;
    }

shutdown-IsOrdered : (s : System) → IsOrdered s → IsOrdered (after_shutdown s (shutdown s.executor))
unfolding shutdown after_shutdown
shutdown-IsOrdered s h = record {
  in_order =
      h.in_order ∙ ap (λ l. s.begun ++ l) (sym (append-nil (s.cancelled ++ s.executor.queue)));
  bounded = omega arith;
  stopped = λ x. refl;
  running = λ x. absurd (ground (arith, x));
}

Step-IsOrdered : {s t : System} → Step s t → IsOrdered s → IsOrdered t
unfolding take
Step-IsOrdered (submits s spawn_error job) h = submit-IsOrdered spawn_error job s h
Step-IsOrdered (takes s) h = take-IsOrdered s s.executor.queue refl h
Step-IsOrdered (shuts s) h = shutdown-IsOrdered s h

started-IsOrdered : (queue_capacity : ℕ) → IsOrdered (started queue_capacity)
unfolding started make_executor
started-IsOrdered queue_capacity = record {
  in_order = refl;
  bounded = omega arith;
  stopped = λ x. refl;
  running = λ x. refl;
}

-- For every capacity, in every state that the executor reaches by any interleaving of calls of
-- submit and shutdown and turns of workers: the jobs that submit has queued are, in that order,
-- those that workers have begun, those that shutdown has cancelled, and those that are queued; the
-- queue is not longer than its capacity, and empty once the executor stops; and nothing is
-- cancelled before.
pub Reachable-IsOrdered :
    (queue_capacity : ℕ) (s : System) → Reachable queue_capacity s → IsOrdered s
Reachable-IsOrdered queue_capacity s start = started-IsOrdered queue_capacity
Reachable-IsOrdered queue_capacity s (after h step) =
    Step-IsOrdered step (Reachable-IsOrdered queue_capacity _ h)
