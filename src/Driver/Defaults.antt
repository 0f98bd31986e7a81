-- ===== src/Driver/Defaults.antt =====
-- src/driver/connection.cpp: the default methods of IConnection, in terms of prepared statements.
use cpplinq.Common.{
  ℕ, zero, suc, ◌+◌, ◌*◌, ◌/◌, Bool, true, false, ◌||◌, List, [], ◌∷◌, ◌++◌, map, length, ltb, ◌==◌,
  if◌then◌else◌, db_exception, ◌≡◌, refl, ap, sym, ◌∙◌, subst, arith, append_assoc, append-nil,
}
use cpplinq.Text.{Text}
use cpplinq.Value.{BoundValue}
use cpplinq.Session.{Command, Driver, Session, pure, raise, send, ◌>>=◌, ◌>>◌, bind_all}
use cpplinq.Session.Lists.{take, drop, rows, drop-drop}
use cpplinq.Session.Observed.{Observed, Execution, succeed, array_of}
use cpplinq.Session.Triples.{
  Leads, Inside, Working, pure-Leads, weaken-Leads, then-Leads, send-Leads, call-Leads,
}
use cpplinq.Session.Rows.{Prepared, execute_row-Leads}

module _ (driver : Driver) where
  unfoldable pub execute_query_direct : Text → Session Bool
  execute_query_direct sql = do send driver (Command.prepare sql); send driver Command.execute_query

  unfoldable pub execute_non_query_direct : Text → Session ℕ
  execute_non_query_direct sql = do
    send driver (Command.prepare sql)
    send driver Command.execute_non_query

  -- if (r > 0) stmt->reset()
  unfoldable pub fresh : ℕ → Session {0} Unit
  fresh zero = pure tt
  fresh (suc r) = send driver Command.reset

  -- The loop from row `r` on, with the number of rows that are left.
  unfoldable pub batch_rows : List BoundValue → ℕ → ℕ → ℕ → ℕ → Session ℕ
  unfolding fresh
  batch_rows flat_params col_count zero r total = pure total
  batch_rows flat_params col_count (suc n) r total = do
    fresh r
    affected ← (do
      bind_all driver 0 (take col_count (drop (r * col_count) flat_params))
      send driver Command.execute_non_query)
    batch_rows flat_params col_count n (suc r) (total + affected)

  unfoldable pub insert_many_batch : Text → List BoundValue → ℕ → ℕ → Session ℕ
  unfolding batch_rows
  insert_many_batch sql flat_params col_count row_count =
      if row_count == 0 || col_count == 0
      then pure 0
      else (if ltb (length flat_params / col_count) row_count then raise db_exception else (do
        send driver (Command.prepare sql)
        batch_rows flat_params col_count row_count 0 0))

  -- The row that is bound: after the first, the statement has been reset.
  fresh-Leads :
      (sql : Text) (w p : List Execution) (r : ℕ) (s : Observed)
      → Prepared sql w p s
      → (r ≡ 0 → s.bound ≡ [])
      → Leads (Inside w) s (fresh r) (λ t. Prepared sql w p t × (t.bound ≡ []))
  unfolding fresh
  fresh-Leads sql w p zero s i e =
      pure-Leads {0} (Inside w) (λ t. Prepared sql w p t × (t.bound ≡ [])) s tt (i, e refl)
  fresh-Leads sql w p (suc r) s i e =
      send-Leads driver Command.reset (Inside w) (λ t. Prepared sql w p t × (t.bound ≡ [])) s i.1.0
        (i, refl)

  batch_rows-Leads :
      (sql : Text) (flat : List BoundValue) (cols n r total : ℕ) (w p : List Execution)
      (s : Observed)
      → Prepared sql w p s
      → (r ≡ 0 → s.bound ≡ [])
      → Leads (Inside w) s (batch_rows flat cols n r total) (
          Prepared sql w
            (p ++ map (λ v. record { sql = sql; values = v }) (rows n cols (drop (r * cols) flat))))
  unfolding batch_rows
  batch_rows-Leads sql flat cols zero r total w p s i e =
      pure-Leads (Inside w) (Prepared sql w (p ++ [])) s total
        (subst (λ l. Prepared sql w l s) (sym (append-nil p)) i)
  batch_rows-Leads sql flat cols (suc n) r total w p s i e =
      let run : List BoundValue → Execution = λ v. record { sql = sql; values = v } in
      let here = drop (r * cols) flat in
      let row = take cols here in
      let rest = rows n cols (drop cols here) in
      let one : Session ℕ = bind_all driver 0 row >> send driver Command.execute_non_query in
      let Q = Prepared sql w (p ++ map run (row ∷ rest)) in
      then-Leads (Inside w) (λ t. Prepared sql w p t × (t.bound ≡ [])) Q s (fresh r)
        (λ _. one >>= λ k. batch_rows flat cols n (suc r) (total + k)) (fresh-Leads sql w p r s i e)
        (λ _ t j.
          then-Leads (Inside w) (Prepared sql w (p ++ run row ∷ [])) Q t one
            (λ k. batch_rows flat cols n (suc r) (total + k))
            (execute_row-Leads driver sql row w p t j.0 j.1)
            (λ k u q.
              subst
                (λ l.
                  Leads (Inside w) u (batch_rows flat cols n (suc r) (total + k))
                    (Prepared sql w l))
                (append_assoc p (run row ∷ []) (map run (rows n cols (drop (suc r * cols) flat)))
                  ∙ ap (λ l. p ++ run row ∷ map run (rows n cols l)) (next_row r cols flat))
                (batch_rows-Leads sql flat cols n (suc r) (total + k) w (p ++ run row ∷ []) u q
                  (λ z. absurd (omega (arith, z))))))
    where
      next_row :
          (r cols : ℕ) (flat : List BoundValue)
          → drop (suc r * cols) flat ≡ drop cols (drop (r * cols) flat)
      next_row r cols flat =
          ap (λ i. drop i flat) (omega arith) ∙ sym (drop-drop (r * cols) cols flat)

  -- For every driver, statement and parameters, inside a transaction: if the default
  -- insert_many_batch returns, the database has executed, after what was pending, what an array of
  -- rows stands for (the statement once for each row, with the parameters of that row, and nothing
  -- where there are no rows or no columns); whether it returns or throws, the transaction is still
  -- open, and what was executed before it has not changed.
  pub insert_many_batch-array_of :
      (sql : Text) (flat : List BoundValue) (cols n : ℕ) (w p : List Execution) (s : Observed)
      → Working w p s
      → Leads
          (Inside w)
          s
          (insert_many_batch sql flat cols n)
          (Working w (p ++ array_of sql flat cols n))
  unfolding insert_many_batch
  insert_many_batch-array_of sql flat cols n w p s i =
      by_size (n == 0 || cols == 0) (ltb (length flat / cols) n)
    where
      no_rows_before : (cols : ℕ) → 0 * cols ≡ 0
      no_rows_before cols = omega arith

      Q : List Execution → Observed → Type 0
      Q es = Working w (p ++ es)

      run : List BoundValue → Execution
      run v = record { sql = sql; values = v }

      all_rows : Session ℕ
      all_rows = send driver (Command.prepare sql) >> batch_rows flat cols n 0 0

      by_size :
          (none short : Bool)
          → Leads
              (Inside w)
              s
              (if none then pure 0 else (if short then raise db_exception else all_rows))
              (Q (if none then [] else map run (rows n cols flat)))
      by_size true short = pure-Leads {A = ℕ} (Inside w) (Q []) s 0 (i.0, i.1 ∙ sym (append-nil p))
      by_size false true = λ h e. subst (Inside w) (sym e) i.0
      by_size false false =
          call-Leads driver (Command.prepare sql) (Inside w) (Q (map run (rows n cols flat))) s
            (λ _. batch_rows flat cols n 0 0) i.0
            (λ _.
              weaken-Leads (Inside w)
                (Prepared sql w (p ++ map run (rows n cols (drop (0 * cols) flat))))
                (Q (map run (rows n cols flat))) (succeed (Command.prepare sql) s)
                (batch_rows flat cols n 0 0)
                (λ t q.
                  subst (λ k. Working w (p ++ map run (rows n cols (drop k flat))) t)
                    (no_rows_before cols) q.1)
                (batch_rows-Leads sql flat cols n 0 0 w p (succeed (Command.prepare sql) s)
                  (refl, i) (λ _. refl)))
