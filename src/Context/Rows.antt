-- ===== src/Context/Rows.antt =====
-- The two ways of the bulk operations: arrays of rows, and one execution for each row.
use cpplinq.Common.{
  ℕ, ◌<◌, Bool, true, false, List, [], ◌∷◌, ◌++◌, map, length, ◌==◌, ◌||◌, if◌then◌else◌, ◌≡◌, refl,
  ap, sym, ◌∙◌, subst, arith,
}
use cpplinq.Text.{Text}
use cpplinq.Value.{BoundValue}
use cpplinq.Session.{Command, Driver, Session, pure, send, ◌>>◌, sum_of, bind_all}
use cpplinq.Session.Transaction.{in_transaction}
use cpplinq.Session.Observed.{Observed, Execution, succeed, take, drop, rows, array_of}
use cpplinq.Session.Triples.{
  Leads, Inside, Outside, Working, pure-Leads, weaken-Leads, then-Leads, send-Leads, call-Leads,
  gathered, sum_of-Leads, in_transaction-Leads,
}
use cpplinq.Session.Rows.{Prepared, executes-Working, execute_row-Leads}
use cpplinq.Context.{slices}
use cpplinq.Context.Slices.{flatten, flatten-slices}

module _ {ℓ} {E : Type ℓ} where
  -- The parameters of the rows of a chunk, row by row.
  unfoldable pub flat_rows : (E → List BoundValue) → List E → List BoundValue
  flat_rows row [] = []
  flat_rows row (e ∷ es) = row e ++ flat_rows row es

module _ {ℓ} {E : Type ℓ} (driver : Driver) (row : E → List BoundValue) where
  -- conn_->insert_many_batch(sql, flat, ncols, count)
  unfoldable pub send_chunk : Text → ℕ → List E → Session ℕ
  unfolding flat_rows
  send_chunk sql width chunk =
      send driver (Command.insert_many_batch sql (flat_rows row chunk) width (length chunk))

  -- The body of the row-by-row loops.
  unfoldable pub send_row : E → Session ℕ
  send_row e = do
    send driver Command.reset
    bind_all driver 0 (row e)
    send driver Command.execute_non_query

module _ {ℓ} {A : Type ℓ} where
  take-append : (xs ys : List A) (n : ℕ) → n ≡ length xs → take n (xs ++ ys) ≡ xs
  take-append [] ys n e = ap (λ i. take i ys) e
  take-append (x ∷ xs) ys n e =
      ap (λ i. take i (x ∷ (xs ++ ys))) e ∙ ap (λ l. x ∷ l) (take-append xs ys (length xs) refl)

  drop-append : (xs ys : List A) (n : ℕ) → n ≡ length xs → drop n (xs ++ ys) ≡ ys
  drop-append [] ys n e = ap (λ i. drop i ys) e
  drop-append (x ∷ xs) ys n e =
      ap (λ i. drop i (x ∷ (xs ++ ys))) e ∙ drop-append xs ys (length xs) refl

module _ {ℓ κ} {A : Type ℓ} {B : Type κ} where
  pub map-append : (f : A → B) (xs ys : List A) → map f (xs ++ ys) ≡ map f xs ++ map f ys
  map-append f [] ys = refl
  map-append f (x ∷ xs) ys = ap (λ l. f x ∷ l) (map-append f xs ys)

  map-map {μ} :
      {C : Type μ} (f : B → C) (g : A → B) (xs : List A) → map f (map g xs) ≡ map (λ x. f (g x)) xs
  map-map f g [] = refl
  map-map f g (x ∷ xs) = ap (λ l. f (g x) ∷ l) (map-map f g xs)

module _ {ℓ} {E : Type ℓ} where
  rows-flat :
      (row : E → List BoundValue) (width : ℕ) (es : List E)
      → ((e : E) → width ≡ length (row e))
      → rows (length es) width (flat_rows row es) ≡ map row es
  unfolding flat_rows
  rows-flat row width [] size = refl
  rows-flat row width (e ∷ es) size =
      ap (λ r. r ∷ rows (length es) width (drop width (row e ++ flat_rows row es)))
        (take-append (row e) (flat_rows row es) width (size e))
      ∙ ap (λ l. row e ∷ rows (length es) width l)
          (drop-append (row e) (flat_rows row es) width (size e))
      ∙ ap (λ l. row e ∷ l) (rows-flat row width es size)

  -- One row of a bulk statement.
  abbrev pub execution : Text → (E → List BoundValue) → E → Execution
  execution sql row e = record { sql = sql; values = row e }

  array-flat :
      (sql : Text) (row : E → List BoundValue) (width : ℕ) (es : List E)
      → 0 < width
      → ((e : E) → width ≡ length (row e))
      → array_of sql (flat_rows row es) width (length es) ≡ map (execution sql row) es
  array-flat sql row width es some_column size = go (length es == 0 || width == 0) refl
    where
      go :
          (b : Bool)
          → (length es == 0 || width == 0) ≡ b
          → (if b
              then []
              else map
                  (λ r. record { sql = sql; values = r })
                  (rows (length es) width (flat_rows row es)))
            ≡ map (execution sql row) es
      go true e = no_rows es (ground (arith, e, some_column))
        where
          no_rows : (es : List E) → length es ≡ 0 → [] ≡ map (execution sql row) es
          no_rows [] z = refl
          no_rows (x ∷ xs) z = absurd (omega (arith, z))
      go false e =
          ap (map (λ r. record { sql = sql; values = r })) (rows-flat row width es size)
          ∙ map-map (λ r. record { sql = sql; values = r }) (row) es

  gathered-chunks :
      (sql : Text) (row : E → List BoundValue) (width : ℕ) (chunks : List (List E))
      → 0 < width
      → ((e : E) → width ≡ length (row e))
      → gathered (λ c. array_of sql (flat_rows row c) width (length c)) chunks
        ≡ map (execution sql row) (flatten chunks)
  gathered-chunks sql row width [] h size = refl
  gathered-chunks sql row width (c ∷ cs) h size =
      ap (λ l. l ++ gathered (λ c. array_of sql (flat_rows row c) width (length c)) cs)
        (array-flat sql row width c h size)
      ∙ ap (λ l. map (execution sql row) c ++ l) (gathered-chunks sql row width cs h size)
      ∙ sym (map-append (execution sql row) c (flatten cs))

  pub gathered-each : (f : E → Execution) (es : List E) → gathered (λ e. f e ∷ []) es ≡ map f es
  gathered-each f [] = refl
  gathered-each f (e ∷ es) = ap (λ l. f e ∷ l) (gathered-each f es)

module _ {ℓ} {E : Type ℓ} (driver : Driver) (row : E → List BoundValue) where
  -- The rows of insert_many and update_many, `n` in a chunk.
  unfoldable pub send_rows : Bool → Text → ℕ → ℕ → List E → Session ℕ
  unfolding send_chunk send_row slices
  send_rows true sql width n es =
      in_transaction driver (sum_of (send_chunk driver row sql width) 0 (slices (length es) n 0 es))
  send_rows false sql width n es = do
    send driver (Command.prepare sql)
    in_transaction driver (sum_of (send_row driver row) 0 es)

-- A session whose result is dropped.
pub dropped-Leads {ℓ} :
    {A : Type ℓ} (R Q : Observed → Type 0) (m : Session A) (s : Observed)
    → Leads R s m Q
    → Leads R s (m >> pure {0} tt) Q
dropped-Leads R Q m s h =
    then-Leads R Q Q s m (λ _. pure {0} tt) h (λ _ s' q. pure-Leads {0} R Q s' tt q)

module _ {ℓ} {E : Type ℓ} (driver : Driver) (row : E → List BoundValue) (sql : Text) where
  send_chunk-Leads :
      (width : ℕ) (w : List Execution) (chunk : List E) (p : List Execution) (s : Observed)
      → Working w p s
      → Leads
          (Inside w)
          s
          (send_chunk driver row sql width chunk)
          (Working w (p ++ array_of sql (flat_rows row chunk) width (length chunk)))
  unfolding send_chunk
  send_chunk-Leads width w chunk p s i =
      let es = array_of sql (flat_rows row chunk) width (length chunk) in
      send-Leads driver (Command.insert_many_batch sql (flat_rows row chunk) width (length chunk))
        (Inside w) (Working w (p ++ es)) s i.0 (executes-Working w p es s i)

  send_row-Leads :
      (w : List Execution) (e : E) (p : List Execution) (s : Observed)
      → Prepared sql w p s
      → Leads (Inside w) s (send_row driver row e) (Prepared sql w (p ++ execution sql row e ∷ []))
  unfolding send_row
  send_row-Leads w e p s i =
      call-Leads driver Command.reset (Inside w) (Prepared sql w (p ++ execution sql row e ∷ [])) s
        (λ _. bind_all driver 0 (row e) >> send driver Command.execute_non_query) i.1.0
        (λ _. execute_row-Leads driver sql (row e) w p (succeed Command.reset s) i refl)

  pub chunks-Leads :
      (width n : ℕ) (es : List E) (s : Observed)
      → 0 < width
      → ((e : E) → width ≡ length (row e))
      → 0 < n
      → s.within ≡ false
      → Leads
          (Outside s.executed)
          s
          (in_transaction driver
            (sum_of (send_chunk driver row sql width) 0 (slices (length es) n 0 es)))
          (Outside (s.executed ++ map (execution sql row) es))
  chunks-Leads width n es s some_column size some out =
      let chunks = slices (length es) n 0 es in
      in_transaction-Leads driver s (map (execution sql row) es)
        (sum_of (send_chunk driver row sql width) 0 chunks) out
        (subst
          (λ p.
            Leads (Inside s.executed) (succeed Command.begin_transaction s)
              (sum_of (send_chunk driver row sql width) 0 chunks) (Working s.executed p))
          (gathered-chunks sql row width chunks some_column size
            ∙ ap (map (execution sql row)) (flatten-slices (length es) n 0 es some (omega arith)))
          (sum_of-Leads (Inside s.executed) (Working s.executed) (send_chunk driver row sql width)
            (λ c. array_of sql (flat_rows row c) width (length c))
            (λ c p s' i. send_chunk-Leads width s.executed c p s' i) chunks 0 []
            (succeed Command.begin_transaction s) ((refl, refl), refl)))

  pub each-Leads :
      (es : List E) (s : Observed)
      → s.statement ≡ sql
      → s.within ≡ false
      → Leads
          (Outside s.executed)
          s
          (in_transaction driver (sum_of (send_row driver row) 0 es))
          (Outside (s.executed ++ map (execution sql row) es))
  each-Leads es s e out =
      in_transaction-Leads driver s (map (execution sql row) es) (sum_of (send_row driver row) 0 es)
        out
        (weaken-Leads (Inside s.executed)
          (Prepared sql s.executed (gathered (λ x. execution sql row x ∷ []) es))
          (Working s.executed (map (execution sql row) es)) (succeed Command.begin_transaction s)
          (sum_of (send_row driver row) 0 es)
          (λ t i. (i.1.0, i.1.1 ∙ gathered-each (execution sql row) es))
          (sum_of-Leads (Inside s.executed) (Prepared sql s.executed) (send_row driver row)
            (λ x. execution sql row x ∷ []) (λ x p s' i. send_row-Leads s.executed x p s' i) es 0 []
            (succeed Command.begin_transaction s) (e, ((refl, refl), refl))))

  -- Either way executes the statement once for each row, in order, or nothing when it throws.
  pub send_rows-Leads :
      (array : Bool) (width n : ℕ) (es : List E) (s : Observed)
      → (array ≡ true → 0 < width)
      → ((e : E) → width ≡ length (row e))
      → 0 < n
      → s.within ≡ false
      → Leads
          (Outside s.executed)
          s
          (send_rows driver row array sql width n es)
          (Outside (s.executed ++ map (execution sql row) es))
  unfolding send_rows
  send_rows-Leads true width n es s some_column size some out =
      chunks-Leads width n es s (some_column refl) size some out
  send_rows-Leads false width n es s some_column size some out =
      call-Leads driver (Command.prepare sql) (Outside s.executed)
        (Outside (s.executed ++ map (execution sql row) es)) s
        (λ _. in_transaction driver (sum_of (send_row driver row) 0 es)) (out, refl)
        (λ _. each-Leads es (succeed (Command.prepare sql) s) refl out)
