-- ===== src/Query/Read.antt =====
-- `First`, `Find`, `Count`, `Sum` and `ExecResult` of core/query.go: their last steps, which the
-- middlewares wrap, with `queryRow` and `queryRows`.
use jorm.Base.{
  ℤ, pos, String, false, Option, none, some, List, [], ◌∷◌, ◌++◌, ◌⊎◌, inl, inr, ◌⧺◌, str_eq,
  if◌then◌else◌,
}
use jorm.Base.Fallible.{ok, fails, panics}
use jorm.Core.Health.{Error}
use jorm.Core.Transaction.{wrapped}
use jorm.Model.{Field, Model}
use jorm.Dialect.{Dialect, Statement}
use jorm.Builder.State.{Builder, set_limit, select}
use jorm.Builder.Build.{build_select}
use jorm.Query.Step.{
  State, Step, Ending, ◌>>=◌, Executed, failed, done, Executor, Answer, reported, succeed, run,
  unreported, answer, unless_nil, Hook, call_hook,
}
use jorm.Query.Scan.{get_scan_plan}
use jorm.Query.Write.{statement_in}

-- `sql.Rows`: the columns, the rows, and the error that ends them.
pub record Rows (R : Type 0) : Type 0 where
  pub columns : Error ⊎ List String
  pub rows : List R
  pub end_error : Option Error

-- What reading needs: the database, `GetModel` of the objects, a new object, a row put into an object
-- by a plan, and the hook after it.
pub record Reader (W R T : Type 0) : Type 0 where
  pub executor : Executor W
  pub query : Statement → W → (Error ⊎ Rows R) × W
  pub model : Error ⊎ Model
  pub new_object : T
  pub scan_row : List (Option Field) → R → T → Error ⊎ T
  pub after_find : Hook T

abbrev pub not_found : Error
not_found = record { message = "record not found"; wraps_connection_failed = false }

abbrev pub wrapped_by : {S A : Type 0} → String → Ending S A → Ending S A
wrapped_by prefix (ok a, s) = (ok a, s)
wrapped_by prefix (fails e, s) = (fails (wrapped prefix e), s)
wrapped_by prefix (panics, s) = (panics, s)

module _ {W R T : Type 0} (reader : Reader W R T) where
  -- `QueryContext` and `logSQL`.
  unfoldable pub query_context : {X : Type 0} → Statement → Step (State W X) (Error ⊎ Rows R)
  query_context statement s =
      let (out, w) = reader.query statement s.world in
      (ok out, record s { world = w; last = some statement })

  -- A result or an error, which is wrapped and reported.
  unfoldable pub or_reported : {X A : Type 0} → String → Error ⊎ A → Step (State W X) A
  unfolding reported
  or_reported prefix (inl e) = reported reader.executor (wrapped prefix e)
  or_reported prefix (inr a) = answer a

  unfoldable pub hooked_row : {X : Type 0} → Option Error × T → Step (State W X) T
  unfolding reported
  hooked_row (none, t) = answer t
  hooked_row (some e, t) = reported reader.executor (wrapped "AfterFind hook failed: " e)

  -- `queryRow` from the first row on.
  unfoldable pub first_row : {X : Type 0} → T → Rows R → List R → Step (State W X) T
  unfolding or_reported hooked_row get_scan_plan call_hook succeed
  first_row dest found [] = unreported not_found
  first_row dest found (r ∷ rs) = do
    columns ← or_reported "failed to get columns: " found.columns
    m ← or_reported "failed to get model metadata: " reader.model
    t ← or_reported "row scan failed: " (reader.scan_row (get_scan_plan m columns) r dest)
    t' ← hooked_row (call_hook reader.after_find t)
    succeed reader.executor t'

  unfoldable pub query_row : {X : Type 0} → Statement → T → Step (State W X) T
  unfolding query_context or_reported first_row
  query_row statement dest = do
    out ← query_context statement
    found ← or_reported "query execution failed: " out
    first_row dest found found.rows

  -- In `queryRows` the error of the hook is not reported.
  unfoldable pub hooked_in_loop : {X : Type 0} → Option Error × T → Step (State W X) T
  hooked_in_loop (none, t) = answer t
  hooked_in_loop (some e, t) = unreported (wrapped "AfterFind hook failed: " e)

  -- The loop over the rows. The model is looked up at the first.
  unfoldable pub scan_rows : {X : Type 0} → List String → List R → Step (State W X) (List T)
  unfolding or_reported hooked_in_loop get_scan_plan call_hook
  scan_rows columns [] = answer []
  scan_rows columns (r ∷ rs) = do
    m ← or_reported "failed to get model metadata: " reader.model
    t ←
        or_reported "row scan failed: "
          (reader.scan_row (get_scan_plan m columns) r reader.new_object)
    t' ← hooked_in_loop (call_hook reader.after_find t)
    ts ← scan_rows columns rs
    answer (t' ∷ ts)

  unfoldable pub ended_by : {X : Type 0} → Option Error → List T → Step (State W X) (List T)
  ended_by none ts = answer ts
  ended_by (some e) ts = unreported (wrapped "rows iteration error: " e)

  -- `queryRows`, into a slice, which the rows are appended to.
  unfoldable pub query_rows : {X : Type 0} → Statement → List T → Step (State W X) (List T)
  unfolding query_context or_reported scan_rows ended_by
  query_rows statement dest = do
    out ← query_context statement
    found ← or_reported "query execution failed: " out
    columns ← or_reported "failed to get columns: " found.columns
    ts ← scan_rows columns found.rows
    ended_by found.end_error (dest ++ ts)

  unfoldable pub first : {X : Type 0} → Builder → T → Step (State W X) T
  unfolding build_select set_limit query_row
  first b dest = do
    statement ← unless_nil (statement_in (build_select (set_limit (pos 1) b)))
    λ s. wrapped_by "First failed: " (query_row statement dest s)

  unfoldable pub find : {X : Type 0} → Builder → List T → Step (State W X) (List T)
  unfolding build_select query_rows
  find b dest = do
    statement ← unless_nil (statement_in (build_select b))
    λ s. wrapped_by "Find failed: " (query_rows statement dest s)

module _ {W X : Type 0} (executor : Executor W) where
  -- `QueryRowContext` and `Scan`; `read` is what they give.
  unfoldable pub query_value :
      {A : Type 0} → (Statement → W → (Error ⊎ A) × W) → String → Statement → Step (State W X) A
  query_value read prefix statement s =
      let (out, w) = read statement s.world in
      let s' = record s { world = w; last = some statement } in
      elim out [ inl e ↦ (fails (wrapped prefix e), s') | inr a ↦ (ok a, s') ]

  unfoldable pub count : (Statement → W → (Error ⊎ ℤ) × W) → Builder → Step (State W X) ℤ
  unfolding build_select select query_value
  count read b = do
    statement ← unless_nil (statement_in (build_select (select ("COUNT(*)" ∷ []) b)))
    query_value read "Count failed: " statement

  -- NULL is 0; the floating-point numbers are `F`.
  unfoldable pub sum :
      {F : Type 0}
      → F
      → (Statement → W → (Error ⊎ Option F) × W)
      → Dialect
      → String
      → Builder
      → Step (State W X) F
  unfolding build_select select query_value
  sum nought read d column b = do
    statement ←
        unless_nil (statement_in (build_select (select (("SUM(" ⧺ d.quote column ⧺ ")") ∷ []) b)))
    total ← query_value read ("Sum failed for column " ⧺ column ⧺ ": ") statement
    answer (elim total [ none ↦ nought | some f ↦ f ])

  unfoldable pub executed : Executed → Step (State W X) Answer
  unfolding reported
  executed (failed e) = reported executor (wrapped "raw sql execution failed: " e)
  executed (done r) = elim r.rows_error [
    | some e ↦ reported executor (wrapped "failed to get affected rows: " e)
    | none ↦ answer (record { last_insert_id = r.last_insert_id; rows_affected = r.rows_affected })
  ]

  -- `ExecResult` of a raw statement, whatever error the query holds.
  unfoldable pub exec_result : Statement → Step (State W X) Answer
  unfolding executed run
  exec_result raw =
      if str_eq raw.0 ""
      then unreported (record { message = "raw sql is empty"; wraps_connection_failed = false })
      else (do out ← run executor raw; executed out)
