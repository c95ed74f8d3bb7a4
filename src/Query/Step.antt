-- ===== src/Query/Step.antt =====
-- The steps of an operation of core/query.go: what they share, the errors they report, and the
-- statements they run.
use jorm.Base.{ℕ, ℤ, String, Option, none, some, ◌⊎◌, inl, inr}
use jorm.Base.Fallible.{Fallible, ok, fails, panics}
use jorm.Core.Health.{Error, Db, report_error}
use jorm.Core.Transaction.{wrapped}
use jorm.Model.{Model}
use jorm.Dialect.{Statement}

-- What a step reads and writes: the world of the database, the health of the `DB`, `LastSQL` with
-- `LastArgs`, and the objects of the caller.
pub record State (W X : Type 0) : Type 0 where
  pub world : W
  pub db : Db
  pub last : Option Statement
  pub objects : X

abbrev pub Ending : Type 0 → Type 0 → Type 0
Ending S A = Fallible Error A × S

abbrev pub Step : Type 0 → Type 0 → Type 0
Step S A = S → Ending S A

abbrev pub continue_with : {S A B : Type 0} → (A → Step S B) → Ending S A → Ending S B
continue_with f (ok a, s) = f a s
continue_with f (fails e, s) = (fails e, s)
continue_with f (panics, s) = (panics, s)

infixl 5 ◌>>=◌ ◌>>◌
abbrev pub ◌>>=◌ : {S A B : Type 0} → Step S A → (A → Step S B) → Step S B
◌>>=◌ m f s = continue_with f (m s)

abbrev pub ◌>>◌ : {S A B : Type 0} → Step S A → Step S B → Step S B
m >> k = m >>= λ _. k

-- `sql.Result`: the numbers may come with errors.
pub record Done : Type 0 where
  pub last_insert_id : ℤ
  pub rows_affected : ℤ
  pub rows_error : Option Error

pub data Executed : Type 0 where
  failed : Error → Executed
  done : Done → Executed

-- `Executor`, with the clock.
pub record Executor (W : Type 0) : Type 0 where
  pub exec : Statement → W → Executed × W
  pub clock : W → ℕ

-- `Result`
pub record Answer : Type 0 where
  pub last_insert_id : ℤ
  pub rows_affected : ℤ

module _ {W X : Type 0} (executor : Executor W) where
  -- `handleError`, without its log: nil is not passed on to `reportError`.
  unfoldable pub handle_error : Option Error → State W X → State W X
  unfolding report_error
  handle_error none s = s
  handle_error (some err) s = record s {
    db = report_error (executor.clock s.world) (some err) s.db;
  }

  -- `return …, query.handleError(err)`
  unfoldable pub reported : {A : Type 0} → Error → Step (State W X) A
  unfolding handle_error
  reported err s = (fails err, handle_error (some err) s)

  -- `query.handleError(nil)`, and the answer.
  unfoldable pub succeed : {A : Type 0} → A → Step (State W X) A
  unfolding handle_error
  succeed a s = (ok a, handle_error none s)

  -- `ExecContext` and `logSQL`.
  unfoldable pub run : Statement → Step (State W X) Executed
  run statement s =
      let (out, w) = executor.exec statement s.world in
      (ok out, record s { world = w; last = some statement })

abbrev pub unreported : {S A : Type 0} → Error → Step S A
unreported err s = (fails err, s)

abbrev pub answer : {S A : Type 0} → A → Step S A
answer a s = (ok a, s)

abbrev pub unless_nil : {S A : Type 0} → Option A → Step S A
unless_nil none s = (panics, s)
unless_nil (some a) s = (ok a, s)

-- A hook of an object; none where the object has no such method.
abbrev pub Hook : Type 0 → Type 0
Hook T = Option (T → Option Error × T)

unfoldable pub call_hook : {T : Type 0} → Hook T → T → Option Error × T
call_hook none t = (none, t)
call_hook (some method) t = method t

-- A hook before the statement: its error is wrapped and not reported.
unfoldable pub hooked_before :
    {W T : Type 0} → String → State W T → Option Error × T → Ending (State W T) Unit
hooked_before prefix s (none, x) = (ok tt, record s { objects = x })
hooked_before prefix s (some e, x) = (fails (wrapped prefix e), record s { objects = x })

unfoldable pub before : {W T : Type 0} → String → Hook T → Step (State W T) Unit
unfolding call_hook hooked_before
before prefix hook s = hooked_before prefix s (call_hook hook s.objects)

-- A hook after the statement: its error is wrapped and reported.
unfoldable pub hooked_after :
    {W T : Type 0} → Executor W → String → State W T → Option Error × T → Ending (State W T) Unit
unfolding reported
hooked_after executor prefix s (none, x) = (ok tt, record s { objects = x })
hooked_after executor prefix s (some e, x) =
    reported executor (wrapped prefix e) (record s { objects = x })

unfoldable pub after : {W T : Type 0} → Executor W → String → Hook T → Step (State W T) Unit
unfolding call_hook hooked_after
after executor prefix hook s = hooked_after executor prefix s (call_hook hook s.objects)

-- `model.GetModel`; its error is wrapped with the prefix.
unfoldable pub model_or_error : {S : Type 0} → String → Error ⊎ Model → Step S Model
model_or_error prefix (inl e) s = (fails (wrapped prefix e), s)
model_or_error prefix (inr m) s = (ok m, s)
