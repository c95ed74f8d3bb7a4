-- ===== src/Query/Batch.antt =====
-- `BatchInsert` of core/query.go: its last step.
use jorm.Base.{
  ℕ, suc, ◌+◌, ◌-◌, ℤ, pos, negsuc, String, true, false, ◌&&◌, ◌||◌, Option, none, some, List, [],
  ◌∷◌, ◌++◌, ◌>>=◌, Value, inl, inr, ◌⊎◌, ltb, length, if◌then◌else◌,
}
use jorm.Base.Fallible.{Fallible, ok, fails, panics}
use jorm.Core.Health.{Error}
use jorm.Core.Paginate.{wrap_around}
use jorm.Model.{Field, Model}
use jorm.Dialect.{Dialect}
use jorm.Query.Step.{
  State, Step, Done, Executed, failed, done, Executor, Answer, Hook, call_hook, reported, succeed,
  run,
}
use jorm.Query.Step.{◌>>=◌ as after_step}
use jorm.Query.Values.{Reflection}
use jorm.Query.Write.{Kind}

-- The columns of the statement.
unfoldable pub batch_columns : List Field → List String
batch_columns [] = []
batch_columns (f ∷ fields) =
    let rest = batch_columns fields in if f.is_auto then rest else f.column ∷ rest

module _ {T : Type 0} (r : Reflection T) where
  unfoldable pub set_batch_time : ℕ → Field → T → Option T
  set_batch_time now f t =
      if (f.auto_time || f.auto_update) && r.can_set f t
      then r.set_now now f t
      else if r.can_set f t && r.is_time f && r.is_zero f t
      then r.set_now now f t
      else some t

  -- The loop over the fields of an object.
  unfoldable pub fill_row : ℕ → List Field → T → Option (T × List Value)
  unfolding set_batch_time
  fill_row now [] t = some (t, [])
  fill_row now (f ∷ fields) t = elim f.is_auto [
    | true ↦ fill_row now fields t
    | false ↦ do
      t' ← set_batch_time now f t
      rest ← fill_row now fields t'
      some (rest.0, r.interface f t' ∷ rest.1)
  ]

  -- The arguments, and the objects after it.
  abbrev pub Rows : Type 0
  Rows = Fallible Error (List Value) × List T

  unfoldable pub before_row : T → List Value → Rows → Rows
  before_row t args (ok more, ts) = (ok (args ++ more), t ∷ ts)
  before_row t args (fails e, ts) = (fails e, t ∷ ts)
  before_row t args (panics, ts) = (panics, t ∷ ts)

  unfoldable pub filled_row : Option (T × List Value) → T → List T → Rows → Rows
  unfolding before_row
  filled_row none t ts rest = (panics, t ∷ ts)
  filled_row (some (t', args)) t ts rest = before_row t' args rest

  -- The body of the loop over the objects, after the hook; `rest` is the rest of the loop.
  unfoldable pub add_row : ℕ → List Field → Option Error × T → List T → Rows → Rows
  unfolding fill_row filled_row
  add_row now fields (some e, t) ts rest = (fails e, t ∷ ts)
  add_row now fields (none, t) ts rest = filled_row (fill_row now fields t) t ts rest

  unfoldable pub fill_rows : Hook T → ℕ → List Field → List T → Rows
  unfolding call_hook add_row
  fill_rows hook now fields [] = (ok [], [])
  fill_rows hook now fields (t ∷ ts) =
      add_row now fields (call_hook hook t) ts (fill_rows hook now fields ts)

-- `id + int64(i)`
unfoldable pub add_index : ℤ → ℕ → ℤ
unfolding wrap_around
add_index (pos n) i = wrap_around (n + i)
add_index (negsuc n) i = if ltb n i then pos (i - n - 1) else negsuc (n - i)

-- The hooks after the statement, until one fails.
abbrev before_hooked : {T : Type 0} → T → Option Error × List T → Option Error × List T
before_hooked t (e, ts) = (e, t ∷ ts)

abbrev hooked :
    {T : Type 0} → Option Error × T → List T → Option Error × List T → Option Error × List T
hooked (some e, t) ts rest = (some e, t ∷ ts)
hooked (none, t) ts rest = before_hooked t rest

unfoldable pub after_rows : {T : Type 0} → (ℤ → Hook T) → ℤ → ℕ → List T → Option Error × List T
unfolding call_hook add_index
after_rows hook id i [] = (none, [])
after_rows hook id i (t ∷ ts) =
    hooked (call_hook (hook (add_index id i)) t) ts (after_rows hook id (suc i) ts)

module _ {W T : Type 0} (executor : Executor W) (kind : Kind T) where
  -- The loop over the objects.
  unfoldable pub read_rows : Model → Step (State W (List T)) (List Value)
  unfolding fill_rows
  read_rows m s =
      let (out, ts) =
        fill_rows kind.indexed kind.before_insert (executor.clock s.world) m.fields s.objects in
      (out, record s { objects = ts })

  unfoldable pub ended_rows : Done → Option Error × List T → Step (State W (List T)) Answer
  unfolding reported succeed
  ended_rows r (some e, ts) s = reported executor e (record s { objects = ts })
  ended_rows r (none, ts) s =
      succeed executor (record { last_insert_id = pos 0; rows_affected = r.rows_affected })
        (record s { objects = ts })

  unfoldable pub batch_inserted : Executed → Step (State W (List T)) Answer
  unfolding reported ended_rows after_rows
  batch_inserted (failed e) s = reported executor e s
  batch_inserted (done r) s =
      ended_rows r (after_rows kind.after_insert r.last_insert_id 0 s.objects) s

  unfoldable pub batch_insert_into : Dialect → Model → Step (State W (List T)) Answer
  unfolding read_rows run batch_inserted batch_columns
  batch_insert_into d m s =
      after_step (read_rows m)
        (λ args.
          after_step
            (run executor (
              (d.batch_insert_sql m.table_name (batch_columns m.fields) (length s.objects)).0,
              args,
            ))
            batch_inserted)
        s

  -- No statement is run for an empty slice.
  unfoldable pub batch_insert_of : Dialect → List T → Error ⊎ Model → Step (State W (List T)) Answer
  unfolding batch_insert_into
  batch_insert_of d [] model s = (ok (record { last_insert_id = pos 0; rows_affected = pos 0 }), s)
  batch_insert_of d (t ∷ ts) (inl e) s = (fails e, s)
  batch_insert_of d (t ∷ ts) (inr m) s = batch_insert_into d m s

  unfoldable pub batch_insert : Dialect → Step (State W (List T)) Answer
  unfolding batch_insert_of
  batch_insert d s = batch_insert_of d s.objects kind.model s
