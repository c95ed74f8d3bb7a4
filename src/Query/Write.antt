-- ===== src/Query/Write.antt =====
-- `Insert`, `Update` and `Delete` of core/query.go: their last steps, which the middlewares wrap.
use jorm.Base.{
  ℤ, pos, String, Bool, true, false, Option, none, some, List, [], ◌∷◌, ◌++◌, Value, ◌⊎◌, ◌⧺◌,
  str_eq, if◌then◌else◌,
}
use jorm.Base.Fallible.{ok, panics}
use jorm.Core.Health.{Error}
use jorm.Core.Transaction.{wrapped}
use jorm.Model.{Model}
use jorm.Dialect.{Dialect, Statement}
use jorm.Builder.State.{Builder, set_table, and_where}
use jorm.Builder.Build.{Data, build_insert, build_update, build_delete}
use jorm.Query.Step.{
  State, Step, ◌>>=◌, ◌>>◌, Done, Executed, failed, done, Executor, Answer, reported, succeed, run,
  unreported, unless_nil, Hook, before, after, model_or_error,
}
use jorm.Query.Values.{Reflection, Values, get_model_values, set_pk_value}

-- A type of objects: its model, its fields as their accessors and as their indices in the struct lead
-- to them, and its hooks.
pub record Kind (T : Type 0) : Type 0 where
  pub model : Error ⊎ Model
  pub accessed : Reflection T
  pub indexed : Reflection T
  pub before_insert : Hook T
  pub after_insert : ℤ → Hook T
  pub before_update : Hook T
  pub after_update : Hook T
  pub before_delete : Hook T
  pub after_delete : Hook T

-- `data[col] = v`
unfoldable pub set_entry : String → Value → Data → Data
set_entry k v [] = (k, v) ∷ []
set_entry k v ((k', v') ∷ data') =
    let rest = set_entry k v data' in if str_eq k' k then (k', v) ∷ data' else (k', v') ∷ rest

unfoldable pub to_data : List String → List Value → Data → Data
unfolding set_entry
to_data (c ∷ cs) (v ∷ vs) data' = to_data cs vs (set_entry c v data')
to_data _ _ data' = data'

abbrev pub statement_in : Option (Builder × Statement) → Option Statement
statement_in none = none
statement_in (some built) = some built.1

module _ {W T : Type 0} (executor : Executor W) (kind : Kind T) where
  unfoldable pub put_read :
      Option (Values kind.accessed) → Step (State W T) (List String × List Value)
  put_read none s = (panics, s)
  put_read (some (t, columns, args)) s = (ok (columns, args), record s { objects = t })

  -- The loop of `getModelValues` on the object, which it changes.
  unfoldable pub read_values : Bool → Model → Step (State W T) (List String × List Value)
  unfolding get_model_values put_read
  read_values update m s =
      put_read (get_model_values kind.accessed update (executor.clock s.world) m.fields s.objects) s

  unfoldable pub set_id : ℤ → Model → Step (State W T) Unit
  unfolding set_pk_value
  set_id id m s = (ok tt, record s { objects = set_pk_value kind.accessed id m.pk_field s.objects })

  unfoldable pub inserted : Model → Executed → Step (State W T) Answer
  unfolding reported set_id after succeed
  inserted m (failed e) = reported executor (wrapped "Insert execution failed: " e)
  inserted m (done r) = do
    set_id r.last_insert_id m
    after executor "AfterInsert hook failed: " (kind.after_insert r.last_insert_id)
    succeed executor (record { last_insert_id = r.last_insert_id; rows_affected = pos 0 })

  unfoldable pub insert : Builder → Step (State W T) Answer
  unfolding model_or_error before read_values build_insert set_table run inserted
  insert b = do
    m ← model_or_error "failed to get model: " kind.model
    before "BeforeInsert hook failed: " kind.before_insert
    read ← read_values false m
    built ← unless_nil (build_insert read.0 (set_table m.table_name b))
    out ← run executor (built.0, read.1 ++ built.1)
    inserted m out

  -- `RowsAffected` after an update or a delete, and the hook.
  unfoldable pub counted : String → Hook T → Done → Step (State W T) Answer
  unfolding reported after succeed
  counted prefix hook r = elim r.rows_error [
    | some e ↦ reported executor (wrapped "failed to get rows affected: " e)
    | none ↦ do
      after executor prefix hook
      succeed executor (record { last_insert_id = pos 0; rows_affected = r.rows_affected })
  ]

  unfoldable pub changed : String → String → Hook T → Executed → Step (State W T) Answer
  unfolding reported counted
  changed error_prefix prefix hook (failed e) = reported executor (wrapped error_prefix e)
  changed error_prefix prefix hook (done r) = counted prefix hook r

  -- From the map of values on.
  unfoldable pub update_with : Builder → Model → Hook T → Data → Step (State W T) Answer
  unfolding build_update set_table run changed
  update_with b m hook data' = do
    built ← unless_nil (statement_in (build_update data' (set_table m.table_name b)))
    out ← run executor built
    changed "Update execution failed: " "AfterUpdate hook failed: " hook out

  -- `Update` of an object.
  unfoldable pub update : Builder → Step (State W T) Answer
  unfolding model_or_error before read_values to_data update_with
  update b = do
    m ← model_or_error "failed to get model: " kind.model
    before "BeforeUpdate hook failed: " kind.before_update
    read ← read_values true m
    update_with b m kind.after_update (to_data read.0 read.1 [])

  -- `Update` of a map, with the model of the query.
  unfoldable pub update_map : Builder → Option Model → Data → Step (State W T) Answer
  unfolding update_with
  update_map b none data' = unreported (record {
    message = "model metadata is required for map update";
    wraps_connection_failed = false;
  })
  update_map b (some m) data' = update_with b m none data'

  unfoldable pub where_pk : Dialect → Model → T → Builder → Builder
  unfolding and_where
  where_pk d m t b = elim m.pk_field [
    | none ↦ b
    | some pk ↦ and_where (d.quote pk.column ⧺ " = ?") (kind.indexed.interface pk t ∷ []) b
  ]

  unfoldable pub delete_from : Builder → Model → Hook T → Step (State W T) Answer
  unfolding build_delete set_table run changed
  delete_from b m hook = do
    built ← unless_nil (statement_in (build_delete (set_table m.table_name b)))
    out ← run executor built
    changed "Delete execution failed: " "AfterDelete hook failed: " hook out

  -- `Delete` of an object.
  unfoldable pub delete : Dialect → Builder → Step (State W T) Answer
  unfolding model_or_error before where_pk delete_from
  delete d b = do
    m ← model_or_error "failed to get model: " kind.model
    before "BeforeDelete hook failed: " kind.before_delete
    λ s. delete_from (where_pk d m s.objects b) m kind.after_delete s

  -- `Delete` without an object, with the model of the query.
  unfoldable pub delete_matching : Builder → Option Model → Step (State W T) Answer
  unfolding delete_from
  delete_matching b none = unreported (record {
    message = "model metadata is required for delete";
    wraps_connection_failed = false;
  })
  delete_matching b (some m) = delete_from b m none
