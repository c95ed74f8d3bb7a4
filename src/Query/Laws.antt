-- ===== src/Query/Laws.antt =====
-- What the writing operations do to the database.
use jorm.Base.{
  refl, String, Option, none, some, [], ◌++◌, ◌⊎◌, inl, inr, Option-cases, Bool, false, true, pos,
}
use jorm.Core.Health.{Error}
use jorm.Core.Transaction.{wrapped}
use jorm.Model.{Model}
use jorm.Dialect.{Dialect}
use jorm.Builder.State.{Builder, set_table}
use jorm.Builder.Build.{Data, build_insert, build_update, build_delete}
use jorm.Query.Step.{
  State, continue_with, Executed, failed, done, Executor, Answer, reported, succeed, handle_error,
  unless_nil, Hook, call_hook, hooked_before, hooked_after, before, after, model_or_error,
}
use jorm.Query.Values.{Values, get_model_values}
use jorm.Query.Write.{
  Kind, statement_in, put_read, read_values, set_id, inserted, insert, counted, changed,
  update_with, update, update_map, delete_from, delete, delete_matching, to_data, where_pk,
}
use jorm.Query.Once.{
  Untouched, Ran, Finished, then-Ran, run-Ran, reported-Finished, succeed-Finished,
  continue_with-Finished,
}

module _ {W T : Type 0} (executor : Executor W) (kind : Kind T) where
  before-Untouched :
      (prefix : String) (hook : Hook T) (s : State W T)
      → Untouched executor s (before prefix hook s).1
  unfolding before Untouched
  before-Untouched prefix hook s = hooked (call_hook hook s.objects)
    where
      hooked : (h : Option Error × T) → Untouched executor s (hooked_before prefix s h).1
      hooked (none, x) = unfold hooked_before in (refl, refl, refl)
      hooked (some e, x) = unfold hooked_before in (refl, refl, refl)

  after-Finished :
      (prefix : String) (hook : Hook T) (s : State W T)
      → Finished executor s (after executor prefix hook s)
  unfolding after
  after-Finished prefix hook s = hooked (call_hook hook s.objects)
    where
      hooked : (h : Option Error × T) → Finished executor s (hooked_after executor prefix s h)
      hooked (none, x) = unfold hooked_after Finished in (refl, refl, refl)
      hooked (some e, x) = unfold hooked_after reported handle_error Finished in (refl, refl)

  model_or_error-Untouched :
      (prefix : String) (m : Error ⊎ Model) (s : State W T)
      → Untouched executor s (model_or_error prefix m s).1
  unfolding model_or_error Untouched
  model_or_error-Untouched prefix (inl e) s = (refl, refl, refl)
  model_or_error-Untouched prefix (inr m) s = (refl, refl, refl)

  unless_nil-Untouched :
      {A : Type 0} (o : Option A) (s : State W T) → Untouched executor s (unless_nil o s).1
  unfolding Untouched
  unless_nil-Untouched none s = (refl, refl, refl)
  unless_nil-Untouched (some a) s = (refl, refl, refl)

  put_read-Untouched :
      (o : Option (Values kind.accessed)) (s : State W T)
      → Untouched executor s (put_read executor kind o s).1
  unfolding put_read Untouched
  put_read-Untouched none s = (refl, refl, refl)
  put_read-Untouched (some (t, columns, args)) s = (refl, refl, refl)

  read_values-Untouched :
      (update : Bool) (m : Model) (s : State W T)
      → Untouched executor s (read_values executor kind update m s).1
  unfolding read_values
  read_values-Untouched update m s =
      put_read-Untouched
        (get_model_values kind.accessed update (executor.clock s.world) m.fields s.objects) s

  -- A hook after the statement, and then the answer.
  answered-Finished :
      (prefix : String) (hook : Hook T) (a : Answer) (s : State W T)
      → Finished executor s (continue_with (λ _. succeed executor a) (after executor prefix hook s))
  answered-Finished prefix hook a s =
      continue_with-Finished executor _ s (after executor prefix hook s)
        (after-Finished prefix hook s) λ _ s'. succeed-Finished executor a s'

  inserted-Finished :
      (m : Model) (out : Executed) (s : State W T)
      → Finished executor s (inserted executor kind m out s)
  unfolding inserted
  inserted-Finished m (failed e) s =
      reported-Finished executor _ (wrapped "Insert execution failed: " e) s
  inserted-Finished m (done r) s =
      continue_with-Finished executor _ s (set_id executor kind r.last_insert_id m s)
        (unfold set_id Finished in (refl, refl, refl))
        λ _ s'.
          answered-Finished "AfterInsert hook failed: " (kind.after_insert r.last_insert_id)
            (record { last_insert_id = r.last_insert_id; rows_affected = pos 0 }) s'

  changed-Finished :
      (error_prefix prefix : String) (hook : Hook T) (out : Executed) (s : State W T)
      → Finished executor s (changed executor kind error_prefix prefix hook out s)
  unfolding changed counted
  changed-Finished error_prefix prefix hook (failed e) s =
      reported-Finished executor _ (wrapped error_prefix e) s
  changed-Finished error_prefix prefix hook (done r) s = elim (Option-cases r.rows_error) [
    | inl fine ↦ rw (fine, counted) (answered-Finished prefix hook _ s)
    | inr (e, h) ↦
        rw (h, counted) (reported-Finished executor _ (wrapped "failed to get rows affected: " e) s)
  ]

  insert-Ran : (b : Builder) (s : State W T) → Ran executor s (insert executor kind b s)
  unfolding insert
  insert-Ran b s =
      then-Ran executor (model_or_error "failed to get model: " kind.model) _ s
        (model_or_error-Untouched "failed to get model: " kind.model)
        λ m s1.
          then-Ran executor (before "BeforeInsert hook failed: " kind.before_insert) _ s1
            (before-Untouched "BeforeInsert hook failed: " kind.before_insert)
            λ _ s2.
              then-Ran executor (read_values executor kind false m) _ s2
                (read_values-Untouched false m)
                λ read s3.
                  then-Ran executor (unless_nil (build_insert read.0 (set_table m.table_name b))) _
                    s3 (unless_nil-Untouched (build_insert read.0 (set_table m.table_name b)))
                    λ built s4.
                      run-Ran executor (inserted executor kind m) (built.0, read.1 ++ built.1) s4
                        (inserted-Finished m)

  update_with-Ran :
      (b : Builder) (m : Model) (hook : Hook T) (assigned : Data) (s : State W T)
      → Ran executor s (update_with executor kind b m hook assigned s)
  unfolding update_with
  update_with-Ran b m hook assigned s =
      let statement = statement_in (build_update assigned (set_table m.table_name b)) in
      then-Ran executor (unless_nil statement) _ s (unless_nil-Untouched statement) λ built s1.
        run-Ran executor
          (changed executor kind "Update execution failed: " "AfterUpdate hook failed: " hook) built
          s1 (changed-Finished "Update execution failed: " "AfterUpdate hook failed: " hook)

  update-Ran : (b : Builder) (s : State W T) → Ran executor s (update executor kind b s)
  unfolding update
  update-Ran b s =
      then-Ran executor (model_or_error "failed to get model: " kind.model) _ s
        (model_or_error-Untouched "failed to get model: " kind.model)
        λ m s1.
          then-Ran executor (before "BeforeUpdate hook failed: " kind.before_update) _ s1
            (before-Untouched "BeforeUpdate hook failed: " kind.before_update)
            λ _ s2.
              then-Ran executor (read_values executor kind true m) _ s2
                (read_values-Untouched true m)
                λ read s3. update_with-Ran b m kind.after_update (to_data read.0 read.1 []) s3

  update_map-Ran :
      (b : Builder) (m : Option Model) (assigned : Data) (s : State W T)
      → Ran executor s (update_map executor kind b m assigned s)
  unfolding update_map Ran Untouched
  update_map-Ran b none assigned s = inl (refl, refl, refl)
  update_map-Ran b (some m) assigned s = update_with-Ran b m none assigned s

  delete_from-Ran :
      (b : Builder) (m : Model) (hook : Hook T) (s : State W T)
      → Ran executor s (delete_from executor kind b m hook s)
  unfolding delete_from
  delete_from-Ran b m hook s =
      let statement = statement_in (build_delete (set_table m.table_name b)) in
      then-Ran executor (unless_nil statement) _ s (unless_nil-Untouched statement) λ built s1.
        run-Ran executor
          (changed executor kind "Delete execution failed: " "AfterDelete hook failed: " hook) built
          s1 (changed-Finished "Delete execution failed: " "AfterDelete hook failed: " hook)

  delete-Ran :
      (d : Dialect) (b : Builder) (s : State W T) → Ran executor s (delete executor kind d b s)
  unfolding delete
  delete-Ran d b s =
      then-Ran executor (model_or_error "failed to get model: " kind.model) _ s
        (model_or_error-Untouched "failed to get model: " kind.model)
        λ m s1.
          then-Ran executor (before "BeforeDelete hook failed: " kind.before_delete) _ s1
            (before-Untouched "BeforeDelete hook failed: " kind.before_delete)
            λ _ s2. delete_from-Ran (where_pk executor kind d m s2.objects b) m kind.after_delete s2

  delete_matching-Ran :
      (b : Builder) (m : Option Model) (s : State W T)
      → Ran executor s (delete_matching executor kind b m s)
  unfolding delete_matching Ran Untouched
  delete_matching-Ran b none s = inl (refl, refl, refl)
  delete_matching-Ran b (some m) s = delete_from-Ran b m none s

  -- An insert, an update of an object or of a map, and a delete with or without an object send at most
  -- one statement to the database. Whichever returns an answer has sent exactly one and left the health
  -- of the `DB` as it was, so that a success ends no cooldown; where none was sent, neither the health nor
  -- the last statement has changed.
  pub writes-Ran :
      (d : Dialect) (b : Builder) (m : Option Model) (assigned : Data) (s : State W T)
      → Ran executor s (insert executor kind b s)
        × Ran executor s (update executor kind b s)
        × Ran executor s (update_map executor kind b m assigned s)
        × Ran executor s (delete executor kind d b s)
        × Ran executor s (delete_matching executor kind b m s)
  writes-Ran d b m assigned s = (
    insert-Ran b s,
    update-Ran b s,
    update_map-Ran b m assigned s,
    delete-Ran d b s,
    delete_matching-Ran b m s,
  )
