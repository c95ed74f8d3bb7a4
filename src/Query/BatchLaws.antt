-- ===== src/Query/BatchLaws.antt =====
-- What a batch insert sends.
use jorm.Base.{
  ℕ, ◌*◌, suc, ◌≡◌, refl, sym, ap, subst, ◌∙◌, String, Option, none, some, List, [], ◌∷◌, Value,
  arith, inl, inr, ◌>>=◌, bind-some, length, length-append,
}
use jorm.Base.Fallible.{ok, fails, panics}
use jorm.Core.Health.{Error}
use jorm.Model.{Field, Model}
use jorm.Dialect.{Dialect}
use jorm.Query.Step.{
  State, Ending, Hook, call_hook, Executor, Executed, failed, done, Done, run, Answer,
  continue_with,
}
use jorm.Query.Step.{◌>>=◌ as after_step}
use jorm.Query.Values.{Reflection}
use jorm.Query.Write.{Kind}
use jorm.Query.Batch.{
  batch_columns, set_batch_time, fill_row, fill_rows, before_row, filled_row, Rows, add_row,
  read_rows, ended_rows, batch_inserted, after_rows, batch_insert_into, batch_insert_of,
  batch_insert,
}
use jorm.Query.Once.{
  Untouched, Ran, Finished, then-Ran, run-Ran, reported-Finished, succeed-Finished,
}
use jorm.Query.Stored.{either}

module _ {T : Type 0} (r : Reflection T) where
  length-fill_row :
      (now : ℕ) (fields : List Field) (t t' : T) (args : List Value)
      → fill_row r now fields t ≡ some (t', args)
      → length args ≡ length (batch_columns fields)
  unfolding fill_row batch_columns
  length-fill_row now [] t t' args h = ground arith
  length-fill_row now (f ∷ fields) t t' args h =
      elim (either f.is_auto (fill_row r now fields t)
        (do
          t1 ← set_batch_time r now f t
          rest ← fill_row r now fields t1
          some (rest.0, r.interface f t1 ∷ rest.1))
        h) [
          | inl (auto, e) ↦ rw auto (length-fill_row now fields t t' args e)
          | inr (stored, e) ↦
              let (t1, set, e1) = bind-some (set_batch_time r now f t) _ e in
              let (rest, read, e2) = bind-some (fill_row r now fields t1) _ e1 in
              rw stored (ground (arith, length-fill_row now fields t1 rest.0 rest.1 read, e2))
        ]

  length-before_row :
      (n c : ℕ) (t : T) (row : List Value) (rest : Rows r) {args : List Value}
      → length row ≡ c
      → ((more : List Value) → rest.0 ≡ ok more → length more ≡ n * c)
      → (before_row r t row rest).0 ≡ ok args
      → length args ≡ suc n * c
  unfolding before_row
  length-before_row n c t row (ok more, ts) w rest h =
      ground (arith, length-append row more, rest more refl)
  length-before_row n c t row (fails e, ts) w rest h = ground arith
  length-before_row n c t row (panics, ts) w rest h = ground arith

  length-filled_row :
      (n c : ℕ) (row : Option (T × List Value)) (t : T) (ts : List T) (rest : Rows r)
      {args : List Value}
      → ((filled : T × List Value) → row ≡ some filled → length filled.1 ≡ c)
      → ((more : List Value) → rest.0 ≡ ok more → length more ≡ n * c)
      → (filled_row r row t ts rest).0 ≡ ok args
      → length args ≡ suc n * c
  unfolding filled_row
  length-filled_row n c none t ts rest w more h = ground arith
  length-filled_row n c (some (t', row)) t ts rest w more h =
      length-before_row n c t' row rest (w (t', row) refl) more h

  length-add_row :
      (now n : ℕ) (fields : List Field) (hooked : Option Error × T) (ts : List T) (rest : Rows r)
      {args : List Value}
      → ((more : List Value) → rest.0 ≡ ok more → length more ≡ n * length (batch_columns fields))
      → (add_row r now fields hooked ts rest).0 ≡ ok args
      → length args ≡ suc n * length (batch_columns fields)
  unfolding add_row
  length-add_row now n fields (some e, t) ts rest more h = ground arith
  length-add_row now n fields (none, t) ts rest more h =
      length-filled_row n (length (batch_columns fields)) (fill_row r now fields t) t ts rest
        (λ filled e. length-fill_row now fields t filled.0 filled.1 e) more h

  length-fill_rows :
      (hook : Hook T) (now : ℕ) (fields : List Field) (ts : List T) {args : List Value}
      → (fill_rows r hook now fields ts).0 ≡ ok args
      → length args ≡ length ts * length (batch_columns fields)
  unfolding fill_rows
  length-fill_rows hook now fields [] h = ground arith
  length-fill_rows hook now fields (t ∷ ts) h =
      length-add_row now (length ts) fields (call_hook hook t) ts (fill_rows r hook now fields ts)
        (λ more e. length-fill_rows hook now fields ts e) h

module _ {W T : Type 0} (executor : Executor W) (kind : Kind T) where
  kept_objects :
      {A : Type 0} (s : State W (List T)) (ts : List T) (end : Ending (State W (List T)) A)
      → Finished executor (record s { objects = ts }) end
      → Finished executor s end
  unfolding Finished
  kept_objects s ts (ok a, s') h = h
  kept_objects s ts (fails e, s') h = h
  kept_objects s ts (panics, s') h = h

  ended_rows-Finished :
      (r : Done) (e : Option Error × List T) (s : State W (List T))
      → Finished executor s (ended_rows executor kind r e s)
  unfolding ended_rows
  ended_rows-Finished r (none, ts) s =
      kept_objects s ts _ (succeed-Finished executor _ (record s { objects = ts }))
  ended_rows-Finished r (some e, ts) s =
      kept_objects s ts _ (reported-Finished executor _ e (record s { objects = ts }))

  batch_inserted-Finished :
      (out : Executed) (s : State W (List T))
      → Finished executor s (batch_inserted executor kind out s)
  unfolding batch_inserted
  batch_inserted-Finished (failed e) s = reported-Finished executor _ e s
  batch_inserted-Finished (done r) s =
      ended_rows-Finished r (after_rows kind.after_insert r.last_insert_id 0 s.objects) s

  read_rows-Untouched :
      (m : Model) (s : State W (List T)) → Untouched executor s (read_rows executor kind m s).1
  unfolding read_rows Untouched
  read_rows-Untouched m s = (refl, refl, refl)

  batch_insert_into-Ran :
      (d : Dialect) (m : Model) (s : State W (List T))
      → Ran executor s (batch_insert_into executor kind d m s)
  unfolding batch_insert_into
  batch_insert_into-Ran d m s =
      let sql = (d.batch_insert_sql m.table_name (batch_columns m.fields) (length s.objects)).0 in
      then-Ran executor (read_rows executor kind m)
        (λ args. after_step (run executor (sql, args)) (batch_inserted executor kind)) s
        (read_rows-Untouched m)
        λ args s1.
          run-Ran executor (batch_inserted executor kind) (sql, args) s1 batch_inserted-Finished

  batch_insert_step :
      (d : Dialect) (m : Model) (s : State W (List T)) (t : T) (ts : List T)
      → kind.model ≡ inr m
      → s.objects ≡ t ∷ ts
      → batch_insert executor kind d s ≡ batch_insert_into executor kind d m s
  unfolding batch_insert batch_insert_of
  batch_insert_step d m s t ts has_model objects =
      ap (λ o. batch_insert_of executor kind d o kind.model s) objects
      ∙ ap (λ k. batch_insert_of executor kind d (t ∷ ts) k s) has_model

  last_kept :
      {A : Type 0} (s : State W (List T)) (end : Ending (State W (List T)) A)
      → Finished executor s end
      → end.1.last ≡ s.last
  unfolding Finished
  last_kept s (ok a, s') (w, l, c) = l
  last_kept s (fails e, s') (w, l) = l
  last_kept s (panics, s') (w, l) = l

  sent_args :
      (sql : String) (n : ℕ) (end : Ending (State W (List T)) (List Value)) (a : Answer)
      → ((args : List Value) → end.0 ≡ ok args → length args ≡ n)
      → let out =
          continue_with
            (λ args. after_step (run executor (sql, args)) (batch_inserted executor kind))
            end in
        out.0 ≡ ok a → (args : List Value) × (out.1.last ≡ some (sql, args)) × (length args ≡ n)
  unfolding run
  sent_args sql n (ok args, s) a counted h =
      let (out, w) = executor.exec (sql, args) s.world in
      let s1 = record s { world = w; last = some (sql, args) } in
      (
        args,
        last_kept s1 (batch_inserted executor kind out s1) (batch_inserted-Finished out s1),
        counted args refl,
      )
  sent_args sql n (fails e, s) a counted h = ground arith
  sent_args sql n (panics, s) a counted h = ground arith

  batch_insert_into-Sent :
      (d : Dialect) (m : Model) (s : State W (List T)) (a : Answer)
      → (batch_insert_into executor kind d m s).0 ≡ ok a
      → (args : List Value) × ((batch_insert_into executor kind d m s).1.last
          ≡ some (
            (d.batch_insert_sql m.table_name (batch_columns m.fields) (length s.objects)).0,
            args,
          ))
        × (length args ≡ length s.objects * length (batch_columns m.fields))
  unfolding batch_insert_into read_rows
  batch_insert_into-Sent d m s a h =
      sent_args _ _ (read_rows executor kind m s) a
        (λ args e.
          length-fill_rows kind.indexed kind.before_insert (executor.clock s.world) m.fields
            s.objects e)
        h

  -- A batch insert of a slice that is not empty, of a type with a model, that returns an answer has sent
  -- one statement to the database, that of the dialect for the columns and the number of the objects,
  -- with one argument for each object and column, and the health of the `DB` is as before.
  pub batch_insert-Sent :
      (d : Dialect) (m : Model) (s : State W (List T)) (t : T) (ts : List T) (a : Answer)
      → kind.model ≡ inr m
      → s.objects ≡ t ∷ ts
      → (batch_insert executor kind d s).0 ≡ ok a
      → (args : List Value) × ((batch_insert executor kind d s).1.last
          ≡ some (
            (d.batch_insert_sql m.table_name (batch_columns m.fields) (length s.objects)).0,
            args,
          ))
        × (length args ≡ length s.objects * length (batch_columns m.fields))
        × Ran executor s (batch_insert executor kind d s)
  unfolding batch_insert
  batch_insert-Sent d m s t ts a has_model objects h =
      let same = batch_insert_step d m s t ts has_model objects in
      let (args, l, n) = batch_insert_into-Sent d m s a (ap (λ x. x.0) (sym same) ∙ h) in
      (
        args,
        ap (λ x. x.1.last) same ∙ l,
        n,
        subst (Ran executor s) (sym same) (batch_insert_into-Ran d m s),
      )
