-- ===== src/Query/ReadLaws.antt =====
-- What Find and First of core/query.go read.
use jorm.Base.{
  pos, ◌≡◌, refl, sym, ap, subst, ◌∙◌, String, none, some, List, [], ◌∷◌, ◌++◌, inr, arith,
}
use jorm.Base.Fallible.{ok}
use jorm.Dialect.{Statement}
use jorm.Builder.State.{Builder, set_limit}
use jorm.Builder.Build.{build_select}
use jorm.Query.Step.{State, succeed, handle_error}
use jorm.Query.Write.{statement_in}
use jorm.Query.Read.{
  Rows, Reader, query_context, first_row, query_row, scan_rows, query_rows, first, find,
}
use jorm.Query.ReadSteps.{
  continue_with-ok, wrapped_by-ok, unless_nil-ok, ReadRows, FirstRow, read_row-some, or_reported-ok,
  hooked_in_loop-ok, hooked_row-ok, ended_by-ok,
}

module _ {W R T X : Type 0} (reader : Reader W R T) where
  scan_rows-ReadRows :
      (columns : List String) (rs : List R) (s s' : State W X) (ts : List T)
      → scan_rows reader columns rs s ≡ (ok ts, s')
      → ReadRows reader columns rs ts × (s' ≡ s)
  unfolding scan_rows
  scan_rows-ReadRows columns [] s s' [] h = (tt, ground arith)
  scan_rows-ReadRows columns [] s s' (t ∷ ts) h = cc
  scan_rows-ReadRows columns (r ∷ rs) s s' ts h =
      let (m, s1, e1, h1) = continue_with-ok _ _ h in
      let (is_model, same1) =
        or_reported-ok reader "failed to get model metadata: " reader.model s s1 e1 in
      let (t, s2, e2, h2) = continue_with-ok _ _ h1 in
      let (is_row, same2) = or_reported-ok reader "row scan failed: " _ s1 s2 e2 in
      let (t', s3, e3, h3) = continue_with-ok _ _ h2 in
      let (accepted, same3) = hooked_in_loop-ok reader _ s2 s3 e3 in
      let (rest, s4, e4, h4) = continue_with-ok _ _ h3 in
      let (all, same4) = scan_rows-ReadRows columns rs s3 s4 rest e4 in
      let is_all : t' ∷ rest ≡ ts = ground (arith, h4) in
      let same : s' ≡ s = ground (arith, h4, same1, same2, same3, same4) in
      subst (λ us. ReadRows reader columns (r ∷ rs) us × (s' ≡ s)) is_all
        (((m, is_model, read_row-some reader m columns r _ t t' is_row accepted), all), same)

  query_rows-ok :
      (statement : Statement) (dest : List T) (s s' : State W X) (ts : List T)
      → query_rows reader statement dest s ≡ (ok ts, s')
      → (found : Rows R) × (columns : List String) × (read : List T) × ((reader.query statement
            s.world).0
          ≡ inr found)
        × (found.columns ≡ inr columns)
        × ReadRows reader columns found.rows read
        × (found.end_error ≡ none)
        × (ts ≡ dest ++ read)
        × (s' ≡ record s { world = (reader.query statement s.world).1; last = some statement })
  unfolding query_rows query_context
  query_rows-ok statement dest s s' ts h =
      let (found, s1, e1, h1) = continue_with-ok _ _ h in
      let (is_found, same1) =
        or_reported-ok reader "query execution failed: " (reader.query statement s.world).0 _ s1
          e1 in
      let (columns, s2, e2, h2) = continue_with-ok _ _ h1 in
      let (is_columns, same2) =
        or_reported-ok reader "failed to get columns: " found.columns s1 s2 e2 in
      let (read, s3, e3, h3) = continue_with-ok _ _ h2 in
      let (all, same3) = scan_rows-ReadRows columns found.rows s2 s3 read e3 in
      let (no_error, is_all, same4) = ended_by-ok reader found.end_error (dest ++ read) s3 s' h3 in
      (
        found,
        columns,
        read,
        is_found,
        is_columns,
        all,
        no_error,
        is_all,
        same4 ∙ same3 ∙ same2 ∙ same1,
      )

  -- What a Find that gives these objects has done, the statement of its builder sent.
  abbrev pub Found : Builder → List T → State W X → List T → State W X → Type 0
  Found b dest s ts s' =
      (statement : Statement) × (found : Rows R) × (columns : List String) × (read : List T)
      × (statement_in (build_select b) ≡ some statement)
      × ((reader.query statement s.world).0 ≡ inr found)
      × (found.columns ≡ inr columns)
      × ReadRows reader columns found.rows read
      × (found.end_error ≡ none)
      × (ts ≡ dest ++ read)
      × (s' ≡ record s { world = (reader.query statement s.world).1; last = some statement })

  -- A Find that returns objects has sent one statement, the SELECT of its builder. Its answer had columns
  -- and no error at its end, each of its rows could be scanned into a new object that the hook accepted,
  -- and these follow the objects that were there, in the order of the rows. The health of the `DB` and the
  -- objects of the caller are as before.
  pub find-Found :
      (b : Builder) (dest ts : List T) (s s' : State W X)
      → find reader b dest s ≡ (ok ts, s')
      → Found b dest s ts s'
  unfolding find
  find-Found b dest ts s s' h =
      let (statement, s1, e1, h1) = continue_with-ok _ _ h in
      let (built, same1) = unless_nil-ok (statement_in (build_select b)) s e1 in
      let sent = wrapped_by-ok "Find failed: " (query_rows reader statement dest s1) h1 in
      let (found, columns, read, is_found, is_columns, all, no_error, is_all, same) =
        query_rows-ok statement dest s s' ts
          (ap (query_rows reader statement dest) (sym same1) ∙ sent) in
      (statement, found, columns, read, built, is_found, is_columns, all, no_error, is_all, same)

  succeed-ok :
      (t : T) (s s' : State W X) {u : T}
      → succeed reader.executor t s ≡ (ok u, s')
      → (t ≡ u) × (s' ≡ s)
  unfolding succeed handle_error
  succeed-ok t s s' h = (ground arith, ground arith)

  first_row-FirstRow :
      (dest t : T) (found : Rows R) (rows : List R) (s s' : State W X)
      → found.rows ≡ rows
      → first_row reader dest found rows s ≡ (ok t, s')
      → FirstRow reader found dest t × (s' ≡ s)
  unfolding first_row
  first_row-FirstRow dest t found [] s s' rows h = cc
  first_row-FirstRow dest t found (r ∷ rs) s s' rows h =
      let (columns, s1, e1, h1) = continue_with-ok _ _ h in
      let (is_columns, same1) =
        or_reported-ok reader "failed to get columns: " found.columns s s1 e1 in
      let (m, s2, e2, h2) = continue_with-ok _ _ h1 in
      let (is_model, same2) =
        or_reported-ok reader "failed to get model metadata: " reader.model s1 s2 e2 in
      let (u, s3, e3, h3) = continue_with-ok _ _ h2 in
      let (is_row, same3) = or_reported-ok reader "row scan failed: " _ s2 s3 e3 in
      let (v, s4, e4, h4) = continue_with-ok _ _ h3 in
      let (accepted, same4) = hooked_row-ok reader _ s3 s4 e4 in
      let (is_last, same5) = succeed-ok v s4 s' h4 in
      (
        (
          r,
          rs,
          columns,
          m,
          rows,
          is_columns,
          is_model,
          read_row-some reader m columns r dest u v is_row accepted ∙ ap some is_last,
        ),
        same5 ∙ same4 ∙ same3 ∙ same2 ∙ same1,
      )

  abbrev pub FoundFirst : Builder → T → State W X → T → State W X → Type 0
  FoundFirst b dest s t s' =
      (statement : Statement) × (found : Rows R) × (statement_in
          (build_select (set_limit (pos 1) b))
        ≡ some statement)
      × ((reader.query statement s.world).0 ≡ inr found)
      × FirstRow reader found dest t
      × (s' ≡ record s { world = (reader.query statement s.world).1; last = some statement })

  -- A First that returns an object has sent one statement, the SELECT of its builder with the limit of one,
  -- and the object is the first row scanned into the one given, as the hook accepted it. The health of the
  -- `DB` is as before, so that a success ends no cooldown, and so are the other objects of the caller.
  pub first-Found :
      (b : Builder) (dest t : T) (s s' : State W X)
      → first reader b dest s ≡ (ok t, s')
      → FoundFirst b dest s t s'
  unfolding first query_row query_context
  first-Found b dest t s s' h =
      let (statement, s1, e1, h1) = continue_with-ok _ _ h in
      let (built, same1) = unless_nil-ok (statement_in (build_select (set_limit (pos 1) b))) s e1 in
      let sent = wrapped_by-ok "First failed: " (query_row reader statement dest s1) h1 in
      let sent' = ap (query_row reader statement dest) (sym same1) ∙ sent in
      let (found, s2, e2, h2) = continue_with-ok _ _ sent' in
      let (is_found, same2) =
        or_reported-ok reader "query execution failed: " (reader.query statement s.world).0 _ s2
          e2 in
      let (row, same3) = first_row-FirstRow dest t found found.rows s2 s' refl h2 in
      (statement, found, built, is_found, row, same3 ∙ same2)
