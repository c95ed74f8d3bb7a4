-- ===== src/Core/SchemaLaws.antt =====
-- What `AutoMigrate` does to a table that is there.
use jorm.Base.{
  ◌≡◌, refl, sym, ap, subst, ◌∙◌, true, false, ◌||◌, String, Option, none, some, List, [], ◌∷◌,
  ◌++◌, All, arith, Bool-cases, inl, inr, str_eq, eq_iff, if◌then◌else◌,
}
use jorm.Core.Health.{Error}
use jorm.Dialect.{Dialect, Statement}
use jorm.Model.{Field, Model}
use jorm.Core.Schema.{
  Answer, unqueried, unparsed, yields, Catalog, Outcome, done, fails, panicked, and_then, has_name,
  has_index, index_name, ran, run_statement, run_present, add_column, add_columns, alter_parsed,
  alter_table_if_needed, create_indexes, sync_parsed, sync_indexes,
}

has_name-append :
    (name other : String) (names : List String)
    → has_name name (names ++ other ∷ []) ≡ (has_name name names || str_eq other name)
unfolding has_name
has_name-append name other [] = ground arith
has_name-append name other (n ∷ names) = ground (arith, has_name-append name other names)

has_name-kept :
    (name other : String) (names : List String)
    → has_name name names ≡ true
    → has_name name (names ++ other ∷ []) ≡ true
has_name-kept name other names h = ground (arith, h, has_name-append name other names)

has_name-last : (name : String) (names : List String) → has_name name (names ++ name ∷ []) ≡ true
has_name-last name names = ground (arith, has_name-append name name names, eq_iff name name)

module _ {W : Type 0} (catalog : Catalog W) (d : Dialect) where
  -- The answer to the columns of a table.
  abbrev pub columns_of : Model → W → Answer (List String)
  columns_of m w = catalog.columns (d.get_columns_sql m.table_name) w

  -- What `ALTER TABLE … ADD COLUMN` of a database does for a field: if it succeeds, the name of the field
  -- is then the last one that the dialect reads for the table. The statement of the dialect is not empty.
  pub record AddsColumn (m : Model) (field : Field) : Type 0 where
    pub added :
        (w : W) (statement : Statement) (names : List String)
        → d.add_column_sql m.table_name field ≡ some statement
        → columns_of m w ≡ yields names
        → (catalog.exec statement w).0 ≡ none
        → columns_of m (catalog.exec statement w).1 ≡ yields (names ++ field.column ∷ [])
    pub not_empty :
        (statement : Statement)
        → d.add_column_sql m.table_name field ≡ some statement
        → str_eq statement.0 "" ≡ false

  unfoldable pub IsIn : List String → Field → Type 0
  IsIn names field = has_name field.column names ≡ true

  -- No column is missing.
  add_columns-IsIn :
      (m : Model) (names : List String) (fields : List Field) (w : W)
      → All (IsIn names) fields
      → add_columns catalog d m names fields w ≡ done w
  unfolding add_columns IsIn
  add_columns-IsIn m names [] w h = refl
  add_columns-IsIn m names (field ∷ fields) w (h, hs) =
      rw (h, add_columns) (add_columns-IsIn m names fields w hs)

  done-injective : (w w' : W) → ◌≡◌ {A = Outcome W} (done w) (done w') → w ≡ w'
  done-injective w w' h = ground (arith, h)

  ran-done :
      (message : String) (r : Option Error × W) (w' : W)
      → ran catalog d message r ≡ done w'
      → (r.0 ≡ none) × (r.1 ≡ w')
  unfolding ran
  ran-done message (none, w) w' h = ground (arith, h)
  ran-done message (some e, w) w' h = ground arith

  run_present-done :
      (m : Model) (field : Field) (adds : AddsColumn m field) (message : String)
      (o : Option Statement)
      → (w w' : W) (names : List String) → d.add_column_sql m.table_name field ≡ o
      → columns_of m w ≡ yields names
      → run_present catalog d message o w ≡ done w'
      → columns_of m w' ≡ yields (names ++ field.column ∷ [])
  unfolding run_present run_statement
  run_present-done m field adds message none w w' names e c h = ground arith
  run_present-done m field adds message (some statement) w w' names e c h =
      let h' =
        subst
          (λ b. (if b then done w else ran catalog d message (catalog.exec statement w)) ≡ done w')
          (adds.not_empty statement e) h in
      let (ok, moved) = ran-done message (catalog.exec statement w) w' h' in
      rw (sym moved) (adds.added w statement names e c ok)

  add_column-done :
      (m : Model) (field : Field) (adds : AddsColumn m field) (w w' : W) (names : List String)
      → columns_of m w ≡ yields names
      → add_column catalog d m field w ≡ done w'
      → columns_of m w' ≡ yields (names ++ field.column ∷ [])
  unfolding add_column
  add_column-done m field adds w w' names c h =
      run_present-done m field adds _ (d.add_column_sql m.table_name field) w w' names refl c h

  -- What a successful run of the loop leaves behind.
  Added : Model → List String → List Field → W → Type 0
  Added m names fields w =
      (names' : List String) × (columns_of m w ≡ yields names')
      × ((c : String) → has_name c names ≡ true → has_name c names' ≡ true)
      × All (IsIn names') fields

  and_then-done :
      (o : Outcome W) (next : W → Outcome W) (w' : W)
      → and_then o next ≡ done w'
      → (w : W) × (o ≡ done w) × (next w ≡ done w')
  unfolding and_then
  and_then-done (done w) next w' h = (w, refl, h)
  and_then-done (fails e w) next w' h = ground arith
  and_then-done panicked next w' h = ground arith

  add_columns-skip :
      (m : Model) (existing : List String) (field : Field) (fields : List Field) (w : W)
      → has_name field.column existing ≡ true
      → add_columns catalog d m existing (field ∷ fields) w
        ≡ add_columns catalog d m existing fields w
  unfolding add_columns
  add_columns-skip m existing field fields w known = rw (known, add_columns) refl

  add_columns-step :
      (m : Model) (existing : List String) (field : Field) (fields : List Field) (w : W)
      → has_name field.column existing ≡ false
      → add_columns catalog d m existing (field ∷ fields) w
        ≡ and_then
            (add_column catalog d m field w)
            (λ w'. add_columns catalog d m existing fields w')
  unfolding add_columns
  add_columns-step m existing field fields w missing = rw (missing, add_columns) refl

  add_columns-Added :
      (m : Model) (existing names : List String) (fields : List Field) (w w' : W)
      → All (AddsColumn m) fields
      → columns_of m w ≡ yields names
      → ((c : String) → has_name c existing ≡ true → has_name c names ≡ true)
      → add_columns catalog d m existing fields w ≡ done w'
      → Added m names fields w'
  unfolding Added IsIn add_columns
  add_columns-Added m existing names [] w w' _ c sub h =
      (names, ap (columns_of m) (sym (done-injective w w' h)) ∙ c, (λ c k. k), tt)
  add_columns-Added m existing names (field ∷ fields) w w' (adds, more) c sub h =
      elim (Bool-cases (has_name field.column existing)) [
        | inl known ↦
            let skip = add_columns-skip m existing field fields w known in
            let (names', cs, keeps, all) =
              add_columns-Added m existing names fields w w' more c sub (sym skip ∙ h) in
            (names', cs, keeps, (keeps field.column (sub field.column known), all))
        | inr missing ↦
            let step = add_columns-step m existing field fields w missing in
            let (w'', first, rest) =
              and_then-done (add_column catalog d m field w)
                (λ v. add_columns catalog d m existing fields v) w' (sym step ∙ h) in
            let c' = add_column-done m field adds w w'' names c first in
            let (names', cs, keeps, all) =
              add_columns-Added m existing (names ++ field.column ∷ []) fields w'' w' more c'
                (λ k e. has_name-kept k field.column names (sub k e)) rest in
            (
              names',
              cs,
              (λ k e. keeps k (has_name-kept k field.column names e)),
              (keeps field.column (has_name-last field.column names), all),
            )
      ]

  alter_parsed-Added :
      (m : Model) (adds : All (AddsColumn m) m.fields) (answer : Answer (List String)) (w w' : W)
      → columns_of m w ≡ answer
      → alter_parsed catalog d m answer w ≡ done w'
      → (names : List String) × (columns_of m w' ≡ yields names) × All (IsIn names) m.fields
  unfolding alter_parsed Added
  alter_parsed-Added m adds (unqueried e) w w' a h = ground arith
  alter_parsed-Added m adds (unparsed e) w w' a h = ground arith
  alter_parsed-Added m adds (yields names) w w' a h =
      let (names', cs, keeps, all) =
        add_columns-Added m names names m.fields w w' adds a (λ k e. e) h in
      (names', cs, all)

  -- On a database where a successful `ADD COLUMN` for a field of the model puts its column at the end of
  -- the table, under the name that the dialect then reads: if
  -- `alterTableIfNeeded` succeeds, the table has the columns of all fields of the model, and a second
  -- call succeeds and changes nothing.
  pub alter_table_if_needed-idempotent :
      (m : Model) (w w' : W)
      → All (AddsColumn m) m.fields
      → alter_table_if_needed catalog d m w ≡ done w'
      → ((names : List String) × (columns_of m w' ≡ yields names) × All (IsIn names) m.fields)
        × (alter_table_if_needed catalog d m w' ≡ done w')
  unfolding alter_table_if_needed alter_parsed
  alter_table_if_needed-idempotent m w w' adds h =
      let (names, cs, all) = alter_parsed-Added m adds (columns_of m w) w w' refl h in
      (
        (names, cs, all),
        ap (λ a. alter_parsed catalog d m a w') cs ∙ add_columns-IsIn m names m.fields w' all,
      )

  -- A field that needs no new index: it is not unique, or it has an index by name or by column.
  unfoldable pub IsIndexed : Model → List (String × List String) → Field → Type 0
  unfolding has_index index_name
  IsIndexed m existing field =
      field.is_unique ≡ true → has_index (index_name m field) (field.column ∷ []) existing ≡ true

  create_indexes-IsIndexed :
      (m : Model) (existing : List (String × List String)) (fields : List Field) (w : W)
      → All (IsIndexed m existing) fields
      → create_indexes catalog d m existing fields w ≡ done w
  unfolding create_indexes IsIndexed
  create_indexes-IsIndexed m existing [] w h = refl
  create_indexes-IsIndexed m existing (field ∷ fields) w (h, hs) =
      ground (arith, h, create_indexes-IsIndexed m existing fields w hs)

  -- Where every unique field has an index, by its name or by its column in any case, `syncIndexes`
  -- runs no statement and succeeds.
  pub sync_indexes-IsIndexed :
      (m : Model) (existing : List (String × List String)) (w : W)
      → catalog.indexes (d.get_indexes_sql m.table_name) w ≡ yields existing
      → All (IsIndexed m existing) m.fields
      → sync_indexes catalog d m w ≡ done w
  unfolding sync_indexes sync_parsed
  sync_indexes-IsIndexed m existing w answer h =
      ap (λ a. sync_parsed catalog d m a w) answer
      ∙ create_indexes-IsIndexed m existing m.fields w h
