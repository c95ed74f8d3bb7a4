-- ===== src/Core/Schema.antt =====
-- core/db.go: `HasTable`, `AutoMigrate`, `alterTableIfNeeded` and `syncIndexes`, for models that were
-- parsed. The world is the database with the health of the `DB`.
use jorm.Base.{
  ℕ, Bool, true, false, ◌&&◌, ◌||◌, String, Option, none, some, List, [], ◌∷◌, ◌⧺◌, str_eq, ltb,
  contains, to_lower, if◌then◌else◌,
}
use jorm.Core.Health.{Error}
use jorm.Core.Transaction.{wrapped}
use jorm.Dialect.{Dialect, Statement}
use jorm.Model.{Field, Model}

-- What a query for rows gives: an error of the query, an error of the parsing, or the rows.
pub data Answer (A : Type 0) : Type 0 where
  unqueried : Error → Answer A
  unparsed : Error → Answer A
  yields : A → Answer A

-- The pool, the parsing of its rows by the dialect, and `Exec`.
pub record Catalog (W : Type 0) : Type 0 where
  pub count : Statement → W → Answer ℕ
  pub columns : Statement → W → Answer (List String)
  pub indexes : Statement → W → Answer (List (String × List String))
  pub exec : Statement → W → Option Error × W

-- How a part of `AutoMigrate` ends; a panic of the dialect ends it as well.
pub data Outcome (W : Type 0) : Type 0 where
  done : W → Outcome W
  fails : Error → W → Outcome W
  panicked : Outcome W

unfoldable pub and_then : {W : Type 0} → Outcome W → (W → Outcome W) → Outcome W
and_then (done w) next = next w
and_then (fails e w) next = fails e w
and_then panicked next = panicked

-- A key of `map[string]bool`
unfoldable pub has_name : String → List String → Bool
has_name name [] = false
has_name name (n ∷ names) = str_eq n name || has_name name names

-- The loop of `hasIndex` over the columns of an index of the same length.
unfoldable pub same_columns : List String → List String → Bool
same_columns [] [] = true
same_columns (c ∷ cs) (c' ∷ cs') = str_eq (to_lower c) (to_lower c') && same_columns cs cs'
same_columns _ _ = false

-- `len(existingCols) == 0` is passed over.
unfoldable pub same_index : List String → List String → Bool
unfolding same_columns
same_index [] columns = false
same_index (c ∷ cs) columns = same_columns (c ∷ cs) columns

-- By its name or by its columns.
unfoldable pub has_index : String → List String → List (String × List String) → Bool
unfolding same_index
has_index name columns [] = false
has_index name columns ((n, cs) ∷ existing) =
    (str_eq (to_lower n) (to_lower name) || same_index cs columns)
    || has_index name columns existing

-- `fmt.Sprintf("idx_%s_%s", m.TableName, field.Column)`
unfoldable pub index_name : Model → Field → String
index_name m field = "idx_" ⧺ m.table_name ⧺ "_" ⧺ field.column

module _ {W : Type 0} (catalog : Catalog W) (d : Dialect) where
  -- The end of an `Exec` whose error is returned.
  unfoldable pub ran : String → Option Error × W → Outcome W
  ran message (none, w) = done w
  ran message (some e, w) = fails (wrapped message e) w

  unfoldable pub run_statement : String → Option Statement → W → Outcome W
  unfolding ran
  run_statement message none w = panicked
  run_statement message (some statement) w = ran message (catalog.exec statement w)

  -- `if addSql != ""`
  unfoldable pub run_present : String → Option Statement → W → Outcome W
  unfolding run_statement
  run_present message none w = panicked
  run_present message (some statement) w =
      let run = run_statement message (some statement) w in
      if str_eq statement.0 "" then done w else run

  unfoldable pub add_column : Model → Field → W → Outcome W
  unfolding run_present
  add_column m field w =
      run_present ("failed to add column " ⧺ field.column ⧺ " to table " ⧺ m.table_name ⧺ ": ")
        (d.add_column_sql m.table_name field) w

  -- The loop over the fields; the existing columns are read once, before it.
  unfoldable pub add_columns : Model → List String → List Field → W → Outcome W
  unfolding has_name add_column and_then
  add_columns m existing [] w = done w
  add_columns m existing (field ∷ fields) w =
      let skip = add_columns m existing fields w in
      let add = and_then (add_column m field w) (λ w'. add_columns m existing fields w') in
      if has_name field.column existing then skip else add

  unfoldable pub alter_parsed : Model → Answer (List String) → W → Outcome W
  unfolding add_columns
  alter_parsed m (unqueried e) w =
      fails (wrapped ("failed to get columns for table " ⧺ m.table_name ⧺ ": ") e) w
  alter_parsed m (unparsed e) w =
      fails (wrapped ("failed to parse columns for table " ⧺ m.table_name ⧺ ": ") e) w
  alter_parsed m (yields existing) w = add_columns m existing m.fields w

  unfoldable pub alter_table_if_needed : Model → W → Outcome W
  unfolding alter_parsed
  alter_table_if_needed m w = alter_parsed m (catalog.columns (d.get_columns_sql m.table_name) w) w

  -- The end of the `Exec` of an index: an error that says that it is there is dropped.
  unfoldable pub created : Model → Field → Option Error × W → Outcome W
  unfolding contains index_name
  created m field (none, w) = done w
  created m field (some e, w) =
      if contains e.message "Duplicate key name" || contains e.message "already exists"
      then done w
      else fails
          (wrapped
            ("failed to create unique index "
              ⧺ index_name m field
              ⧺ " on table "
              ⧺ m.table_name
              ⧺ ": ")
            e)
          w

  unfoldable pub create_index : Model → Field → W → Outcome W
  unfolding created index_name
  create_index m field w =
      let statement =
        d.create_index_sql m.table_name (index_name m field) (field.column ∷ []) true in
      let run = created m field (catalog.exec statement w) in
      if str_eq statement.0 "" then done w else run

  unfoldable pub create_indexes : Model → List (String × List String) → List Field → W → Outcome W
  unfolding has_index create_index and_then index_name
  create_indexes m existing [] w = done w
  create_indexes m existing (field ∷ fields) w =
      let skip = create_indexes m existing fields w in
      let create = and_then (create_index m field w) (λ w'. create_indexes m existing fields w') in
      if field.is_unique
      then (if has_index (index_name m field) (field.column ∷ []) existing then skip else create)
      else skip

  unfoldable pub sync_parsed : Model → Answer (List (String × List String)) → W → Outcome W
  unfolding create_indexes
  sync_parsed m (unqueried e) w =
      fails (wrapped ("failed to get indexes for table " ⧺ m.table_name ⧺ ": ") e) w
  sync_parsed m (unparsed e) w =
      fails (wrapped ("failed to parse indexes for table " ⧺ m.table_name ⧺ ": ") e) w
  sync_parsed m (yields existing) w = create_indexes m existing m.fields w

  unfoldable pub sync_indexes : Model → W → Outcome W
  unfolding sync_parsed
  sync_indexes m w = sync_parsed m (catalog.indexes (d.get_indexes_sql m.table_name) w) w

  -- What follows the count of `HasTable`.
  unfoldable pub alter_or_create : Model → Answer ℕ → W → Outcome W
  unfolding run_statement alter_table_if_needed
  alter_or_create m (yields count) w =
      if ltb 0 count
      then alter_table_if_needed m w
      else run_statement ("failed to create table " ⧺ m.table_name ⧺ ": ") (d.create_table_sql m) w
  alter_or_create m (unqueried e) w =
      fails (wrapped ("failed to check if table " ⧺ m.table_name ⧺ " exists: ") e) w
  alter_or_create m (unparsed e) w =
      fails (wrapped ("failed to check if table " ⧺ m.table_name ⧺ " exists: ") e) w

  unfoldable pub auto_migrate : List Model → W → Outcome W
  unfolding alter_or_create sync_indexes and_then
  auto_migrate [] w = done w
  auto_migrate (m ∷ ms) w =
      and_then
        (and_then (alter_or_create m (catalog.count (d.has_table_sql m.table_name) w) w)
          (sync_indexes m))
        (λ w'. auto_migrate ms w')
