-- ===== src/Dialect/Sqlite3.antt =====
-- dialect/sqlite3.go
use jorm.Base.{
  ℕ, String, Bool, Option, none, some, List, [], ◌∷◌, ◌>>=◌, str, ◌⧺◌, join, str_eq, traverse,
  if◌then◌else◌,
}
use jorm.Model.{Kind, GoType, basic, ptr_to, slice_of, struct_of, Field, Model}
use jorm.Dialect.{Dialect, Statement}
use jorm.Dialect.Placeholders.{
  when, repeated, repeated_rows, insert_text, batch_insert_text, create_index_text,
}
use jorm.Dialect.Rows.{Indexes, put_empty, parse_names}

-- The `switch` on the kind; what falls out of it panics.
kind_type : GoType → Option String
kind_type (basic Kind.bool) = some "boolean"
kind_type (basic Kind.int) = some "integer"
kind_type (basic Kind.int8) = some "integer"
kind_type (basic Kind.int16) = some "integer"
kind_type (basic Kind.int32) = some "integer"
kind_type (basic Kind.uint) = some "integer"
kind_type (basic Kind.uint8) = some "integer"
kind_type (basic Kind.uint16) = some "integer"
kind_type (basic Kind.uint32) = some "integer"
kind_type (basic Kind.uintptr) = some "integer"
kind_type (basic Kind.int64) = some "integer"
kind_type (basic Kind.uint64) = some "integer"
kind_type (basic Kind.float32) = some "real"
kind_type (basic Kind.float64) = some "real"
kind_type (basic Kind.string) = some "text"
kind_type (slice_of (basic Kind.uint8)) = some "blob"
kind_type (struct_of name) = if str_eq name "Time" then some "datetime" else none
kind_type _ = none

-- All pointers are taken off.
unfoldable pub data_type_of : GoType → Option String
unfolding kind_type
data_type_of (ptr_to t) = data_type_of t
data_type_of t = kind_type t

unfoldable pub quote : String → String
quote name = "`" ⧺ name ⧺ "`"

unfoldable pub placeholder : ℕ → String
placeholder index = "?"

unfoldable pub insert_sql : String → List String → Statement
unfolding quote insert_text repeated join
insert_sql table columns = (insert_text (quote table) columns (repeated "?" columns), [])

unfoldable pub batch_insert_sql : String → List String → ℕ → Statement
unfolding quote batch_insert_text repeated_rows join
batch_insert_sql table columns count =
    (batch_insert_text (quote table) columns (repeated_rows "?" columns count), [])

unfoldable pub create_index_sql : String → String → List String → Bool → Statement
unfolding quote create_index_text join
create_index_sql table index columns unique =
    (create_index_text (quote index) (quote table) columns unique, [])

column_sql : Field → Option String
unfolding quote data_type_of
column_sql field = do
  t ← if str_eq field.sql_type "" then data_type_of field.go_type else some field.sql_type
  some (
      quote field.column
      ⧺ " "
      ⧺ t
      ⧺ when field.is_pk " PRIMARY KEY"
      ⧺ when field.is_auto " AUTOINCREMENT")

unfoldable pub create_table_sql : Model → Option Statement
unfolding quote column_sql traverse join
create_table_sql m = do
  columns ← traverse column_sql m.fields
  some ("CREATE TABLE " ⧺ quote m.table_name ⧺ " (" ⧺ join ", " columns ⧺ ")", [])

unfoldable pub add_column_sql : String → Field → Option Statement
unfolding quote data_type_of
add_column_sql table field = do
  t ← data_type_of field.go_type
  some ("ALTER TABLE " ⧺ quote table ⧺ " ADD COLUMN " ⧺ quote field.column ⧺ " " ⧺ t, [])

-- SQLite has no such statement.
unfoldable pub modify_column_sql : String → Field → Option Statement
modify_column_sql table field = some ("", [])

unfoldable pub has_table_sql : String → Statement
has_table_sql table =
    ("SELECT count(*) FROM sqlite_master WHERE type='table' AND name = ?", str table ∷ [])

unfoldable pub get_columns_sql : String → Statement
unfolding quote
get_columns_sql table = ("PRAGMA table_info(" ⧺ quote table ⧺ ")", [])

unfoldable pub get_indexes_sql : String → Statement
unfolding quote
get_indexes_sql table = ("PRAGMA index_list(" ⧺ quote table ⧺ ")", [])

-- The names of the rows of `PRAGMA table_info`.
unfoldable pub parse_columns : List (Option String) → Option (List String)
unfolding parse_names
parse_columns rows = parse_names (λ name. name) rows

-- The loop over the names, which are read first; an index gets no columns.
unfoldable pub put_names : List String → Indexes → Indexes
unfolding put_empty
put_names [] indexes = indexes
put_names (name ∷ names) indexes = put_names names (put_empty name indexes)

unfoldable pub parse_indexes : List (Option String) → Option Indexes
unfolding parse_names put_names
parse_indexes rows = do names ← parse_names (λ name. name) rows; some (put_names names [])

abbrev pub dialect : Dialect
dialect = record {
  data_type_of = data_type_of;
  quote = quote;
  insert_sql = insert_sql;
  create_table_sql = create_table_sql;
  has_table_sql = has_table_sql;
  batch_insert_sql = batch_insert_sql;
  placeholder = placeholder;
  get_columns_sql = get_columns_sql;
  add_column_sql = add_column_sql;
  modify_column_sql = modify_column_sql;
  get_indexes_sql = get_indexes_sql;
  create_index_sql = create_index_sql;
}
