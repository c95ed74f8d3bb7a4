-- ===== src/Dialect/Sqlserver.antt =====
-- dialect/sqlserver.go
use jorm.Base.{
  ℕ, String, Bool, Option, none, some, List, [], ◌∷◌, ◌>>=◌, str, ◌⧺◌, join, decimal, str_eq,
  traverse, if◌then◌else◌,
}
use jorm.Model.{Kind, GoType, basic, ptr_to, struct_of, Field, Model}
use jorm.Dialect.{Dialect, Statement}
use jorm.Dialect.Placeholders.{
  when, numbered, parenthesised, numbered_rows, insert_text, batch_insert_text, create_index_text,
}
use jorm.Dialect.Rows.{Indexes, index_by_row, parse_names}

-- The `switch` on the kind; what falls out of it panics.
kind_type : GoType → Option String
kind_type (basic Kind.bool) = some "bit"
kind_type (basic Kind.int) = some "int"
kind_type (basic Kind.int8) = some "int"
kind_type (basic Kind.int16) = some "int"
kind_type (basic Kind.int32) = some "int"
kind_type (basic Kind.uint) = some "int"
kind_type (basic Kind.uint8) = some "int"
kind_type (basic Kind.uint16) = some "int"
kind_type (basic Kind.uint32) = some "int"
kind_type (basic Kind.uintptr) = some "int"
kind_type (basic Kind.int64) = some "bigint"
kind_type (basic Kind.uint64) = some "bigint"
kind_type (basic Kind.float32) = some "real"
kind_type (basic Kind.float64) = some "float"
kind_type (basic Kind.string) = some "nvarchar(255)"
kind_type (struct_of name) = if str_eq name "Time" then some "datetime2" else none
kind_type _ = none

-- All pointers are taken off.
unfoldable pub data_type_of : GoType → Option String
unfolding kind_type
data_type_of (ptr_to t) = data_type_of t
data_type_of t = kind_type t

unfoldable pub quote : String → String
quote name = "[" ⧺ name ⧺ "]"

unfoldable pub placeholder : ℕ → String
unfolding decimal
placeholder index = "@p" ⧺ decimal index

unfoldable pub insert_sql : String → List String → Statement
unfolding quote insert_text numbered placeholder join
insert_sql table columns = (insert_text (quote table) columns (numbered placeholder 1 columns), [])

unfoldable pub batch_insert_sql : String → List String → ℕ → Statement
unfolding quote batch_insert_text numbered_rows placeholder join
batch_insert_sql table columns count = (
  batch_insert_text (quote table) columns (numbered_rows parenthesised placeholder 1 columns count),
  [],
)

unfoldable pub create_index_sql : String → String → List String → Bool → Statement
unfolding quote create_index_text join
create_index_sql table index columns unique =
    (create_index_text (quote index) (quote table) columns unique, [])

column_sql : Field → Option String
unfolding quote data_type_of
column_sql field = do
  t ← data_type_of field.go_type
  some (
      quote field.column
      ⧺ " "
      ⧺ t
      ⧺ when field.is_pk " PRIMARY KEY"
      ⧺ when field.is_auto " IDENTITY(1,1)")

unfoldable pub create_table_sql : Model → Option Statement
unfolding quote column_sql traverse join
create_table_sql m = do
  columns ← traverse column_sql m.fields
  some ("CREATE TABLE " ⧺ quote m.table_name ⧺ " (" ⧺ join ", " columns ⧺ ")", [])

unfoldable pub add_column_sql : String → Field → Option Statement
unfolding quote data_type_of
add_column_sql table field = do
  t ← data_type_of field.go_type
  some ("ALTER TABLE " ⧺ quote table ⧺ " ADD " ⧺ quote field.column ⧺ " " ⧺ t, [])

unfoldable pub modify_column_sql : String → Field → Option Statement
unfolding quote data_type_of
modify_column_sql table field = do
  t ← data_type_of field.go_type
  some ("ALTER TABLE " ⧺ quote table ⧺ " ALTER COLUMN " ⧺ quote field.column ⧺ " " ⧺ t, [])

unfoldable pub has_table_sql : String → Statement
has_table_sql table =
    ("SELECT count(*) FROM INFORMATION_SCHEMA.TABLES WHERE TABLE_NAME = @p1", str table ∷ [])

unfoldable pub get_columns_sql : String → Statement
get_columns_sql table =
    ("SELECT column_name FROM INFORMATION_SCHEMA.COLUMNS WHERE TABLE_NAME = @p1", str table ∷ [])

unfoldable pub get_indexes_sql : String → Statement
get_indexes_sql table = (
  "\n\t\tSELECT \n\t\t\ti.name AS index_name,\n\t\t\tc.name AS column_name\n\t\tFROM sys.indexes i\n\t\tINNER JOIN sys.index_columns ic ON i.object_id = ic.object_id AND i.index_id = ic.index_id\n\t\tINNER JOIN sys.columns c ON ic.object_id = c.object_id AND ic.column_id = c.column_id\n\t\tWHERE i.object_id = OBJECT_ID(@p1)",
  str table ∷ [],
)

unfoldable pub parse_columns : List (Option String) → Option (List String)
unfolding parse_names
parse_columns rows = parse_names (λ name. name) rows

unfoldable pub parse_indexes : List (Option (String × String)) → Option Indexes
unfolding index_by_row
parse_indexes rows = index_by_row (λ r. r.0) (λ r. r.1 ∷ []) [] rows

abbrev pub dialect : Dialect
dialect = record {
  data_type_of = data_type_of;
  quote = quote;
  insert_sql = insert_sql;
  create_table_sql = create_table_sql;
  has_table_sql = has_table_sql;
  batch_insert_sql = batch_insert_sql;
  placeholder = placeholder;
  get_columns_sql = get_columns_sql;
  add_column_sql = add_column_sql;
  modify_column_sql = modify_column_sql;
  get_indexes_sql = get_indexes_sql;
  create_index_sql = create_index_sql;
}
