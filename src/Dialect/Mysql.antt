-- ===== src/Dialect/Mysql.antt =====
-- dialect/mysql.go
use jorm.Base.{
  ℕ, String, Bool, Option, none, some, List, [], ◌∷◌, ◌>>=◌, str, ltb, ◌&&◌, ◌⧺◌, join, decimal,
  str_eq, not, traverse, if◌then◌else◌, map,
}
use jorm.Model.{Kind, GoType, basic, ptr_to, slice_of, struct_of, Field, Model}
use jorm.Dialect.{Dialect, Statement}
use jorm.Dialect.Placeholders.{
  when, repeated, repeated_rows, insert_text, batch_insert_text, create_index_text,
}
use jorm.Dialect.Rows.{Indexes, index_by_row, parse_names}

-- The `switch` on the kind; what falls out of it panics.
kind_type : GoType → Option String
kind_type (basic Kind.bool) = some "boolean"
kind_type (basic Kind.int) = some "int"
kind_type (basic Kind.int8) = some "int"
kind_type (basic Kind.int16) = some "int"
kind_type (basic Kind.int32) = some "int"
kind_type (basic Kind.uint) = some "int"
kind_type (basic Kind.uint8) = some "int"
kind_type (basic Kind.uint16) = some "int"
kind_type (basic Kind.uint32) = some "int"
kind_type (basic Kind.uintptr) = some "int"
kind_type (basic Kind.int64) = some "bigint"
kind_type (basic Kind.uint64) = some "bigint"
kind_type (basic Kind.float32) = some "double"
kind_type (basic Kind.float64) = some "double"
kind_type (basic Kind.string) = some "varchar(255)"
kind_type (slice_of (basic Kind.uint8)) = some "blob"
kind_type (struct_of name) = if str_eq name "Time" then some "datetime" else none
kind_type _ = none

-- One pointer is taken off.
unfoldable pub data_type_of : GoType → Option String
unfolding kind_type
data_type_of (ptr_to t) = kind_type t
data_type_of t = kind_type t

unfoldable pub quote : String → String
quote name = "`" ⧺ name ⧺ "`"

unfoldable pub placeholder : ℕ → String
placeholder index = "?"

unfoldable pub insert_sql : String → List String → Statement
unfolding quote insert_text repeated join
insert_sql table columns = (insert_text (quote table) columns (repeated "?" columns), [])

unfoldable pub batch_insert_sql : String → List String → ℕ → Statement
unfolding quote batch_insert_text repeated_rows join
batch_insert_sql table columns count =
    (batch_insert_text (quote table) columns (repeated_rows "?" columns count), [])

unfoldable pub create_index_sql : String → String → List String → Bool → Statement
unfolding quote create_index_text join
create_index_sql table index columns unique =
    (create_index_text (quote index) (quote table) columns unique, [])

-- The type in the tag, or the type of the Go field with the size of the tag.
column_type : Field → Option String
unfolding data_type_of decimal
column_type field =
    if str_eq field.sql_type ""
    then (do
      t ← data_type_of field.go_type
      some (
          if ltb 0 field.size && str_eq t "varchar(255)"
          then "varchar(" ⧺ decimal field.size ⧺ ")"
          else t))
    else some field.sql_type

modifiers : Field → String
modifiers field =
    when field.not_null " NOT NULL"
    ⧺ when (not (str_eq field.default "")) (" DEFAULT " ⧺ field.default)

column_sql : Field → Option String
unfolding quote column_type modifiers
column_sql field = do
  t ← column_type field
  some (
      quote field.column
      ⧺ " "
      ⧺ t
      ⧺ modifiers field
      ⧺ when field.is_pk " PRIMARY KEY"
      ⧺ when field.is_auto " AUTO_INCREMENT")

unfoldable pub create_table_sql : Model → Option Statement
unfolding quote column_sql traverse join
create_table_sql m = do
  columns ← traverse column_sql m.fields
  some ("CREATE TABLE " ⧺ quote m.table_name ⧺ " (" ⧺ join ", " columns ⧺ ")", [])

-- `ALTER TABLE`, with the verb of the change.
alter_sql : String → String → Field → Option Statement
unfolding quote column_type modifiers
alter_sql verb table field = do
  t ← column_type field
  some ("ALTER TABLE " ⧺ quote table ⧺ verb ⧺ quote field.column ⧺ " " ⧺ t ⧺ modifiers field, [])

unfoldable pub add_column_sql : String → Field → Option Statement
unfolding alter_sql
add_column_sql = alter_sql " ADD COLUMN "

unfoldable pub modify_column_sql : String → Field → Option Statement
unfolding alter_sql
modify_column_sql = alter_sql " MODIFY COLUMN "

unfoldable pub has_table_sql : String → Statement
has_table_sql table = (
  "SELECT count(*) FROM information_schema.tables WHERE table_schema = DATABASE() AND table_name = ?",
  str table ∷ [],
)

unfoldable pub get_columns_sql : String → Statement
get_columns_sql table = (
  "SELECT column_name FROM information_schema.columns WHERE table_schema = DATABASE() AND table_name = ?",
  str table ∷ [],
)

unfoldable pub get_indexes_sql : String → Statement
unfolding quote
get_indexes_sql table = ("SHOW INDEX FROM " ⧺ quote table, [])

-- What a driver puts into an `any` for a text.
pub data Cell : Type 0 where
  nil : Cell
  text : String → Cell
  bytes : List ℕ → Cell

-- `fmt.Sprintf("%v", cell)`
unfoldable pub format_cell : Cell → String
unfolding join decimal
format_cell nil = "<nil>"
format_cell (text s) = s
format_cell (bytes bs) = "[" ⧺ join " " (map decimal bs) ⧺ "]"

unfoldable pub parse_columns : List (Option String) → Option (List String)
unfolding parse_names
parse_columns rows = parse_names (λ name. name) rows

-- The key name and the column name of a row; `none` is a row that neither `Scan` reads.
unfoldable pub parse_indexes : List (Option (Cell × Cell)) → Option Indexes
unfolding index_by_row format_cell
parse_indexes rows = index_by_row (λ r. format_cell r.0) (λ r. format_cell r.1 ∷ []) [] rows

abbrev pub dialect : Dialect
dialect = record {
  data_type_of = data_type_of;
  quote = quote;
  insert_sql = insert_sql;
  create_table_sql = create_table_sql;
  has_table_sql = has_table_sql;
  batch_insert_sql = batch_insert_sql;
  placeholder = placeholder;
  get_columns_sql = get_columns_sql;
  add_column_sql = add_column_sql;
  modify_column_sql = modify_column_sql;
  get_indexes_sql = get_indexes_sql;
  create_index_sql = create_index_sql;
}
