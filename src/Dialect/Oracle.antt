-- ===== src/Dialect/Oracle.antt =====
-- dialect/oracle.go
use jorm.Base.{
  ℕ, String, Bool, Option, none, some, List, [], ◌∷◌, ◌>>=◌, str, ◌⧺◌, join, decimal, str_eq,
  traverse, to_upper, if◌then◌else◌, to_lower,
}
use jorm.Model.{Kind, GoType, basic, ptr_to, struct_of, Field, Model}
use jorm.Dialect.{Dialect, Statement}
use jorm.Dialect.Placeholders.{when, numbered, numbered_rows, insert_text, create_index_text}
use jorm.Dialect.Rows.{Indexes, index_by_row, parse_names}

-- The `switch` on the kind; what falls out of it panics.
kind_type : GoType → Option String
kind_type (basic Kind.bool) = some "number(1)"
kind_type (basic Kind.int) = some "number(10)"
kind_type (basic Kind.int8) = some "number(10)"
kind_type (basic Kind.int16) = some "number(10)"
kind_type (basic Kind.int32) = some "number(10)"
kind_type (basic Kind.uint) = some "number(10)"
kind_type (basic Kind.uint8) = some "number(10)"
kind_type (basic Kind.uint16) = some "number(10)"
kind_type (basic Kind.uint32) = some "number(10)"
kind_type (basic Kind.uintptr) = some "number(10)"
kind_type (basic Kind.int64) = some "number(19)"
kind_type (basic Kind.uint64) = some "number(19)"
kind_type (basic Kind.float32) = some "binary_float"
kind_type (basic Kind.float64) = some "binary_double"
kind_type (basic Kind.string) = some "varchar2(255)"
kind_type (struct_of name) = if str_eq name "Time" then some "timestamp" else none
kind_type _ = none

-- All pointers are taken off.
unfoldable pub data_type_of : GoType → Option String
unfolding kind_type
data_type_of (ptr_to t) = data_type_of t
data_type_of t = kind_type t

unfoldable pub quote : String → String
unfolding to_upper
quote name = "\"" ⧺ to_upper name ⧺ "\""

unfoldable pub placeholder : ℕ → String
unfolding decimal
placeholder index = ":" ⧺ decimal index

unfoldable pub insert_sql : String → List String → Statement
unfolding quote insert_text numbered placeholder join
insert_sql table columns = (insert_text (quote table) columns (numbered placeholder 1 columns), [])

-- One `INTO` clause of `INSERT ALL`.
into_clause : String → List String → List String → String
unfolding quote
into_clause table columns placeholders =
    "INTO " ⧺ quote table ⧺ " (" ⧺ join ", " columns ⧺ ") VALUES (" ⧺ join ", " placeholders ⧺ ")"

unfoldable pub batch_insert_sql : String → List String → ℕ → Statement
unfolding into_clause numbered_rows placeholder join
batch_insert_sql table columns count = (
  "INSERT ALL "
      ⧺ join " " (numbered_rows (into_clause table columns) placeholder 1 columns count)
      ⧺ " SELECT * FROM DUAL",
  [],
)

unfoldable pub create_index_sql : String → String → List String → Bool → Statement
unfolding quote create_index_text join
create_index_sql table index columns unique =
    (create_index_text (quote index) (quote table) columns unique, [])

column_sql : Field → Option String
unfolding quote data_type_of
column_sql field = do
  t ← data_type_of field.go_type
  some (
      quote field.column
      ⧺ " "
      ⧺ t
      ⧺ when field.is_pk " PRIMARY KEY"
      ⧺ when field.is_auto " GENERATED BY DEFAULT AS IDENTITY")

unfoldable pub create_table_sql : Model → Option Statement
unfolding quote column_sql traverse join
create_table_sql m = do
  columns ← traverse column_sql m.fields
  some ("CREATE TABLE " ⧺ quote m.table_name ⧺ " (" ⧺ join ", " columns ⧺ ")", [])

unfoldable pub add_column_sql : String → Field → Option Statement
unfolding quote data_type_of
add_column_sql table field = do
  t ← data_type_of field.go_type
  some ("ALTER TABLE " ⧺ quote table ⧺ " ADD (" ⧺ quote field.column ⧺ " " ⧺ t ⧺ ")", [])

unfoldable pub modify_column_sql : String → Field → Option Statement
unfolding quote data_type_of
modify_column_sql table field = do
  t ← data_type_of field.go_type
  some ("ALTER TABLE " ⧺ quote table ⧺ " MODIFY (" ⧺ quote field.column ⧺ " " ⧺ t ⧺ ")", [])

unfoldable pub has_table_sql : String → Statement
has_table_sql table =
    ("SELECT count(*) FROM user_tables WHERE table_name = UPPER(:1)", str table ∷ [])

unfoldable pub get_columns_sql : String → Statement
get_columns_sql table =
    ("SELECT column_name FROM user_tab_columns WHERE table_name = UPPER(:1)", str table ∷ [])

unfoldable pub get_indexes_sql : String → Statement
get_indexes_sql table = (
  "\n\t\tSELECT \n\t\t\tindex_name,\n\t\t\tcolumn_name\n\t\tFROM user_ind_columns\n\t\tWHERE table_name = UPPER(:1)",
  str table ∷ [],
)

unfoldable pub parse_columns : List (Option String) → Option (List String)
unfolding parse_names to_lower
parse_columns rows = parse_names to_lower rows

unfoldable pub parse_indexes : List (Option (String × String)) → Option Indexes
unfolding index_by_row to_lower
parse_indexes rows = index_by_row (λ r. r.0) (λ r. to_lower r.1 ∷ []) [] rows

abbrev pub dialect : Dialect
dialect = record {
  data_type_of = data_type_of;
  quote = quote;
  insert_sql = insert_sql;
  create_table_sql = create_table_sql;
  has_table_sql = has_table_sql;
  batch_insert_sql = batch_insert_sql;
  placeholder = placeholder;
  get_columns_sql = get_columns_sql;
  add_column_sql = add_column_sql;
  modify_column_sql = modify_column_sql;
  get_indexes_sql = get_indexes_sql;
  create_index_sql = create_index_sql;
}
