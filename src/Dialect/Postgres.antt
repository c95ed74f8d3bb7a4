-- ===== src/Dialect/Postgres.antt =====
-- dialect/postgres.go
use jorm.Base.{
  ℕ, String, Bool, Option, none, some, List, [], ◌∷◌, ◌>>=◌, str, ◌⧺◌, join, decimal, str_eq,
  traverse, contains, if◌then◌else◌, ◌==◌, trim_space, map, Char, code,
}
use jorm.Model.{Kind, GoType, basic, ptr_to, slice_of, struct_of, Field, Model}
use jorm.Dialect.{Dialect, Statement}
use jorm.Dialect.Placeholders.{
  when, numbered, parenthesised, numbered_rows, insert_text, batch_insert_text, create_index_text,
}
use jorm.Model.Tag.{split_by}
use jorm.Dialect.Rows.{Indexes, index_by_row, parse_names}

-- The `switch` on the kind; what falls out of it panics.
kind_type : GoType → Option String
kind_type (basic Kind.bool) = some "boolean"
kind_type (basic Kind.int) = some "integer"
kind_type (basic Kind.int8) = some "integer"
kind_type (basic Kind.int16) = some "integer"
kind_type (basic Kind.int32) = some "integer"
kind_type (basic Kind.uint) = some "integer"
kind_type (basic Kind.uint8) = some "integer"
kind_type (basic Kind.uint16) = some "integer"
kind_type (basic Kind.uint32) = some "integer"
kind_type (basic Kind.uintptr) = some "integer"
kind_type (basic Kind.int64) = some "bigint"
kind_type (basic Kind.uint64) = some "bigint"
kind_type (basic Kind.float32) = some "real"
kind_type (basic Kind.float64) = some "double precision"
kind_type (basic Kind.string) = some "varchar(255)"
kind_type (slice_of (basic Kind.uint8)) = some "bytea"
kind_type (struct_of name) = if str_eq name "Time" then some "timestamp with time zone" else none
kind_type _ = none

-- All pointers are taken off.
unfoldable pub data_type_of : GoType → Option String
unfolding kind_type
data_type_of (ptr_to t) = data_type_of t
data_type_of t = kind_type t

unfoldable pub quote : String → String
quote name = "\"" ⧺ name ⧺ "\""

unfoldable pub placeholder : ℕ → String
unfolding decimal
placeholder index = "$" ⧺ decimal index

unfoldable pub insert_sql : String → List String → Statement
unfolding quote insert_text numbered placeholder join
insert_sql table columns = (insert_text (quote table) columns (numbered placeholder 1 columns), [])

unfoldable pub batch_insert_sql : String → List String → ℕ → Statement
unfolding quote batch_insert_text numbered_rows placeholder join
batch_insert_sql table columns count = (
  batch_insert_text (quote table) columns (numbered_rows parenthesised placeholder 1 columns count),
  [],
)

unfoldable pub create_index_sql : String → String → List String → Bool → Statement
unfolding quote create_index_text join
create_index_sql table index columns unique =
    (create_index_text (quote index) (quote table) columns unique, [])

unfoldable pub column_sql : Field → Option String
unfolding quote data_type_of contains
column_sql field = do
  t ← if str_eq field.sql_type "" then data_type_of field.go_type else some field.sql_type
  let column = quote field.column ⧺ " " ⧺ t ⧺ when field.is_pk " PRIMARY KEY"
  some (
      if field.is_auto
      then if contains t "integer"
        then quote field.column ⧺ " SERIAL"
        else column ⧺ " GENERATED ALWAYS AS IDENTITY"
      else column)

unfoldable pub create_table_sql : Model → Option Statement
unfolding quote column_sql traverse join
create_table_sql m = do
  columns ← traverse column_sql m.fields
  some ("CREATE TABLE " ⧺ quote m.table_name ⧺ " (" ⧺ join ", " columns ⧺ ")", [])

unfoldable pub add_column_sql : String → Field → Option Statement
unfolding quote data_type_of
add_column_sql table field = do
  t ← data_type_of field.go_type
  some ("ALTER TABLE " ⧺ quote table ⧺ " ADD COLUMN " ⧺ quote field.column ⧺ " " ⧺ t, [])

unfoldable pub modify_column_sql : String → Field → Option Statement
unfolding quote data_type_of
modify_column_sql table field = do
  t ← data_type_of field.go_type
  some ("ALTER TABLE " ⧺ quote table ⧺ " ALTER COLUMN " ⧺ quote field.column ⧺ " TYPE " ⧺ t, [])

unfoldable pub has_table_sql : String → Statement
has_table_sql table = (
  "SELECT count(*) FROM information_schema.tables WHERE table_schema = 'public' AND table_name = $1",
  str table ∷ [],
)

unfoldable pub get_columns_sql : String → Statement
get_columns_sql table = (
  "SELECT column_name FROM information_schema.columns WHERE table_schema = 'public' AND table_name = $1",
  str table ∷ [],
)

unfoldable pub get_indexes_sql : String → Statement
get_indexes_sql table = (
  "SELECT indexname, indexdef FROM pg_indexes WHERE schemaname = 'public' AND tablename = $1",
  str table ∷ [],
)

unfoldable pub parse_columns : List (Option String) → Option (List String)
unfolding parse_names
parse_columns rows = parse_names (λ name. name) rows

-- `def[start+1:]` for the first opening parenthesis.
unfoldable pub after_open : String → Option String
after_open String.[] = none
after_open (String.◌∷◌ c s) = let rest = after_open s in if code c == 40 then some s else rest

-- What stands before the last closing parenthesis.
unfoldable pub before_close : String → Option String
before_close String.[] = none
before_close (String.◌∷◌ c s) = elim (before_close s) [
  | some t ↦ some (String.◌∷◌ c t)
  | none ↦ if code c == 41 then some "" else none
]

abbrev pub is_comma : Char → Bool
is_comma c = code c == 44

-- The columns in the text of an index. There is an end behind the start if and only if what follows
-- the start has a closing parenthesis.
unfoldable pub columns_in : String → List String
unfolding after_open before_close split_by trim_space
columns_in def = elim (after_open def >>= before_close) [
  | none ↦ []
  | some cols_part ↦ map trim_space (split_by is_comma cols_part)
]

unfoldable pub parse_indexes : List (Option (String × String)) → Option Indexes
unfolding index_by_row columns_in
parse_indexes rows = index_by_row (λ r. r.0) (λ r. columns_in r.1) [] rows

abbrev pub dialect : Dialect
dialect = record {
  data_type_of = data_type_of;
  quote = quote;
  insert_sql = insert_sql;
  create_table_sql = create_table_sql;
  has_table_sql = has_table_sql;
  batch_insert_sql = batch_insert_sql;
  placeholder = placeholder;
  get_columns_sql = get_columns_sql;
  add_column_sql = add_column_sql;
  modify_column_sql = modify_column_sql;
  get_indexes_sql = get_indexes_sql;
  create_index_sql = create_index_sql;
}
