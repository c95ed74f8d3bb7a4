-- ===== src/Generator/Rows.antt =====
-- `fetchAllTables`, `fetchForeignKeys` and `fetchTableInfo` of cmd/jorm-gen/main.go. The answer of a
-- query of the catalog is none on an error, or a list of rows, of which `none` is one that cannot be
-- scanned; that the rows end by an error is not seen, since `rows.Err` is not read.
use Prim.Native.Char.{code}
use jorm.Base.{
  ℕ, String, Bool, true, false, ◌&&◌, Option, none, some, List, [], ◌∷◌, ◌==◌, str_eq, ◌⧺◌,
  contains, to_upper, to_lower, if◌then◌else◌, traverse, ◌>>=◌,
}
use jorm.Model.Tag.{or_blank}
use jorm.Generator.{Field, snake_to_camel, map_type, generate_tag}

-- What `rows.Scan` reads. `dflt_value` is null or a text.
pub record SqliteRow : Type 0 where
  pub name : String
  pub data_type : String
  pub notnull : ℕ
  pub dflt_value : Option String
  pub pk : ℕ

pub record MysqlRow : Type 0 where
  pub field : String
  pub typ : String
  pub null : String
  pub key : String
  pub default_val : Option String
  pub extra : String
  pub comment : String

pub record PostgresRow : Type 0 where
  pub name : String
  pub data_type : String
  pub is_nullable : String
  pub is_pk : String
  pub comment : Option String
  pub column_default : Option String
  pub max_length : Option ℕ

-- A row of the foreign keys: the column, the table and the column that it refers to.
pub record KeyRow : Type 0 where
  pub from : String
  pub ref_table : String
  pub to : Option String

abbrev pub Answer : Type 0 → Type 0
Answer R = Option (List (Option R))

-- The catalog of the database.
pub record Catalog : Type 0 where
  pub names : Answer String
  pub key_rows : String → Answer KeyRow
  pub sqlite_rows : String → Answer SqliteRow
  pub mysql_rows : String → Answer MysqlRow
  pub postgres_rows : String → Answer PostgresRow

-- The loop over the rows, which ends at the first that cannot be scanned.
unfoldable pub scan_all : {R S : Type 0} → (R → S) → Answer R → Option (List S)
unfolding traverse
scan_all f none = none
scan_all f (some rows) = traverse (λ row. row >>= λ r. some (f r)) rows

unfoldable pub fetch_all_tables : Catalog → String → Option (List String)
unfolding scan_all
fetch_all_tables db driver =
    if str_eq driver "sqlite3"
    then scan_all (λ name. name) db.names
    else if str_eq driver "mysql"
    then scan_all (λ name. name) db.names
    else if str_eq driver "postgres"
    then scan_all (λ name. name) db.names
    else none

abbrev pub or_id : String → String
or_id to = if str_eq to "" then "ID" else to

unfoldable pub key_of : Bool → KeyRow → String × String
unfolding snake_to_camel
key_of sqlite r =
    let to = if sqlite then or_id (or_blank r.to) else or_blank r.to in
    (r.from, snake_to_camel r.ref_table true ⧺ ("." ⧺ snake_to_camel to true))

-- The map of the keys as the list of its writes.
unfoldable pub fetch_foreign_keys : Catalog → String → String → Option (List (String × String))
unfolding scan_all key_of
fetch_foreign_keys db driver table =
    if str_eq driver "mysql"
    then scan_all (key_of false) (db.key_rows table)
    else if str_eq driver "postgres"
    then scan_all (key_of false) (db.key_rows table)
    else if str_eq driver "sqlite3"
    then scan_all (key_of true) (db.key_rows table)
    else some []

-- `m[key]` after the writes, of which the last to a key counts.
unfoldable pub key_for : List (String × String) → String → String
key_for [] column = ""
key_for ((from, target) ∷ writes) column =
    let later = key_for writes column in
    if str_eq later "" then (if str_eq from column then target else "") else later

abbrev pub no_keys : Option (List (String × String)) → List (String × String)
no_keys none = []
no_keys (some keys) = keys

-- The text after the first `(`.
unfoldable pub after_paren : String → String
after_paren String.[] = ""
after_paren (String.◌∷◌ c s) = let rest = after_paren s in if code c == 40 then s else rest

abbrev pub number_or_zero : Option ℕ → ℕ
number_or_zero none = 0
number_or_zero (some n) = n

-- A column with its tag, which `fetchTableInfo` makes of a field and of its jorm tag. `Field.Tag` is
-- the second.
abbrev pub with_tag : Field → Field × String
with_tag f = (f, generate_tag f)

-- `sscanf` reads a number in front of a text.
module _ (sscanf : String → Option ℕ) where
  unfoldable pub size_in : String → ℕ
  unfolding after_paren contains
  size_in text = if contains text "(" then number_or_zero (sscanf (after_paren text)) else 0

  unfoldable pub sqlite_field : List (String × String) → SqliteRow → Field × String
  unfolding snake_to_camel map_type key_for size_in contains to_upper
  sqlite_field keys r = with_tag (record {
    name = snake_to_camel r.name true;
    column = r.name;
    go_type = map_type r.data_type;
    db_type = r.data_type;
    comment = "";
    is_pk = r.pk == 1;
    is_auto = r.pk == 1 && contains (to_upper r.data_type) "INT";
    is_not_null = r.notnull == 1;
    is_unique = false;
    default = or_blank r.dflt_value;
    size = size_in r.data_type;
    foreign_key = key_for keys r.name;
  })

  unfoldable pub mysql_field : List (String × String) → MysqlRow → Field × String
  unfolding snake_to_camel map_type key_for size_in contains to_lower
  mysql_field keys r = with_tag (record {
    name = snake_to_camel r.field true;
    column = r.field;
    go_type = map_type r.typ;
    db_type = r.typ;
    comment = r.comment;
    is_pk = str_eq r.key "PRI";
    is_auto = contains (to_lower r.extra) "auto_increment";
    is_not_null = str_eq r.null "NO";
    is_unique = str_eq r.key "UNI";
    default = or_blank r.default_val;
    size = size_in r.typ;
    foreign_key = key_for keys r.field;
  })

  unfoldable pub postgres_field : List (String × String) → PostgresRow → Field × String
  unfolding snake_to_camel map_type key_for contains to_lower
  postgres_field keys r = with_tag (record {
    name = snake_to_camel r.name true;
    column = r.name;
    go_type = map_type r.data_type;
    db_type = r.data_type;
    comment = or_blank r.comment;
    is_pk = str_eq r.is_pk "YES";
    is_auto = str_eq r.is_pk "YES" && contains (to_lower (or_blank r.column_default)) "nextval";
    is_not_null = str_eq r.is_nullable "NO";
    is_unique = false;
    default = or_blank r.column_default;
    size = number_or_zero r.max_length;
    foreign_key = key_for keys r.name;
  })

  -- A driver that the `switch` does not name has no columns.
  unfoldable pub fetch_table_info : Catalog → String → String → Option (List (Field × String))
  unfolding fetch_foreign_keys scan_all sqlite_field mysql_field postgres_field
  fetch_table_info db driver table =
      let keys = no_keys (fetch_foreign_keys db driver table) in
      if str_eq driver "sqlite3"
      then scan_all (sqlite_field keys) (db.sqlite_rows table)
      else if str_eq driver "mysql"
      then scan_all (mysql_field keys) (db.mysql_rows table)
      else if str_eq driver "postgres"
      then scan_all (postgres_field keys) (db.postgres_rows table)
      else some []
