-- ===== src/Dialect/Tests.antt =====
-- The dialects on concrete fields and rows.
use jorm.Base.{◌≡◌, refl, true, false, some, none, contains, [], ◌∷◌}
use jorm.Model.{Field, Kind, basic}
use jorm.Dialect.Mysql
use jorm.Dialect.Oracle
use jorm.Dialect.Postgres
use jorm.Dialect.Sqlite3

-- A field `ID int` with the tag `jorm:"pk;auto"`.
abbrev id_field : Field
id_field = record {
  name = "ID";
  column = "id";
  go_type = basic Kind.int;
  index = 0;
  nested_idx = [];
  is_pk = true;
  is_auto = true;
  auto_time = false;
  auto_update = false;
  is_unique = false;
  size = 0;
  not_null = false;
  default = "";
  sql_type = "";
  tag = "pk;auto";
}

-- The text of a SERIAL column has no PRIMARY KEY.
column_sql-test :
    (Postgres.column_sql id_field ≡ some "\"id\" SERIAL")
    × (Postgres.column_sql (record id_field { is_pk = false }) ≡ some "\"id\" SERIAL")
unfolding Postgres.column_sql Postgres.quote Postgres.data_type_of contains
column_sql-test = (refl, refl)

-- An index for a part of the rows: the column reads as what stands between the outer parentheses.
columns_in-test :
    (Postgres.columns_in "CREATE UNIQUE INDEX u ON users USING btree (email, name)"
      ≡ "email" ∷ "name" ∷ [])
    × (Postgres.columns_in "CREATE UNIQUE INDEX u ON users USING btree (email) WHERE (age > 0)"
        ≡ "email) WHERE (age > 0" ∷ [])
unfolding Postgres.columns_in
columns_in-test = (refl, refl)

-- Columns of one index in several rows, and names that a driver gives as bytes.
parse_indexes-test :
    (Mysql.parse_indexes (
        some (Mysql.text "u", Mysql.text "a")
        ∷ some (Mysql.text "v", Mysql.text "c")
        ∷ some (Mysql.text "u", Mysql.text "b")
        ∷ [])
      ≡ some (("u", "a" ∷ "b" ∷ []) ∷ ("v", "c" ∷ []) ∷ []))
    × (Mysql.parse_indexes (some (Mysql.bytes (117 ∷ []), Mysql.bytes (97 ∷ [])) ∷ [])
        ≡ some (("[117]", "[97]" ∷ []) ∷ []))
    × (Sqlite3.parse_indexes (some "u" ∷ []) ≡ some (("u", []) ∷ []))
    × (Oracle.parse_indexes (some ("U", "EMAIL") ∷ none ∷ []) ≡ none)
unfolding Mysql.parse_indexes Sqlite3.parse_indexes Oracle.parse_indexes
parse_indexes-test = (refl, refl, refl, refl)
