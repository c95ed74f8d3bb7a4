-- ===== src/Core/SchemaTests.antt =====
-- The synchronisation of a table on a concrete database, and the theorems about it at inputs.
use jorm.Base.{
  Char, code, ◌==◌, traverse, ◌≡◌, refl, ap, sym, ◌∙◌, Bool, true, false, String, Option, none,
  some, List, [], ◌∷◌, ◌++◌, All, arith, str_eq, map, is_space,
}
use jorm.Dialect.{Statement}
use jorm.Dialect.Mysql
use jorm.Model.{Field, Model, Kind, basic}
use jorm.Model.Tag.{split_by}
use jorm.Dialect.Rows.{parse_names}
use jorm.Core.Schema.{unparsed, Answer, yields, Catalog, done, alter_table_if_needed, sync_indexes}
use jorm.Dialect.Postgres
use jorm.Dialect.RowLaws.{listed_under}
use jorm.Core.IndexRows.{parsed, IsListed, definitions_under, sync_indexes-listed}
use jorm.Core.Health.{Error}
use jorm.Core.SchemaLaws.{AddsColumn, IsIn, columns_of, alter_table_if_needed-idempotent}

is_quote : Char → Bool
is_quote c = code c == 96

-- The second name in back quotes of a text that was cut at them.
second_name : List String → List String
second_name (_ ∷ _ ∷ _ ∷ name ∷ _) = name ∷ []
second_name _ = []

-- The column that a statement for MySQL adds.
added_by : String → List String
unfolding second_name split_by is_quote
added_by sql = second_name (split_by is_quote sql)

abbrev answered : Option (List String) → Answer (List String)
answered none = unparsed (record { message = "scan"; wraps_connection_failed = false })
answered (some names) = yields names

-- A database of one table, whose world is its columns, which MySQL's `ParseColumns` reads.
abbrev catalog : Catalog (List String)
catalog = record {
  count = λ statement w. yields 1;
  columns = λ statement w. answered (Mysql.parse_columns (map some w));
  indexes = λ statement w. yields [];
  exec = λ statement w. (none, w ++ added_by statement.0);
}

abbrev column : String → Bool → Field
column name unique = record {
  name = name;
  column = name;
  go_type = basic Kind.string;
  index = 0;
  nested_idx = [];
  is_pk = false;
  is_auto = false;
  auto_time = false;
  auto_update = false;
  is_unique = unique;
  size = 0;
  not_null = false;
  default = "";
  sql_type = "";
  tag = "";
}

abbrev users : Model
users = record {
  table_name = "users";
  fields = column "id" false ∷ column "email" true ∷ [];
  pk_field = none;
}

abbrev statement_in : Option Statement → Statement
statement_in none = ("", [])
statement_in (some statement) = statement

abbrev names_in : Answer (List String) → List String
names_in (yields names) = names
names_in _ = []

parse_columns-map : (w : List String) → Mysql.parse_columns (map some w) ≡ some w
unfolding Mysql.parse_columns parse_names traverse
parse_columns-map [] = refl
parse_columns-map (name ∷ w) = ground (arith, parse_columns-map w)

read_back :
    (w names : List String) → answered (Mysql.parse_columns (map some w)) ≡ yields names → w ≡ names
read_back w names h = sym (ap (λ o. names_in (answered o)) (parse_columns-map w)) ∙ ap names_in h

-- What the statement of MySQL for a field adds is the column of the field.
MysqlAdds : Field → Type 0
MysqlAdds field =
    (added_by (statement_in (Mysql.add_column_sql "users" field)).0 ≡ field.column ∷ [])
    × (str_eq (statement_in (Mysql.add_column_sql "users" field)).0 "" ≡ false)

MysqlAdds-AddsColumn :
    (field : Field) → MysqlAdds field → AddsColumn catalog Mysql.dialect users field
unfolding MysqlAdds
MysqlAdds-AddsColumn field (adds, text) = record {
  added = λ w statement names e c ok.
      ap answered (parse_columns-map (w ++ added_by statement.0))
      ∙ ap (λ s. yields (w ++ added_by s.0)) (sym (ap statement_in e))
      ∙ ap (λ ns. yields (w ++ ns)) adds
      ∙ ap (λ ns. yields (ns ++ field.column ∷ [])) (read_back w names c);
  not_empty = λ statement e. ap (λ s. str_eq s.0 "") (sym (ap statement_in e)) ∙ text;
}

users-AddsColumn : All (AddsColumn catalog Mysql.dialect users) users.fields
unfolding MysqlAdds added_by Mysql.add_column_sql
users-AddsColumn = (
  MysqlAdds-AddsColumn (column "id" false) (refl, refl),
  (MysqlAdds-AddsColumn (column "email" true) (refl, refl), tt),
)

alter_table_if_needed-idempotent_example :
    ((names : List String) × (columns_of catalog Mysql.dialect users ("id" ∷ "email" ∷ [])
        ≡ yields names)
      × All (IsIn catalog Mysql.dialect names) users.fields)
    × (alter_table_if_needed catalog Mysql.dialect users ("id" ∷ "email" ∷ [])
        ≡ done ("id" ∷ "email" ∷ []))
unfolding alter_table_if_needed Mysql.add_column_sql Mysql.parse_columns added_by
alter_table_if_needed-idempotent_example =
    alter_table_if_needed-idempotent catalog Mysql.dialect users ("id" ∷ []) ("id" ∷ "email" ∷ [])
      users-AddsColumn refl

-- Two indexes of Postgres, one of which has another name than the library gives.
abbrev rows : List (String × String)
rows =
    ("users_pkey", "CREATE UNIQUE INDEX users_pkey ON public.users USING btree (id)")
    ∷ ("by_email", "CREATE UNIQUE INDEX by_email ON public.users USING btree (email)")
    ∷ []

abbrev scan_error : Error
scan_error = record { message = "scan"; wraps_connection_failed = false }

abbrev lists_rows : Catalog (List String)
lists_rows = record catalog {
  indexes = λ statement w. parsed scan_error (Postgres.parse_indexes (map some rows));
}

sync_indexes-listed_example : sync_indexes lists_rows Postgres.dialect users [] ≡ done []
unfolding IsListed definitions_under listed_under is_space
sync_indexes-listed_example = sync_indexes-listed lists_rows users scan_error rows [] refl (
  (λ h. ground (arith, h)),
  (
    (λ h. (
      "by_email",
      "CREATE UNIQUE INDEX by_email ON public.users USING btree ",
      refl,
      refl,
      (refl, refl),
    )),
    tt,
  ),
)
