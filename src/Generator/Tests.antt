-- ===== src/Generator/Tests.antt =====
-- Runs of the generator, and the theorems at inputs that meet their hypotheses.
use jorm.Base.{
  ℕ, ◌≡◌, refl, ap, Bool, true, false, String, Option, none, some, List, [], ◌∷◌, ◌⧺◌, str_eq, join,
  read_decimal, read_decimal-decimal, to_lower, to_upper, is_space, ascii,
}
use jorm.Model.Naming.{camel_to_snake}
use jorm.Model.Tag.{parse_tag}
use jorm.Model.TagTexts.{closed}
use jorm.Generator.{Field, snake_to_camel, map_type, generate_tag}
use jorm.Generator.TagParts.{IsPrintable}
use jorm.Generator.TagSets.{tag_of}
use jorm.Generator.TagLaws.{parse_tag-generate_tag}
use jorm.Generator.NameWords.{are_words}
use jorm.Generator.NameLaws.{camel_to_snake-snake_to_camel}
use jorm.Generator.Rows.{Catalog, SqliteRow, Answer, fetch_table_info}
use jorm.Generator.Files.{Flags, Os, Disk, tables_of, main, model_data, render}
use jorm.Generator.FileLaws.{main-keeps, main-writes}

abbrev reads_number : String → Option ℕ
reads_number s = some (read_decimal s)

abbrev price : Field
price = record {
  name = "Price";
  column = "price";
  go_type = "float64";
  db_type = "DECIMAL(10,2)";
  comment = "";
  is_pk = false;
  is_auto = false;
  is_not_null = true;
  is_unique = false;
  default = "0.0";
  size = 10;
  foreign_key = "";
}

price-IsPrintable : IsPrintable price
unfolding closed is_space to_upper to_lower
price-IsPrintable = record {
  plain_column = refl;
  plain_default = refl;
  plain_key = refl;
  plain_type = refl;
}

parse_tag-generate_tag_example : parse_tag reads_number (generate_tag price) ≡ tag_of price
parse_tag-generate_tag_example =
    parse_tag-generate_tag reads_number (λ n. ap some (read_decimal-decimal n)) price
      price-IsPrintable

price-test : generate_tag price ≡ "column:price;notnull;default:0.0;type:decimal(10,2)"
unfolding generate_tag
price-test = refl

-- A default with a space is cut.
default-test :
    parse_tag reads_number (generate_tag (record price { default = "now() at" }))
    ≡ record (tag_of price) { default = "now()" }
unfolding generate_tag parse_tag tag_of
default-test = refl

user_id-test : snake_to_camel "user_id" true ≡ "UserID"
unfolding snake_to_camel ascii
user_id-test = refl

camel_to_snake-snake_to_camel_example :
    camel_to_snake (snake_to_camel (join "_" ("user" ∷ "id" ∷ [])) true)
    ≡ join "_" ("user" ∷ "id" ∷ [])
camel_to_snake-snake_to_camel_example =
    camel_to_snake-snake_to_camel "user" ("id" ∷ []) (unfold are_words in refl)

-- A word of one letter is not found again.
letters-test : camel_to_snake (snake_to_camel "x_y" true) ≡ "xy"
unfolding snake_to_camel camel_to_snake ascii
letters-test = refl

types-test : map_type "varchar(255) " ≡ "string"
unfolding map_type
types-test = refl

abbrev column_row : String → ℕ → SqliteRow
column_row name pk = record {
  name = name;
  data_type = "INTEGER";
  notnull = 1;
  dflt_value = none;
  pk = pk;
}

abbrev catalog : Catalog
catalog = record {
  names = some (some "users" ∷ some "posts" ∷ []);
  key_rows = λ table. some [];
  sqlite_rows = λ table.
      if_users (str_eq table "users")
        (some (some (column_row "a" 1) ∷ some (column_row "b" 2) ∷ []));
  mysql_rows = λ table. none;
  postgres_rows = λ table. none;
}
  where
    if_users : Bool → Answer SqliteRow → Answer SqliteRow
    if_users true rows = rows
    if_users false rows = none

abbrev flags : Flags
flags = record {
  driver_name = "sqlite3";
  dsn = "app.db";
  table_name = "";
  pkg_name = "models";
  out_dir = "out";
  overwrite = false;
}

abbrev os : Os
os = record {
  path = λ folder name. folder ⧺ ("/" ⧺ name);
  mkdir_all = λ folder. true;
  creates = λ path. true;
  writes = λ path text. (text, true);
}

abbrev one_file : Disk
one_file p = elim (str_eq p "out/posts.go") [ true ↦ some "kept" | false ↦ none ]

main-keeps_example :
    (main reads_number os flags (some catalog) one_file).0 "out/posts.go" ≡ some "kept"
main-keeps_example =
    main-keeps reads_number os flags (some catalog) one_file "out/posts.go" "kept" refl refl

abbrev user_fields : List (Field × String)
user_fields = elim (fetch_table_info reads_number catalog "sqlite3" "users") [
  | none ↦ []
  | some fields ↦ fields
]

main-writes_example :
    (main reads_number os flags (some catalog) one_file).0 "out/users.go"
    ≡ some (render (model_data reads_number os flags "users" user_fields))
unfolding fetch_table_info tables_of to_lower
main-writes_example =
    main-writes reads_number os flags catalog [] ("posts" ∷ []) "users" user_fields one_file refl
      refl refl refl refl refl tt (refl, tt)
