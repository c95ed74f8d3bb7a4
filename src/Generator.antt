-- ===== src/Generator.antt =====
-- cmd/jorm-gen/main.go: `Field`, and the functions on texts that make a field's name, type and tag.
-- `unicode.ToUpper` is on ASCII letters.
pub mod Rows
pub mod Files
mod TagParts
mod TagSets
mod TagLaws
mod NameWords
mod NameLaws
mod FileLaws
mod Tests
use Prim.Native.Char.{Char, code}
use text.Mathlib.Text.{starts_with}
use jorm.Base.{
  ℕ, String, Bool, true, false, ◌&&◌, ◌||◌, not, Option, none, some, List, [], ◌∷◌, ◌++◌, map, ltb,
  ◌==◌, str_eq, ◌⧺◌, join, contains, decimal, to_upper, to_lower, upper_char, trim_space,
  if◌then◌else◌,
}
use jorm.Model.Tag.{split_by}

pub record Field : Type 0 where
  pub name : String
  pub column : String
  pub go_type : String
  pub db_type : String
  pub comment : String
  pub is_pk : Bool
  pub is_auto : Bool
  pub is_not_null : Bool
  pub is_unique : Bool
  pub default : String
  pub size : ℕ
  pub foreign_key : String

-- The body of the loop over the parts of a name.
unfoldable pub camel_part : String → String
unfolding upper_char
camel_part String.[] = ""
camel_part (String.◌∷◌ c s) =
    if str_eq (String.◌∷◌ c s) "id" then "ID" else String.◌∷◌ (upper_char c) s

unfoldable pub camel_parts : Bool → List String → List String
unfolding camel_part
camel_parts upper_first [] = []
camel_parts true (p ∷ parts) = map camel_part (p ∷ parts)
camel_parts false (p ∷ parts) = p ∷ map camel_part parts

abbrev pub is_underscore : Char → Bool
is_underscore c = code c == 95

unfoldable pub snake_to_camel : String → Bool → String
unfolding split_by camel_parts join
snake_to_camel s upper_first = join "" (camel_parts upper_first (split_by is_underscore s))

-- `s[:strings.Index(s, "(")]`, and the whole text where there is none.
unfoldable pub before_paren : String → String
before_paren String.[] = ""
before_paren (String.◌∷◌ c s) =
    let rest = before_paren s in if code c == 40 then "" else String.◌∷◌ c rest

-- The `switch` of `mapType`.
unfoldable pub type_of_base : String → String
unfolding contains
type_of_base base =
    if str_eq base "TINYINT"
    then "int8"
    else if str_eq base "SMALLINT"
    then "int16"
    else if str_eq base "MEDIUMINT"
    then "int32"
    else if str_eq base "INT" || str_eq base "INTEGER"
    then "int32"
    else if str_eq base "BIGINT"
    then "int64"
    else if str_eq base "BOOLEAN" || str_eq base "BOOL"
    then "bool"
    else if str_eq base "TEXT" || str_eq base "LONGTEXT" || str_eq base "MEDIUMTEXT"
    then "string"
    else if str_eq base "BLOB"
        || str_eq base "LONGBLOB"
        || str_eq base "MEDIUMBLOB"
        || starts_with base "BINARY"
        || starts_with base "VARBINARY"
    then "[]byte"
    else if contains base "VARCHAR" || contains base "CHAR"
    then "string"
    else if str_eq base "DECIMAL" || str_eq base "NUMERIC"
    then "float64"
    else if str_eq base "FLOAT"
    then "float32"
    else if str_eq base "DOUBLE"
    then "float64"
    else if str_eq base "JSON"
    then "string"
    else if str_eq base "DATE"
    then "time.Time"
    else if str_eq base "TIME"
    then "time.Time"
    else if str_eq base "DATETIME" || str_eq base "TIMESTAMP"
    then "time.Time"
    else "any"

unfoldable pub map_type : String → String
unfolding type_of_base before_paren to_upper trim_space
map_type db_type =
    let upper = trim_space (to_upper db_type) in
    if str_eq upper "TINYINT(1)" then "bool" else type_of_base (trim_space (before_paren upper))

-- A tag that is appended if a test holds.
abbrev pub tag_if : Bool → String → List String
tag_if test tag = if test then tag ∷ [] else []

-- `fmt.Sprintf("key:%s", value)`
abbrev pub keyed : String → String → String
keyed key value = key ⧺ (":" ⧺ value)

-- The `switch` on the base type.
unfoldable pub type_name : String → Option String
type_name base =
    if str_eq base "TINYINT"
    then some "tinyint"
    else if str_eq base "SMALLINT"
    then some "smallint"
    else if str_eq base "MEDIUMINT"
    then some "mediumint"
    else if str_eq base "BIGINT"
    then some "bigint"
    else if str_eq base "BLOB" || str_eq base "LONGBLOB" || str_eq base "MEDIUMBLOB"
    then some "blob"
    else if str_eq base "TEXT" || str_eq base "LONGTEXT" || str_eq base "MEDIUMTEXT"
    then some "text"
    else if str_eq base "JSON"
    then some "json"
    else if str_eq base "DATE"
    then some "date"
    else if str_eq base "DATETIME"
    then some "datetime"
    else if str_eq base "TIMESTAMP"
    then some "timestamp"
    else if str_eq base "BOOLEAN" || str_eq base "BOOL"
    then some "boolean"
    else none

abbrev pub type_tag : Option String → List String
type_tag none = []
type_tag (some name) = keyed "type" name ∷ []

abbrev pub is_decimal : String → Bool
is_decimal upper = starts_with upper "DECIMAL" || starts_with upper "NUMERIC"

unfoldable pub type_tags : String → List String
unfolding type_name before_paren to_upper to_lower trim_space
type_tags db_type =
    if str_eq db_type ""
    then []
    else type_tag (type_name (trim_space (before_paren (to_upper db_type))))
      ++ tag_if (is_decimal (to_upper db_type)) (keyed "type" (to_lower db_type))

abbrev pub has_size : Field → Bool
has_size f = ltb 0 f.size && (str_eq f.go_type "string" || str_eq f.go_type "[]byte")

unfoldable pub time_tags : String → List String
time_tags column =
    if str_eq column "created_at"
    then "auto_time" ∷ []
    else if str_eq column "updated_at"
    then "auto_update" ∷ []
    else []

unfoldable pub tags_of : Field → List String
unfolding time_tags type_tags to_lower decimal
tags_of f =
    keyed "column" f.column
    ∷ ((if f.is_pk then "pk" ∷ tag_if f.is_auto "auto" else [])
        ++ (tag_if f.is_not_null "notnull"
            ++ (tag_if f.is_unique "unique"
                ++ (tag_if (not (str_eq f.default "")) (keyed "default" f.default)
                    ++ (tag_if (not (str_eq f.foreign_key "")) (keyed "fk" f.foreign_key)
                        ++ (tag_if (has_size f) (keyed "size" (decimal f.size))
                            ++ (time_tags (to_lower f.column) ++ type_tags f.db_type)))))))

unfoldable pub generate_tag : Field → String
unfolding tags_of join
generate_tag f = join ";" (tags_of f)
