-- ===== src/Dialect/Registry.antt =====
-- The table of dialects of dialect/dialect.go, and what its `init` registers.
use jorm.Base.{String, Option, none, some, List, [], ◌∷◌, ◌≡◌, refl, str_eq, if◌then◌else◌}
use jorm.Dialect.{Dialect}
use jorm.Dialect.Mysql
use jorm.Dialect.Postgres
use jorm.Dialect.Sqlite3
use jorm.Dialect.Sqlserver
use jorm.Dialect.Oracle

-- `map[string]Dialect`, the latest entry in front.
abbrev pub Dialects : Type 0
Dialects = List (String × Dialect)

-- `Register`
unfoldable pub register : String → Dialect → Dialects → Dialects
register name d ds = (name, d) ∷ ds

-- `Get`
unfoldable pub get : String → Dialects → Option Dialect
get name [] = none
get name ((k, d) ∷ ds) = if str_eq k name then some d else get name ds

-- `init`
unfoldable pub init : Dialects
unfolding register
init = register "oracle" Oracle.dialect (
    register "sqlserver" Sqlserver.dialect (
      register "sqlite3" Sqlite3.dialect
        (register "postgres" Postgres.dialect (register "mysql" Mysql.dialect []))))

-- A registered dialect is found under its name, and the other names are not touched.
pub get-register :
    (name key : String) (d : Dialect) (ds : Dialects)
    → get key (register name d ds) ≡ (if str_eq name key then some d else get key ds)
unfolding get register
get-register name key d ds = refl
