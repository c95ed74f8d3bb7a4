-- ===== src/Dialect.antt =====
-- dialect/dialect.go: the interface that each database implements, without the parsing of the rows
-- that the database answers. A panic is `none`.
pub mod Placeholders
pub mod Rows
pub mod Mysql
pub mod Postgres
pub mod Sqlite3
pub mod Sqlserver
pub mod Oracle
pub mod Registry
pub mod Laws
pub mod RowLaws
mod Tests
use jorm.Base.{ℕ, String, Bool, Option, List, Value}
use jorm.Model.{GoType, Field, Model}

-- A statement and its arguments.
abbrev pub Statement : Type 0
Statement = String × List Value

pub record Dialect : Type 0 where
  pub data_type_of : GoType → Option String
  pub quote : String → String
  pub insert_sql : String → List String → Statement
  pub create_table_sql : Model → Option Statement
  pub has_table_sql : String → Statement
  pub batch_insert_sql : String → List String → ℕ → Statement
  pub placeholder : ℕ → String
  pub get_columns_sql : String → Statement
  pub add_column_sql : String → Field → Option Statement
  pub modify_column_sql : String → Field → Option Statement
  pub get_indexes_sql : String → Statement
  pub create_index_sql : String → String → List String → Bool → Statement
