-- ===== src/Builder/Tests.antt =====
-- The builder on concrete chains, and the theorems about it at inputs.
use jorm.Base.{
  ◌≡◌, refl, String, some, none, List, [], ◌∷◌, Value, true, ◌++◌, map, sort_strings, int, str, pos,
  marks, All, arith,
}
use jorm.Dialect.Mysql
use jorm.Dialect.Sqlite3
use jorm.Dialect.Sqlserver
use jorm.Dialect.Placeholders.{repeated_rows, batch_insert_text}
use jorm.Builder.Inserts.{batch_insert_sql-numbered}
use jorm.Builder.Replace.{replace_placeholders}
use jorm.Builder.Numbering.{substitute, replace_placeholders-substitute}
use jorm.Dialect.Postgres
use jorm.Dialect.Laws.{mysql-KeepsMarks}
use jorm.Builder.State.{
  Builder, set_table, select, add_joins, and_where, or_where, where_in, add_condition, add_order_by,
  set_limit, zero_builder, new_builder, items, put_builder, pool_get,
}
use jorm.Builder.Build.{
  select_text, select_args, update_text, delete_text, args_of_clause, keys, value_at, build_select,
  build_insert, build_update, build_delete, Data,
}
use jorm.Builder.Calls.{
  Call, table, columns, wheres, or_wheres, where_ins, orders, limit, joins, run, Fits,
}
use jorm.Builder.Statements.{Numbers}
use jorm.Builder.Chains.{run-Numbers}
use jorm.Builder.Reuse.{new_builder-fresh, put_builder-panics}

abbrev stale : Builder
stale = record zero_builder { where_expr = "(id = ?)"; where_args = int (pos 9) ∷ []; sb = "x" }

abbrev chain : List Call
chain =
    table "users"
    ∷ columns ("id" ∷ "name" ∷ [])
    ∷ joins "JOIN teams ON teams.id = users.team AND teams.kind = ?" (str "a" ∷ [])
    ∷ wheres "age > ?" (int (pos 18) ∷ [])
    ∷ or_wheres "vip = 1" []
    ∷ where_ins "id" (items (int (pos 1) ∷ int (pos 2) ∷ []))
    ∷ orders ("id DESC" ∷ [])
    ∷ limit (pos 5)
    ∷ []

abbrev built : Builder
built = record zero_builder {
  dialect = some Mysql.dialect;
  table = "users";
  select_cols = "id" ∷ "name" ∷ [];
  joins = "JOIN teams ON teams.id = users.team AND teams.kind = ?" ∷ [];
  join_args = str "a" ∷ [];
  where_expr = "(age > ?) OR (vip = 1) AND (id IN (?, ?))";
  where_args = int (pos 18) ∷ int (pos 1) ∷ int (pos 2) ∷ [];
  order_by = "id DESC" ∷ [];
  limit_set = true;
  limit = pos 5;
}

abbrev built_postgres : Builder
built_postgres = record built { dialect = some Postgres.dialect }

run-chain : run chain (new_builder Mysql.dialect (stale ∷ [])).0 ≡ some built
unfolding run new_builder set_table select add_joins and_where or_where where_in add_condition
    add_order_by set_limit
run-chain = refl

run-chain_postgres : run chain (new_builder Postgres.dialect []).0 ≡ some built_postgres
unfolding run new_builder set_table select add_joins and_where or_where where_in add_condition
    add_order_by set_limit
run-chain_postgres = refl

abbrev postgres_sql : String
postgres_sql =
    "SELECT id, name FROM \"users\" JOIN teams ON teams.id = users.team AND teams.kind = $1 WHERE (age > $2) OR (vip = 1) AND (id IN ($3, $4)) ORDER BY id DESC LIMIT $5"

select_postgres :
    (sb : String) × (build_select built_postgres
      ≡ some (
        record built_postgres { sb = sb },
        (postgres_sql, str "a" ∷ int (pos 18) ∷ int (pos 1) ∷ int (pos 2) ∷ int (pos 5) ∷ []),
      ))
unfolding build_select Postgres.placeholder Postgres.quote
select_postgres = (postgres_sql, refl)

Fits-chain : All Fits chain
unfolding marks
Fits-chain = omega arith

abbrev assigned : Data
assigned = ("name", str "b") ∷ ("age", int (pos 3)) ∷ []

run-Numbers_example :
    let b = built in
    let cols = sort_strings (keys assigned) in
    let args = args_of_clause b.where_expr b.where_args in
    Numbers Mysql.dialect b (select_text Mysql.dialect b) (select_args b) (build_select b)
    × Numbers Mysql.dialect b
        (update_text Mysql.dialect cols b)
        (map (value_at assigned) cols ++ args)
        (build_update assigned b)
    × Numbers Mysql.dialect b (delete_text Mysql.dialect b) args (build_delete b)
unfolding marks
run-Numbers_example =
    run-Numbers Mysql.dialect (stale ∷ []) chain built mysql-KeepsMarks Fits-chain run-chain
      assigned refl

abbrev mysql_sql : String
mysql_sql =
    "SELECT id, name FROM `users` JOIN teams ON teams.id = users.team AND teams.kind = ? WHERE (age > ?) OR (vip = 1) AND (id IN (?, ?)) ORDER BY id DESC LIMIT ?"

abbrev five : List Value
five = str "a" ∷ int (pos 18) ∷ int (pos 1) ∷ int (pos 2) ∷ int (pos 5) ∷ []

new_builder-fresh_example :
    (new_builder Mysql.dialect (stale ∷ [])).0 ≡ (new_builder Mysql.dialect []).0
new_builder-fresh_example = new_builder-fresh Mysql.dialect (stale ∷ []) []

put_builder-panics_example :
    let held = (pool_get (put_builder built [])).0 in
    (build_select held ≡ none)
    × (build_insert ("id" ∷ []) held ≡ none)
    × (build_update assigned held ≡ none)
    × (build_delete held ≡ none)
put_builder-panics_example = put_builder-panics built [] ("id" ∷ []) assigned

batch_insert_sql-numbered_example :
    (marks "INSERT INTO `users` (a, b) VALUES (?, ?), (?, ?)" ≡ 4)
    × (marks "INSERT INTO `users` (a, b) VALUES (?, ?), (?, ?)" ≡ 4)
    × (Postgres.batch_insert_sql "users" ("a" ∷ "b" ∷ []) 2
        ≡ ("INSERT INTO \"users\" (a, b) VALUES ($1, $2), ($3, $4)", []))
    × (Sqlserver.batch_insert_sql "users" ("a" ∷ "b" ∷ []) 2
        ≡ ("INSERT INTO [users] (a, b) VALUES (@p1, @p2), (@p3, @p4)", []))
unfolding marks Mysql.batch_insert_sql Sqlite3.batch_insert_sql replace_placeholders
    Postgres.placeholder Sqlserver.placeholder Postgres.quote Sqlserver.quote batch_insert_text
    repeated_rows
batch_insert_sql-numbered_example =
    batch_insert_sql-numbered "users" "" ("a" ∷ "b" ∷ []) 2 refl refl

replace_placeholders-substitute_example :
    (replace_placeholders Postgres.dialect "x" "a = ? AND b = ?").0
    ≡ substitute Postgres.placeholder 1 "a = ? AND b = ?"
replace_placeholders-substitute_example =
    replace_placeholders-substitute Postgres.dialect "x" "a = ? AND b = ?"
