-- ===== src/Query/Fluent.antt =====
-- The `Query` of core/query.go and its methods that put together a statement, `newQuery` of core/db.go,
-- and `WithValidator` around the writing operations. A method that panics gives none. The log, and what
-- the context holds beside the lifetime of a cached answer, are left out.
use jorm.Base.{
  ℕ, ℤ, negsuc, String, Bool, true, false, Option, none, some, List, [], ◌∷◌, ◌++◌, Value, ◌⊎◌, inl,
  inr, str_eq, code, ◌==◌, if◌then◌else◌,
}
use jorm.Core.Health.{Error, Db, check_health}
use jorm.Model.{Model}
use jorm.Model.Tag.{split_by}
use jorm.Dialect.{Dialect, Statement}
use jorm.Builder.State
use jorm.Builder.State.{Builder, BuilderPool, InValues}
use jorm.Builder.Build.{build_select}
use jorm.Builder.Calls.{Call}
use jorm.Middleware.Cache.Ttl.{TtlValue, duration, absent}
use jorm.Query.Step.{Step, unreported}
use jorm.Query.Write.{statement_in}

-- `P` is a function that customises a preload.
pub record Query (P : Type 0) : Type 0 where
  pub builder : Builder
  pub ttl : TtlValue
  pub model : Option Model
  pub err : Option Error
  pub raw_sql : String
  pub raw_args : List Value
  pub preloads : List (List String × Option P)

-- `NewQuery`
abbrev pub new_query : {P : Type 0} → Builder → Query P
new_query builder = record {
  builder = builder;
  ttl = absent;
  model = none;
  err = none;
  raw_sql = "";
  raw_args = [];
  preloads = [];
}

module _ {P : Type 0} where
  abbrev pub with_err : Bool → Error → Query P → Query P
  with_err false e q = q
  with_err true e q = record q { err = some e }

  -- `newQuery` of a DB with the dialect, at a time; `cooling` is the error of `checkHealth`.
  unfoldable pub db_query : Dialect → BuilderPool → ℕ → Error → Db → Query P
  unfolding State.new_builder check_health
  db_query d pool now cooling db =
      with_err (check_health now db) cooling (new_query (State.new_builder d pool).0)

  -- `Model`, of what `GetModel` gives.
  unfoldable pub model_of : Error ⊎ Model → Query P → Query P
  unfolding State.set_table
  model_of (inl e) q = record q { err = some e }
  model_of (inr m) q = record q { model = some m; builder = State.set_table m.table_name q.builder }

  unfoldable pub table : String → Query P → Query P
  unfolding State.set_table
  table name q = record q { builder = State.set_table name q.builder }

  unfoldable pub alias : String → Query P → Query P
  unfolding State.set_alias
  alias name q = record q { builder = State.set_alias name q.builder }

  unfoldable pub select : List String → Query P → Query P
  unfolding State.select
  select columns q = record q { builder = State.select columns q.builder }

  unfoldable pub and_where : String → List Value → Query P → Query P
  unfolding State.and_where
  and_where cond args q = record q { builder = State.and_where cond args q.builder }

  unfoldable pub or_where : String → List Value → Query P → Query P
  unfolding State.or_where
  or_where cond args q = record q { builder = State.or_where cond args q.builder }

  unfoldable pub where_in : String → InValues → Query P → Query P
  unfolding State.where_in
  where_in column values q = record q { builder = State.where_in column values q.builder }

  unfoldable pub limit : ℤ → Query P → Query P
  unfolding State.set_limit
  limit n q = record q { builder = State.set_limit n q.builder }

  unfoldable pub offset : ℤ → Query P → Query P
  unfolding State.set_offset
  offset n q = record q { builder = State.set_offset n q.builder }

  unfoldable pub order_by : List String → Query P → Query P
  unfolding State.add_order_by
  order_by columns q = record q { builder = State.add_order_by columns q.builder }

  unfoldable pub group_by : List String → Query P → Query P
  unfolding State.add_group_by
  group_by columns q = record q { builder = State.add_group_by columns q.builder }

  unfoldable pub having : String → List Value → Query P → Query P
  unfolding State.having
  having cond args q = record q { builder = State.having cond args q.builder }

  abbrev pub with_builder : Query P → Option Builder → Option (Query P)
  with_builder q none = none
  with_builder q (some b) = some (record q { builder = b })

  unfoldable pub joins : String → List Value → Query P → Option (Query P)
  unfolding State.add_joins
  joins query args q = with_builder q (State.add_joins query args q.builder)

  -- `Cache`: without a lifetime it is -2, which the caches read as their own.
  unfoldable pub cache : List ℤ → Query P → Query P
  cache [] q = record q { ttl = duration (negsuc 1) }
  cache (t ∷ more) q = record q { ttl = duration t }

  unfoldable pub raw : String → List Value → Query P → Query P
  raw sql args q = record q { raw_sql = sql; raw_args = args }

  unfoldable pub preload_with : String → Option P → Query P → Query P
  unfolding split_by
  preload_with name fn q = record q {
    preloads = q.preloads ++ (split_by (λ c. code c == 46) name, fn) ∷ [];
  }

  unfoldable pub preload : String → Query P → Query P
  unfolding preload_with
  preload name q = preload_with name none q

  unfoldable pub get_select_sql : Query P → Option Statement
  unfolding build_select
  get_select_sql q =
      if str_eq q.raw_sql ""
      then statement_in (build_select q.builder)
      else some (q.raw_sql, q.raw_args)

  -- `Clone`, with a builder of the pool.
  unfoldable pub clone : BuilderPool → Query P → Query P
  unfolding State.clone
  clone pool q = record q { builder = (State.clone q.builder pool).0 }

  -- The method of a query with the same name as one of the builder.
  unfoldable pub call : Call → Query P → Option (Query P)
  unfolding table alias select and_where or_where where_in limit offset order_by group_by having
      joins
  call (Call.table name) q = some (table name q)
  call (Call.alias name) q = some (alias name q)
  call (Call.columns cs) q = some (select cs q)
  call (Call.groups cs) q = some (group_by cs q)
  call (Call.orders cs) q = some (order_by cs q)
  call (Call.wheres cond args) q = some (and_where cond args q)
  call (Call.or_wheres cond args) q = some (or_where cond args q)
  call (Call.havings cond args) q = some (having cond args q)
  call (Call.joins query args) q = joins query args q
  call (Call.where_ins column values) q = some (where_in column values q)
  call (Call.limit n) q = some (limit n q)
  call (Call.offset n) q = some (offset n q)

-- `if q.err != nil`, before an operation.
abbrev pub unless_failed : {S A : Type 0} → Option Error → Step S A → Step S A
unless_failed none step = step
unless_failed (some e) step = unreported e

-- The loop over the validators of `InsertWithValidator` and `UpdateWithValidator`, before the operation.
unfoldable pub with_validators :
    {S V A : Type 0} → List (V → Option Error) → V → Step S A → Step S A
with_validators [] value operation = operation
with_validators (v ∷ more) value operation = elim (v value) [
  | some e ↦ unreported e
  | none ↦ with_validators more value operation
]
