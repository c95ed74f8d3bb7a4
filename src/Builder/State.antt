-- ===== src/Builder/State.antt =====
-- `sqlBuilder` of core/builder.go, its pool, and the methods that add clauses. A method that
-- mutates the builder returns the new one; a panic is `none`.
use jorm.Base.{
  ℤ, pos, String, Bool, true, false, Option, none, some, List, [], ◌∷◌, ◌++◌, Value, ◌⧺◌, join,
  trim_space, str_eq, if◌then◌else◌,
}
use jorm.Dialect.{Dialect}
use jorm.Builder.Joins.{is_valid_join_clause}

-- `dialect` is nil in a builder that was put back; `sb` is the scratch of the Build methods.
pub record Builder : Type 0 where
  pub dialect : Option Dialect
  pub table : String
  pub alias : String
  pub select_cols : List String
  pub where_expr : String
  pub where_args : List Value
  pub joins : List String
  pub join_args : List Value
  pub group_by : List String
  pub having_expr : String
  pub having_args : List Value
  pub order_by : List String
  pub limit_set : Bool
  pub limit : ℤ
  pub offset_set : Bool
  pub offset : ℤ
  pub sb : String

-- `Reset`: every field is written, whatever the builder held.
unfoldable pub reset : Option Dialect → Builder → Builder
reset d b = record b {
  dialect = d;
  table = "";
  alias = "";
  select_cols = [];
  where_expr = "";
  where_args = [];
  joins = [];
  join_args = [];
  group_by = [];
  having_expr = "";
  having_args = [];
  order_by = [];
  limit_set = false;
  limit = pos 0;
  offset_set = false;
  offset = pos 0;
  sb = "";
}

-- The builder that `&sqlBuilder{}` makes.
abbrev pub zero_builder : Builder
zero_builder = record {
  dialect = none;
  table = "";
  alias = "";
  select_cols = [];
  where_expr = "";
  where_args = [];
  joins = [];
  join_args = [];
  group_by = [];
  having_expr = "";
  having_args = [];
  order_by = [];
  limit_set = false;
  limit = pos 0;
  offset_set = false;
  offset = pos 0;
  sb = "";
}

-- `builderPool`: `Get` takes any builder that was put back, or a new one where there is none.
abbrev pub BuilderPool : Type 0
BuilderPool = List Builder

unfoldable pub pool_get : BuilderPool → Builder × BuilderPool
pool_get [] = (zero_builder, [])
pool_get (b ∷ pool) = (b, pool)

-- `NewBuilder`
unfoldable pub new_builder : Dialect → BuilderPool → Builder × BuilderPool
unfolding reset pool_get
new_builder d pool = let (b, rest) = pool_get pool in (reset (some d) b, rest)

-- `PutBuilder`
unfoldable pub put_builder : Builder → BuilderPool → BuilderPool
unfolding reset
put_builder b pool = reset none b ∷ pool

-- `Clone`: the slices of the new builder are appended to, after they were cut to length 0. The
-- source skips the append of an empty slice, which changes nothing.
unfoldable pub clone : Builder → BuilderPool → Builder × BuilderPool
unfolding reset pool_get
clone b pool =
    let (taken, rest) = pool_get pool in
    let nb = reset b.dialect taken in
    (
      record nb {
        table = b.table;
        alias = b.alias;
        select_cols = nb.select_cols ++ b.select_cols;
        where_expr = b.where_expr;
        where_args = nb.where_args ++ b.where_args;
        joins = nb.joins ++ b.joins;
        join_args = nb.join_args ++ b.join_args;
        group_by = nb.group_by ++ b.group_by;
        having_expr = b.having_expr;
        having_args = nb.having_args ++ b.having_args;
        order_by = nb.order_by ++ b.order_by;
        limit_set = b.limit_set;
        limit = b.limit;
        offset_set = b.offset_set;
        offset = b.offset;
      },
      rest,
    )

unfoldable pub set_table : String → Builder → Builder
set_table name b = record b { table = name }

unfoldable pub set_alias : String → Builder → Builder
unfolding trim_space
set_alias alias b = record b { alias = trim_space alias }

unfoldable pub select : List String → Builder → Builder
select columns b = record b { select_cols = b.select_cols ++ columns }

-- The text of a condition added to an expression by a connective.
unfoldable pub add_condition : String → String → String → String
add_condition connective expr cond =
    if str_eq expr "" then "(" ⧺ cond ⧺ ")" else expr ⧺ connective ⧺ cond ⧺ ")"

-- `Where`
unfoldable pub and_where : String → List Value → Builder → Builder
and_where cond args b = if str_eq cond "" then b else record b {
  where_expr = add_condition " AND (" b.where_expr cond;
  where_args = b.where_args ++ args;
}

unfoldable pub or_where : String → List Value → Builder → Builder
or_where cond args b = if str_eq cond "" then b else record b {
  where_expr = add_condition " OR (" b.where_expr cond;
  where_args = b.where_args ++ args;
}

-- What `reflect.ValueOf(values)` shows: no value, one that is no list, a slice or an array.
pub data InValues : Type 0 where
  invalid : InValues
  single : Value → InValues
  items : List Value → InValues

abbrev pub question_marks : List Value → List String
question_marks [] = []
question_marks (v ∷ vs) = "?" ∷ question_marks vs

unfoldable pub where_in : String → InValues → Builder → Builder
unfolding and_where join
where_in column invalid b = b
where_in column (single v) b = and_where (column ⧺ " IN (?)") (v ∷ []) b
where_in column (items []) b = and_where "1 = 0" [] b
where_in column (items (v ∷ vs)) b =
    and_where (column ⧺ " IN (" ⧺ join ", " (question_marks (v ∷ vs)) ⧺ ")") (v ∷ vs) b

-- `Joins`: an invalid clause panics.
unfoldable pub add_joins : String → List Value → Builder → Option Builder
unfolding is_valid_join_clause
add_joins query args b =
    if is_valid_join_clause query
    then some (record b { joins = b.joins ++ query ∷ []; join_args = b.join_args ++ args })
    else none

unfoldable pub add_group_by : List String → Builder → Builder
add_group_by columns b = record b { group_by = b.group_by ++ columns }

unfoldable pub having : String → List Value → Builder → Builder
having cond args b = if str_eq cond "" then b else record b {
  having_expr = add_condition " AND (" b.having_expr cond;
  having_args = b.having_args ++ args;
}

unfoldable pub add_order_by : List String → Builder → Builder
add_order_by columns b = record b { order_by = b.order_by ++ columns }

unfoldable pub set_limit : ℤ → Builder → Builder
set_limit n b = record b { limit_set = true; limit = n }

unfoldable pub set_offset : ℤ → Builder → Builder
set_offset n b = record b { offset_set = true; offset = n }
