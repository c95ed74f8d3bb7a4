-- ===== src/Builder/Calls.antt =====
-- Chains of calls on a builder, and what they build.
use jorm.Base.{
  ℤ, ◌≡◌, refl, String, Option, some, List, [], ◌∷◌, Value, ◌>>=◌, marks, marks_all,
  marks_all-append, marks-trim_space, length, length-append, All, arith, Option-cases, inl, inr,
}
use jorm.Dialect.{Dialect}
use jorm.Builder.State.{
  Builder, BuilderPool, new_builder, set_table, set_alias, select, and_where, or_where, where_in,
  InValues, add_joins, add_group_by, having, add_order_by, set_limit, set_offset,
}
use jorm.Builder.Balance.{
  IsBalanced, and_where-IsBalanced, or_where-IsBalanced, having-IsBalanced, where_in-IsBalanced,
}

-- The methods of the `Builder` interface that add to a statement.
pub data Call : Type 0 where
  table alias : String → Call
  columns groups orders : List String → Call
  wheres or_wheres havings joins : String → List Value → Call
  where_ins : String → InValues → Call
  limit offset : ℤ → Call

unfoldable pub apply : Call → Builder → Option Builder
apply (table name) b = some (set_table name b)
apply (alias name) b = some (set_alias name b)
apply (columns cs) b = some (select cs b)
apply (groups cs) b = some (add_group_by cs b)
apply (orders cs) b = some (add_order_by cs b)
apply (wheres cond args) b = some (and_where cond args b)
apply (or_wheres cond args) b = some (or_where cond args b)
apply (havings cond args) b = some (having cond args b)
apply (joins query args) b = add_joins query args b
apply (where_ins column values) b = some (where_in column values b)
apply (limit n) b = some (set_limit n b)
apply (offset n) b = some (set_offset n b)

-- A chain of calls; the first that panics ends it.
unfoldable pub run : List Call → Builder → Option Builder
unfolding apply
run [] b = some b
run (c ∷ cs) b = do b' ← apply c b; run cs b'

-- A caller gives an argument for each `?` of a condition, and no `?` in a name.
abbrev pub Fits : Call → Type 0
Fits (table name) = marks name ≡ 0
Fits (alias name) = marks name ≡ 0
Fits (columns cs) = marks_all cs ≡ 0
Fits (groups cs) = marks_all cs ≡ 0
Fits (orders cs) = marks_all cs ≡ 0
Fits (wheres cond args) = marks cond ≡ length args
Fits (or_wheres cond args) = marks cond ≡ length args
Fits (havings cond args) = marks cond ≡ length args
Fits (joins query args) = marks query ≡ length args
Fits (where_ins column values) = marks column ≡ 0
Fits (limit n) = Unit
Fits (offset n) = Unit

apply-IsBalanced :
    (c : Call) (b b' : Builder) → Fits c → IsBalanced b → apply c b ≡ some b' → IsBalanced b'
unfolding apply
apply-IsBalanced (table name) b b' f v e = unfold set_table in ground arith
apply-IsBalanced (alias name) b b' f v e = unfold set_alias in ground (arith, marks-trim_space name)
apply-IsBalanced (columns cs) b b' f v e =
    unfold select in ground (arith, marks_all-append b.select_cols cs)
apply-IsBalanced (groups cs) b b' f v e =
    unfold add_group_by in ground (arith, marks_all-append b.group_by cs)
apply-IsBalanced (orders cs) b b' f v e =
    unfold add_order_by in ground (arith, marks_all-append b.order_by cs)
apply-IsBalanced (wheres cond args) b b' f v e =
    ground (arith, and_where-IsBalanced cond args b f v)
apply-IsBalanced (or_wheres cond args) b b' f v e =
    ground (arith, or_where-IsBalanced cond args b f v)
apply-IsBalanced (havings cond args) b b' f v e = ground (arith, having-IsBalanced cond args b f v)
apply-IsBalanced (joins query args) b b' f v e =
    unfold add_joins in
    ground (arith, marks_all-append b.joins (query ∷ []), length-append b.join_args args)
apply-IsBalanced (where_ins column values) b b' f v e =
    ground (arith, where_in-IsBalanced column values b f v)
apply-IsBalanced (limit n) b b' f v e = unfold set_limit in ground arith
apply-IsBalanced (offset n) b b' f v e = unfold set_offset in ground arith

-- Such a chain keeps a builder balanced.
pub run-IsBalanced :
    (cs : List Call) (b b' : Builder)
    → All Fits cs
    → IsBalanced b
    → run cs b ≡ some b'
    → IsBalanced b'
unfolding run
run-IsBalanced [] b b' f v e = ground arith
run-IsBalanced (c ∷ cs) b b' (f, fs) v e = elim (Option-cases (apply c b)) [
  | inl panics ↦ ground arith
  | inr (next, done) ↦
      run-IsBalanced cs next b' fs (apply-IsBalanced c b next f v done) (ground arith)
]

pub new_builder-IsBalanced : (d : Dialect) (pool : BuilderPool) → IsBalanced (new_builder d pool).0
unfolding new_builder marks
new_builder-IsBalanced d pool = record {
  wheres = refl;
  havings = refl;
  joinings = refl;
  table_name = refl;
  alias_name = refl;
  columns = refl;
  groups = refl;
  orders = refl;
}
