-- ===== src/Builder/Balance.antt =====
-- Every `?` of a built statement has its argument, in the order of the text.
use jorm.Base.{
  ℕ, suc, ℤ, ltb, ◌+◌, ◌≡◌, refl, sym, String, Bool, true, false, List, [], ◌∷◌, Value, ◌⧺◌, join,
  marks, marks-append, marks-join, marks_all, length, length-append, eq_iff, arith, if◌then◌else◌,
}
use jorm.Dialect.{Dialect}
use jorm.Builder.State.{
  Builder, add_condition, and_where, or_where, having, where_in, InValues, invalid, single, items,
  question_marks,
}
use jorm.Builder.Build.{
  listed, clause, when_set, write_columns, column_list, select_text, select_args, args_of_list,
  args_of_clause, arg_when_set,
}

-- Each expression has a `?` for each of its arguments, and no name has one.
pub record IsBalanced (b : Builder) : Type 0 where
  pub wheres : marks b.where_expr ≡ length b.where_args
  pub havings : marks b.having_expr ≡ length b.having_args
  pub joinings : marks_all b.joins ≡ length b.join_args
  pub table_name : marks b.table ≡ 0
  pub alias_name : marks b.alias ≡ 0
  pub columns : marks_all b.select_cols ≡ 0
  pub groups : marks_all b.group_by ≡ 0
  pub orders : marks_all b.order_by ≡ 0

marks_nil : marks "" ≡ 0
unfolding marks
marks_nil = refl

marks_parenthesis : (marks "(" ≡ 0) × (marks ")" ≡ 0)
unfolding marks
marks_parenthesis = (refl, refl)

pub separator : (b : Bool) → marks (if b then ", " else "") ≡ 0
unfolding marks
separator true = refl
separator false = refl

pub marks-write_columns : (i : ℕ) (cs : List String) → marks (write_columns i cs) ≡ marks_all cs
unfolding write_columns
marks-write_columns i [] = unfold marks in refl
marks-write_columns i (c ∷ cs) =
    rw (marks-append _ (c ⧺ write_columns (suc i) cs), marks-append c)
      (omega (arith, separator (ltb 0 i), marks-write_columns (suc i) cs))

marks-listed :
    (prefix sep : String) (xs : List String)
    → marks prefix ≡ 0
    → marks sep ≡ 0
    → marks (listed prefix sep xs) ≡ marks_all xs
marks-listed prefix sep [] h k = unfold marks in refl
marks-listed prefix sep (x ∷ xs) h k =
    rw (marks-append prefix) (omega (arith, marks-join sep (x ∷ xs) k))

pub marks-clause :
    (prefix expr : String) → marks prefix ≡ 0 → marks (clause prefix expr) ≡ marks expr
marks-clause prefix expr h = ground (arith, eq_iff expr "", marks-append prefix expr, marks_nil)

marks-when_set :
    (flag : Bool) (suffix : String) (n : ℤ)
    → marks suffix ≡ 1
    → marks (when_set flag suffix) ≡ length (arg_when_set flag n)
marks-when_set true suffix n h = h
marks-when_set false suffix n h = marks_nil

marks-column_list : (cs : List String) → marks (column_list cs) ≡ marks_all cs
unfolding column_list
marks-column_list [] = unfold marks in refl
marks-column_list (c ∷ cs) = marks-write_columns 0 (c ∷ cs)

length-args_of_list :
    (xs : List String) (args : List Value)
    → marks_all xs ≡ length args
    → length (args_of_list xs args) ≡ marks_all xs
length-args_of_list [] args h = refl
length-args_of_list (x ∷ xs) args h = sym h

pub length-args_of_clause :
    (expr : String) (args : List Value)
    → marks expr ≡ length args
    → length (args_of_clause expr args) ≡ marks expr
length-args_of_clause expr args h = ground (arith, eq_iff expr "", marks_nil)

length-select_args :
    (b : Builder)
    → IsBalanced b
    → length (select_args b)
      ≡ marks_all b.joins
        + (marks b.where_expr
            + (marks b.having_expr
                + (length (arg_when_set b.limit_set b.limit)
                    + length (arg_when_set b.offset_set b.offset))))
unfolding select_args
length-select_args b v = simp length-append (
    omega (
      arith,
      length-args_of_list b.joins b.join_args v.joinings,
      length-args_of_clause b.where_expr b.where_args v.wheres,
      length-args_of_clause b.having_expr b.having_args v.havings,
    ))

-- What `select_text` writes has a `?` for each of `select_args`.
pub marks-select_text :
    (d : Dialect) (b : Builder)
    → ((name : String) → marks (d.quote name) ≡ marks name)
    → IsBalanced b
    → marks (select_text d b) ≡ length (select_args b)
unfolding select_text
marks-select_text d b quoted v =
    simp (marks-append, quoted)
      (unfold marks in
        omega (
          arith,
          marks-column_list b.select_cols,
          marks-clause " " b.alias refl,
          marks-listed " " " " b.joins refl refl,
          marks-clause " WHERE " b.where_expr refl,
          marks-listed " GROUP BY " ", " b.group_by refl refl,
          marks-clause " HAVING " b.having_expr refl,
          marks-listed " ORDER BY " ", " b.order_by refl refl,
          marks-when_set b.limit_set " LIMIT ?" b.limit refl,
          marks-when_set b.offset_set " OFFSET ?" b.offset refl,
          length-select_args b v,
        ))

-- A condition with a `?` for each of its arguments keeps an expression balanced.
marks-add_condition :
    (connective expr cond : String)
    → marks connective ≡ 0
    → marks (add_condition connective expr cond) ≡ marks expr + marks cond
unfolding add_condition
marks-add_condition connective expr cond h = ground (
  arith,
  eq_iff expr "",
  marks_nil,
  marks_parenthesis,
  marks-append "(" (cond ⧺ ")"),
  marks-append cond ")",
  marks-append expr (connective ⧺ cond ⧺ ")"),
  marks-append connective (cond ⧺ ")"),
)

module _ (cond : String) (args : List Value) (b : Builder) (fits : marks cond ≡ length args) where
  pub and_where-IsBalanced : IsBalanced b → IsBalanced (and_where cond args b)
  unfolding and_where
  and_where-IsBalanced v = ground (
    arith,
    marks-add_condition " AND (" b.where_expr cond (unfold marks in refl),
    length-append b.where_args args,
  )

  pub or_where-IsBalanced : IsBalanced b → IsBalanced (or_where cond args b)
  unfolding or_where
  or_where-IsBalanced v = ground (
    arith,
    marks-add_condition " OR (" b.where_expr cond (unfold marks in refl),
    length-append b.where_args args,
  )

  pub having-IsBalanced : IsBalanced b → IsBalanced (having cond args b)
  unfolding having
  having-IsBalanced v = ground (
    arith,
    marks-add_condition " AND (" b.having_expr cond (unfold marks in refl),
    length-append b.having_args args,
  )

marks_texts : (marks "?" ≡ 1) × (marks ", " ≡ 0) × (marks " IN (" ≡ 0)
unfolding marks
marks_texts = (refl, refl, refl)

marks_all-question_marks : (vs : List Value) → marks_all (question_marks vs) ≡ length vs
marks_all-question_marks [] = refl
marks_all-question_marks (v ∷ vs) = omega (arith, marks_texts, marks_all-question_marks vs)

marks-in_condition :
    (column : String) (vs : List Value)
    → marks column ≡ 0
    → marks (column ⧺ " IN (" ⧺ join ", " (question_marks vs) ⧺ ")") ≡ length vs
marks-in_condition column vs h = simp marks-append (
    omega (
      arith,
      marks_texts,
      marks_parenthesis,
      marks-join ", " (question_marks vs) marks_texts.1,
      marks_all-question_marks vs,
    ))

-- `WhereIn` on a column with no `?` keeps the builder balanced, whatever the values.
pub where_in-IsBalanced :
    (column : String) (values : InValues) (b : Builder)
    → marks column ≡ 0
    → IsBalanced b
    → IsBalanced (where_in column values b)
unfolding where_in
where_in-IsBalanced column invalid b h v = v
where_in-IsBalanced column (single x) b h v =
    and_where-IsBalanced _ _ b (unfold marks in rw (marks-append column " IN (?)") (omega arith)) v
where_in-IsBalanced column (items []) b h v =
    and_where-IsBalanced "1 = 0" [] b (unfold marks in refl) v
where_in-IsBalanced column (items (x ∷ xs)) b h v =
    and_where-IsBalanced _ _ b (marks-in_condition column (x ∷ xs) h) v
