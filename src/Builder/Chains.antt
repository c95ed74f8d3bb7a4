-- ===== src/Builder/Chains.antt =====
-- The statements that a chain of calls on a new builder ends in.
use jorm.Base.{
  ◌≡◌, String, some, List, ◌++◌, Value, map, marks, marks_all, length, All, arith, sort_strings,
}
use jorm.Dialect.{Dialect}
use jorm.Dialect.Laws.{KeepsMarks, IsPositional, IsNumbered}
use jorm.Builder.Numbering.{substitute_positional, marks-substitute_numbered}
use jorm.Builder.State.{Builder, BuilderPool, new_builder}
use jorm.Builder.Build.{
  select_text, select_args, build_select, build_update, build_delete, update_text, delete_text,
  args_of_clause, Data, keys, value_at,
}
use jorm.Builder.Calls.{Call, run, Fits}
use jorm.Builder.Statements.{
  Numbers, run-IsBuilt, build_select-Numbers, build_update-Numbers, build_delete-Numbers,
}

module _ (d : Dialect) (pool : BuilderPool) (cs : List Call) (b : Builder) (quoted : KeepsMarks d)
    (fits : All Fits cs) (done : run cs (new_builder d pool).0 ≡ some b) where
  -- After a chain of calls that give an argument for each `?` and put no `?` in a name,
  -- `BuildSelect`, `BuildUpdate` and `BuildDelete` return a statement whose text before the
  -- replacement has exactly one `?` for each returned argument, and in which the i-th `?`, from
  -- the left and from 1, is the dialect's placeholder of i. Of the builder they change the scratch
  -- alone. The assigned columns of the update have no `?` either.
  pub run-Numbers :
      (assigned : Data)
      → marks_all (keys assigned) ≡ 0
      → let cols = sort_strings (keys assigned) in
        let args = args_of_clause b.where_expr b.where_args in
        Numbers d b (select_text d b) (select_args b) (build_select b)
        × Numbers d b
            (update_text d cols b)
            (map (value_at assigned) cols ++ args)
            (build_update assigned b)
        × Numbers d b (delete_text d b) args (build_delete b)
  run-Numbers assigned h =
      let v = run-IsBuilt d pool cs b fits done in
      (
        build_select-Numbers d b quoted v,
        build_update-Numbers d b quoted v assigned h,
        build_delete-Numbers d b quoted v,
      )

  -- With a dialect whose placeholder is `?`, the SELECT that `BuildSelect` returns, after a chain of
  -- calls that give an argument for each `?` and put no `?` in a name, has as many `?` as it has
  -- arguments.
  pub build_select_positional :
      IsPositional d
      → {b' : Builder} {sql : String} {args : List Value} → build_select b ≡ some (b', (sql, args))
      → marks sql ≡ length args
  build_select_positional same e =
      let (sb, built, counted) =
        build_select-Numbers d b quoted (run-IsBuilt d pool cs b fits done) in
      let kept = substitute_positional d.placeholder 1 (select_text d b) same in
      ground (arith, built, counted, kept)

  -- With a dialect whose placeholders show their number, the SELECT that `BuildSelect` returns, after
  -- a chain of calls that give an argument for each `?` and put no `?` in a name, has no `?` left.
  pub build_select_numbered :
      IsNumbered d
      → {b' : Builder} {sql : String} {args : List Value} → build_select b ≡ some (b', (sql, args))
      → marks sql ≡ 0
  build_select_numbered n e =
      let (sb, built, counted) =
        build_select-Numbers d b quoted (run-IsBuilt d pool cs b fits done) in
      let none_left = marks-substitute_numbered d.placeholder 1 (select_text d b) n.no_marks in
      ground (arith, built, none_left)
