-- ===== src/Builder/Statements.antt =====
-- What the Build methods return after a chain of calls on a new builder.
use jorm.Base.{
  ℕ, suc, ◌+◌, ◌≡◌, refl, ap, ◌∙◌, String, Option, some, List, [], ◌∷◌, ◌++◌, Value, map, ◌>>=◌,
  marks, marks-append, marks_all, length, length-append, All, arith, Option-cases, inl, inr, ltb,
  sort_strings, insert_sorted,
}
use jorm.Dialect.{Dialect, Statement}
use jorm.Dialect.Laws.{KeepsMarks}
use jorm.Builder.Replace.{replace_placeholders}
use jorm.Builder.Numbering.{substitute, replace_placeholders-substitute}
use jorm.Builder.State.{
  Builder, BuilderPool, new_builder, set_table, set_alias, select, and_where, or_where, where_in,
  InValues, invalid, single, items, add_joins, add_group_by, having, add_order_by, set_limit,
  set_offset,
}
use jorm.Builder.Build.{
  select_text, select_args, finish, build_select, build_update, build_delete, update_text,
  delete_text, write_assignments, args_of_clause, Data, keys, value_at,
}
use jorm.Builder.Balance.{
  IsBalanced, marks-select_text, marks-clause, length-args_of_clause, separator,
}
use jorm.Builder.Calls.{
  Call, wheres, or_wheres, havings, joins, where_ins, apply, run, Fits, run-IsBalanced,
  new_builder-IsBalanced,
}

dialect-where_in :
    (column : String) (values : InValues) (b : Builder)
    → (where_in column values b).dialect ≡ b.dialect
unfolding where_in and_where
dialect-where_in column invalid b = refl
dialect-where_in column (single v) b = ground arith
dialect-where_in column (items []) b = ground arith
dialect-where_in column (items (v ∷ vs)) b = ground arith

-- No call changes the dialect.
dialect-apply : (c : Call) (b b' : Builder) → apply c b ≡ some b' → b'.dialect ≡ b.dialect
unfolding apply set_table set_alias select add_group_by add_order_by set_limit set_offset
dialect-apply (where_ins column values) b b' e = ground (arith, dialect-where_in column values b)
dialect-apply (wheres cond args) b b' e = unfold and_where in ground arith
dialect-apply (or_wheres cond args) b b' e = unfold or_where in ground arith
dialect-apply (havings cond args) b b' e = unfold having in ground arith
dialect-apply (joins query args) b b' e = unfold add_joins in ground arith
dialect-apply _ b b' e = ground arith

dialect-run : (cs : List Call) (b b' : Builder) → run cs b ≡ some b' → b'.dialect ≡ b.dialect
unfolding run
dialect-run [] b b' e = ground arith
dialect-run (c ∷ cs) b b' e = elim (Option-cases (apply c b)) [
  | inl panics ↦ ground arith
  | inr (next, done) ↦ dialect-run cs next b' (ground arith) ∙ dialect-apply c b next done
]

-- A builder that a chain of fitting calls makes from a new builder of the dialect.
pub record IsBuilt (d : Dialect) (b : Builder) : Type 0 where
  pub bound : b.dialect ≡ some d
  pub balanced : IsBalanced b

pub run-IsBuilt :
    (d : Dialect) (pool : BuilderPool) (cs : List Call) (b : Builder)
    → All Fits cs
    → run cs (new_builder d pool).0 ≡ some b
    → IsBuilt d b
run-IsBuilt d pool cs b fits done = record {
  bound = dialect-run cs _ b done ∙ unfold new_builder in refl;
  balanced = run-IsBalanced cs _ b fits (new_builder-IsBalanced d pool) done;
}

finish-substitute :
    (d : Dialect) (b : Builder) (text : String) (args : List Value)
    → (sb : String) × (finish d b text args
        ≡ (record b { sb = sb }, (substitute d.placeholder 1 text, args)))
unfolding finish
finish-substitute d b text args = (
  (replace_placeholders d text text).1,
  ground (arith, replace_placeholders-substitute d text text),
)

bind_some {ℓ κ} :
    {A : Type ℓ} {B : Type κ} {o : Option A} {a : A}
    → o ≡ some a
    → (k : A → Option B) → (o >>= k) ≡ k a
bind_some e k = ap (λ x. x >>= k) e

-- A Build method returned `text` with its marks numbered from 1, and an argument for each mark;
-- of the builder it changed the scratch alone.
abbrev pub Numbers : Dialect → Builder → String → List Value → Option (Builder × Statement) → Type 0
Numbers d b text args built =
    (sb : String) × (built ≡ some (record b { sb = sb }, (substitute d.placeholder 1 text, args)))
    × (marks text ≡ length args)

marks_assignment : marks " = ?" ≡ 1
unfolding marks
marks_assignment = refl

marks_all-insert_sorted :
    (s : String) (ss : List String) → marks_all (insert_sorted s ss) ≡ marks s + marks_all ss
unfolding insert_sorted
marks_all-insert_sorted s [] = refl
marks_all-insert_sorted s (t ∷ ts) = ground (arith, marks_all-insert_sorted s ts)

marks_all-sort_strings : (ss : List String) → marks_all (sort_strings ss) ≡ marks_all ss
unfolding sort_strings
marks_all-sort_strings [] = refl
marks_all-sort_strings (s ∷ ss) =
    marks_all-insert_sorted s (sort_strings ss) ∙ ap (λ n. marks s + n) (marks_all-sort_strings ss)

length-map {ℓ κ} :
    {A : Type ℓ} {B : Type κ} (f : A → B) (xs : List A) → length (map f xs) ≡ length xs
length-map f [] = refl
length-map f (x ∷ xs) = ap suc (length-map f xs)

module _ (d : Dialect) (b : Builder) (quoted : KeepsMarks d) (v : IsBuilt d b) where
  pub build_select-Numbers : Numbers d b (select_text d b) (select_args b) (build_select b)
  unfolding build_select
  build_select-Numbers =
      let (sb, e) = finish-substitute d b (select_text d b) (select_args b) in
      (sb, bind_some v.bound _ ∙ ap some e, marks-select_text d b quoted v.balanced)

  pub build_delete-Numbers :
      Numbers d b (delete_text d b) (args_of_clause b.where_expr b.where_args) (build_delete b)
  unfolding build_delete delete_text
  build_delete-Numbers =
      let args = args_of_clause b.where_expr b.where_args in
      let (sb, e) = finish-substitute d b (delete_text d b) args in
      (
        sb,
        bind_some v.bound _ ∙ ap some e,
        rw (marks-append, marks-append, quoted)
            (unfold marks in
              omega (
                arith,
                marks-clause " WHERE " b.where_expr refl,
                length-args_of_clause b.where_expr b.where_args v.balanced.wheres,
                v.balanced.table_name,
              )),
      )

  marks-write_assignments :
      (i : ℕ) (cs : List String) → marks_all cs ≡ 0 → marks (write_assignments d i cs) ≡ length cs
  unfolding write_assignments
  marks-write_assignments i [] h = unfold marks in refl
  marks-write_assignments i (c ∷ cs) h =
      simp (marks-append, quoted)
        (omega (
          arith,
          separator (ltb 0 i),
          marks_assignment,
          marks-write_assignments (suc i) cs (omega arith),
        ))

  marks-update_text :
      (cols : List String)
      → marks_all cols ≡ 0
      → marks (update_text d cols b) ≡ length cols + marks b.where_expr
  unfolding update_text
  marks-update_text cols h =
      simp (marks-append, quoted)
        (unfold marks in
          omega (
            arith,
            v.balanced.table_name,
            marks-write_assignments 0 cols h,
            marks-clause " WHERE " b.where_expr refl,
          ))

  pub build_update-Numbers :
      (assigned : Data)
      → marks_all (keys assigned) ≡ 0
      → let cols = sort_strings (keys assigned) in
        Numbers d b
          (update_text d cols b)
          (map (value_at assigned) cols ++ args_of_clause b.where_expr b.where_args)
          (build_update assigned b)
  unfolding build_update
  build_update-Numbers assigned h =
      let cols = sort_strings (keys assigned) in
      let args = args_of_clause b.where_expr b.where_args in
      let (sb, e) =
        finish-substitute d b (update_text d cols b) (map (value_at assigned) cols ++ args) in
      (
        sb,
        bind_some v.bound _ ∙ ap some e,
        rw (length-append, length-map)
            (omega (
              arith,
              marks-update_text cols (marks_all-sort_strings (keys assigned) ∙ h),
              length-args_of_clause b.where_expr b.where_args v.balanced.wheres,
            )),
      )
