-- ===== src/Builder/Replace.antt =====
-- `replacePlaceholders` of core/builder.go.
use jorm.Base.{
  ℕ, zero, suc, ◌+◌, String, Option, none, some, ◌⧺◌, contains, marks, is_mark, if◌then◌else◌,
}
use jorm.Dialect.{Dialect}

-- `idx := strings.Index(sql, "?")` with `sql[:idx]` and `sql[idx+1:]`; `none` is -1.
unfoldable pub cut_mark : String → Option (String × String)
cut_mark String.[] = none
cut_mark (String.◌∷◌ c s) = if is_mark c then some ("", s) else elim (cut_mark s) [
  | none ↦ none
  | some (before, after) ↦ some (String.◌∷◌ c before, after)
]

-- The `for` loop; `out` is what the string builder holds.
unfoldable pub replace_loop : ℕ → (ℕ → String) → ℕ → String → String → String
unfolding cut_mark
replace_loop zero placeholder index out sql = out
replace_loop (suc fuel) placeholder index out sql = elim (cut_mark sql) [
  | none ↦ out ⧺ sql
  | some (before, after) ↦
      replace_loop fuel placeholder (index + 1) ((out ⧺ before) ⧺ placeholder index) after
]

-- The fuel is one round for each `?` and one to end; the second part is what the string builder
-- holds afterwards.
unfoldable pub replace_placeholders : Dialect → String → String → String × String
unfolding contains replace_loop marks
replace_placeholders d sb sql =
    if contains sql "?"
    then (let out = replace_loop (suc (marks sql)) d.placeholder 1 "" sql in (out, out))
    else (sql, sb)
