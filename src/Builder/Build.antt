-- ===== src/Builder/Build.antt =====
-- The Build methods of core/builder.go. Each returns the builder, of which it changes only the
-- scratch, and the statement; with no dialect it panics, and is `none`.
use jorm.Base.{
  ℕ, suc, ℤ, String, Bool, Option, some, List, [], ◌∷◌, ◌++◌, Value, null, int, map, ltb, ◌⧺◌,
  ◌>>=◌, join, str_eq, sort_strings, if◌then◌else◌,
}
use jorm.Dialect.{Dialect, Statement}
use jorm.Builder.State.{Builder}
use jorm.Builder.Replace.{replace_placeholders}

-- `if len(xs) > 0 { text += prefix + strings.Join(xs, sep) }`
abbrev pub listed : String → String → List String → String
listed prefix sep [] = ""
listed prefix sep (x ∷ xs) = prefix ⧺ join sep (x ∷ xs)

-- `if expr != "" { text += prefix + expr }`
abbrev pub clause : String → String → String
clause prefix expr = if str_eq expr "" then "" else prefix ⧺ expr

abbrev pub when_set : Bool → String → String
when_set flag suffix = if flag then suffix else ""

-- The loop over the columns, with its index.
unfoldable pub write_columns : ℕ → List String → String
write_columns i [] = ""
write_columns i (col ∷ cols) = (if ltb 0 i then ", " else "") ⧺ col ⧺ write_columns (suc i) cols

unfoldable pub column_list : List String → String
unfolding write_columns
column_list [] = "*"
column_list (col ∷ cols) = write_columns 0 (col ∷ cols)

-- What `BuildSelect` writes before the placeholders are replaced.
unfoldable pub select_text : Dialect → Builder → String
unfolding column_list join
select_text d b =
    "SELECT "
    ⧺ column_list b.select_cols
    ⧺ " FROM "
    ⧺ d.quote b.table
    ⧺ clause " " b.alias
    ⧺ listed " " " " b.joins
    ⧺ clause " WHERE " b.where_expr
    ⧺ listed " GROUP BY " ", " b.group_by
    ⧺ clause " HAVING " b.having_expr
    ⧺ listed " ORDER BY " ", " b.order_by
    ⧺ when_set b.limit_set " LIMIT ?"
    ⧺ when_set b.offset_set " OFFSET ?"

-- `if len(xs) > 0 { args = append(args, ys...) }`
abbrev pub args_of_list : List String → List Value → List Value
args_of_list [] args = []
args_of_list (x ∷ xs) args = args

abbrev pub args_of_clause : String → List Value → List Value
args_of_clause expr args = if str_eq expr "" then [] else args

abbrev pub arg_when_set : Bool → ℤ → List Value
arg_when_set flag n = if flag then int n ∷ [] else []

unfoldable pub select_args : Builder → List Value
select_args b =
    args_of_list b.joins b.join_args
    ++ (args_of_clause b.where_expr b.where_args
        ++ (args_of_clause b.having_expr b.having_args
            ++ (arg_when_set b.limit_set b.limit ++ arg_when_set b.offset_set b.offset)))

-- The end of a Build method: the scratch holds `text`, whose placeholders are replaced.
unfoldable pub finish : Dialect → Builder → String → List Value → Builder × Statement
unfolding replace_placeholders
finish d b text args =
    let (sql, sb) = replace_placeholders d text text in (record b { sb = sb }, (sql, args))

unfoldable pub build_select : Builder → Option (Builder × Statement)
unfolding select_text select_args finish
build_select b = do d ← b.dialect; some (finish d b (select_text d b) (select_args b))

-- `BuildInsert`
unfoldable pub build_insert : List String → Builder → Option Statement
build_insert columns b = do d ← b.dialect; some (d.insert_sql b.table columns)

-- `map[string]any`: each key once, in no order that the source may rely on.
abbrev pub Data : Type 0
Data = List (String × Value)

-- `data[col]`; a missing key gives nil.
unfoldable pub value_at : Data → String → Value
value_at [] col = null
value_at ((k, v) ∷ rest) col = if str_eq k col then v else value_at rest col

abbrev pub keys : Data → List String
keys [] = []
keys ((k, v) ∷ rest) = k ∷ keys rest

-- The loop over the sorted columns, with its index.
unfoldable pub write_assignments : Dialect → ℕ → List String → String
write_assignments d i [] = ""
write_assignments d i (col ∷ cols) =
    (if ltb 0 i then ", " else "") ⧺ d.quote col ⧺ " = ?" ⧺ write_assignments d (suc i) cols

unfoldable pub update_text : Dialect → List String → Builder → String
unfolding write_assignments
update_text d columns b =
    "UPDATE "
    ⧺ d.quote b.table
    ⧺ " SET "
    ⧺ write_assignments d 0 columns
    ⧺ clause " WHERE " b.where_expr

unfoldable pub build_update : Data → Builder → Option (Builder × Statement)
unfolding update_text finish value_at sort_strings
build_update assigned b = do
  d ← b.dialect
  let columns = sort_strings (keys assigned)
  some (
      finish d b (update_text d columns b)
        (map (value_at assigned) columns ++ args_of_clause b.where_expr b.where_args))

unfoldable pub delete_text : Dialect → Builder → String
delete_text d b = "DELETE FROM " ⧺ d.quote b.table ⧺ clause " WHERE " b.where_expr

unfoldable pub build_delete : Builder → Option (Builder × Statement)
unfolding delete_text finish
build_delete b = do
  d ← b.dialect
  some (finish d b (delete_text d b) (args_of_clause b.where_expr b.where_args))
