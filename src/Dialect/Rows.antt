-- ===== src/Dialect/Rows.antt =====
-- The loops of `ParseColumns` and `ParseIndexes`, which the five dialects share. Of the rows, `none` is one that `rows.Scan`
-- cannot read; that the rows end by an error is not seen, since `rows.Err` is not read. A map from the
-- names of indexes to their columns is an association list.
use jorm.Base.{
  String, Option, none, some, List, [], ◌∷◌, ◌++◌, ◌>>=◌, str_eq, traverse, if◌then◌else◌,
}

abbrev pub Indexes : Type 0
Indexes = List (String × List String)

-- `indexes[name] = append(indexes[name], col)`
unfoldable pub append_column : String → String → Indexes → Indexes
append_column name col [] = (name, col ∷ []) ∷ []
append_column name col ((n, cols) ∷ indexes) =
    let rest = append_column name col indexes in
    if str_eq n name then (n, cols ++ col ∷ []) ∷ indexes else (n, cols) ∷ rest

-- The inner loop over the columns of one index.
unfoldable pub append_columns : String → List String → Indexes → Indexes
unfolding append_column
append_columns name [] indexes = indexes
append_columns name (col ∷ cols) indexes = append_columns name cols (append_column name col indexes)

-- `indexes[name] = []string{}`
unfoldable pub put_empty : String → Indexes → Indexes
put_empty name [] = (name, []) ∷ []
put_empty name ((n, cols) ∷ indexes) =
    let rest = put_empty name indexes in
    if str_eq n name then (n, []) ∷ indexes else (n, cols) ∷ rest

-- The loop over the rows; the name of an index and the columns that its row gives.
module _ {R : Type 0} (name : R → String) (columns : R → List String) where
  unfoldable pub index_by_row : Indexes → List (Option R) → Option Indexes
  unfolding append_columns
  index_by_row indexes [] = some indexes
  index_by_row indexes (none ∷ rows) = none
  index_by_row indexes (some r ∷ rows) =
      index_by_row (append_columns (name r) (columns r) indexes) rows

-- The loop over rows of one name.
unfoldable pub parse_names : (String → String) → List (Option String) → Option (List String)
unfolding traverse
parse_names f rows = traverse (λ row. row >>= λ name. some (f name)) rows
