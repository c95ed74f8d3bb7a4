-- ===== src/Dialect/Placeholders.antt =====
-- The loops that append a placeholder for each column, and for each row of each column.
use jorm.Base.{
  ℕ, zero, suc, ◌+◌, ◌≡◌, String, List, [], ◌∷◌, join, ◌⧺◌, length, arith, Bool, if◌then◌else◌,
}

-- `for range columns { placeholders = append(placeholders, mark) }`
unfoldable pub repeated : String → List String → List String
repeated mark [] = []
repeated mark (_ ∷ columns) = mark ∷ repeated mark columns

-- The same with a counter that starts at `i`.
unfoldable pub numbered : (ℕ → String) → ℕ → List String → List String
numbered mark i [] = []
numbered mark i (_ ∷ columns) = mark i ∷ numbered mark (i + 1) columns

-- `"(" + strings.Join(placeholders, ", ") + ")"`
abbrev pub parenthesised : List String → String
parenthesised placeholders = "(" ⧺ join ", " placeholders ⧺ ")"

-- `if flag { text += suffix }`
abbrev pub when : Bool → String → String
when flag suffix = if flag then suffix else ""

-- The statement of `InsertSQL`, which the five dialects share.
unfoldable pub insert_text : String → List String → List String → String
insert_text table columns placeholders =
    "INSERT INTO " ⧺ table ⧺ " (" ⧺ join ", " columns ⧺ ") VALUES (" ⧺ join ", " placeholders ⧺ ")"

-- The statement of `BatchInsertSQL`, which four of them share.
unfoldable pub batch_insert_text : String → List String → List String → String
batch_insert_text table columns rows =
    "INSERT INTO " ⧺ table ⧺ " (" ⧺ join ", " columns ⧺ ") VALUES " ⧺ join ", " rows

-- The statement of `CreateIndexSQL`, which the five share.
unfoldable pub create_index_text : String → String → List String → Bool → String
create_index_text index table columns unique =
    "CREATE "
    ⧺ when unique "UNIQUE "
    ⧺ "INDEX "
    ⧺ index
    ⧺ " ON "
    ⧺ table
    ⧺ " ("
    ⧺ join ", " columns
    ⧺ ")"

-- `count` rows of the same placeholders.
unfoldable pub repeated_rows : String → List String → ℕ → List String
unfolding repeated
repeated_rows mark columns zero = []
repeated_rows mark columns (suc count) =
    parenthesised (repeated mark columns) ∷ repeated_rows mark columns count

-- `count` rows, whose counter goes on from row to row.
unfoldable pub numbered_rows :
    (List String → String) → (ℕ → String) → ℕ → List String → ℕ → List String
unfolding numbered
numbered_rows row mark i columns zero = []
numbered_rows row mark i columns (suc count) =
    row (numbered mark i columns) ∷ numbered_rows row mark (i + length columns) columns count

pub length-repeated : (mark : String) (cs : List String) → length (repeated mark cs) ≡ length cs
unfolding repeated
length-repeated mark [] = omega arith
length-repeated mark (c ∷ cs) = omega (arith, length-repeated mark cs)

pub length-numbered :
    (mark : ℕ → String) (i : ℕ) (cs : List String) → length (numbered mark i cs) ≡ length cs
unfolding numbered
length-numbered mark i [] = omega arith
length-numbered mark i (c ∷ cs) = omega (arith, length-numbered mark (i + 1) cs)
