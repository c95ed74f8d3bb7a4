-- ===== src/Dialect/RowLaws.antt =====
-- The indexes that the dialects read, under their names.
use text.Mathlib.TextLemmas.{nil-append, cons-append, append_assoc}
use mathlib.Core.List.{append-nil}
use jorm.Base.{
  ◌≡◌, refl, sym, ap, ◌∙◌, Bool, true, false, String, some, List, [], ◌∷◌, ◌++◌, ◌⧺◌, All, arith,
  map, join, str_eq, eq_iff, code, Char, ◌==◌, trim_space, is_space, trim_left, trim_right,
  if◌then◌else◌, Bool-cases, inl, inr, Bool-cases, inl, inr,
}
use mathlib.Core.List.{append_assoc as list_assoc}
use jorm.Model.Tag.{split_by}
use jorm.Model.Splits.{
  lacks, split_by-lacks, split_by-append, trim_space-lacks, lacks-trim_left, lacks-trim_right,
}
use jorm.Dialect.Rows.{Indexes, append_column, append_columns, index_by_row}
use jorm.Dialect.Postgres.{after_open, before_close, is_comma, columns_in}

-- The columns of an index, none where there is no such index.
unfoldable pub columns_under : String → Indexes → List String
columns_under name [] = []
columns_under name ((n, cols) ∷ indexes) =
    let rest = columns_under name indexes in if str_eq n name then cols else rest

columns_under-append_column :
    (name k col : String) (indexes : Indexes)
    → columns_under k (append_column name col indexes)
      ≡ (if str_eq name k then columns_under k indexes ++ col ∷ [] else columns_under k indexes)
unfolding append_column columns_under
columns_under-append_column name k col [] = refl
columns_under-append_column name k col ((n, cols) ∷ indexes) = ground (
  arith,
  columns_under-append_column name k col indexes,
  eq_iff n name,
  eq_iff n k,
  eq_iff name k,
)

columns_under-append_columns :
    (name k : String) (cols : List String) (indexes : Indexes)
    → columns_under k (append_columns name cols indexes)
      ≡ (if str_eq name k then columns_under k indexes ++ cols else columns_under k indexes)
unfolding append_columns
columns_under-append_columns name k [] indexes =
    ground (arith, append-nil (columns_under k indexes))
columns_under-append_columns name k (col ∷ cols) indexes = ground (
  arith,
  columns_under-append_columns name k cols (append_column name col indexes),
  columns_under-append_column name k col indexes,
  list_assoc (columns_under k indexes) (col ∷ []) cols,
)

module _ {R : Type 0} (name : R → String) (columns : R → List String) where
  -- The columns that the rows with a name give, one after the other.
  unfoldable pub listed_under : String → List R → List String
  listed_under k [] = []
  listed_under k (r ∷ rows) =
      let rest = listed_under k rows in if str_eq (name r) k then columns r ++ rest else rest

  -- Rows that can be read give indexes, each with the columns of all of the rows with its name.
  pub index_by_row-listed :
      (indexes : Indexes) (rows : List R)
      → (read : Indexes) × (index_by_row name columns indexes (map some rows) ≡ some read)
        × ((k : String) → columns_under k read ≡ columns_under k indexes ++ listed_under k rows)
  unfolding index_by_row listed_under
  index_by_row-listed indexes [] = (indexes, refl, λ k. sym (append-nil (columns_under k indexes)))
  index_by_row-listed indexes (r ∷ rows) =
      let (read, e, under) =
        index_by_row-listed (append_columns (name r) (columns r) indexes) rows in
      (
        read,
        e,
        λ k. ground (
          arith,
          under k,
          columns_under-append_columns (name r) k (columns r) indexes,
          list_assoc (columns_under k indexes) (columns r) (listed_under k rows),
        ),
      )

abbrev pub is_open : Char → Bool
is_open c = code c == 40

after_open-append : (s t : String) → lacks is_open s ≡ true → after_open (s ⧺ ("(" ⧺ t)) ≡ some t
unfolding after_open lacks
after_open-append String.[] t h = rw (nil-append, cons-append, nil-append) refl
after_open-append (String.◌∷◌ c s) t h = rw cons-append (ground (arith, after_open-append s t))

before_close-append : (t : String) → before_close (t ⧺ ")") ≡ some t
unfolding before_close
before_close-append String.[] = refl
before_close-append (String.◌∷◌ c t) = rw cons-append (ground (arith, before_close-append t))

-- A name that the parser of a list of columns does not change.
unfoldable pub IsPlain : String → Type 0
IsPlain c = (lacks is_comma c ≡ true) × (lacks is_space c ≡ true)

lacks-after :
    (test : Char → Bool) (c : String)
    → test " " ≡ false
    → lacks test c ≡ true
    → lacks test (" " ⧺ c) ≡ true
unfolding lacks
lacks-after test c h k = rw (cons-append, nil-append, h) k

split_by-comma :
    (c t : String)
    → lacks is_comma c ≡ true
    → split_by is_comma (c ⧺ (", " ⧺ t)) ≡ c ∷ split_by is_comma (" " ⧺ t)
split_by-comma c t h =
    ap (λ u. split_by is_comma (c ⧺ u)) (cons-append "," " " t)
    ∙ split_by-append is_comma c "," (" " ⧺ t) h refl

split_by-after :
    (c : String) (cs : List String)
    → All IsPlain (c ∷ cs)
    → split_by is_comma (" " ⧺ join ", " (c ∷ cs)) ≡ map (λ d. " " ⧺ d) (c ∷ cs)
unfolding IsPlain join
split_by-after c [] ((h, _), _) = split_by-lacks is_comma (" " ⧺ c) (lacks-after is_comma c refl h)
split_by-after c (d ∷ cs) ((h, _), hs) =
    ap (split_by is_comma) (sym (append_assoc " " c (", " ⧺ join ", " (d ∷ cs))))
    ∙ split_by-comma (" " ⧺ c) (join ", " (d ∷ cs)) (lacks-after is_comma c refl h)
    ∙ ap (λ ps. (" " ⧺ c) ∷ ps) (split_by-after d cs hs)

differs : (b : Char) (c : String) → str_eq (String.◌∷◌ b c) "" ≡ false
unfolding lacks
differs b c = elim (Bool-cases (str_eq (String.◌∷◌ b c) "")) [
  | inl same ↦
      let e = ap (lacks (λ _. true)) ((eq_iff (String.◌∷◌ b c) "").0 same) in ground (arith, e)
  | inr other ↦ other
]

trim_space-after : (c : String) → IsPlain c → trim_space (" " ⧺ c) ≡ c
unfolding IsPlain trim_space trim_left trim_right is_space
trim_space-after String.[] h = refl
trim_space-after (String.◌∷◌ b c) (_, h) =
    let kept = lacks-trim_right (String.◌∷◌ b c) h in
    rw (cons-append, nil-append, kept, differs b c) (lacks-trim_left (String.◌∷◌ b c) h)

map-trim_space : (cs : List String) → All IsPlain cs → map trim_space (map (λ d. " " ⧺ d) cs) ≡ cs
map-trim_space [] h = refl
map-trim_space (c ∷ cs) (h, hs) = rw (trim_space-after c h, map-trim_space cs hs) refl

split_by-columns :
    (c : String) (cs : List String)
    → All IsPlain (c ∷ cs)
    → map trim_space (split_by is_comma (join ", " (c ∷ cs))) ≡ c ∷ cs
unfolding IsPlain join
split_by-columns c [] ((h, k), _) =
    rw (split_by-lacks is_comma c h) (ap (λ d. d ∷ []) (trim_space-lacks c k))
split_by-columns c (d ∷ cs) ((h, k), hs) =
    rw (split_by-comma c (join ", " (d ∷ cs)) h, split_by-after d cs hs, trim_space-lacks c k)
      (ap (λ ds. c ∷ ds) (map-trim_space (d ∷ cs) hs))

-- The columns in the text that Postgres prints for an index are those of the index.
pub columns_in-join :
    (before : String) (c : String) (cs : List String)
    → lacks is_open before ≡ true
    → All IsPlain (c ∷ cs)
    → columns_in (before ⧺ ("(" ⧺ (join ", " (c ∷ cs) ⧺ ")"))) ≡ c ∷ cs
unfolding columns_in
columns_in-join before c cs h hs =
    rw
      (
        columns_in,
        after_open-append before (join ", " (c ∷ cs) ⧺ ")") h,
        before_close-append (join ", " (c ∷ cs)),
      )
      (split_by-columns c cs hs)
