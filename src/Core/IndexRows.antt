-- ===== src/Core/IndexRows.antt =====
-- `syncIndexes` on the indexes that Postgres lists.
use jorm.Base.{
  ◌≡◌, refl, ap, ◌∙◌, true, String, some, List, [], ◌∷◌, ◌++◌, ◌⧺◌, All, All-map, arith, map, join,
  Option, none, to_lower, eq_iff,
}
use mathlib.Core.List.{append-nil}
use jorm.Model.{Field, Model}
use jorm.Model.Splits.{lacks}
use jorm.Dialect.Rows.{Indexes}
use jorm.Dialect.Postgres
use jorm.Dialect.RowLaws.{
  IsPlain, is_open, columns_under, listed_under, columns_in-join, index_by_row-listed,
}
use jorm.Core.Health.{Error}
use jorm.Core.Schema.{
  Answer, unparsed, Catalog, done, yields, same_columns, same_index, has_index, sync_indexes,
}
use jorm.Core.SchemaLaws.{IsIndexed, sync_indexes-IsIndexed}

-- What `syncIndexes` gets from the parser.
unfoldable pub parsed : Error → Option Indexes → Answer Indexes
parsed scan_error none = unparsed scan_error
parsed scan_error (some indexes) = yields indexes

-- An index over just a column, under whatever name, is found.
has_index-columns_under :
    (name k c : String) (indexes : Indexes)
    → columns_under k indexes ≡ c ∷ []
    → has_index name (c ∷ []) indexes ≡ true
unfolding has_index same_index same_columns columns_under
has_index-columns_under name k c [] h = ground arith
has_index-columns_under name k c ((n, cols) ∷ indexes) h =
    ground (arith, h, has_index-columns_under name k c indexes, eq_iff (to_lower c) (to_lower c))

columns_of_all : List String → List String
columns_of_all [] = []
columns_of_all (def ∷ defs) = Postgres.columns_in def ++ columns_of_all defs

-- The texts of the rows with a name.
unfoldable pub definitions_under : String → List (String × String) → List String
unfolding listed_under
definitions_under k rows = listed_under (λ r. r.0) (λ r. r.1 ∷ []) k rows

listed_under-definitions_under :
    (k : String) (rows : List (String × String))
    → listed_under (λ r. r.0) (λ r. Postgres.columns_in r.1) k rows
      ≡ columns_of_all (definitions_under k rows)
unfolding listed_under definitions_under columns_of_all
listed_under-definitions_under k [] = refl
listed_under-definitions_under k (r ∷ rows) = ground (arith, listed_under-definitions_under k rows)

-- Where the field is unique, just one row is an index over its column alone, and no other row has the
-- name of this index.
unfoldable pub IsListed : List (String × String) → Field → Type 0
unfolding definitions_under lacks IsPlain
IsListed rows field =
    field.is_unique ≡ true
    → (name : String) × (before : String) × (definitions_under name rows
        ≡ (before ⧺ ("(" ⧺ (field.column ⧺ ")"))) ∷ [])
      × (lacks is_open before ≡ true)
      × IsPlain field.column

module _ {W : Type 0} (catalog : Catalog W) (m : Model) where
  IsListed-IsIndexed :
      (rows : List (String × String)) (indexes : Indexes) (field : Field)
      → ((k : String) → columns_under k indexes ≡ columns_of_all (definitions_under k rows))
      → IsListed rows field
      → IsIndexed catalog Postgres.dialect m indexes field
  unfolding IsListed IsIndexed columns_of_all join
  IsListed-IsIndexed rows indexes field under listed unique =
      let (name, before, one, opens, plain) = listed unique in
      let columns = columns_in-join before field.column [] opens (plain, tt) in
      has_index-columns_under _ name field.column indexes
        (under name ∙ ap columns_of_all one ∙ append-nil _ ∙ columns)

  -- On Postgres, whose answer for the indexes of the table are rows that can be scanned: if every
  -- unique field has a row with an index of its column alone, written as `(column)` at the end of a
  -- text without another opening parenthesis before it, under any name that no other row has, and its
  -- column has no comma and no space, then `syncIndexes` runs no statement and succeeds.
  pub sync_indexes-listed :
      (scan_error : Error) (rows : List (String × String)) (w : W)
      → catalog.indexes (Postgres.dialect.get_indexes_sql m.table_name) w
        ≡ parsed scan_error (Postgres.parse_indexes (map some rows))
      → All (IsListed rows) m.fields
      → sync_indexes catalog Postgres.dialect m w ≡ done w
  unfolding Postgres.parse_indexes listed_under columns_of_all columns_under parsed
  sync_indexes-listed scan_error rows w answer listed =
      let (indexes, e, under) =
        index_by_row-listed (λ r. r.0) (λ r. Postgres.columns_in r.1) [] rows in
      sync_indexes-IsIndexed catalog Postgres.dialect m indexes w
        (answer ∙ ap (parsed scan_error) e)
        (All-map (IsListed rows) (IsIndexed catalog Postgres.dialect m indexes) m.fields
          (λ field.
            IsListed-IsIndexed rows indexes field
              (λ k. under k ∙ listed_under-definitions_under k rows))
          listed)
