-- ===== src/Preload/Load.antt =====
-- The statements of the preloads, and the maps made of their rows. A builder comes from the pool and
-- goes back to it; which one it is makes no difference.
pub use jorm.Base.Fallible.{Fallible, ok, fails, panics, then_do, or_panic}
use jorm.Base.{
  Bool, true, false, String, Option, none, some, List, [], ◌∷◌, ◌++◌, ◌>>=◌, ◌⧺◌, str_eq, map,
  Value, if◌then◌else◌,
}
use jorm.Model.{Field, Model}
use jorm.Model.Relation.{Relation}
use jorm.Dialect.{Dialect, Statement}
use jorm.Builder.State.{
  Builder, BuilderPool, new_builder, select, set_table, set_alias, where_in, items,
}
use jorm.Builder.Build.{build_select}
use jorm.Preload.Keys.{Keys}
use jorm.Preload.Groups.{find, group_rows, index_rows, append_to}

-- The first field with the name has its column.
unfoldable pub column_of_name : String → List Field → String
column_of_name name [] = name
column_of_name name (f ∷ fields) =
    let rest = column_of_name name fields in if str_eq f.name name then f.column else rest

unfoldable pub has_column : String → List Field → Bool
has_column column [] = false
has_column column (f ∷ fields) =
    let rest = has_column column fields in if str_eq f.column column then true else rest

-- The name of a column or of a field. An entry of `FieldMap` is under its own column.
unfoldable pub column_name : Model → String → String
unfolding column_of_name has_column
column_name m name = if has_column name m.fields then name else column_of_name name m.fields

-- `config.builder`, or none. It changes the builder, and may panic.
abbrev pub Custom : Type 0
Custom = Option (Builder → Option Builder)

unfoldable pub customised : Custom → Builder → Option Builder
customised none b = some b
customised (some change) b = change b

-- The rows of a statement, scanned into objects, or the first error of the query or the scan.
abbrev pub Fetch : Type 0 → Type 0 → Type 0
Fetch E A = Statement → Fallible E (List A)

-- All the references of the map, in the order of its entries; Go's order is any.
unfoldable pub all_refs : {K : Type 0} → List (K × List K) → List K
all_refs [] = []
all_refs ((fk, refs) ∷ entries) = refs ++ all_refs entries

module _ {K C : Type 0} (keys : Keys K) where
  -- The inner loop of the third step.
  unfoldable pub add_refs : List (K × C) → K → List K → List (K × List C) → List (K × List C)
  unfolding find append_to
  add_refs related fk [] result = result
  add_refs related fk (ref ∷ refs) result = elim (find keys ref related) [
    | none ↦ add_refs related fk refs result
    | some c ↦ add_refs related fk refs (append_to keys fk c result)
  ]

  unfoldable pub add_all_refs :
      List (K × C) → List (K × List K) → List (K × List C) → List (K × List C)
  unfolding add_refs
  add_all_refs related [] result = result
  add_all_refs related ((fk, refs) ∷ entries) result =
      add_all_refs related entries (add_refs related fk refs result)

module _ (d : Dialect) (pool : BuilderPool) where
  unfoldable pub related_statement : Model → Custom → String → List Value → Option Statement
  unfolding customised build_select new_builder select set_table where_in
  related_statement m custom column ids = do
    b ← customised custom (
        where_in column (items ids)
          (set_table m.table_name (select ("*" ∷ []) (new_builder d pool).0)))
    built ← build_select b
    some built.1

  unfoldable pub join_statement : Relation → List Value → Option Statement
  unfolding build_select new_builder select set_table set_alias where_in
  join_statement r ids = do
    built ← build_select (
        where_in ("jt." ⧺ r.join_fk) (items ids) (
          set_alias "jt" (
            set_table r.join_table
              (select (("jt." ⧺ r.join_fk) ∷ ("jt." ⧺ r.join_ref) ∷ []) (new_builder d pool).0))))
    some built.1

  module _ {K : Type 0} (keys : Keys K) {E C : Type 0} (fetch : Fetch E C) where
    -- `queryHasRelationData`: the related objects by their foreign key. `child_key` is
    -- `getFieldValue` for a column.
    unfoldable pub has_data :
        (String → C → K) → Model → Relation → Custom → List K → Fallible E (List (K × List C))
    unfolding related_statement column_name group_rows
    has_data child_key m r custom ids =
        let column = column_name m r.foreign_key in
        then_do (or_panic (related_statement m custom column (map keys.argument ids)))
          λ s. then_do (fetch s) λ rows. ok (group_rows keys (child_key column) (λ c. c) rows [])

    -- `queryBelongsToData`: the related object by its own key, the last one of those with the same.
    unfoldable pub belongs_to_data :
        (String → C → K) → Model → Relation → Custom → List K → Fallible E (List (K × C))
    unfolding related_statement column_name index_rows
    belongs_to_data child_key m r custom ids =
        let column = column_name m r.references in
        then_do (or_panic (related_statement m custom column (map keys.argument ids)))
          λ s. then_do (fetch s) λ rows. ok (index_rows keys (child_key column) rows [])

    -- The second and third steps, after the rows of the join table. A related model without a primary
    -- key is a nil pointer.
    unfoldable pub related_data :
        (String → C → K)
        → Model
        → Custom
        → List (K × List K)
        → List K
        → Fallible E (List (K × List C))
    unfolding related_statement index_rows add_all_refs
    related_data child_key m custom entries [] = ok []
    related_data child_key m custom entries (ref ∷ refs) = then_do (or_panic m.pk_field) λ pk.
        then_do (or_panic (related_statement m custom pk.column (map keys.argument (ref ∷ refs))))
          λ s. then_do (fetch s) λ rows.
            ok (add_all_refs keys (index_rows keys (child_key pk.column) rows []) entries [])

    unfoldable pub joined_data :
        (String → C → K) → Model → Custom → List (K × List K) → Fallible E (List (K × List C))
    unfolding related_data all_refs
    joined_data child_key m custom entries =
        related_data child_key m custom entries (all_refs entries)

    -- `queryManyToManyData`. The pairs are a foreign key and a reference, as the driver gives them.
    unfoldable pub many_to_many_data :
        Fetch E (K × K)
        → (String → C → K)
        → Model
        → Relation
        → Custom
        → List K
        → Fallible E (List (K × List C))
    unfolding join_statement joined_data group_rows
    many_to_many_data fetch_pairs child_key m r custom ids =
        then_do (or_panic (join_statement r (map keys.argument ids))) λ s.
          then_do (fetch_pairs s)
            λ pairs. joined_data child_key m custom (group_rows keys (λ p. p.0) (λ p. p.1) pairs [])
