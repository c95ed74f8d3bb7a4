-- ===== src/Preload/Execute.antt =====
-- The execution of a preload on the objects of a query: `execute`, the three kinds of relations, and
-- `executeNested`. What reflection does to the objects is given by the functions of a `Level`. An
-- error ends it, and what was assigned until then is not looked at.
use jorm.Base.{
  Bool, true, false, not, String, Option, none, some, List, [], ◌∷◌, map, filter, str_eq,
  if◌then◌else◌,
}
use jorm.Model.{Field, Model}
use jorm.Model.Relation.{Relation, RelationType, has_many, has_one, belongs_to, many_to_many}
use jorm.Dialect.{Dialect}
use jorm.Builder.State.{BuilderPool}
use jorm.Preload.Keys.{Keys}
use jorm.Preload.Groups.{find}
use jorm.Preload.Load.{
  Fallible, ok, panics, then_do, Fetch, Custom, has_data, belongs_to_data, many_to_many_data,
}

-- A pointer to a struct, a pointer to a slice (of pointers or not), or what is neither.
pub data Dest (P : Type 0) : Type 0 where
  single : P → Dest P
  several : Bool → List P → Dest P
  other : Dest P

-- A relation of the structs `P` to the structs `C`.
pub record Level (K E P C : Type 0) : Type 0 where
  pub main : Model
  pub related : Model
  pub relation : Relation
  pub custom : Custom
  -- The database.
  pub fetch : Fetch E C
  pub fetch_pairs : Fetch E (K × K)
  -- `item.Field(field.Index).Interface()`, and `getFieldValue` for a column.
  pub value : Field → P → K
  pub child_key : String → C → K
  -- `field.Set` of the field of the relation, for a slice and for an object.
  pub put : List C → P → P
  pub put_one : C → P → P
  -- What the field holds, and the object with the field's content after it was worked on in place.
  pub held : P → Dest C
  pub put_held : Dest C → P → P

-- The last field with the column, which is that of `FieldMap`.
unfoldable pub by_column : String → List Field → Option Field
by_column column [] = none
by_column column (f ∷ fields) = elim (by_column column fields) [
  | some f' ↦ some f'
  | none ↦ if str_eq f.column column then some f else none
]

unfoldable pub by_name : String → List Field → Option Field
by_name name [] = none
by_name name (f ∷ fields) =
    let rest = by_name name fields in if str_eq f.name name then some f else rest

unfoldable pub foreign_field : Model → String → Option Field
unfolding by_column by_name
foreign_field m name = elim (by_column name m.fields) [
  | some f ↦ some f
  | none ↦ by_name name m.fields
]

module _ (d : Dialect) (pool : BuilderPool) {K : Type 0} (keys : Keys K) {E : Type 0} where
  module _ {P C : Type 0} (l : Level K E P C) where
    -- `mapHasRelation` for has_one: the first of the group.
    unfoldable pub put_first : Option (List C) → P → P
    put_first none p = p
    put_first (some []) p = p
    put_first (some (c ∷ cs)) p = l.put_one c p

    unfoldable pub put_group : Option (List C) → P → P
    put_group none p = p
    put_group (some cs) p = l.put cs p

    unfoldable pub put_found : Option C → P → P
    put_found none p = p
    put_found (some c) p = l.put_one c p

    unfoldable pub assign_has : RelationType → Option (List C) → P → P
    unfolding put_first put_group
    assign_has has_one group p = put_first group p
    assign_has _ group p = put_group group p

    -- The loops over the slice.
    unfoldable pub map_has : Field → List (K × List C) → List P → List P
    unfolding assign_has find
    map_has pk entries parents =
        map (λ p. assign_has l.relation.relation_type (find keys (l.value pk p) entries) p) parents

    unfoldable pub map_belongs_to : Field → List (K × C) → List P → List P
    unfolding put_found find
    map_belongs_to fk entries parents =
        map (λ p. put_found (find keys (l.value fk p) entries) p) parents

    unfoldable pub map_many_to_many : Field → List (K × List C) → List P → List P
    unfolding put_group find
    map_many_to_many pk entries parents =
        map (λ p. put_group (find keys (l.value pk p) entries) p) parents

    -- `executeHasRelation`, without the single object.
    unfoldable pub execute_has : Option Field → List P → Fallible E (List P)
    unfolding map_has has_data
    execute_has pk [] = ok []
    execute_has none (p ∷ ps) = ok (p ∷ ps)
    execute_has (some pk) (p ∷ ps) =
        then_do
          (has_data d pool keys l.fetch l.child_key l.related l.relation l.custom
            (map (l.value pk) (p ∷ ps)))
          λ entries. ok (map_has pk entries (p ∷ ps))

    -- `executeBelongsTo`: the keys that are zero are not asked for.
    unfoldable pub ask_belongs_to : Field → List K → List P → Fallible E (List P)
    unfolding map_belongs_to belongs_to_data
    ask_belongs_to fk [] parents = ok parents
    ask_belongs_to fk (id ∷ ids) parents =
        then_do
          (belongs_to_data d pool keys l.fetch l.child_key l.related l.relation l.custom (id ∷ ids))
          λ entries. ok (map_belongs_to fk entries parents)

    unfoldable pub execute_belongs_to : Option Field → List P → Fallible E (List P)
    unfolding ask_belongs_to filter
    execute_belongs_to fk [] = ok []
    execute_belongs_to none (p ∷ ps) = ok (p ∷ ps)
    execute_belongs_to (some fk) (p ∷ ps) =
        ask_belongs_to fk (filter (λ k. not (keys.is_zero k)) (map (l.value fk) (p ∷ ps))) (p ∷ ps)

    unfoldable pub execute_many_to_many : Option Field → List P → Fallible E (List P)
    unfolding map_many_to_many many_to_many_data
    execute_many_to_many pk [] = ok []
    execute_many_to_many none (p ∷ ps) = ok (p ∷ ps)
    execute_many_to_many (some pk) (p ∷ ps) =
        then_do
          (many_to_many_data d pool keys l.fetch l.fetch_pairs l.child_key l.related l.relation
            l.custom (map (l.value pk) (p ∷ ps)))
          λ entries. ok (map_many_to_many pk entries (p ∷ ps))

    -- The `switch` of `execute`.
    unfoldable pub dispatch : RelationType → List P → Fallible E (List P)
    unfolding execute_has execute_belongs_to execute_many_to_many foreign_field
    dispatch has_many parents = execute_has l.main.pk_field parents
    dispatch has_one parents = execute_has l.main.pk_field parents
    dispatch belongs_to parents =
        execute_belongs_to (foreign_field l.main l.relation.foreign_key) parents
    dispatch many_to_many parents = execute_many_to_many l.main.pk_field parents

    -- A single object is put into a slice of one, and set from it.
    unfoldable pub set_single : P → List P → Dest P
    set_single p [] = single p
    set_single p (p' ∷ ps) = single p'

    unfoldable pub run_level : Dest P → Fallible E (Dest P)
    unfolding dispatch set_single
    run_level (single p) =
        then_do (dispatch l.relation.relation_type (p ∷ [])) λ ps. ok (set_single p ps)
    run_level (several by_pointer parents) =
        then_do (dispatch l.relation.relation_type parents) λ ps. ok (several by_pointer ps)
    run_level other = ok other

    -- The body of the loop of `executeNested`; `run` is `execute` for the rest of the path. A field that
    -- is unset, or an empty slice, is passed over.
    unfoldable pub nest_one : (Dest C → Fallible E (Dest C)) → Dest C → P → Fallible E P
    nest_one run other p = ok p
    nest_one run (several by_pointer []) p = ok p
    nest_one run (several by_pointer (c ∷ cs)) p =
        then_do (run (several by_pointer (c ∷ cs))) λ content. ok (l.put_held content p)
    nest_one run (single c) p = then_do (run (single c)) λ content. ok (l.put_held content p)

    unfoldable pub nest_all : (Dest C → Fallible E (Dest C)) → List P → Fallible E (List P)
    unfolding nest_one
    nest_all run [] = ok []
    nest_all run (p ∷ ps) =
        then_do (nest_one run (l.held p) p) λ p'. then_do (nest_all run ps) λ ps'. ok (p' ∷ ps')

    -- `executeNested` does nothing for a single object, and `FieldByName` of a pointer panics.
    unfoldable pub execute_nested : (Dest C → Fallible E (Dest C)) → Dest P → Fallible E (Dest P)
    unfolding nest_all
    execute_nested run (several false parents) =
        then_do (nest_all run parents) λ ps. ok (several false ps)
    execute_nested run (several true []) = ok (several true [])
    execute_nested run (several true (p ∷ ps)) = panics
    execute_nested run dest = ok dest

-- A path that is not empty, such as "Orders.Items".
pub data Chain (K E : Type 0) : Type 0 → Type 1 where
  last : {P C : Type 0} → Level K E P C → Chain K E P
  next : {P C : Type 0} → Level K E P C → Chain K E C → Chain K E P

module _ (d : Dialect) (pool : BuilderPool) {K : Type 0} (keys : Keys K) {E : Type 0} where
  unfoldable pub execute : {P : Type 0} → Chain K E P → Dest P → Fallible E (Dest P)
  unfolding run_level execute_nested
  execute (last l) dest = run_level d pool keys l dest
  execute (next l rest) dest =
      then_do (run_level d pool keys l dest)
        λ dest'. execute_nested d pool keys l (λ content. execute rest content) dest'

  -- `executePreloads`: the first error ends it.
  unfoldable pub execute_preloads : {P : Type 0} → List (Chain K E P) → Dest P → Fallible E (Dest P)
  unfolding execute
  execute_preloads [] dest = ok dest
  execute_preloads (c ∷ cs) dest = then_do (execute c dest) λ dest'. execute_preloads cs dest'
