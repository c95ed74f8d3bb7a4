-- ===== src/Preload/Laws.antt =====
-- What a preload assigns, for has_many, has_one and belongs_to.
use jorm.Base.{
  ◌≡◌, refl, sym, ap, ◌∙◌, Bool, true, false, not, Option, none, some, List, [], ◌∷◌, map, arith,
  filter, Bool-cases, inl, inr, if◌then◌else◌, String,
}
use mathlib.Core.List.{map-id}
use jorm.Model.{Field}
use jorm.Dialect.{Dialect, Statement}
use jorm.Builder.State.{BuilderPool}
use jorm.Preload.Keys.{Keys}
use jorm.Preload.Groups.{
  find, group_rows, index_rows, with_key, extended, last_or, find-group_rows, find-index_rows,
}
use jorm.Preload.Load.{ok, column_name, has_data, belongs_to_data, related_statement}
use jorm.Preload.Execute.{
  Level, assign_has, put_found, map_has, map_belongs_to, execute_has, execute_belongs_to,
  ask_belongs_to,
}
use jorm.Preload.Selected.{
  member, member_lemma, with_key-asked, with_key-unasked, related_statement-some,
}

module _ (d : Dialect) (pool : BuilderPool) {K : Type 0} (keys : Keys K) {E P C : Type 0}
    (l : Level K E P C) where
  -- A database whose table of the related model holds `table` answers the statement for the keys with
  -- the rows that have one of them in the column.
  unfoldable pub Answers : String → List K → List C → Type 0
  Answers column ids table =
      (s : Statement)
      → related_statement d pool l.related l.custom column (map keys.argument ids) ≡ some s
      → l.fetch s ≡ ok (filter (λ c. member keys (l.child_key column c) ids) table)

  pub map_members :
      (v : P → K) (ids : List K) (f g : P → P) (parents : List P)
      → ((k : K) → member keys k (map v parents) ≡ true → member keys k ids ≡ true)
      → ((p : P) → member keys (v p) ids ≡ true → f p ≡ g p)
      → map f parents ≡ map g parents
  unfolding member
  map_members v ids f g [] sub same = refl
  map_members v ids f g (p ∷ ps) sub same =
      rw
        (
          same p (sub (v p) (member_lemma keys (v p) (map v ps))),
          map_members v ids f g ps (λ k e. sub k (ground (arith, e))) same,
        )
        refl

  member-filter :
      (k : K) (ids : List K)
      → member keys k (filter (λ k'. not (keys.is_zero k')) ids)
        ≡ (if keys.is_zero k then false else member keys k ids)
  unfolding member filter
  member-filter k [] = ground arith
  member-filter k (j ∷ ids) = ground (arith, member-filter k ids, keys.same_iff j k)

  unless_zero :
      (zero : Bool) (o : Option C) → (if not zero then o else none) ≡ (if zero then none else o)
  unless_zero true o = refl
  unless_zero false o = refl

  -- The object that an object belongs to.
  unfoldable pub owner : List C → K → Option C
  owner table k =
      if keys.is_zero k
      then none
      else last_or none
          (with_key keys (l.child_key (column_name l.related l.relation.references)) k table)

  module _ (plain : l.custom ≡ none) where
    pub statement :
        (column : String) (ids : List K)
        → (s : Statement) × (related_statement d pool l.related l.custom column
              (map keys.argument ids)
            ≡ some s)
    statement column ids =
        rw plain (related_statement-some d pool l.related column (map keys.argument ids))

    has_data_lem :
        (ids : List K) (table : List C)
        → Answers (column_name l.related l.relation.foreign_key) ids table
        → (entries : List (K × List C)) × (has_data d pool keys l.fetch l.child_key l.related
              l.relation l.custom ids
            ≡ ok entries)
          × ((k : K)
              → member keys k ids ≡ true
              → find keys k entries
                ≡ extended none (
                    with_key keys
                      (l.child_key (column_name l.related l.relation.foreign_key))
                      k
                      table))
    unfolding has_data Answers
    has_data_lem ids table answers =
        let ck = l.child_key (column_name l.related l.relation.foreign_key) in
        let (s, e) = statement (column_name l.related l.relation.foreign_key) ids in
        let rows = filter (λ c. member keys (ck c) ids) table in
        (
          group_rows keys ck (λ c. c) rows [],
          rw (e, answers s e) refl,
          λ k asked.
              find-group_rows keys ck (λ c. c) k rows []
              ∙ rw (with_key-asked keys ck k ids table asked, map-id (with_key keys ck k table))
                  refl,
        )

    -- Over a database that answers its statement, a has_many or has_one preload without a custom part,
    -- which queries once, assigns to each object what a query for this object alone would find: the
    -- rows of the table with its key in the foreign column, in their order (for has_one the first of
    -- them), and leaves an object without such rows as it is. It ends without an error.
    pub execute_has-each :
        (pk : Field) (table : List C) (parents : List P)
        → Answers (column_name l.related l.relation.foreign_key) (map (l.value pk) parents) table
        → execute_has d pool keys l (some pk) parents
          ≡ ok (
              map
                (λ p.
                  assign_has d pool keys l l.relation.relation_type
                    (extended none (
                      with_key keys
                        (l.child_key (column_name l.related l.relation.foreign_key))
                        (l.value pk p)
                        table))
                    p)
                parents)
    unfolding execute_has map_has
    execute_has-each pk table [] answers = refl
    execute_has-each pk table (p ∷ ps) answers =
        let (entries, done, found) = has_data_lem (map (l.value pk) (p ∷ ps)) table answers in
        rw done (
          ap ok (
            map_members (l.value pk) (map (l.value pk) (p ∷ ps)) _ _ (p ∷ ps) (λ k e. e)
              λ q asked.
                ap (λ g. assign_has d pool keys l l.relation.relation_type g q)
                  (found (l.value pk q) asked)))

    belongs_to_data_lem :
        (ids : List K) (table : List C)
        → Answers (column_name l.related l.relation.references) ids table
        → (entries : List (K × C)) × (belongs_to_data d pool keys l.fetch l.child_key l.related
              l.relation l.custom ids
            ≡ ok entries)
          × ((k : K)
              → find keys k entries ≡ (
                  if member keys k ids
                  then last_or none (
                      with_key keys
                        (l.child_key (column_name l.related l.relation.references))
                        k
                        table)
                  else none))
    unfolding belongs_to_data Answers find
    belongs_to_data_lem ids table answers =
        let ck = l.child_key (column_name l.related l.relation.references) in
        let (s, e) = statement (column_name l.related l.relation.references) ids in
        let rows = filter (λ c. member keys (ck c) ids) table in
        (
          index_rows keys ck rows [],
          rw (e, answers s e) refl,
          λ k. find-index_rows keys ck k rows [] ∙ elim (Bool-cases (member keys k ids)) [
            | inl asked ↦ rw (with_key-asked keys ck k ids table asked, asked) refl
            | inr other ↦ rw (with_key-unasked keys ck k ids table other, other) refl
          ],
        )

    ask_belongs_to-each :
        (fk : Field) (table : List C) (ids : List K) (parents : List P)
        → Answers (column_name l.related l.relation.references) ids table
        → ((p : P)
            → member keys (l.value fk p) (map (l.value fk) parents) ≡ true
            → member keys (l.value fk p) ids ≡ not (keys.is_zero (l.value fk p)))
        → ask_belongs_to d pool keys l fk ids parents
          ≡ ok (map (λ p. put_found d pool keys l (owner table (l.value fk p)) p) parents)
    unfolding ask_belongs_to map_belongs_to owner member
    ask_belongs_to-each fk table [] parents answers zeros =
        let v = l.value fk in
        ap ok (
          sym (map-id parents)
          ∙ map_members v (map v parents) (λ p. p) _ parents (λ k e. e)
              λ p asked. elim (Bool-cases (keys.is_zero (v p))) [
                | inl zero ↦ rw zero (unfold put_found in refl)
                | inr other ↦ ground (arith, zeros p asked)
              ])
    ask_belongs_to-each fk table (id ∷ ids) parents answers zeros =
        let v = l.value fk in
        let (entries, done, found) = belongs_to_data_lem (id ∷ ids) table answers in
        rw done (
          ap ok (
            map_members v (map v parents) _ _ parents (λ k e. e)
              λ p asked.
                ap (λ c. put_found d pool keys l c p)
                  (found (v p) ∙ rw (zeros p asked) (unless_zero (keys.is_zero (v p)) _))))

    -- Over a database that answers its statement, a belongs_to preload without a custom part assigns to
    -- each object whose key is not zero the last row of the table with this key in the referenced
    -- column, if there is one, and leaves every other object as it is. It ends without an error.
    pub execute_belongs_to-each :
        (fk : Field) (table : List C) (parents : List P)
        → Answers
            (column_name l.related l.relation.references)
            (filter (λ k. not (keys.is_zero k)) (map (l.value fk) parents))
            table
        → execute_belongs_to d pool keys l (some fk) parents
          ≡ ok (map (λ p. put_found d pool keys l (owner table (l.value fk p)) p) parents)
    unfolding execute_belongs_to
    execute_belongs_to-each fk table [] answers = refl
    execute_belongs_to-each fk table (p ∷ ps) answers =
        ask_belongs_to-each fk table _ (p ∷ ps) answers λ q asked.
          member-filter (l.value fk q) (map (l.value fk) (p ∷ ps)) ∙ ground (arith, asked)
