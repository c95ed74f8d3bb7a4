-- ===== src/Preload/Joined.antt =====
-- What a preload assigns, for many_to_many.
use jorm.Base.{
  Value, ◌≡◌, refl, sym, ap, ◌∙◌, true, Option, none, some, List, [], ◌∷◌, ◌⧺◌, map, arith, filter,
  String,
}
use jorm.Model.{Field}
use jorm.Dialect.{Dialect, Statement}
use jorm.Builder.State.{
  BuilderPool, new_builder, reset, select, set_table, set_alias, where_in, items,
}
use jorm.Preload.Keys.{Keys}
use jorm.Preload.Groups.{
  find, with_key, extended, last_or, or_empty, group_rows, index_rows, find-group_rows,
  find-index_rows, Distinct, group_rows-Distinct,
}
use jorm.Preload.Load.{
  ok, add_all_refs, all_refs, related_data, joined_data, many_to_many_data, join_statement,
}
use jorm.Preload.Execute.{Level, put_group, map_many_to_many, execute_many_to_many}
use jorm.Preload.Selected.{
  member, member_lemma, with_key-asked, build_select-some, where_in-dialect,
}
use jorm.Preload.References.{
  found_among, or_empty-extended, find-add_all_refs, member-all_refs, found_among-same,
}
use jorm.Preload.Laws.{Answers, map_members, statement}

abbrev put_before : {C : Type 0} → Option C → List C → List C
put_before none rest = rest
put_before (some c) rest = c ∷ rest

module _ (d : Dialect) (pool : BuilderPool) {K : Type 0} (keys : Keys K) {E P C : Type 0}
    (l : Level K E P C) where
  -- The related objects of the pairs of a join table: for each pair with the key, the last row of the
  -- table with the reference as its primary key, if there is one.
  unfoldable pub joined_to : String → List (K × K) → List C → K → List C
  unfolding found_among with_key
  joined_to column pairs table k =
      found_among (λ ref. last_or none (with_key keys (l.child_key column) ref table))
        (map (λ p. p.1) (with_key keys (λ p. p.0) k pairs))

  -- A database whose join table holds `pairs` answers the statement for the keys with the pairs that have
  -- one of them as their foreign key.
  unfoldable pub JoinAnswers : List K → List (K × K) → Type 0
  JoinAnswers ids pairs =
      (s : Statement)
      → join_statement d pool l.relation (map keys.argument ids) ≡ some s
      → l.fetch_pairs s ≡ ok (filter (λ p. member keys p.0 ids) pairs)

  join_statement-some :
      (ids : List Value) → (s : Statement) × (join_statement d pool l.relation ids ≡ some s)
  unfolding join_statement
  join_statement-some ids =
      let b = set_alias "jt" (
        set_table l.relation.join_table (
          select (("jt." ⧺ l.relation.join_fk) ∷ ("jt." ⧺ l.relation.join_ref) ∷ [])
            (new_builder d pool).0)) in
      build_select-some d (where_in ("jt." ⧺ l.relation.join_fk) (items ids) b) (
        where_in-dialect ("jt." ⧺ l.relation.join_fk) (items ids) b
        ∙ unfold new_builder reset select set_table set_alias in refl)

  -- The map of the first step.
  abbrev pub pair_groups : List K → List (K × K) → List (K × List K)
  pair_groups ids pairs =
      group_rows keys (λ p. p.0) (λ p. p.1) (filter (λ p. member keys p.0 ids) pairs) []

  found_refs :
      (ids : List K) (pairs : List (K × K)) (k : K)
      → member keys k ids ≡ true
      → or_empty (find keys k (pair_groups ids pairs))
        ≡ map (λ p. p.1) (with_key keys (λ p. p.0) k pairs)
  unfolding find
  found_refs ids pairs k asked =
      ap or_empty
        (find-group_rows keys (λ p. p.0) (λ p. p.1) k (filter (λ p. member keys p.0 ids) pairs) [])
      ∙ rw (with_key-asked keys (λ p. p.0) k ids pairs asked) (or_empty-extended _)

  module _ (plain : l.custom ≡ none) (pk : Field) (has_pk : l.related.pk_field ≡ some pk)
      (pairs : List (K × K)) (table : List C) (ids : List K) where
    joined_lookup :
        (k : K)
        → member keys k ids ≡ true
        → (related : K → Option C)
        → ((ref : K)
            → member keys ref (all_refs (pair_groups ids pairs)) ≡ true
            → related ref ≡ last_or none (with_key keys (l.child_key pk.column) ref table))
        → found_among related (or_empty (find keys k (pair_groups ids pairs)))
          ≡ joined_to pk.column pairs table k
    unfolding joined_to
    joined_lookup k asked related same =
        found_among-same keys _ _ _
          (λ ref e. same ref (member-all_refs keys k ref (pair_groups ids pairs) e))
        ∙ ap (found_among _) (found_refs ids pairs k asked)

    joined_data_lem :
        Answers d pool keys l pk.column (all_refs (pair_groups ids pairs)) table
        → (entries : List (K × List C)) × (joined_data d pool keys l.fetch l.child_key l.related
              l.custom
              (pair_groups ids pairs)
            ≡ ok entries)
          × ((k : K)
              → member keys k ids ≡ true
              → find keys k entries ≡ extended none (joined_to pk.column pairs table k))
    unfolding joined_data related_data Answers find found_among Distinct
    joined_data_lem answers = by_refs _ refl answers
      where
        ck : C → K
        ck = l.child_key pk.column

        nothing :
            (xs : List K) → ((k : K) → member keys k xs ≡ true → member keys k [] ≡ true) → xs ≡ []
        nothing [] h = refl
        nothing (x ∷ xs) h = unfold member in ground (arith, h x, member_lemma keys x xs)

        by_refs :
            (refs : List K)
            → all_refs (pair_groups ids pairs) ≡ refs
            → Answers d pool keys l pk.column refs table
            → (entries : List (K × List C)) × (related_data d pool keys l.fetch l.child_key
                  l.related l.custom
                  (pair_groups ids pairs)
                  refs
                ≡ ok entries)
              × ((k : K)
                  → member keys k ids ≡ true
                  → find keys k entries ≡ extended none (joined_to pk.column pairs table k))
        by_refs [] e answers = (
          [],
          refl,
          λ k asked. sym (
              ap (extended none) (
                sym (joined_lookup k asked _ (λ ref m. refl))
                ∙ ap (found_among _) (
                    nothing _
                      (λ j m. rw (sym e) (member-all_refs keys k j (pair_groups ids pairs) m))))),
        )
        by_refs (ref ∷ refs) e answers =
            let (s, built) = statement d pool keys l plain pk.column (ref ∷ refs) in
            let rows = filter (λ c. member keys (ck c) (ref ∷ refs)) table in
            let related = index_rows keys ck rows [] in
            (
              add_all_refs keys related (pair_groups ids pairs) [],
              rw (has_pk, built, answers s built) refl,
              λ k asked.
                  find-add_all_refs keys related k (pair_groups ids pairs) []
                    (group_rows-Distinct keys _ _ _ [] tt)
                  ∙ ap (extended none) (
                      joined_lookup k asked _ λ j m.
                        find-index_rows keys ck j rows []
                        ∙ ap (last_or none)
                            (with_key-asked keys ck j (ref ∷ refs) table (rw (sym e) m))),
            )

  -- Over a database that answers the two statements of a many_to_many preload without a custom part, the
  -- preload assigns to each object the related objects of the pairs of the join table with its key, in
  -- the order of the pairs, for each pair the last row of the related table with the reference as its
  -- primary key, and leaves an object without any as it is. It ends without an error.
  pub execute_many_to_many-each :
      (key : Field) (parents : List P) (pairs : List (K × K)) (table : List C)
      → l.custom ≡ none
      → (pk : Field) → l.related.pk_field ≡ some pk
      → JoinAnswers (map (l.value key) parents) pairs
      → Answers d pool keys l pk.column
          (all_refs (pair_groups (map (l.value key) parents) pairs))
          table
      → execute_many_to_many d pool keys l (some key) parents
        ≡ ok (
            map
              (λ p.
                put_group d pool keys l
                  (extended none (joined_to pk.column pairs table (l.value key p)))
                  p)
              parents)
  unfolding execute_many_to_many many_to_many_data map_many_to_many JoinAnswers
  execute_many_to_many-each key [] pairs table plain pk has_pk joined answers = refl
  execute_many_to_many-each key (p ∷ ps) pairs table plain pk has_pk joined answers =
      let ids = map (l.value key) (p ∷ ps) in
      let (s, built) = join_statement-some (map keys.argument ids) in
      let (entries, done, found) = joined_data_lem plain pk has_pk pairs table ids answers in
      rw (built, joined s built, done)
        (ap ok (
          map_members d pool keys l (l.value key) ids _ _ (p ∷ ps) (λ k e. e)
            λ q asked. ap (λ g. put_group d pool keys l g q) (found (l.value key q) asked)))
