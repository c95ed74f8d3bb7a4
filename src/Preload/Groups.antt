-- ===== src/Preload/Groups.antt =====
-- The maps that the preloads build from rows, as association lists.
use jorm.Base.{
  ◌≡◌, refl, sym, ap, ◌∙◌, Option, none, some, List, [], ◌∷◌, ◌++◌, arith, filter, map, Bool-cases,
  inl, inr, if◌then◌else◌,
}
use mathlib.Core.List.{append-nil, append_assoc}
use jorm.Preload.Keys.{Keys}

module _ {A : Type 0} where
  abbrev pub or_empty : Option (List A) → List A
  or_empty none = []
  or_empty (some as') = as'

  -- What a group is after more rows for it.
  abbrev pub extended : Option (List A) → List A → Option (List A)
  extended o [] = o
  extended o (a ∷ more) = some (or_empty o ++ a ∷ more)

  abbrev pub last_or : Option A → List A → Option A
  last_or o [] = o
  last_or o (a ∷ more) = last_or (some a) more

  pub extended-some : (xs ys : List A) → extended (some xs) ys ≡ some (xs ++ ys)
  extended-some xs [] = ap some (sym (append-nil xs))
  extended-some xs (y ∷ ys) = refl

module _ {K : Type 0} (keys : Keys K) where
  module _ {A : Type 0} where
    -- `data[key]`
    unfoldable pub find : K → List (K × A) → Option A
    find k [] = none
    find k ((k', a) ∷ entries) =
        let rest = find k entries in if keys.same k' k then some a else rest

    -- `result[key] = a`
    unfoldable pub store : K → A → List (K × A) → List (K × A)
    store k a [] = (k, a) ∷ []
    store k a ((k', a') ∷ entries) =
        let rest = store k a entries in
        if keys.same k' k then (k', a) ∷ entries else (k', a') ∷ rest

    find-store :
        (k j : K) (a : A) (entries : List (K × A))
        → find j (store k a entries) ≡ (if keys.same k j then some a else find j entries)
    unfolding find store
    find-store k j a [] = refl
    find-store k j a ((i, a') ∷ entries) =
        ground
          (arith, find-store k j a entries, keys.same_iff i k, keys.same_iff i j, keys.same_iff k j)

  module _ {R : Type 0} where
    -- The rows with a key.
    unfoldable pub with_key : (R → K) → K → List R → List R
    unfolding filter
    with_key key k rows = filter (λ a. keys.same (key a) k) rows

  module _ {A : Type 0} where
    -- `result[key] = append(result[key], a)`
    unfoldable pub append_to : K → A → List (K × List A) → List (K × List A)
    unfolding find store
    append_to k a groups = store k (or_empty (find k groups) ++ a ∷ []) groups

    -- The loop over the rows.
    unfoldable pub group_rows :
        {R : Type 0} → (R → K) → (R → A) → List R → List (K × List A) → List (K × List A)
    unfolding append_to
    group_rows key value [] groups = groups
    group_rows key value (r ∷ rows) groups =
        group_rows key value rows (append_to (key r) (value r) groups)

    -- The same with the last row for each key.
    unfoldable pub index_rows : (A → K) → List A → List (K × A) → List (K × A)
    unfolding store
    index_rows key [] entries = entries
    index_rows key (a ∷ rows) entries = index_rows key rows (store (key a) a entries)

    pub find-append_to :
        (k j : K) (a : A) (groups : List (K × List A))
        → find j (append_to k a groups)
          ≡ (if keys.same k j then some (or_empty (find j groups) ++ a ∷ []) else find j groups)
    unfolding append_to
    find-append_to k j a groups = elim (Bool-cases (keys.same k j)) [
      | inl same ↦
          let e = (keys.same_iff k j).0 same in
          rw same (
            rw e (
              find-store j j (or_empty (find j groups) ++ a ∷ []) groups
              ∙ rw ((keys.same_iff j j).1 refl) refl))
      | inr other ↦
          rw other (find-store k j (or_empty (find k groups) ++ a ∷ []) groups ∙ rw other refl)
    ]

    -- The group of a key is what was there and then the values of its rows, in their order.
    pub find-group_rows :
        {R : Type 0} (key : R → K) (value : R → A) (k : K) (rows : List R)
        (groups : List (K × List A))
        → find k (group_rows key value rows groups)
          ≡ extended (find k groups) (map value (with_key key k rows))
    unfolding group_rows with_key
    find-group_rows key value k [] groups = refl
    find-group_rows key value k (r ∷ rows) groups =
        let ih = find-group_rows key value k rows (append_to (key r) (value r) groups) in
        elim (Bool-cases (keys.same (key r) k)) [
          | inl same ↦ rw same (
              ih
              ∙ rw (find-append_to (key r) k (value r) groups, same)
                  (extended-some (or_empty (find k groups) ++ value r ∷ [])
                    (map value (with_key key k rows)))
              ∙ ap some (
                  append_assoc (or_empty (find k groups)) (value r ∷ [])
                    (map value (with_key key k rows))))
          | inr other ↦ rw other (ih ∙ rw (find-append_to (key r) k (value r) groups, other) refl)
        ]

    -- The entry of a key is its last row.
    pub find-index_rows :
        (key : A → K) (k : K) (rows : List A) (entries : List (K × A))
        → find k (index_rows key rows entries) ≡ last_or (find k entries) (with_key key k rows)
    unfolding index_rows with_key
    find-index_rows key k [] entries = refl
    find-index_rows key k (a ∷ rows) entries =
        let ih = find-index_rows key k rows (store (key a) a entries) in
        elim (Bool-cases (keys.same (key a) k)) [
          | inl same ↦ rw same (ih ∙ rw (find-store (key a) k a entries, same) refl)
          | inr other ↦ rw other (ih ∙ rw (find-store (key a) k a entries, other) refl)
        ]

    -- The keys of a map are distinct.
    unfoldable pub Distinct : List (K × A) → Type 0
    Distinct [] = Unit {0}
    Distinct ((k, a) ∷ entries) = (find k entries ≡ none) × Distinct entries

    store-Distinct :
        (k : K) (a : A) (entries : List (K × A)) → Distinct entries → Distinct (store k a entries)
    unfolding store Distinct
    store-Distinct k a [] d = (unfold find in refl, tt)
    store-Distinct k a ((k', a') ∷ entries) (fresh, d) = elim (Bool-cases (keys.same k' k)) [
      | inl same ↦ rw same (fresh, d)
      | inr other ↦ rw other (
        ground (
          arith,
          find-store k k' a entries,
          keys.same_iff k k',
          keys.same_iff k' k,
          fresh,
          other,
        ),
        store-Distinct k a entries d,
      )
    ]

  module _ {A : Type 0} where
    pub group_rows-Distinct :
        {R : Type 0} (key : R → K) (value : R → A) (rows : List R) (groups : List (K × List A))
        → Distinct groups
        → Distinct (group_rows key value rows groups)
    unfolding group_rows append_to
    group_rows-Distinct key value [] groups d = d
    group_rows-Distinct key value (r ∷ rows) groups d =
        group_rows-Distinct key value rows (append_to (key r) (value r) groups)
          (store-Distinct (key r) (or_empty (find (key r) groups) ++ value r ∷ []) groups d)
