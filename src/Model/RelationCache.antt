-- ===== src/Model/RelationCache.antt =====
-- The cache of relations of model/relation.go.
use jorm.Base.{
  ℕ, ◌+◌, ◌%◌, ◌^◌, ◌≡◌, ◌≢◌, refl, sym, ap, String, true, false, Option, none, some, List, [], ◌∷◌,
  ◌==◌, str_eq, eq_iff, arith, All, Bool-cases, Option-cases, inl, inr, ◌⊎◌, if◌then◌else◌,
}
use jorm.Base.Fallible.{Fallible, ok, fails, panics}
use jorm.Model.Relation.{Relation}
use jorm.Model.Relations.{RelationError}

-- `relationCache` and `relationCacheVersion`.
pub record Cache : Type 0 where
  pub relations : List (String × Relation × ℕ)
  pub version : ℕ

unfoldable pub load : String → List (String × Relation × ℕ) → Option (Relation × ℕ)
load key [] = none
load key ((k, r, v) ∷ rest) = let more = load key rest in if str_eq k key then some (r, v) else more

unfoldable pub store :
    String → Relation → ℕ → List (String × Relation × ℕ) → List (String × Relation × ℕ)
store key r v [] = (key, r, v) ∷ []
store key r v ((k, r', v') ∷ rest) =
    let more = store key r v rest in if str_eq k key then (k, r, v) ∷ rest else (k, r', v') ∷ more

-- `InvalidateRelationCache`: the counter has 64 bits.
unfoldable pub invalidate_relation_cache : Cache → Cache
invalidate_relation_cache c = record c { version = (c.version + 1) % 2 ^ 64 }

abbrev pub of_version : ℕ → Option (Relation × ℕ) → Option Relation
of_version v none = none
of_version v (some (r, v')) = if v' == v then some r else none

-- After a parse, with the version that was loaded first and the cache as it is now: none is another round.
unfoldable pub parsed_in :
    String
    → ℕ
    → Cache
    → Fallible RelationError Relation
    → Option (Fallible RelationError Relation × Cache)
unfolding store
parsed_in key version after (ok r) =
    if after.version == version
    then some (ok r, record after { relations = store key r version after.relations })
    else none
parsed_in key version after parsed = some (parsed, after)

abbrev pub or_parsed :
    Option Relation
    → Cache
    → Option (Fallible RelationError Relation × Cache)
    → Option (Fallible RelationError Relation × Cache)
or_parsed none before parsed = parsed
or_parsed (some r) before parsed = some (ok r, before)

-- A round of the loop of `GetRelation`, since other goroutines work on the cache: the version that is loaded
-- first, the cache when the entry is loaded, and the cache when the version is loaded again.
abbrev pub Moments : Type 0
Moments = ℕ × Cache × Cache

unfoldable pub round :
    String
    → Fallible RelationError Relation
    → Moments
    → Option (Fallible RelationError Relation × Cache)
unfolding load parsed_in
round key parsed (version, before, after) =
    or_parsed (of_version version (load key before.relations)) before
      (parsed_in key version after parsed)

-- The loop of `GetRelation`, in the rounds that the list gives.
unfoldable pub get_relation :
    String
    → Fallible RelationError Relation
    → List Moments
    → Option (Fallible RelationError Relation × Cache)
unfolding round
get_relation key parsed [] = none
get_relation key parsed (r ∷ rounds) = elim (round key parsed r) [
  | some done ↦ some done
  | none ↦ get_relation key parsed rounds
]

-- An entry under the key holds what is parsed for it.
unfoldable pub Sound : String → Fallible RelationError Relation → Cache → Type 0
unfolding load
Sound key parsed c = (r : Relation) (v : ℕ) → load key c.relations ≡ some (r, v) → parsed ≡ ok r

-- No goroutine invalidates the cache in the round.
abbrev pub IsQuiet : Moments → Type 0
IsQuiet (version, before, after) = after.version ≡ version

-- A round of a list in which the version does not change.
abbrev pub HasQuiet : List Moments → Type 0
HasQuiet [] = true ≡ false
HasQuiet (r ∷ rounds) = IsQuiet r ⊎ HasQuiet rounds

load-store :
    (key : String) (r : Relation) (v : ℕ) (entries : List (String × Relation × ℕ))
    → load key (store key r v entries) ≡ some (r, v)
unfolding load store
load-store key r v [] = ground (arith, eq_iff key key)
load-store key r v ((k, r', v') ∷ entries) = elim (Bool-cases (str_eq k key)) [
  | inl same ↦ rw (same, store) (rw (same, load) refl)
  | inr other ↦ rw (other, store) (rw (other, load) (load-store key r v entries))
]

of_version-some :
    (v : ℕ) (o : Option (Relation × ℕ)) {r : Relation}
    → of_version v o ≡ some r
    → (v' : ℕ) × (o ≡ some (r, v'))
of_version-some v none h = ground arith
of_version-some v (some (r, v')) h = (v', ground (arith, h))

module _ (key : String) where
  -- What a round that ends it gives.
  abbrev Right :
      Fallible RelationError Relation → Option (Fallible RelationError Relation × Cache) → Type 0
  Right parsed none = Unit {0}
  Right parsed (some (result, c)) = (result ≡ parsed) × Sound key parsed c

  parsed_in-Right :
      (parsed : Fallible RelationError Relation) (version : ℕ) (after : Cache)
      → Sound key parsed after
      → Right parsed (parsed_in key version after parsed)
  unfolding parsed_in Sound
  parsed_in-Right (ok r) version after sound = elim (Bool-cases (after.version == version)) [
    | inl quiet ↦
        rw (quiet, parsed_in)
          (refl, λ r' v e. ground (arith, load-store key r version after.relations, e))
    | inr moved ↦ rw (moved, parsed_in) tt
  ]
  parsed_in-Right (fails e) version after sound = (refl, sound)
  parsed_in-Right panics version after sound = (refl, sound)

  round-Right :
      (parsed : Fallible RelationError Relation) (version : ℕ) (before after : Cache)
      → Sound key parsed before
      → Sound key parsed after
      → Right parsed (round key parsed (version, before, after))
  unfolding round Sound
  round-Right parsed version before after sound sound' =
      elim (Option-cases (of_version version (load key before.relations))) [
        | inl missing ↦ rw (missing, round) (parsed_in-Right parsed version after sound')
        | inr (r, cached) ↦
            let (v, e) = of_version-some version (load key before.relations) cached in
            rw (cached, round) (sym (sound r v e), sound)
      ]

  parsed_in-quiet :
      (parsed : Fallible RelationError Relation) (version : ℕ) (after : Cache)
      → after.version ≡ version
      → parsed_in key version after parsed ≢ none
  unfolding parsed_in
  parsed_in-quiet (ok r) version after quiet h = ground arith
  parsed_in-quiet (fails e) version after quiet h = ground arith
  parsed_in-quiet panics version after quiet h = ground arith

  round-quiet :
      (parsed : Fallible RelationError Relation) (version : ℕ) (before after : Cache)
      → after.version ≡ version
      → round key parsed (version, before, after) ≢ none
  unfolding round
  round-quiet parsed version before after quiet h =
      ground (arith, parsed_in-quiet parsed version after quiet, h)

  -- `GetRelation` returns as soon as there is a round in which no goroutine invalidates the cache. Where
  -- all that goroutines put under its key into the cache is what it would parse itself, which holds if
  -- no two types have the same table and relation, it returns this relation, or the error of the
  -- parsing, whatever versions it has seen, and leaves a cache of which the same holds.
  pub get_relation-returns :
      (parsed : Fallible RelationError Relation) (rounds : List Moments)
      → All (λ r. Sound key parsed r.1 × Sound key parsed r.2) rounds
      → HasQuiet rounds
      → (c : Cache) × (get_relation key parsed rounds ≡ some (parsed, c)) × Sound key parsed c
  unfolding get_relation
  get_relation-returns parsed [] sound quiet = ground arith
  get_relation-returns parsed ((version, before, after) ∷ rounds) ((s, s'), sounds) quiet =
      ended (λ later. get_relation-returns parsed rounds sounds later)
        (round key parsed (version, before, after)) refl
        (round-Right parsed version before after s s')
    where
      ended :
          (HasQuiet rounds
            → (c : Cache) × (get_relation key parsed rounds ≡ some (parsed, c))
              × Sound key parsed c)
          → (o : Option (Fallible RelationError Relation × Cache))
          → round key parsed (version, before, after) ≡ o
          → Right parsed o
          → (c : Cache) × ((elim o [
            | some done ↦ some done
            | none ↦ get_relation key parsed rounds
          ])
              ≡ some (parsed, c))
            × Sound key parsed c
      ended again none e right = elim quiet [
        | inl still ↦ absurd (round-quiet parsed version before after still e)
        | inr later ↦ again later
      ]
      ended again (some (result, c)) e (same, sound) = (c, ap (λ x. some (x, c)) same, sound)
