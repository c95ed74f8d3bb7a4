-- ===== src/Query/Stored.antt =====
-- The columns and the arguments of an insert or an update, against the object.
use jorm.Base.{
  ℕ, ◌≡◌, refl, sym, ap, subst, ◌∙◌, String, Bool, true, false, not, ◌&&◌, Option, some, List, [],
  ◌∷◌, Value, All, filter, map, arith, ◌⊎◌, inl, inr, bind-some, Bool-cases, if◌then◌else◌,
}
use jorm.Model.{Field}
use jorm.Query.Values.{
  Reflection, Values, set_times, set_created, set_updated, is_passed_over, read_field, with_column,
  get_model_values,
}

pub either :
    {A : Type 0} (test : Bool) (a b : A) {c : A}
    → (elim test [ true ↦ a | false ↦ b ]) ≡ c
    → ((test ≡ true) × (a ≡ c)) ⊎ ((test ≡ false) × (b ≡ c))
either true a b h = inl (refl, h)
either false a b h = inr (refl, h)

module _ {T : Type 0} (r : Reflection T) where
  -- A time set in one field leaves what is read of the other.
  unfoldable pub Keeps : Field → Field → Type 0
  Keeps f g =
      (now : ℕ) (t t' : T)
      → r.set_now now f t ≡ some t'
      → (r.interface g t' ≡ r.interface g t) × (r.is_zero g t' ≡ r.is_zero g t)

  -- The fields of a struct lie apart.
  unfoldable pub Apart : List Field → Type 0
  unfolding Keeps
  Apart [] = Unit {0}
  Apart (f ∷ fields) = All (λ g. Keeps g f) fields × Apart fields

  -- Whether the field has a column in the statement, by the object as it is afterwards.
  unfoldable pub is_stored : Bool → T → Field → Bool
  is_stored true t f = not f.is_pk && not (r.is_zero f t)
  is_stored false t f = not f.is_auto

  module _ (now : ℕ) (g f : Field) (keeps : Keeps g f) where
    -- What is read of `f` is the same in both objects.
    abbrev Kept : T → T → Type 0
    Kept t t' = (r.interface f t' ≡ r.interface f t) × (r.is_zero f t' ≡ r.is_zero f t)

    conditional-Kept :
        (set : Bool) (t t' : T) (other : Option T)
        → (other ≡ some t' → Kept t t')
        → (if set then r.set_now now g t else other) ≡ some t'
        → Kept t t'
    unfolding Keeps
    conditional-Kept true t t' other rest h = keeps now t t' h
    conditional-Kept false t t' other rest h = rest h

    unchanged-Kept : (t t' : T) → some t ≡ some t' → Kept t t'
    unchanged-Kept t t' h = ground arith

    set_times-Kept : (update : Bool) (t t' : T) → set_times r update now g t ≡ some t' → Kept t t'
    unfolding set_times set_created set_updated
    set_times-Kept update t t' h =
        let (t1, created, updated) =
          bind-some (set_created r update now g t) (set_updated r now g) h in
        let (i, z) =
          conditional-Kept _ t t1 _ (conditional-Kept _ t t1 _ (unchanged-Kept t t1)) created in
        let (i', z') = conditional-Kept _ t1 t' _ (unchanged-Kept t1 t') updated in (i' ∙ i, z' ∙ z)

  read_field-some :
      (update : Bool) (now : ℕ) (f : Field) (rest : T → Option (Values r)) (t : T) (v : Values r)
      → read_field r update now f rest t ≡ some v
      → (t' : T) × (more : Values r) × (set_times r update now f t ≡ some t')
        × (rest t' ≡ some more)
        × ((if update && r.is_zero f t' then more else with_column r f (r.interface f t') more) ≡ v)
  unfolding read_field
  read_field-some update now f rest t v h =
      let (t', set, h') = bind-some (set_times r update now f t) _ h in
      let (more, read, h'') = bind-some (rest t') _ h' in (t', more, set, read, ground (arith, h''))

  object-with :
      (passed : Bool) (f : Field) (x : Value) (more v : Values r)
      → (if passed then more else with_column r f x more) ≡ v
      → v.0 ≡ more.0
  object-with true f x more v h = ap (λ w. w.0) (sym h)
  object-with false f x (t, cs, vs) v h = ap (λ w. w.0) (sym h)

  get_model_values-Kept :
      (update : Bool) (now : ℕ) (f : Field) (fields : List Field) (t : T) (v : Values r)
      → All (λ g. Keeps g f) fields
      → get_model_values r update now fields t ≡ some v
      → (r.interface f v.0 ≡ r.interface f t) × (r.is_zero f v.0 ≡ r.is_zero f t)
  unfolding get_model_values
  get_model_values-Kept update now f [] t v keeps h = ground arith
  get_model_values-Kept update now f (g ∷ fields) t v (keeps, all) h =
      elim (either (is_passed_over update g) (get_model_values r update now fields t)
        (read_field r update now g (λ t'. get_model_values r update now fields t') t) h) [
          | inl (p, e) ↦ get_model_values-Kept update now f fields t v all e
          | inr (p, e) ↦
              let (t', more, set, read, same) = read_field-some update now g _ t v e in
              let (i, z) = get_model_values-Kept update now f fields t' more all read in
              let (i', z') = set_times-Kept now g f keeps update t t' set in
              let v0 = object-with (update && r.is_zero g t') g (r.interface g t') more v same in
              (ap (r.interface f) v0 ∙ i ∙ i', ap (r.is_zero f) v0 ∙ z ∙ z')
        ]

  module _ (update : Bool) where
    Stored : Values r → List Field → Type 0
    unfolding filter is_stored
    Stored v fields =
        (v.1 ≡ map (λ f. f.column) (filter (is_stored update v.0) fields))
        × (v.2 ≡ map (λ f. r.interface f v.0) (filter (is_stored update v.0) fields))

    is_stored-reads :
        (f : Field) (t : T) {passed zero : Bool}
        → is_passed_over update f ≡ passed
        → r.is_zero f t ≡ zero
        → is_stored update t f ≡ (not passed && not (update && zero))
    unfolding is_stored is_passed_over
    is_stored-reads f t p z = elim (Bool-cases update) [
      | inl u ↦ ground (arith, p, z, u)
      | inr u ↦ ground (arith, p, z, u)
    ]

    Stored-with :
        (passed : Bool) (f : Field) (fields : List Field) (x : Value) (more : Values r)
        → is_stored update more.0 f ≡ not passed
        → r.interface f more.0 ≡ x
        → Stored more fields
        → Stored (if passed then more else with_column r f x more) (f ∷ fields)
    unfolding Stored filter
    Stored-with true f fields x (t, cs, vs) s i (c, a) = rw s (c, a)
    Stored-with false f fields x (t, cs, vs) s i (c, a) = rw (s, c, a, i) (refl, refl)

    get_model_values-Stored :
        (now : ℕ) (fields : List Field) (t : T) (v : Values r)
        → Apart fields
        → get_model_values r update now fields t ≡ some v
        → Stored v fields
    unfolding get_model_values Apart
    get_model_values-Stored now [] t v apart h = unfold Stored filter in ground (arith, h)
    get_model_values-Stored now (f ∷ fields) t v (keeps, apart) h =
        elim (either (is_passed_over update f) (get_model_values r update now fields t)
          (read_field r update now f (λ t'. get_model_values r update now fields t') t) h) [
            | inl (p, e) ↦
                let skip = is_stored-reads f v.0 p refl in
                Stored-with true f fields (r.interface f v.0) v skip refl
                  (get_model_values-Stored now fields t v apart e)
            | inr (p, e) ↦
                let (t', more, set, read, same) = read_field-some update now f _ t v e in
                let (i, z) = get_model_values-Kept update now f fields t' more keeps read in
                let kept = is_stored-reads f more.0 p z in
                subst (λ w. Stored w (f ∷ fields)) same
                  (Stored-with (update && r.is_zero f t') f fields (r.interface f t') more kept i
                    (get_model_values-Stored now fields t' more apart read))
          ]

  -- The columns are those of the fields that are stored, in the order of the struct, and the arguments
  -- are what the object holds in them afterwards: for an insert, of the fields that are not automatic,
  -- for an update, of the fields that are no primary key and not zero. Times are set first.
  pub get_model_values-stored :
      (update : Bool) (now : ℕ) (fields : List Field) (t t' : T) (columns : List String)
      (args : List Value)
      → Apart fields
      → get_model_values r update now fields t ≡ some (t', columns, args)
      → (columns ≡ map (λ f. f.column) (filter (is_stored update t') fields))
        × (args ≡ map (λ f. r.interface f t') (filter (is_stored update t') fields))
  get_model_values-stored update now fields t t' columns args apart h =
      unfold Stored in get_model_values-Stored update now fields t (t', columns, args) apart h
