-- ===== src/Preload/Selected.antt =====
-- The rows that a preload asks for, against all rows of a table.
use jorm.Base.{
  ◌≡◌, refl, ap, ◌∙◌, Bool, true, false, ◌||◌, not, none, some, List, [], ◌∷◌, ◌>>=◌, arith, filter,
  Bool-cases, inl, inr, Value, String,
}
use jorm.Model.{Model}
use jorm.Dialect.{Dialect, Statement}
use jorm.Builder.State.{
  Builder, BuilderPool, InValues, items, new_builder, reset, select, set_table, where_in, and_where,
}
use jorm.Builder.Build.{build_select}
use jorm.Preload.Keys.{Keys}
use jorm.Preload.Groups.{with_key}
use jorm.Preload.Load.{related_statement, customised}

pub where_in-dialect :
    (column : String) (values : InValues) (b : Builder)
    → (where_in column values b).dialect ≡ b.dialect
unfolding where_in and_where
where_in-dialect column values b = ground arith

pub build_select-some :
    (d : Dialect) (b : Builder)
    → b.dialect ≡ some d
    → (s : Statement) × ((do built ← build_select b; some built.1) ≡ some s)
unfolding build_select
build_select-some d b h = rw h (_, refl)

-- Without a custom part there is a statement.
pub related_statement-some :
    (d : Dialect) (pool : BuilderPool) (m : Model) (column : String) (ids : List Value)
    → (s : Statement) × (related_statement d pool m none column ids ≡ some s)
unfolding related_statement customised
related_statement-some d pool m column ids =
    let b = set_table m.table_name (select ("*" ∷ []) (new_builder d pool).0) in
    build_select-some d (where_in column (items ids) b)
      (where_in-dialect column (items ids) b ∙ unfold new_builder reset select set_table in refl)

module _ {K : Type 0} (keys : Keys K) where
  unfoldable pub member : K → List K → Bool
  member k [] = false
  member k (k' ∷ ks) = keys.same k' k || member k ks

  unfoldable pub not_zero : K → Bool
  not_zero k = not (keys.is_zero k)

  pub member_lemma : (k : K) (ks : List K) → member k (k ∷ ks) ≡ true
  unfolding member
  member_lemma k ks = ground (arith, keys.same_iff k k)

  -- A key that is asked for finds the same rows among the answers as in the table.
  pub with_key-asked :
      {A : Type 0} (key : A → K) (k : K) (ids : List K) (table : List A)
      → member k ids ≡ true
      → with_key keys key k (filter (λ a. member (key a) ids) table) ≡ with_key keys key k table
  unfolding with_key filter
  with_key-asked key k ids [] h = refl
  with_key-asked key k ids (a ∷ table) h =
      let ih = with_key-asked key k ids table h in
      elim (Bool-cases (keys.same (key a) k)) [
        | inl same ↦
            let e = (keys.same_iff (key a) k).0 same in
            rw (ap (λ j. member j ids) e ∙ h, same, ih) refl
        | inr other ↦ ground (arith, ih)
      ]

  -- A key that is not asked for finds none.
  pub with_key-unasked :
      {A : Type 0} (key : A → K) (k : K) (ids : List K) (table : List A)
      → member k ids ≡ false
      → with_key keys key k (filter (λ a. member (key a) ids) table) ≡ []
  unfolding with_key filter
  with_key-unasked key k ids [] h = refl
  with_key-unasked key k ids (a ∷ table) h =
      let ih = with_key-unasked key k ids table h in
      elim (Bool-cases (keys.same (key a) k)) [
        | inl same ↦
            let e = (keys.same_iff (key a) k).0 same in rw (ap (λ j. member j ids) e ∙ h, ih) refl
        | inr other ↦ ground (arith, ih)
      ]
