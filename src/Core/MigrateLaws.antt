-- ===== src/Core/MigrateLaws.antt =====
-- What a run of the migrations leaves behind.
use jorm.Base.{
  ◌≡◌, refl, sym, subst, ap, ◌∙◌, true, false, none, some, List, [], ◌∷◌, arith, All, All-map,
  Option, ◌⊎◌, ℤ, pos, negsuc, Bool-cases, inl, inr,
}
use jorm.Core.Health.{Db, Error}
use jorm.Core.Transaction.{Ended, returns, panics}
use jorm.Core.Migrate.{
  read_history, with_rows, create_table_sql, then_select, init, initialized, migrate, int_eq,
  applied, Migration, State, Server, insert_migration, proceed, migrate_each,
}

int_eq_refl : (v : ℤ) → int_eq v v ≡ true
unfolding int_eq
int_eq_refl (pos n) = ground arith
int_eq_refl (negsuc n) = ground arith

module _ {W : Type 0} (server : Server W) where
  unfoldable pub Applied : State W → Migration W → Type 0
  Applied s mig = applied mig.version s.history ≡ true

  migrate_each-Applied :
      (migs : List (Migration W)) (s : State W)
      → All (Applied s) migs
      → migrate_each server migs s ≡ (returns none, s)
  unfolding migrate_each Applied
  migrate_each-Applied [] s h = refl
  migrate_each-Applied (mig ∷ migs) s (h, hs) =
      rw (h, migrate_each) (migrate_each-Applied migs s hs)

  -- Every step of the loop keeps what is applied.
  proceed-keeps :
      (v : ℤ) (mig : Migration W) (next : State W → Ended × State W) (history : List ℤ)
      → (end : Ended × Db × W)
      → ((s : State W) → applied v s.history ≡ true → applied v (next s).1.history ≡ true)
      → applied v history ≡ true
      → applied v (proceed server mig next history end).1.history ≡ true
  unfolding proceed applied
  proceed-keeps v mig next history (returns none, db, w) keeps h =
      keeps (record { history = mig.version ∷ history; db = db; world = w }) (ground (arith, h))
  proceed-keeps v mig next history (returns (some e), db, w) keeps h = h
  proceed-keeps v mig next history (panics p, db, w) keeps h = h

  migrate_each-keeps :
      (v : ℤ) (migs : List (Migration W)) (s : State W)
      → applied v s.history ≡ true
      → applied v (migrate_each server migs s).1.history ≡ true
  unfolding migrate_each
  migrate_each-keeps v [] s h = h
  migrate_each-keeps v (mig ∷ migs) s h = elim (Bool-cases (applied mig.version s.history)) [
    | inl known ↦ rw (known, migrate_each) (migrate_each-keeps v migs s h)
    | inr fresh ↦
        rw (fresh, migrate_each)
          (proceed-keeps v mig (λ s'. migrate_each server migs s') s.history
            (insert_migration server mig s) (λ s' h'. migrate_each-keeps v migs s' h') h)
  ]

  -- A step that ends the loop without an error went on with its migration applied.
  proceed-applied :
      (mig : Migration W) (next : State W → Ended × State W) (history : List ℤ)
      (end : Ended × Db × W)
      → (proceed server mig next history end).0 ≡ returns none
      → (s : State W) × (applied mig.version s.history ≡ true)
        × (proceed server mig next history end ≡ next s)
  unfolding proceed applied
  proceed-applied mig next history (returns none, db, w) h = (
    record { history = mig.version ∷ history; db = db; world = w },
    ground (arith, int_eq_refl mig.version),
    refl,
  )
  proceed-applied mig next history (returns (some e), db, w) h = ground arith
  proceed-applied mig next history (panics p, db, w) h = ground arith

  migrate_each-run :
      (mig : Migration W) (migs : List (Migration W)) (s : State W)
      → applied mig.version s.history ≡ false
      → migrate_each server (mig ∷ migs) s
        ≡ proceed server mig
            (λ s'. migrate_each server migs s')
            s.history
            (insert_migration server mig s)
  unfolding migrate_each
  migrate_each-run mig migs s fresh = rw (fresh, migrate_each) refl

  migrate_each-skip :
      (mig : Migration W) (migs : List (Migration W)) (s : State W)
      → applied mig.version s.history ≡ true
      → migrate_each server (mig ∷ migs) s ≡ migrate_each server migs s
  unfolding migrate_each
  migrate_each-skip mig migs s known = rw (known, migrate_each) refl

  -- Where the loop ends without an error, every migration of the list is in the history.
  migrate_each-All :
      (migs : List (Migration W)) (s : State W)
      → (migrate_each server migs s).0 ≡ returns none
      → All (Applied (migrate_each server migs s).1) migs
  unfolding Applied
  migrate_each-All [] s h = tt
  migrate_each-All (mig ∷ migs) s h = elim (Bool-cases (applied mig.version s.history)) [
    | inl known ↦
        let e = migrate_each-skip mig migs s known in
        subst (λ x. All (Applied x.1) (mig ∷ migs)) (sym e)
          (
            migrate_each-keeps mig.version migs s known,
            migrate_each-All migs s (ap (λ x. x.0) (sym e) ∙ h),
          )
    | inr fresh ↦
        let e = migrate_each-run mig migs s fresh in
        let (s', known, e') =
          proceed-applied mig (λ s'. migrate_each server migs s') s.history
            (insert_migration server mig s) (ap (λ x. x.0) (sym e) ∙ h) in
        subst (λ x. All (Applied x.1) (mig ∷ migs)) (sym (e ∙ e'))
          (
            migrate_each-keeps mig.version migs s' known,
            migrate_each-All migs s' (ap (λ x. x.0) (sym (e ∙ e')) ∙ h),
          )
  ]

  read_history-keeps :
      (v : ℤ) (rows : List (Error ⊎ ℤ)) (history : List ℤ)
      → applied v history ≡ true
      → applied v (read_history rows history).1 ≡ true
  unfolding read_history applied
  read_history-keeps v [] history h = h
  read_history-keeps v (inl e ∷ rows) history h = h
  read_history-keeps v (inr u ∷ rows) history h =
      read_history-keeps v rows (u ∷ history) (ground (arith, h))

  with_rows-keeps :
      (v : ℤ) (out : Error ⊎ List (Error ⊎ ℤ)) (history : List ℤ)
      → applied v history ≡ true
      → applied v (with_rows out history).1 ≡ true
  unfolding with_rows
  with_rows-keeps v (inl e) history h = h
  with_rows-keeps v (inr rows) history h = read_history-keeps v rows history h

  then_select-keeps :
      (v : ℤ) (history : List ℤ) (created : Option Error × Db × W)
      → applied v history ≡ true
      → applied v (then_select server history created).1.history ≡ true
  unfolding then_select
  then_select-keeps v history (some e, db, w) h = h
  then_select-keeps v history (none, db, w) h =
      with_rows-keeps v (server.query "SELECT version FROM jorm_migrations" w).0 history h

  -- `Init` drops no version, however it ends.
  init-keeps :
      (v : ℤ) (s : State W)
      → applied v s.history ≡ true
      → applied v (init server s).1.history ≡ true
  unfolding init
  init-keeps v s h = then_select-keeps v s.history (server.exec create_table_sql [] s.db s.world) h

  initialized-Applied :
      (migs : List (Migration W)) (start : Option Error × State W)
      → All (Applied start.1) migs
      → initialized server migs start ≡ (returns start.0, start.1)
  unfolding initialized
  initialized-Applied migs (some e, s) h = refl
  initialized-Applied migs (none, s) h = migrate_each-Applied migs s h

  initialized-All :
      (migs : List (Migration W)) (start : Option Error × State W)
      → (initialized server migs start).0 ≡ returns none
      → All (Applied (initialized server migs start).1) migs
  unfolding initialized
  initialized-All migs (some e, s) h = ground arith
  initialized-All migs (none, s) h = migrate_each-All migs s h

  initialized-keeps :
      (v : ℤ) (migs : List (Migration W)) (start : Option Error × State W)
      → applied v start.1.history ≡ true
      → applied v (initialized server migs start).1.history ≡ true
  unfolding initialized
  initialized-keeps v migs (some e, s) h = h
  initialized-keeps v migs (none, s) h = migrate_each-keeps v migs s h

  -- A `Migrate` that ends without an error has put the version of each migration into the history and has
  -- dropped none from it. A second `Migrate` of the same migrations then does what `Init` does and no
  -- more: whatever `Init` reads and however it ends, no migration is run, and its error, if there is one,
  -- is the error of the second `Migrate`.
  pub migrate-idempotent :
      (migs : List (Migration W)) (s : State W)
      → (migrate server migs s).0 ≡ returns none
      → let s' = (migrate server migs s).1 in
        All (Applied s') migs
        × ((v : ℤ) → applied v s.history ≡ true → applied v s'.history ≡ true)
        × (migrate server migs s' ≡ (returns (init server s').0, (init server s').1))
  unfolding migrate Applied
  migrate-idempotent migs s h =
      let s' = (initialized server migs (init server s)).1 in
      let all = initialized-All migs (init server s) h in
      (
        all,
        λ v k. initialized-keeps v migs (init server s) (init-keeps v s k),
        initialized-Applied migs (init server s') (
            All-map (Applied s') (Applied (init server s').1) migs
              (λ mig k. init-keeps mig.version s' k) all),
      )
