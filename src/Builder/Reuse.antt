-- ===== src/Builder/Reuse.antt =====
-- Builders that go through the pool.
use jorm.Base.{◌≡◌, refl, ap, Option, none, some, String, List, ◌>>=◌}
use jorm.Dialect.{Dialect, Statement}
use jorm.Builder.State.{Builder, BuilderPool, pool_get, new_builder, put_builder, clone}
use jorm.Builder.Build.{build_select, build_insert, build_update, build_delete, Data}

-- A new builder is the same whatever the pool holds: nothing of an earlier query is left in it.
pub new_builder-fresh :
    (d : Dialect) (p q : BuilderPool) → (new_builder d p).0 ≡ (new_builder d q).0
unfolding new_builder
new_builder-fresh d p q = refl

-- The statement of a Build method, without the builder.
abbrev pub statement_of : Option (Builder × Statement) → Option Statement
statement_of none = none
statement_of (some (b, s)) = some s

same_statement :
    (o : Option Dialect) (k l : Dialect → Builder × Statement)
    → ((d : Dialect) → (k d).1 ≡ (l d).1)
    → statement_of (o >>= λ d. some (k d)) ≡ statement_of (o >>= λ d. some (l d))
same_statement none k l h = refl
same_statement (some d) k l h = ap some (h d)

-- A clone has the fields of the builder, with an empty scratch, whatever builder of the pool it is
-- made of; so the clone and the builder both panic, or build the same SELECT, UPDATE and DELETE.
pub clone-statements :
    (b : Builder) (pool : BuilderPool) (assigned : Data)
    → ((clone b pool).0 ≡ record b { sb = "" })
      × (statement_of (build_select (clone b pool).0) ≡ statement_of (build_select b))
      × (statement_of (build_update assigned (clone b pool).0)
          ≡ statement_of (build_update assigned b))
      × (statement_of (build_delete (clone b pool).0) ≡ statement_of (build_delete b))
unfolding clone build_select build_update build_delete
clone-statements b pool assigned = (
  refl,
  same_statement b.dialect _ _ (λ d. refl),
  same_statement b.dialect _ _ (λ d. refl),
  same_statement b.dialect _ _ (λ d. refl),
)

-- A builder that was put back has lost its dialect: whoever still holds it panics at every Build
-- method, until the pool hands it out again.
pub put_builder-panics :
    (b : Builder) (pool : BuilderPool) (columns : List String) (assigned : Data)
    → let held = (pool_get (put_builder b pool)).0 in
      (build_select held ≡ none)
      × (build_insert columns held ≡ none)
      × (build_update assigned held ≡ none)
      × (build_delete held ≡ none)
unfolding put_builder pool_get build_select build_insert build_update build_delete
put_builder-panics b pool columns assigned = (refl, refl, refl, refl)
