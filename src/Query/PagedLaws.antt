-- ===== src/Query/PagedLaws.antt =====
-- The chains of calls on a query, and the two statements of Paginate of core/query.go.
use jorm.Base.{
  ◌>>=◌, ℤ, ◌≡◌, refl, sym, ap, subst, ◌∙◌, String, Option, none, some, List, [], ◌∷◌, ◌⊎◌, inl,
  inr, arith,
}
use jorm.Base.Fallible.{ok, fails}
use jorm.Core.Health.{Error}
use jorm.Core.Transaction.{wrapped}
use jorm.Core.Paginate.{Pagination, paginate}
use jorm.Dialect.{Statement}
use jorm.Builder.State
use jorm.Builder.State.{Builder, BuilderPool}
use jorm.Builder.Build.{build_select}
use jorm.Builder.Calls.{Call, run, apply}
use jorm.Query.Step.{State, Step, Ending, answer, Executor}
use jorm.Query.Write.{statement_in}
use jorm.Query.Read.{Reader, count, query_value}
use jorm.Query.ReadSteps.{continue_with-ok, unless_nil-ok}
use jorm.Query.ReadLaws.{Found, find-Found}
use jorm.Query.Fluent.{Query, with_builder, call, clone, unless_failed, joins}
use jorm.Query.Paged.{find_query, count_query, paginate_query}

module _ {P : Type 0} where
  abbrev and_then : (Query P → Option (Query P)) → Option (Query P) → Option (Query P)
  and_then f none = none
  and_then f (some q) = f q

  -- A chain of calls on a query; the first that panics ends it.
  unfoldable pub call_all : List Call → Query P → Option (Query P)
  call_all [] q = some q
  call_all (c ∷ cs) q = and_then (call_all cs) (call c q)

  call-builder : (c : Call) (q : Query P) → call c q ≡ with_builder q (apply c q.builder)
  unfolding call apply joins
  call-builder (Call.joins query args) q = refl
  call-builder _ q = refl

  -- A chain of calls on a query is the chain on its builder: it panics where that does, and else changes
  -- nothing but the builder, to what that makes of it.
  pub call_all-run :
      (cs : List Call) (q : Query P) → call_all cs q ≡ with_builder q (run cs q.builder)
  unfolding run call_all
  call_all-run [] q = refl
  call_all-run (c ∷ cs) q =
      ap (and_then (call_all cs)) (call-builder c q)
      ∙ go (apply c q.builder) (λ b. call_all-run cs (record q { builder = b }))
    where
      go :
          (o : Option Builder)
          → ((b : Builder)
              → call_all cs (record q { builder = b })
                ≡ with_builder (record q { builder = b }) (run cs b))
          → and_then (call_all cs) (with_builder q o) ≡ with_builder q (o >>= run cs)
      go none h = refl
      go (some b) h = h b ∙ rebuilt (run cs b)
        where
          rebuilt :
              (o : Option Builder) → with_builder (record q { builder = b }) o ≡ with_builder q o
          rebuilt none = refl
          rebuilt (some b') = refl

unless_failed-ok :
    {S A : Type 0} (err : Option Error) (step : Step S A) (s : S) {a : A} {s' : S}
    → unless_failed err step s ≡ (ok a, s')
    → (err ≡ none) × (step s ≡ (ok a, s'))
unless_failed-ok none step s h = (refl, h)
unless_failed-ok (some e) step s h = cc

answer-ok : {S A : Type 0} {a b : A} {s s' : S} → answer a s ≡ (ok b, s') → (a ≡ b) × (s ≡ s')
answer-ok h = (ground (arith, h), ground (arith, h))

Found-ends :
    {W R T X : Type 0} (reader : Reader W R T) (b : Builder) (dest us ts : List T)
    (s last s' : State W X)
    → us ≡ ts
    → last ≡ s'
    → Found reader b dest s us last
    → Found reader b dest s ts s'
Found-ends reader b dest us ts s last s' h k found =
    subst (λ t. Found reader b dest s ts t) k (subst (λ vs. Found reader b dest s vs last) h found)

module _ {W X : Type 0} (executor : Executor W) (read : Statement → W → (Error ⊎ ℤ) × W) where
  query_value-ok :
      (prefix : String) (statement : Statement) (s s' : State W X) (n : ℤ)
      → query_value executor read prefix statement s ≡ (ok n, s')
      → ((read statement s.world).0 ≡ inr n)
        × (s' ≡ record s { world = (read statement s.world).1; last = some statement })
  unfolding query_value
  query_value-ok prefix statement s s' n h =
      go (read statement s.world).0
        (record s { world = (read statement s.world).1; last = some statement }) h
    where
      go :
          (out : Error ⊎ ℤ) (mid : State W X)
          → elim out as (λ x. Ending (State W X) ℤ) [
            | inl e ↦ (fails (wrapped prefix e), mid)
            | inr a ↦ (ok a, mid)
          ]
            ≡ (ok n, s')
          → (out ≡ inr n) × (s' ≡ mid)
      go (inl e) mid k = cc
      go (inr a) mid k = (ground arith, ground arith)

  -- The count that a query has sent.
  abbrev pub Counted : Builder → State W X → ℤ → State W X → Type 0
  Counted b s total mid =
      (statement : Statement) × (statement_in (build_select (State.select ("COUNT(*)" ∷ []) b))
        ≡ some statement)
      × ((read statement s.world).0 ≡ inr total)
      × (mid ≡ record s { world = (read statement s.world).1; last = some statement })

  count-Counted :
      (b : Builder) (s mid : State W X) (total : ℤ)
      → count executor read b s ≡ (ok total, mid)
      → Counted b s total mid
  unfolding count
  count-Counted b s mid total h =
      let (statement, s1, e1, h1) = continue_with-ok _ _ h in
      let (built, same1) =
        unless_nil-ok (statement_in (build_select (State.select ("COUNT(*)" ∷ []) b))) s e1 in
      let (counted, same) =
        query_value-ok "Count failed: " statement s mid total
          (ap (query_value executor read "Count failed: " statement) (sym same1) ∙ h1) in
      (statement, built, counted, same)

module _ {P W R T X : Type 0} (reader : Reader W R T) (read : Statement → W → (Error ⊎ ℤ) × W)
    (pool : BuilderPool) where
  -- A Paginate that returns had a query without an error. It has sent two statements: the SELECT COUNT(*)
  -- of the query's clone, which gave the total, and then the SELECT of the query with the limit and the
  -- offset of the page, whose rows follow the objects that were there. The pages are counted from that
  -- total.
  pub paginate_query-Found :
      (page per_page : ℤ) (q : Query P) (dest ts : List T) (p : Pagination) (s s' : State W X)
      → paginate_query reader read pool page per_page q dest s ≡ (ok (p, ts), s')
      → (q.err ≡ none)
        × (total : ℤ) × (mid : State W X) × Counted reader.executor read
            (State.clone q.builder pool).0
            s
            total
            mid
        × (p ≡ (paginate page per_page total q.builder).0)
        × Found reader (paginate page per_page total q.builder).1 dest mid ts s'
  unfolding paginate_query count_query find_query clone
  paginate_query-Found page per_page q dest ts p s s' h =
      let (total, mid, e1, h1) = continue_with-ok _ _ h in
      let (fine, counts) = unless_failed-ok q.err _ s e1 in
      let (us, last, e2, h2) = continue_with-ok _ _ h1 in
      let (_, finds) = unless_failed-ok q.err _ mid e2 in
      let b = (paginate page per_page total q.builder).1 in
      let found = find-Found reader b dest us mid last finds in
      let (same, ends) = answer-ok {S = State W X} {A = Pagination × List T} h2 in
      (
        fine,
        total,
        mid,
        count-Counted reader.executor read (State.clone q.builder pool).0 s mid total counts,
        sym (ap (λ (z : Pagination × List T). z.0) same),
        Found-ends reader b dest us ts mid last s' (ap (λ (z : Pagination × List T). z.1) same) ends
            found,
      )
