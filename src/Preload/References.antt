-- ===== src/Preload/References.antt =====
-- The loop over the references of a many_to_many preload.
use jorm.Base.{
  ◌≡◌, refl, sym, ap, ◌∙◌, true, ◌||◌, Option, none, some, List, [], ◌∷◌, ◌++◌, arith, Bool-cases,
  Option-cases, inl, inr, if◌then◌else◌,
}
use mathlib.Core.List.{append_assoc}
use jorm.Preload.Keys.{Keys}
use jorm.Preload.Groups.{
  find, extended, or_empty, append_to, find-append_to, extended-some, Distinct,
}
use jorm.Preload.Load.{add_refs, add_all_refs, all_refs}
use jorm.Preload.Selected.{member, member_lemma}

abbrev put_before : {C : Type 0} → Option C → List C → List C
put_before none rest = rest
put_before (some c) rest = c ∷ rest

pub or_empty-extended : {A : Type 0} (xs : List A) → or_empty (extended none xs) ≡ xs
or_empty-extended [] = refl
or_empty-extended (x ∷ xs) = refl

module _ {K C : Type 0} where
  -- The objects that a map finds under the references, in their order.
  unfoldable pub found_among : (K → Option C) → List K → List C
  found_among lookup [] = []
  found_among lookup (ref ∷ refs) = put_before (lookup ref) (found_among lookup refs)

module _ {K : Type 0} (keys : Keys K) {C : Type 0} where
  extended-append :
      (o : Option (List C)) (xs ys : List C) → extended (extended o xs) ys ≡ extended o (xs ++ ys)
  extended-append o [] ys = refl
  extended-append o (x ∷ xs) ys =
      extended-some (or_empty o ++ x ∷ xs) ys ∙ ap some (append_assoc (or_empty o) (x ∷ xs) ys)

  pub find-add_refs :
      (related : List (K × C)) (fk k : K) (refs : List K) (result : List (K × List C))
      → find keys k (add_refs keys related fk refs result) ≡ (
          if keys.same fk k
          then extended (find keys k result) (found_among (λ r. find keys r related) refs)
          else find keys k result)
  unfolding add_refs found_among
  find-add_refs related fk k [] result = ground arith
  find-add_refs related fk k (ref ∷ refs) result = elim (Option-cases (find keys ref related)) [
    | inl missing ↦ rw (missing, add_refs, found_among) (find-add_refs related fk k refs result)
    | inr (c, found) ↦
        rw (found, add_refs, found_among)
          (find-add_refs related fk k refs (append_to keys fk c result)
            ∙ elim (Bool-cases (keys.same fk k)) [
              | inl same ↦
                  rw (find-append_to keys fk k c result, same)
                    (extended-append (find keys k result) (c ∷ []) _)
              | inr other ↦ rw (find-append_to keys fk k c result, other) refl
            ])
  ]

  pub find-add_all_refs :
      (related : List (K × C)) (k : K) (entries : List (K × List K)) (result : List (K × List C))
      → Distinct keys entries
      → find keys k (add_all_refs keys related entries result)
        ≡ extended
            (find keys k result)
            (found_among (λ r. find keys r related) (or_empty (find keys k entries)))
  unfolding add_all_refs Distinct found_among find
  find-add_all_refs related k [] result d = refl
  find-add_all_refs related k ((fk, refs) ∷ entries) result (fresh, d) =
      find-add_all_refs related k entries (add_refs keys related fk refs result) d
      ∙ elim (Bool-cases (keys.same fk k)) [
        | inl same ↦
            let e = (keys.same_iff fk k).0 same in
            rw
              (
                find-add_refs related fk k refs result,
                same,
                ap (λ j. find keys j entries) (sym e) ∙ fresh,
              )
              refl
        | inr other ↦ rw (find-add_refs related fk k refs result, other) refl
      ]

module _ {K : Type 0} (keys : Keys K) where
  member-append :
      (k : K) (xs ys : List K) → member keys k (xs ++ ys) ≡ member keys k xs || member keys k ys
  unfolding member
  member-append k [] ys = refl
  member-append k (x ∷ xs) ys = ground (arith, member-append k xs ys)

  -- What is found under a key is among all references.
  pub member-all_refs :
      (k ref : K) (entries : List (K × List K))
      → member keys ref (or_empty (find keys k entries)) ≡ true
      → member keys ref (all_refs entries) ≡ true
  unfolding find member all_refs
  member-all_refs k ref [] h = h
  member-all_refs k ref ((fk, refs) ∷ entries) h =
      ground (arith, member-append ref refs (all_refs entries), member-all_refs k ref entries)

  pub found_among-same :
      {C : Type 0} (f g : K → Option C) (refs : List K)
      → ((k : K) → member keys k refs ≡ true → f k ≡ g k)
      → found_among f refs ≡ found_among g refs
  unfolding found_among member
  found_among-same f g [] same = refl
  found_among-same f g (ref ∷ refs) same =
      ap (λ o. put_before o (found_among f refs)) (same ref (member_lemma keys ref refs))
      ∙ ap (put_before (g ref)) (found_among-same f g refs λ k e. same k (ground (arith, e)))
