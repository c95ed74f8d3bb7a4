-- ===== src/Model/GetLaws.antt =====
-- The cache of `GetModel` of model/model.go.
use jorm.Base.{
  ◌↔◌, String, [], Bool-cases, inl, inr, ◌≡◌, refl, ap, subst, ◌∙◌, Bool, true, Option, none, some,
  List, ◌∷◌, arith,
}
use jorm.Base.Fallible.{Fallible, ok, fails, panics}
use jorm.Model.{GoType, basic, ptr_to, slice_of, struct_of, Model}
use jorm.Model.Get.{
  Caches, load_model, elem_type, stored, or_stored, of_struct, get_model, get_models,
}

module _ {E : Type 0} (same : GoType → GoType → Bool) (parse : GoType → Fallible E Model)
    (same_struct : (a b : String) → (same (struct_of a) (struct_of b) ≡ true) ↔ (a ≡ b)) where
  load_model-stored :
      (t : String) (m : Model) (models : List (GoType × Model))
      → load_model same (struct_of t) ((struct_of t, m) ∷ models) ≡ some m
  unfolding load_model
  load_model-stored t m models = rw ((same_struct t t).1 refl) refl

  -- What is stored for another type, which had no model, does not hide a model.
  load_model-other :
      (t u : String) (m n : Model) (models : List (GoType × Model))
      → load_model same (struct_of t) models ≡ some m
      → load_model same (struct_of u) models ≡ none
      → load_model same (struct_of t) ((struct_of u, n) ∷ models) ≡ some m
  unfolding load_model
  load_model-other t u m n models found missing =
      elim (Bool-cases (same (struct_of u) (struct_of t))) [
        | inl e ↦
            let moved = ap (λ x. load_model same (struct_of x) models) ((same_struct u t).0 e) in
            ground (arith, moved, found, missing)
        | inr other ↦ rw (other, load_model) found
      ]

  -- The model that a call gives is in the cache after it.
  or_stored-hit :
      (t : String) (o : Option Model) (c c' : Caches) (m : Model)
      → load_model same (struct_of t) c.models ≡ o
      → or_stored same parse (struct_of t) o c ≡ (ok m, c')
      → load_model same (struct_of t) c'.models ≡ some m
  or_stored-hit t (some n) c c' m e h =
      subst (λ (z : Caches). load_model same (struct_of t) z.models ≡ some m) (ap (λ z. z.1) h)
        (e ∙ ground (arith, h))
  or_stored-hit t none c c' m e h = parsed (parse (struct_of t)) h
    where
      parsed :
          (p : Fallible E Model)
          → stored same parse (struct_of t) p c ≡ (ok m, c')
          → load_model same (struct_of t) c'.models ≡ some m
      parsed (ok n) k =
          subst (λ (z : Caches). load_model same (struct_of t) z.models ≡ some m) (ap (λ z. z.1) k)
            (load_model-stored t n c.models ∙ ground (arith, k))
      parsed (fails err) k = cc
      parsed panics k = cc

  stored-keeps :
      (t u : String) (m : Model) (p : Fallible E Model) (c : Caches)
      → load_model same (struct_of t) c.models ≡ some m
      → load_model same (struct_of u) c.models ≡ none
      → load_model same (struct_of t) (stored same parse (struct_of u) p c).1.models ≡ some m
  stored-keeps t u m (ok n) c found missing = load_model-other t u m n c.models found missing
  stored-keeps t u m (fails e) c found missing = found
  stored-keeps t u m panics c found missing = found

  or_stored-keeps :
      (t u : String) (m : Model) (o : Option Model) (c : Caches)
      → load_model same (struct_of u) c.models ≡ o
      → load_model same (struct_of t) c.models ≡ some m
      → load_model same (struct_of t) (or_stored same parse (struct_of u) o c).1.models ≡ some m
  or_stored-keeps t u m (some n) c e found = found
  or_stored-keeps t u m none c e found = stored-keeps t u m (parse (struct_of u)) c found e

  of_struct-keeps :
      (t : String) (m : Model) (u : GoType) (c : Caches)
      → load_model same (struct_of t) c.models ≡ some m
      → load_model same (struct_of t) (of_struct same parse u c).1.models ≡ some m
  of_struct-keeps t m (struct_of u) c found =
      or_stored-keeps t u m (load_model same (struct_of u) c.models) c refl found
  of_struct-keeps t m (basic k) c found = found
  of_struct-keeps t m (ptr_to u) c found = found
  of_struct-keeps t m (slice_of u) c found = found

  get_model-keeps :
      (t : String) (m : Model) (u : Option GoType) (c : Caches)
      → load_model same (struct_of t) c.models ≡ some m
      → load_model same (struct_of t) (get_model same parse u c).1.models ≡ some m
  unfolding get_model
  get_model-keeps t m none c found = found
  get_model-keeps t m (some u) c found = of_struct-keeps t m (elem_type u) c found

  get_models-keeps :
      (t : String) (m : Model) (us : List (Option GoType)) (c : Caches)
      → load_model same (struct_of t) c.models ≡ some m
      → load_model same (struct_of t) (get_models same parse us c).models ≡ some m
  unfolding get_models
  get_models-keeps t m [] c found = found
  get_models-keeps t m (u ∷ us) c found =
      get_models-keeps t m us (get_model same parse u c).1 (get_model-keeps t m u c found)

  -- A type whose model was given is still answered from the cache after the other calls.
  of_struct-again :
      (t : GoType) (us : List (Option GoType)) (c c' : Caches) (m : Model)
      → of_struct same parse t c ≡ (ok m, c')
      → of_struct same parse t (get_models same parse us c') ≡ (ok m, get_models same parse us c')
  of_struct-again (struct_of n) us c c' m h =
      ap (λ o. or_stored same parse (struct_of n) o (get_models same parse us c'))
        (get_models-keeps n m us c'
          (or_stored-hit n (load_model same (struct_of n) c.models) c c' m refl h))
  of_struct-again (basic k) us c c' m h = cc
  of_struct-again (ptr_to t) us c c' m h = cc
  of_struct-again (slice_of t) us c c' m h = cc

  -- Once GetModel has given a model for a value, a later call for a value of that type, or of a pointer
  -- to it, gives the same model from the cache, and changes neither the cache nor the version of the
  -- relations, after any calls for any values in between, one after another, whether they fail or store
  -- models of their own; the comparison of struct types is that of equality.
  pub get_model-again :
      (t : GoType) (us : List (Option GoType)) (c c' : Caches) (m : Model)
      → get_model same parse (some t) c ≡ (ok m, c')
      → let later = get_models same parse us c' in
        (get_model same parse (some t) later ≡ (ok m, later))
        × (get_model same parse (some (ptr_to (elem_type t))) later ≡ (ok m, later))
  unfolding get_model
  get_model-again t us c c' m h =
      let again = of_struct-again (elem_type t) us c c' m h in (again, again)
