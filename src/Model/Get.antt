-- ===== src/Model/Get.antt =====
-- `GetModel` of model/model.go: the cache of the models by their types. What it stores has no relations
-- yet, so that the cache of relations gets a new version.
use jorm.Base.{Bool, Option, none, some, List, [], ◌∷◌, if◌then◌else◌}
use jorm.Base.Fallible.{Fallible, ok, fails, panics}
use jorm.Model.{GoType, ptr_to, struct_of, Model}
use jorm.Model.RelationCache.{Cache, invalidate_relation_cache}

-- The errors of `GetModel`, with that of the parsing.
pub data ModelError (E : Type 0) : Type 0 where
  is_nil : ModelError E
  no_struct : GoType → ModelError E
  not_parsed : E → ModelError E

-- `Load` of a map with types as keys, which are compared by `same`.
unfoldable pub load_model : (GoType → GoType → Bool) → GoType → List (GoType × Model) → Option Model
load_model same t [] = none
load_model same t ((t', m) ∷ rest) = if same t' t then some m else load_model same t rest

abbrev pub elem_type : GoType → GoType
elem_type (ptr_to t) = t
elem_type t = t

-- The models by type, and the cache of relations.
pub record Caches : Type 0 where
  pub models : List (GoType × Model)
  pub relations : Cache

module _ {E : Type 0} (same : GoType → GoType → Bool) (parse : GoType → Fallible E Model) where
  abbrev pub stored : GoType → Fallible E Model → Caches → Fallible (ModelError E) Model × Caches
  stored t (ok m) c = (
    ok m,
    record c { models = (t, m) ∷ c.models; relations = invalidate_relation_cache c.relations },
  )
  stored t (fails e) c = (fails (not_parsed e), c)
  stored t panics c = (panics, c)

  abbrev pub or_stored : GoType → Option Model → Caches → Fallible (ModelError E) Model × Caches
  or_stored t (some m) c = (ok m, c)
  or_stored t none c = stored t (parse t) c

  abbrev pub of_struct : GoType → Caches → Fallible (ModelError E) Model × Caches
  of_struct (struct_of n) c = or_stored (struct_of n) (load_model same (struct_of n) c.models) c
  of_struct t c = (fails (no_struct t), c)

  -- The type of the value; a nil value has none.
  unfoldable pub get_model : Option GoType → Caches → Fallible (ModelError E) Model × Caches
  unfolding load_model invalidate_relation_cache
  get_model none c = (fails is_nil, c)
  get_model (some t) c = of_struct (elem_type t) c

  -- The cache after calls, one after another.
  unfoldable pub get_models : List (Option GoType) → Caches → Caches
  unfolding get_model
  get_models [] c = c
  get_models (t ∷ ts) c = get_models ts (get_model t c).1
