-- ===== src/Model/GetTests.antt =====
-- The cache of models, with a type that is parsed once.
use jorm.Base.{
  if◌then◌else◌, false, List, Option, str_eq, eq_iff, ◌≡◌, refl, String, Bool, none, some, [], ◌∷◌,
}
use jorm.Base.Fallible.{Fallible, ok, fails}
use jorm.Model.{GoType, ptr_to, struct_of, Model}
use jorm.Model.Get.{Caches, get_model, get_models, load_model}
use jorm.Model.GetLaws.{get_model-again}
use jorm.Model.RelationCache.{invalidate_relation_cache}

-- The equality of struct types, by the name.
same_struct : GoType → GoType → Bool
same_struct (struct_of a) (struct_of b) = str_eq a b
same_struct _ _ = false

abbrev model_of : String → Model
model_of name = record { table_name = name; fields = []; pk_field = none }

parse : GoType → Fallible String Model
parse (struct_of name) = if str_eq name "Broken" then fails "tag" else ok (model_of name)
parse _ = fails "kind"

abbrev no_caches : Caches
no_caches = record { models = []; relations = record { relations = []; version = 0 } }

abbrev after : Caches
after = record {
  models = (struct_of "User", model_of "User") ∷ [];
  relations = record { relations = []; version = 1 };
}

abbrev calls : List (Option GoType)
calls = some (struct_of "Order") ∷ none ∷ some (struct_of "Broken") ∷ some (struct_of "User") ∷ []

abbrev later : Caches
later = record {
  models = (struct_of "Order", model_of "Order") ∷ (struct_of "User", model_of "User") ∷ [];
  relations = record { relations = []; version = 2 };
}

get_model-again_example :
    (get_model same_struct parse (some (struct_of "User")) later ≡ (ok (model_of "User"), later))
    × (get_model same_struct parse (some (ptr_to (struct_of "User"))) later
        ≡ (ok (model_of "User"), later))
unfolding get_model get_models load_model invalidate_relation_cache same_struct parse
get_model-again_example =
    get_model-again same_struct parse eq_iff (struct_of "User") calls no_caches after
      (model_of "User") refl
