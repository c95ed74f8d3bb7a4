-- ===== src/Model/Tests.antt =====
-- The parsing of a model with an embedded struct and a relation, and the theorems about it.
use jorm.Base.{
  ℕ, ◌≡◌, refl, String, Bool, true, false, Option, some, none, List, [], ◌∷◌, str_eq, All, map,
  arith, inl, inr,
}
use jorm.Base.Fallible.{Fallible, ok}
use jorm.Model.{Kind, GoType, basic, slice_of, struct_of, Model}
use jorm.Model.Relation.{Relation, has_many}
use jorm.Model.Parse.{Shape, Shapes, no_more, field_and, FieldError, parse_model}
use jorm.Model.ParseLaws.{Distinct, IsValid, Marked, parse_model-IsValid}
use jorm.Model.Relations.{parse_relation_from_typ, related_by}
use jorm.Model.RelationCache.{Cache, get_relation, Sound, load, get_relation-returns}

abbrev no_size : String → Option ℕ
no_size s = none

abbrev is_time : GoType → Bool
is_time (struct_of n) = str_eq n "Time"
is_time t = false

abbrev shape : String → Bool → String → GoType → Shape
shape name anonymous tag type = record {
  name = name;
  exported = true;
  anonymous = anonymous;
  tag = tag;
  go_type = type;
}

abbrev entity : Shapes
entity =
    field_and (shape "ID" false "pk;auto" (basic Kind.int64)) no_more
      (field_and (shape "Created" false "auto_time" (struct_of "Time")) no_more no_more)

abbrev user : Shapes
user = field_and (shape "Entity" true "" (struct_of "Entity")) entity (
    field_and (shape "Name" false "column:user_name" (basic Kind.string)) no_more
      (field_and (shape "Orders" false "" (slice_of (struct_of "Order"))) no_more no_more))

abbrev columns_of : Fallible FieldError Model → List String
columns_of (ok m) = map (λ f. f.column) m.fields
columns_of _ = []

columns-test :
    columns_of (parse_model no_size is_time none "User" user) ≡ "id" ∷ "created" ∷ "user_name" ∷ []
unfolding parse_model
columns-test = refl

abbrev or_no_model : Fallible FieldError Model → Model
or_no_model (ok m) = m
or_no_model _ = record { table_name = ""; fields = []; pk_field = none }

parse_model-IsValid_example :
    let m = or_no_model (parse_model no_size is_time none "User" user) in
    Distinct m.fields × All (IsValid no_size is_time) m.fields × Marked m.pk_field
unfolding parse_model
parse_model-IsValid_example =
    parse_model-IsValid no_size is_time none "User" user
      (or_no_model (parse_model no_size is_time none "User" user)) refl

abbrev orders : Relation
orders = related_by "Orders" has_many "user_id" "id"

orders-test : parse_relation_from_typ no_size (λ t. "") "User" user "Orders" ≡ ok orders
unfolding parse_relation_from_typ
orders-test = refl

abbrev stale : Cache
stale = record { relations = ("users.Orders", orders, 3) ∷ []; version = 4 }

abbrev fresh : Cache
fresh = record { relations = ("users.Orders", orders, 4) ∷ []; version = 5 }

stale-Sound : Sound "users.Orders" (ok orders) stale
unfolding Sound load
stale-Sound r v e = ground arith

fresh-Sound : Sound "users.Orders" (ok orders) fresh
unfolding Sound load
fresh-Sound r v e = ground arith

-- The cache is invalidated in the first round.
get_relation-returns_example :
    (c : Cache) × (get_relation "users.Orders"
        (ok orders)
        ((4, stale, fresh) ∷ (5, fresh, fresh) ∷ [])
      ≡ some (ok orders, c))
    × Sound "users.Orders" (ok orders) c
get_relation-returns_example =
    get_relation-returns "users.Orders" (ok orders) ((4, stale, fresh) ∷ (5, fresh, fresh) ∷ [])
      ((stale-Sound, fresh-Sound), ((fresh-Sound, fresh-Sound), tt)) (inr (inl refl))
