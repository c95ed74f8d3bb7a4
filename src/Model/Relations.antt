-- ===== src/Model/Relations.antt =====
-- The parsing of relations of model/relation.go.
use jorm.Base.{ℕ, String, Bool, true, false, ◌||◌, Option, none, some, ◌⧺◌, str_eq, if◌then◌else◌}
use jorm.Base.Fallible.{Fallible, ok, fails, then_do}
use jorm.Model.{Kind, GoType, basic, ptr_to, slice_of, Model}
use jorm.Model.Naming.{camel_to_snake}
use jorm.Model.Relation.{Relation, RelationType, has_many, belongs_to, has_one, many_to_many}
use jorm.Model.Tag.{Tag, parse_tag}
use jorm.Model.Parse.{Shape, Shapes, no_more, field_and}

pub data RelationError : Type 0 where
  unknown_type : String → RelationError
  no_join_table not_found : RelationError

unfoldable pub is_slice : GoType → Bool
is_slice (slice_of t) = true
is_slice (basic Kind.slice) = true
is_slice t = false

unfoldable pub parse_relation_type : String → GoType → Tag → Fallible RelationError RelationType
unfolding is_slice
parse_relation_type name type tag =
    if str_eq name ""
    then (if str_eq tag.join_table ""
        then (if is_slice type then ok has_many else ok belongs_to)
        else ok many_to_many)
    else if str_eq name "has_many"
    then ok has_many
    else if str_eq name "belongs_to"
    then ok belongs_to
    else if str_eq name "has_one"
    then ok has_one
    else if str_eq name "many_to_many" || str_eq name "many2many"
    then ok many_to_many
    else fails (unknown_type name)

abbrev pub or_default : String → String → String
or_default text default = if str_eq text "" then default else text

unfoldable pub without_slice : GoType → GoType
without_slice (slice_of t) = t
without_slice t = t

unfoldable pub without_ptr : GoType → GoType
without_ptr (ptr_to t) = t
without_ptr t = t

-- A relation with what does not depend on its type; `owner_key` names the column of the parent.
abbrev pub related_by : String → RelationType → String → String → Relation
related_by name type foreign_key references = record {
  name = name;
  relation_type = type;
  foreign_key = foreign_key;
  references = references;
  join_table = "";
  join_fk = "";
  join_ref = "";
}

-- `name_of` is `Name()` of a type.
module _ (sscanf : String → Option ℕ) (name_of : GoType → String) where
  -- The `switch` on the type of the relation: `owner` is the name in the parent's key, and `owner_pk` the
  -- column that it refers to.
  unfoldable pub relation_of :
      String → String → Shape → Tag → RelationType → Fallible RelationError Relation
  unfolding camel_to_snake without_slice without_ptr
  relation_of owner owner_pk field tag belongs_to = ok (
      related_by field.name belongs_to
        (or_default tag.foreign_key (camel_to_snake field.name ⧺ "_id"))
        (or_default tag.references "id"))
  relation_of owner owner_pk field tag many_to_many =
      if str_eq tag.join_table ""
      then fails no_join_table
      else ok (record {
        name = field.name;
        relation_type = many_to_many;
        foreign_key = "";
        references = "";
        join_table = tag.join_table;
        join_fk = or_default tag.join_fk (owner ⧺ "_id");
        join_ref =
            or_default tag.join_ref
              (camel_to_snake (name_of (without_ptr (without_slice field.go_type))) ⧺ "_id");
      })
  relation_of owner owner_pk field tag type = ok (
      related_by field.name type (or_default tag.foreign_key (owner ⧺ "_id"))
        (or_default tag.references owner_pk))

  -- `parseRelationFromField`, in the struct with the name.
  unfoldable pub parse_relation_from_field : String → Shape → Fallible RelationError Relation
  unfolding parse_tag parse_relation_type relation_of camel_to_snake
  parse_relation_from_field struct_name field =
      let tag = parse_tag sscanf field.tag in
      then_do (parse_relation_type tag.relation_type field.go_type tag)
        λ type. relation_of (camel_to_snake struct_name) "id" field tag type

  -- `parseRelation`, of a field of the model.
  unfoldable pub parse_relation : Model → Shape → Fallible RelationError Relation
  unfolding parse_tag parse_relation_type relation_of
  parse_relation m field =
      let tag = parse_tag sscanf field.tag in
      then_do (parse_relation_type tag.relation_type field.go_type tag) λ type.
        relation_of m.table_name (elim m.pk_field [ none ↦ "id" | some pk ↦ pk.column ]) field tag
          type

  -- `parseRelationFromTyp`: the first exported field with the name.
  unfoldable pub parse_relation_from_typ :
      String → Shapes → String → Fallible RelationError Relation
  unfolding parse_relation_from_field
  parse_relation_from_typ struct_name no_more name = fails not_found
  parse_relation_from_typ struct_name (field_and sh inner rest) name =
      let more = parse_relation_from_typ struct_name rest name in
      if sh.exported
      then (if str_eq sh.name name then parse_relation_from_field struct_name sh else more)
      else more
