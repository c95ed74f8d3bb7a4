-- ===== src/Model/Parse.antt =====
-- `parseModel`, `parseFields`, `isRelationField` and `validateField` of model/model.go. A struct is a
-- tree of its fields; which type is `time.Time` is a parameter.
use jorm.Base.{
  ℕ, suc, String, Bool, true, false, ◌||◌, ◌&&◌, not, Option, none, some, List, [], ◌∷◌, ◌++◌,
  str_eq, if◌then◌else◌,
}
use jorm.Base.Fallible.{Fallible, ok, fails, then_do}
use jorm.Model.{Kind, GoType, basic, ptr_to, slice_of, struct_of, kind, Field, Model}
use jorm.Model.Naming.{camel_to_snake}
use jorm.Model.Tag.{Tag, parse_tag}

-- `reflect.StructField`; `tag` is `Tag.Get("jorm")`.
pub record Shape : Type 0 where
  pub name : String
  pub exported : Bool
  pub anonymous : Bool
  pub tag : String
  pub go_type : GoType

-- The fields of a struct. The second part of a field is the fields of the struct that its type is, or
-- points to.
pub data Shapes : Type 0 where
  no_more : Shapes
  field_and : Shape → Shapes → Shapes → Shapes

-- The errors of `validateField`, with the field's name.
pub data FieldError : Type 0 where
  no_time : String → FieldError
  no_integer : String → FieldError

-- `for fieldTyp.Kind() == reflect.Ptr`
unfoldable pub pointed_to : GoType → GoType
pointed_to (ptr_to t) = pointed_to t
pointed_to t = t

unfoldable pub is_struct : GoType → Bool
is_struct (struct_of n) = true
is_struct t = false

unfoldable pub elem_once : GoType → GoType
elem_once (ptr_to t) = t
elem_once t = t

unfoldable pub is_integer : Kind → Bool
is_integer Kind.int = true
is_integer Kind.int8 = true
is_integer Kind.int16 = true
is_integer Kind.int32 = true
is_integer Kind.int64 = true
is_integer Kind.uint = true
is_integer Kind.uint8 = true
is_integer Kind.uint16 = true
is_integer Kind.uint32 = true
is_integer Kind.uint64 = true
is_integer k = false

unfoldable pub is_slice_or_map : GoType → Bool
is_slice_or_map (slice_of t) = true
is_slice_or_map (basic Kind.slice) = true
is_slice_or_map (basic Kind.map) = true
is_slice_or_map t = false

-- `[]byte`
unfoldable pub is_bytes : GoType → Bool
is_bytes (slice_of (basic Kind.uint8)) = true
is_bytes t = false

module _ (sscanf : String → Option ℕ) (is_time : GoType → Bool) where
  unfoldable pub is_relation : Tag → Bool
  is_relation tag = not (str_eq tag.join_table "") || not (str_eq tag.relation_type "")

  unfoldable pub is_relation_field : Shapes → Bool
  unfolding is_relation parse_tag
  is_relation_field no_more = false
  is_relation_field (field_and sh inner rest) =
      let tag = parse_tag sscanf sh.tag in
      str_eq sh.tag "-"
      || is_relation tag
      || not (str_eq tag.foreign_key "") && not tag.primary_key && not tag.auto_inc
      || is_relation_field rest

  -- The pointers that are passed over.
  unfoldable pub is_passed_pointer : GoType → Shapes → Bool
  unfolding is_slice_or_map is_relation_field
  is_passed_pointer (ptr_to (struct_of n)) inner = is_relation_field inner
  is_passed_pointer (ptr_to t) inner = is_slice_or_map t
  is_passed_pointer t inner = false

  -- Whether the field is a column.
  unfoldable pub is_column : Shape → Shapes → Bool
  unfolding is_relation is_slice_or_map is_bytes is_passed_pointer parse_tag
  is_column sh inner =
      not (str_eq sh.tag "-")
      && not (is_relation (parse_tag sscanf sh.tag))
      && (not (is_slice_or_map sh.go_type) || is_bytes sh.go_type)
      && not (is_passed_pointer sh.go_type inner)

  unfoldable pub validate_field : Field → Option FieldError
  unfolding elem_once is_integer kind
  validate_field f =
      if (f.auto_time || f.auto_update) && not (is_time (elem_once f.go_type))
      then some (no_time f.name)
      else if f.is_auto && not (is_integer (kind (elem_once f.go_type)))
      then some (no_integer f.name)
      else none

  unfoldable pub column_or_name : String → String → String
  unfolding camel_to_snake
  column_or_name column name = if str_eq column "" then camel_to_snake name else column

  unfoldable pub field_of : List ℕ → ℕ → Shape → Field
  unfolding parse_tag column_or_name
  field_of base i sh =
      let tag = parse_tag sscanf sh.tag in
      record {
        name = sh.name;
        column = column_or_name tag.column sh.name;
        go_type = sh.go_type;
        index = i;
        nested_idx = base ++ i ∷ [];
        is_pk = tag.primary_key;
        is_auto = tag.auto_inc;
        auto_time = tag.auto_time;
        auto_update = tag.auto_update;
        is_unique = tag.unique;
        size = tag.size;
        not_null = tag.not_null;
        default = tag.default;
        sql_type = tag.sql_type;
        tag = sh.tag;
      }

  -- A field that is valid, before the others.
  unfoldable pub checked :
      Option FieldError
      → Field
      → Fallible FieldError (List Field)
      → Fallible FieldError (List Field)
  checked (some e) f rest = fails e
  checked none f rest = then_do rest λ fields. ok (f ∷ fields)

  unfoldable pub appended :
      Fallible FieldError (List Field)
      → Fallible FieldError (List Field)
      → Fallible FieldError (List Field)
  appended inner rest = then_do inner λ fields. then_do rest λ more. ok (fields ++ more)

  -- `parseFields` from the field `i` on.
  unfoldable pub parse_fields : List ℕ → ℕ → Shapes → Fallible FieldError (List Field)
  unfolding is_column checked validate_field appended field_of pointed_to is_struct
  parse_fields base i no_more = ok []
  parse_fields base i (field_and sh inner rest) =
      let more = parse_fields base (suc i) rest in
      let embedded = parse_fields (base ++ i ∷ []) 0 inner in
      if not sh.exported
      then more
      else if sh.anonymous && is_struct (pointed_to sh.go_type)
      then appended embedded more
      else if is_column sh inner
      then checked (validate_field (field_of base i sh)) (field_of base i sh) more
      else more

  -- The last primary key is kept.
  unfoldable pub last_pk : Option Field → List Field → Option Field
  last_pk pk [] = pk
  last_pk pk (f ∷ fields) = last_pk (if f.is_pk then some f else pk) fields

  -- `parseModel`; the first argument is what `TableName()` returns, where the type has it.
  unfoldable pub parse_model : Option String → String → Shapes → Fallible FieldError Model
  unfolding parse_fields last_pk camel_to_snake
  parse_model table name shapes = then_do (parse_fields [] 0 shapes) λ fields. ok (record {
    table_name = elim table [ none ↦ camel_to_snake name | some t ↦ t ];
    fields = fields;
    pk_field = last_pk none fields;
  })
