-- ===== src/Model.antt =====
-- model/field.go and model/model.go: the metadata of a table, and Go types as `reflect` shows them.
pub mod Naming
pub mod Relation
pub mod Tag
pub mod Parse
pub mod ParseLaws
pub mod Splits
pub mod TagTexts
pub mod Relations
pub mod RelationCache
pub mod Get
mod GetLaws
mod GetTests
mod Tests
use jorm.Base.{ℕ, String, Bool, Option, List}

-- `reflect.Kind`
pub data Kind : Type 0 where
  invalid bool int int8 int16 int32 int64 uint uint8 uint16 uint32 uint64 uintptr : Kind
  float32 float64 complex64 complex128 array chan func interface map ptr slice string : Kind
  struct unsafe_pointer : Kind

-- `reflect.Type`: `basic` is a type of which the source reads the kind alone.
pub data GoType : Type 0 where
  basic : Kind → GoType
  ptr_to : GoType → GoType
  slice_of : GoType → GoType
  struct_of : String → GoType

-- `typ.Kind()`
unfoldable pub kind : GoType → Kind
kind (basic k) = k
kind (ptr_to t) = Kind.ptr
kind (slice_of t) = Kind.slice
kind (struct_of n) = Kind.struct

-- `Field`; the accessor is a function of `reflect` and has no field here.
pub record Field : Type 0 where
  pub name : String
  pub column : String
  pub go_type : GoType
  pub index : ℕ
  pub nested_idx : List ℕ
  pub is_pk : Bool
  pub is_auto : Bool
  pub auto_time : Bool
  pub auto_update : Bool
  pub is_unique : Bool
  pub size : ℕ
  pub not_null : Bool
  pub default : String
  pub sql_type : String
  pub tag : String

-- What the dialects and the migrations read of a `Model`.
pub record Model : Type 0 where
  pub table_name : String
  pub fields : List Field
  pub pk_field : Option Field
