-- ===== src/Model/Relation.antt =====
-- The relations of model/relation.go.
use jorm.Base.{String}

-- `RelationType`
pub data RelationType : Type 0 where
  has_many belongs_to has_one many_to_many : RelationType

-- `Relation`, without the metadata of the related model.
pub record Relation : Type 0 where
  pub name : String
  pub relation_type : RelationType
  pub foreign_key : String
  pub references : String
  pub join_table : String
  pub join_fk : String
  pub join_ref : String
