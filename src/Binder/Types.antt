-- ===== src/Binder/Types.antt =====
-- Logical types and table metadata (crates/binder/src/lib.rs, catalog.rs and ast.rs).
use chili_db.Prelude.{ℕ, Bool, Option, List}
use chili_db.Bytes.{Bytes}

pub data LogicalType : Type 0 where
  null boolean int32 int64 uint32 float32 float64 text : LogicalType
  varchar : Option ℕ → LogicalType

-- A `String` is its bytes.
pub record ColumnSchema : Type 0 where
  pub name : Bytes
  pub data_type : LogicalType
  pub nullable : Bool

pub record TableSchema : Type 0 where
  pub name : Bytes
  pub columns : List ColumnSchema

pub data TableConstraint : Type 0 where
  primary_key unique : List ℕ → TableConstraint
