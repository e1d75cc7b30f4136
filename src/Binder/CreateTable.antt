-- ===== src/Binder/CreateTable.antt =====
-- crates/binder/src/ddl.rs: CREATE TABLE, and the metadata that crates/catalog/src/lib.rs makes of it.
pub mod Declaring
pub mod Stored
mod Tests
use chili_db.Prelude.{
  is_empty, ℕ, zero, suc, ◌^◌, Bool, true, false, not, ◌&&◌, ◌||◌, List, [], ◌∷◌, ◌++◌, Option,
  none, some, Result, ok, err, ◌>>=◌, ◌>>◌, guard, ltb, if◌then◌else◌,
}
use chili_db.Bytes.{Bytes}
use chili_db.Binder.Types.{
  LogicalType, boolean, int32, int64, float32, float64, text, varchar, ColumnSchema,
  TableConstraint, primary_key, unique,
}
use chili_db.Parser.Ast
use chili_db.Parser.Ast.{DataType, ColumnConstraint, ColumnDef}
use chili_db.Binder.Number.{digits_value}
use chili_db.Binder.Frame.{all_digits}
use chili_db.Binder.Statement.{
  Catalog, unnamed_table_or_column, duplicate_constraint, multiple_primary_keys, StatementError,
  Answer, table_already_exists, duplicate_column, invalid_type, invalid_constraint,
  invalid_statement, or_catalog,
}
use chili_db.Catalog.Codec.{seen_name, Metadata}

-- The columns have the fields of `CreateColumn`, which are those of `ColumnSchema`.
pub record CreateTable : Type 0 where
  pub name : Bytes
  pub columns : List ColumnSchema
  pub constraints : List TableConstraint

-- What the constraints of one column lead to: whether it may be null, whether the table has a
-- primary key by then, and the constraints that are pushed.
pub record Declared : Type 0 where
  pub nullable : Bool
  pub primary : Bool
  pub constraints : List TableConstraint

-- What the loop over the columns pushes.
pub record Pushed : Type 0 where
  pub columns : List ColumnSchema
  pub constraints : List TableConstraint

-- `NonZeroU32::new` of a `u32`
abbrev pub nonzero_u32 : ℕ → Option ℕ
nonzero_u32 zero = none
nonzero_u32 (suc n) = if ltb (suc n) (2 ^ 32) then some (suc n) else none

abbrev pub varchar_limit : Bytes → Option ℕ
varchar_limit length =
    if not (is_empty length) && all_digits length then nonzero_u32 (digits_value 0 length) else none

abbrev pub any_unnamed : List ColumnDef → Bool
any_unnamed [] = false
any_unnamed (c ∷ cs) = is_empty c.name || any_unnamed cs

abbrev pub is_some : {A : Type 0} → Option A → Bool
is_some none = false
is_some (some a) = true

module _ {E : Type 0} where
  abbrev pub bounded_varchar : Bytes → Option ℕ → Answer E LogicalType
  bounded_varchar length none = err (invalid_type length)
  bounded_varchar length (some bound) = ok (varchar (some bound))

  abbrev pub data_type_of : DataType → Answer E LogicalType
  data_type_of Ast.integer = ok int32
  data_type_of Ast.big_int = ok int64
  data_type_of Ast.real = ok float32
  data_type_of Ast.double = ok float64
  data_type_of Ast.boolean = ok boolean
  data_type_of Ast.text = ok text
  data_type_of (Ast.varchar none) = ok (varchar none)
  data_type_of (Ast.varchar (some length)) = bounded_varchar length (varchar_limit length)

  abbrev pub pushed_first : TableConstraint → Declared → Answer E Declared
  pushed_first constraint rest = ok (record {
    nullable = rest.nullable;
    primary = rest.primary;
    constraints = constraint ∷ rest.constraints;
  })

  abbrev pub repeated : Bool → ColumnConstraint → Bytes → Answer E (Unit {0})
  repeated seen constraint name =
      guard (not seen) (invalid_constraint (duplicate_constraint constraint name))

  -- The loop over the constraints of the column `index`: which of the three kinds it has had, and
  -- `nullable` and `primary_key` so far.
  unfoldable pub declare :
      (index : ℕ) (name : Bytes) (constraints : List ColumnConstraint)
      (seen_not_null seen_primary seen_unique nullable primary : Bool)
      → Answer E Declared
  declare index name [] sn sp su nullable primary =
      ok (record { nullable = nullable; primary = primary; constraints = [] })
  declare index name (Ast.not_null ∷ rest) sn sp su nullable primary =
      repeated sn Ast.not_null name >> declare index name rest true sp su false primary
  declare index name (Ast.primary_key ∷ rest) sn sp su nullable primary =
      repeated sp Ast.primary_key name
      >> (guard (not primary) (invalid_constraint multiple_primary_keys)
          >> (declare index name rest sn true su false true
              >>= pushed_first (primary_key (index ∷ []))))
  declare index name (Ast.unique ∷ rest) sn sp su nullable primary =
      repeated su Ast.unique name
      >> (declare index name rest sn sp true nullable primary
          >>= pushed_first (unique (index ∷ [])))

  abbrev pub push_column : Bytes → LogicalType → Declared → Pushed → Answer E Pushed
  push_column name data_type d rest = ok (record {
    columns = (record { name = name; data_type = data_type; nullable = d.nullable }) ∷ rest.columns;
    constraints = d.constraints ++ rest.constraints;
  })

  -- The loop over the columns, from `index`, with the names and the primary key so far.
  unfoldable pub push_columns :
      (index : ℕ) (columns : List ColumnDef) (names : List Bytes) (primary : Bool) → Answer E Pushed
  push_columns index [] names primary = ok (record { columns = []; constraints = [] })
  push_columns index (c ∷ cs) names primary =
      guard (not (seen_name c.name names)) (duplicate_column c.name)
      >> (data_type_of c.data_type >>= λ data_type.
          declare index c.name c.constraints false false false true primary >>= λ (d : Declared).
          push_columns (suc index) cs (c.name ∷ names) d.primary >>= push_column c.name data_type d)

unfoldable pub bind_create_table :
    (catalog : Catalog) → Bytes → List ColumnDef → Answer catalog.Error CreateTable
unfolding push_columns declare
bind_create_table catalog name columns =
    guard (not (is_empty name || is_empty columns || any_unnamed columns))
      (invalid_statement unnamed_table_or_column)
    >> (or_catalog (catalog.get_table name) >>= λ existing.
        guard (not (is_some existing)) (table_already_exists name)
        >> (push_columns 0 columns [] false >>= λ (p : Pushed).
            ok (record { name = name; columns = p.columns; constraints = p.constraints })))

-- The metadata that is checked before the table is made and stored.
abbrev pub metadata_of : ℕ → CreateTable → Metadata
metadata_of head declaration = record {
  schema = record { name = declaration.name; columns = declaration.columns };
  head = head;
  constraints = declaration.constraints;
}
