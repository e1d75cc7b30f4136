-- ===== src/Catalog/Codec.antt =====
-- crates/catalog/src/codec.rs: table metadata as one heap record. Each message is a constructor.
pub mod Decode
pub mod Written
pub mod RoundTrip
pub mod Parsing
pub mod Readers
pub mod Writes
pub mod Checking
pub mod Items
pub mod Canonical
mod Tests
use chili_db.Prelude.{
  ℕ, zero, suc, ◌+◌, ◌^◌, Bool, true, false, not, ◌&&◌, ◌||◌, Option, none, some, List, [], ◌∷◌,
  ◌++◌, ltb, ◌==◌, if◌then◌else◌, length, is_empty, get_elem?, Result, ok, err, ◌>>=◌, ◌>>◌, guard,
}
use chili_db.Bytes.{Bytes, u32_bytes, bytes_eq}
use chili_db.Binder.Types.{
  LogicalType, null, boolean, int32, int64, uint32, float32, float64, text, varchar, ColumnSchema,
  TableSchema, TableConstraint, primary_key, unique,
}
use chili_db.HeapAm.Page.{max_tuple_size}

pub data CodecError : Type 0 where
  empty_table bad_column_name null_column multiple_primary_keys empty_constraint : CodecError
  index_out_of_bounds repeated_index nullable_primary_key : CodecError
  count_overflow record_too_large : CodecError
  truncated invalid_count invalid_utf8 unknown_record invalid_nullability : CodecError
  zero_varchar unknown_type unknown_constraint trailing_bytes : CodecError

-- b"CHILICAT\x01\x00" and b"CHILICAT\x01\x01"
abbrev pub manifest : Bytes
manifest = 67 ∷ 72 ∷ 73 ∷ 76 ∷ 73 ∷ 67 ∷ 65 ∷ 84 ∷ 1 ∷ 0 ∷ []

abbrev pub table_tag : Bytes
table_tag = 67 ∷ 72 ∷ 73 ∷ 76 ∷ 73 ∷ 67 ∷ 65 ∷ 84 ∷ 1 ∷ 1 ∷ []

pub record Metadata : Type 0 where
  pub schema : TableSchema
  pub head : ℕ
  pub constraints : List TableConstraint

abbrev pub R : Type 0 → Type 0
R = Result CodecError

-- `HashSet` membership, over the values inserted so far.
abbrev pub seen_name : Bytes → List Bytes → Bool
seen_name s [] = false
seen_name s (x ∷ xs) = bytes_eq s x || seen_name s xs

abbrev pub seen_index : ℕ → List ℕ → Bool
seen_index i [] = false
seen_index i (x ∷ xs) = i == x || seen_index i xs

abbrev pub is_null : LogicalType → Bool
is_null null = true
is_null t = false

unfoldable pub check_columns : List ColumnSchema → List Bytes → R (Unit {0})
check_columns [] names = ok tt
check_columns (c ∷ cs) names = do
  guard (not (is_empty c.name || seen_name c.name names)) bad_column_name
  guard (not (is_null c.data_type)) null_column
  check_columns cs (c.name ∷ names)

unfoldable pub check_indices : List ColumnSchema → Bool → List ℕ → List ℕ → R (Unit {0})
check_indices columns pk [] seen = ok tt
check_indices columns pk (i ∷ is) seen = elim (get_elem? columns i) [
  | none ↦ err index_out_of_bounds
  | some column ↦ (do
    guard (not (seen_index i seen)) repeated_index
    guard (not (pk && column.nullable)) nullable_primary_key
    check_indices columns pk is (i ∷ seen))
]

abbrev pub indices_of : TableConstraint → List ℕ
indices_of (primary_key v) = v
indices_of (unique v) = v

abbrev pub is_primary : TableConstraint → Bool
is_primary (primary_key v) = true
is_primary (unique v) = false

unfoldable pub check_constraints : List ColumnSchema → List TableConstraint → Bool → R (Unit {0})
check_constraints columns [] primary = ok tt
check_constraints columns (c ∷ cs) primary = do
  guard (not (is_primary c && primary)) multiple_primary_keys
  guard (not (is_empty (indices_of c))) empty_constraint
  check_indices columns (is_primary c) (indices_of c) []
  check_constraints columns cs (primary || is_primary c)

unfoldable pub validate : Metadata → R (Unit {0})
validate m = do
  guard (not (is_empty m.schema.name || is_empty m.schema.columns)) empty_table
  check_columns m.schema.columns []
  check_constraints m.schema.columns m.constraints false

-- The `out` of the writers, as it grows.
unfoldable pub number : Bytes → ℕ → R Bytes
number out n = do guard (ltb n (2 ^ 32)) count_overflow; ok (out ++ u32_bytes n)

unfoldable pub string : Bytes → Bytes → R Bytes
string out s = do out' ← number out (length s); ok (out' ++ s)

abbrev pub flag : Bool → ℕ
flag true = 1
flag false = 0

-- The tag of a type and the bound of a VARCHAR.
unfoldable pub type_bytes : LogicalType → R Bytes
type_bytes null = err null_column
type_bytes boolean = ok (1 ∷ [])
type_bytes int32 = ok (2 ∷ [])
type_bytes int64 = ok (3 ∷ [])
type_bytes uint32 = ok (4 ∷ [])
type_bytes float32 = ok (5 ∷ [])
type_bytes float64 = ok (6 ∷ [])
type_bytes text = ok (7 ∷ [])
type_bytes (varchar none) = ok (8 ∷ [])
type_bytes (varchar (some n)) = ok (9 ∷ u32_bytes n)

unfoldable pub put_columns : Bytes → List ColumnSchema → R Bytes
put_columns out [] = ok out
put_columns out (c ∷ cs) = do
  out' ← string out c.name
  tag ← type_bytes c.data_type
  put_columns (out' ++ (flag c.nullable ∷ tag)) cs

unfoldable pub put_indices : Bytes → List ℕ → R Bytes
put_indices out [] = ok out
put_indices out (i ∷ is) = do out' ← number out i; put_indices out' is

abbrev pub constraint_tag : TableConstraint → ℕ
constraint_tag (primary_key v) = 1
constraint_tag (unique v) = 2

unfoldable pub put_constraints : Bytes → List TableConstraint → R Bytes
put_constraints out [] = ok out
put_constraints out (c ∷ cs) = do
  out' ← number (out ++ constraint_tag c ∷ []) (length (indices_of c))
  out'' ← put_indices out' (indices_of c)
  put_constraints out'' cs

unfoldable pub encode : Metadata → R Bytes
encode m = do
  validate m
  o₁ ← string (table_tag ++ u32_bytes m.head) m.schema.name
  o₂ ← number o₁ (length m.schema.columns)
  o₃ ← put_columns o₂ m.schema.columns
  o₄ ← number o₃ (length m.constraints)
  o₅ ← put_constraints o₄ m.constraints
  guard (not (ltb max_tuple_size (length o₅))) record_too_large
  ok o₅
