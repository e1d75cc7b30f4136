-- ===== src/Catalog/Codec/Decode.antt =====
-- The `Reader` of crates/catalog/src/codec.rs and `decode`. The state is what is left to read.
use chili_db.Prelude.{
  is_empty, ℕ, zero, suc, Bool, true, false, none, some, List, [], ◌∷◌, ltb, ◌==◌, if◌then◌else◌,
  length, take, drop, ok, err, panic, guard,
}
use chili_db.Prelude.Methods.{Method, pure, inspect, lift, ◌>>=◌, ◌>>◌}
use chili_db.Bytes.{bytes_eq, Bytes, u32_of}
use chili_db.Binder.Types.{
  LogicalType, boolean, int32, int64, uint32, float32, float64, text, varchar, ColumnSchema,
  TableConstraint, primary_key, unique,
}
use chili_db.Catalog.Utf8.{is_utf8}
use chili_db.Catalog.Codec.{
  CodecError, truncated, invalid_count, invalid_utf8, unknown_record, invalid_nullability,
  zero_varchar, unknown_type, unknown_constraint, trailing_bytes, Metadata, R, table_tag, validate,
}

abbrev pub Reader : Type 0 → Type 0
Reader = Method Bytes CodecError

unfoldable pub read : ℕ → Reader Bytes
read n rest = if ltb (length rest) n then (rest, err truncated) else (drop n rest, ok (take n rest))

-- `take(1)?[0]`, and `take(4)?.try_into().unwrap()`
abbrev pub first_byte : Bytes → R ℕ
first_byte [] = panic
first_byte (b ∷ bs) = ok b

abbrev pub four_bytes : Bytes → R ℕ
four_bytes (a ∷ b ∷ c ∷ d ∷ []) = ok (u32_of a b c d)
four_bytes bs = panic

unfoldable pub byte : Reader ℕ
byte = do bs ← read 1; lift (first_byte bs)

unfoldable pub number : Reader ℕ
number = do bs ← read 4; lift (four_bytes bs)

-- A count larger than the bytes left is refused before anything is allocated.
unfoldable pub count : Reader ℕ
count = do n ← number; inspect (λ rest. if ltb (length rest) n then err invalid_count else ok n)

unfoldable pub string : Reader Bytes
string = do n ← count; bs ← read n; lift (if is_utf8 bs then ok bs else err invalid_utf8)

abbrev pub nullable_of : ℕ → R Bool
nullable_of tag =
    if tag == 0 then ok false else if tag == 1 then ok true else err invalid_nullability

unfoldable pub bounded : Reader LogicalType
bounded = do n ← number; lift (if n == 0 then err zero_varchar else ok (varchar (some n)))

abbrev pub type_of : ℕ → Reader LogicalType
type_of tag =
    if tag == 1
    then pure boolean
    else if tag == 2
    then pure int32
    else if tag == 3
    then pure int64
    else if tag == 4
    then pure uint32
    else if tag == 5
    then pure float32
    else if tag == 6
    then pure float64
    else if tag == 7
    then pure text
    else if tag == 8
    then pure (varchar none)
    else if tag == 9
    then bounded
    else lift (err unknown_type)

unfoldable pub logical_type : Reader LogicalType
logical_type = do tag ← byte; type_of tag

unfoldable pub column : Reader ColumnSchema
column = do
  name ← string
  flag ← byte
  nullable ← lift (nullable_of flag)
  data_type ← logical_type
  pure (record { name = name; data_type = data_type; nullable = nullable })

-- `for _ in 0..n`, and `collect` into a `Result`.
unfoldable pub repeat : {A : Type 0} → ℕ → Reader A → Reader (List A)
repeat zero item = pure []
repeat (suc n) item = do x ← item; xs ← repeat n item; pure (x ∷ xs)

abbrev pub constraint_of : ℕ → List ℕ → R TableConstraint
constraint_of tag indices =
    if tag == 1
    then ok (primary_key indices)
    else if tag == 2
    then ok (unique indices)
    else err unknown_constraint

unfoldable pub constraint : Reader TableConstraint
constraint = do tag ← byte; n ← count; indices ← repeat n number; lift (constraint_of tag indices)

unfoldable pub record_tag : Reader (Unit {0})
record_tag = do tag ← read (length table_tag); lift (guard (bytes_eq tag table_tag) unknown_record)

unfoldable pub metadata : Reader Metadata
metadata = do
  record_tag
  head ← number
  name ← string
  n ← count
  columns ← repeat n column
  k ← count
  constraints ← repeat k constraint
  inspect (λ rest. guard (is_empty rest) trailing_bytes)
  let m : Metadata = record {
    schema = record { name = name; columns = columns };
    head = head;
    constraints = constraints;
  }
  lift (validate m)
  pure m

unfoldable pub decode : Bytes → R Metadata
decode bytes = (metadata bytes).1
