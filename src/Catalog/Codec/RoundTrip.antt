-- ===== src/Catalog/Codec/RoundTrip.antt =====
-- `encode` and `decode` of crates/catalog/src/codec.rs, one after the other.
use mathlib.Core.List.{append-nil, append_assoc}
use chili_db.Prelude.{
  ℕ, ◌^◌, ◌≤◌, ◌<◌, ◌≡◌, refl, ap, Bool, true, false, none, some, List, [], ◌∷◌, ◌++◌, ◌==◌, length,
  length-append, take-length-append, drop-length-append, ok, arith, All, ◌≢◌, le→ltb,
}
use chili_db.Bytes.{Bytes, u32_bytes}
use chili_db.Bytes.Words.{u32_of-bytes}
use chili_db.Binder.Types.{
  LogicalType, null, boolean, int32, int64, uint32, float32, float64, text, varchar, ColumnSchema,
  TableConstraint, primary_key, unique,
}
use chili_db.Catalog.Utf8.{is_utf8}
use chili_db.Catalog.Codec.{Metadata, R, table_tag, flag, indices_of, constraint_tag, encode}
use chili_db.Catalog.Codec.Written.{
  all_bytes, string_bytes, tag_bytes, column_bytes, constraint_bytes, record_bytes, IsCount,
  ColumnFits, ConstraintFits, Encoded, encode-Encoded,
}
use chili_db.Catalog.Codec.Decode.{
  Reader, read, byte, number, count, string, nullable_of, bounded, logical_type, column, repeat,
  constraint_of, constraint, record_tag, metadata, decode,
}

-- The widths and the encoding of a Rust value: a VARCHAR bound is nonzero.
abbrev pub IsType : LogicalType → Type 0
IsType (varchar (some n)) = (0 < n) × (n < 2 ^ 32)
IsType t = Unit {0}

abbrev pub IsString : Bytes → Type 0
IsString s = is_utf8 s ≡ true

abbrev pub IsColumn : ColumnSchema → Type 0
IsColumn c = IsString c.name × IsType c.data_type

pub record IsMetadata (m : Metadata) : Type 0 where
  pub head : m.head < 2 ^ 32
  pub name : IsString m.schema.name
  pub columns : All IsColumn m.schema.columns

-- A reader that takes exactly these bytes, whatever follows, and answers `x`.
abbrev Reads : {A : Type 0} → Reader A → Bytes → A → Type 0
Reads r bytes x = (rest : Bytes) → r (bytes ++ rest) ≡ (rest, ok x)

read_exact : (bs rest : Bytes) → read (length bs) (bs ++ rest) ≡ (rest, ok bs)
unfolding read
read_exact bs rest =
    rw
      (
        le→ltb (length (bs ++ rest)) (length bs) (omega (arith, length-append bs rest)),
        take-length-append bs rest,
        drop-length-append bs rest,
      )
      refl

byte-Reads : (b : ℕ) → Reads byte (b ∷ []) b
unfolding byte
byte-Reads b rest = rw (read_exact (b ∷ []) rest) refl

number-Reads : (n : ℕ) → n < 2 ^ 32 → Reads number (u32_bytes n) n
unfolding number
number-Reads n h rest =
    rw (read_exact (u32_bytes n) rest) (ap (λ (k : ℕ). (rest, ok k)) (u32_of-bytes n h))

count-eq-ok :
    (n : ℕ) (rest : Bytes)
    → n < 2 ^ 32
    → n ≤ length rest
    → count (u32_bytes n ++ rest) ≡ (rest, ok n)
unfolding count
count-eq-ok n rest h k = rw (number-Reads n h rest, le→ltb (length rest) n k) refl

string-Reads : (s : Bytes) → IsCount (length s) → IsString s → Reads string (string_bytes s) s
unfolding string
string-Reads s h u rest =
    rw
      (
        count-eq-ok (length s) (s ++ rest) h (omega (arith, length-append s rest)),
        read_exact s rest,
        u,
      )
      refl

logical_type-Reads : (t : LogicalType) → IsType t → t ≢ null → Reads logical_type (tag_bytes t) t
unfolding logical_type bounded
logical_type-Reads null h ne rest = absurd (ne refl)
logical_type-Reads boolean h ne rest = rw (byte-Reads 1 rest) refl
logical_type-Reads int32 h ne rest = rw (byte-Reads 2 rest) refl
logical_type-Reads int64 h ne rest = rw (byte-Reads 3 rest) refl
logical_type-Reads uint32 h ne rest = rw (byte-Reads 4 rest) refl
logical_type-Reads float32 h ne rest = rw (byte-Reads 5 rest) refl
logical_type-Reads float64 h ne rest = rw (byte-Reads 6 rest) refl
logical_type-Reads text h ne rest = rw (byte-Reads 7 rest) refl
logical_type-Reads (varchar none) h ne rest = rw (byte-Reads 8 rest) refl
logical_type-Reads (varchar (some n)) (pos, small) ne rest =
    let nonzero : (n == 0) ≡ false = ground arith in
    rw (byte-Reads 9 (u32_bytes n ++ rest), number-Reads n small rest, nonzero) refl

nullable_of-flag : (b : Bool) → nullable_of (flag b) ≡ ok b
nullable_of-flag true = refl
nullable_of-flag false = refl

column-Reads : (c : ColumnSchema) → IsColumn c → ColumnFits c → Reads column (column_bytes c) c
unfolding column
column-Reads c (utf8, typed) (small, ne) rest =
    let more = tag_bytes c.data_type ++ rest in
    rw
      (
        append_assoc c.name (flag c.nullable ∷ tag_bytes c.data_type) rest,
        string-Reads c.name small utf8 (flag c.nullable ∷ more),
        byte-Reads (flag c.nullable) more,
        nullable_of-flag c.nullable,
        logical_type-Reads c.data_type typed ne rest,
      )
      refl

module _ {A : Type 0} (item : Reader A) (f : A → Bytes) where
  repeat_reads :
      (xs : List A)
      → All (λ x. (rest : Bytes) → item (f x ++ rest) ≡ (rest, ok x)) xs
      → (rest : Bytes) → repeat (length xs) item (all_bytes f xs ++ rest) ≡ (rest, ok xs)
  unfolding repeat
  repeat_reads [] h rest = refl
  repeat_reads (x ∷ xs) (h, hs) rest =
      rw
        (
          append_assoc (f x) (all_bytes f xs) rest,
          h (all_bytes f xs ++ rest),
          repeat_reads xs hs rest,
        )
        refl

length-all_bytes :
    {A : Type 0} (f : A → Bytes) (xs : List A)
    → ((x : A) → 1 ≤ length (f x))
    → length xs ≤ length (all_bytes f xs)
length-all_bytes f [] h = omega arith
length-all_bytes f (x ∷ xs) h =
    omega (arith, length-append (f x) (all_bytes f xs), length-all_bytes f xs h, h x)

numbers_read :
    (is : List ℕ)
    → All IsCount is
    → All (λ i. (rest : Bytes) → number (u32_bytes i ++ rest) ≡ (rest, ok i)) is
numbers_read [] h = tt
numbers_read (i ∷ is) (h, hs) = (number-Reads i h, numbers_read is hs)

tag_reads : (c : TableConstraint) → constraint_of (constraint_tag c) (indices_of c) ≡ ok c
tag_reads (primary_key v) = refl
tag_reads (unique v) = refl

constraint-Reads :
    (c : TableConstraint) → ConstraintFits c → Reads constraint (constraint_bytes c) c
unfolding constraint
constraint-Reads c (small, each) rest =
    let is = indices_of c in
    let bytes = all_bytes u32_bytes is in
    let room : length is ≤ length (bytes ++ rest) =
      omega (arith, length-append bytes rest, length-all_bytes u32_bytes is (λ x. omega arith)) in
    rw
      (
        byte-Reads (constraint_tag c) (u32_bytes (length is) ++ (bytes ++ rest)),
        count-eq-ok (length is) (bytes ++ rest) small room,
        repeat_reads number u32_bytes is (numbers_read is each) rest,
        tag_reads c,
      )
      refl

columns_read :
    (cs : List ColumnSchema)
    → All IsColumn cs
    → All ColumnFits cs
    → All (λ c. (rest : Bytes) → column (column_bytes c ++ rest) ≡ (rest, ok c)) cs
columns_read [] h k = tt
columns_read (c ∷ cs) (h, hs) (k, ks) = (column-Reads c h k, columns_read cs hs ks)

constraints_read :
    (cs : List TableConstraint)
    → All ConstraintFits cs
    → All (λ c. (rest : Bytes) → constraint (constraint_bytes c ++ rest) ≡ (rest, ok c)) cs
constraints_read [] h = tt
constraints_read (c ∷ cs) (h, hs) = (constraint-Reads c h, constraints_read cs hs)

tag_read : (rest : Bytes) → record_tag (table_tag ++ rest) ≡ (rest, ok tt)
unfolding record_tag
tag_read rest = rw (read_exact table_tag rest) refl

record_reads :
    (m : Metadata) (bytes : Bytes)
    → IsMetadata m
    → Encoded m bytes
    → metadata (record_bytes m) ≡ ([], ok m)
unfolding metadata
record_reads m bytes v e =
    let tail = all_bytes constraint_bytes m.constraints in
    let keys = u32_bytes (length m.constraints) ++ tail in
    let columns = all_bytes column_bytes m.schema.columns in
    let body = u32_bytes (length m.schema.columns) ++ (columns ++ keys) in
    let wide : length m.schema.columns ≤ length (columns ++ keys) = omega (
      arith,
      length-append columns keys,
      length-all_bytes column_bytes m.schema.columns (λ x. omega arith),
    ) in
    let long : length m.constraints ≤ length tail =
      length-all_bytes constraint_bytes m.constraints (λ x. omega arith) in
    let last : repeat (length m.constraints) constraint tail ≡ ([], ok m.constraints) =
      rw append-nil at (
        repeat_reads constraint constraint_bytes m.constraints
          (constraints_read m.constraints e.constraints) []) in
    rw
      (
        tag_read (u32_bytes m.head ++ (string_bytes m.schema.name ++ body)),
        number-Reads m.head v.head (string_bytes m.schema.name ++ body),
        string-Reads m.schema.name e.name v.name body,
        count-eq-ok (length m.schema.columns) (columns ++ keys) e.width wide,
        repeat_reads column column_bytes m.schema.columns
            (columns_read m.schema.columns v.columns e.columns) keys,
        count-eq-ok (length m.constraints) tail e.keys long,
        last,
        e.valid,
      )
      refl

-- Whatever `encode` writes for metadata of a Rust value, `decode` reads back as the same metadata.
pub decode-encode :
    (m : Metadata) (bytes : Bytes) → IsMetadata m → encode m ≡ ok bytes → decode bytes ≡ ok m
unfolding decode
decode-encode m bytes v h =
    let e = encode-Encoded m bytes h in
    rw e.written (ap (λ (r : Bytes × R Metadata). r.1) (record_reads m bytes v e))
