-- ===== src/Catalog/Codec/Writes.antt =====
-- What the writers of crates/catalog/src/codec.rs append to metadata that fits.
use mathlib.Core.List.{append-nil, append_assoc}
use chili_db.Prelude.{
  ℕ, ◌^◌, ◌≡◌, refl, sym, ap, ◌∙◌, Bool, true, false, not, none, some, List, [], ◌∷◌, ◌++◌, ltb,
  if◌then◌else◌, length, ok, err, All, ◌≢◌, lt→ltb, guard, ◌>>◌,
}
use chili_db.Bytes.{Bytes, u32_bytes}
use chili_db.Binder.Types.{
  LogicalType, null, boolean, int32, int64, uint32, float32, float64, text, varchar, ColumnSchema,
  TableConstraint,
}
use chili_db.HeapAm.Page.{max_tuple_size}
use chili_db.Catalog.Codec.{
  Metadata, table_tag, flag, indices_of, constraint_tag, number, string, type_bytes, put_columns,
  put_indices, put_constraints, validate, encode, record_too_large,
}
use chili_db.Catalog.Codec.Written.{
  all_bytes, string_bytes, tag_bytes, column_bytes, constraint_bytes, record_bytes, IsCount,
  ColumnFits, ConstraintFits,
}

number-eq : (out : Bytes) (n : ℕ) → IsCount n → number out n ≡ ok (out ++ u32_bytes n)
unfolding number
number-eq out n h = rw (lt→ltb n (2 ^ 32) h) refl

string-eq : (out s : Bytes) → IsCount (length s) → string out s ≡ ok (out ++ string_bytes s)
unfolding string
string-eq out s h =
    rw (number-eq out (length s) h) (ap ok (append_assoc out (u32_bytes (length s)) s))

type_bytes-eq : (t : LogicalType) → t ≢ null → type_bytes t ≡ ok (tag_bytes t)
unfolding type_bytes
type_bytes-eq null h = absurd (h refl)
type_bytes-eq boolean h = refl
type_bytes-eq int32 h = refl
type_bytes-eq int64 h = refl
type_bytes-eq uint32 h = refl
type_bytes-eq float32 h = refl
type_bytes-eq float64 h = refl
type_bytes-eq text h = refl
type_bytes-eq (varchar none) h = refl
type_bytes-eq (varchar (some n)) h = refl

put_columns-eq :
    (out : Bytes) (cs : List ColumnSchema)
    → All ColumnFits cs
    → put_columns out cs ≡ ok (out ++ all_bytes column_bytes cs)
unfolding put_columns
put_columns-eq out [] h = ap ok (sym (append-nil out))
put_columns-eq out (c ∷ cs) ((small, typed), hs) =
    rw
      (
        string-eq out c.name small,
        type_bytes-eq c.data_type typed,
        put_columns-eq ((out ++ string_bytes c.name) ++ (flag c.nullable ∷ tag_bytes c.data_type))
            cs hs,
      )
      (ap ok (simp append_assoc))

put_indices-eq :
    (out : Bytes) (is : List ℕ)
    → All IsCount is
    → put_indices out is ≡ ok (out ++ all_bytes u32_bytes is)
unfolding put_indices
put_indices-eq out [] h = ap ok (sym (append-nil out))
put_indices-eq out (i ∷ is) (h, hs) =
    rw (number-eq out i h, put_indices-eq (out ++ u32_bytes i) is hs) (ap ok (simp append_assoc))

put_constraints-eq :
    (out : Bytes) (cs : List TableConstraint)
    → All ConstraintFits cs
    → put_constraints out cs ≡ ok (out ++ all_bytes constraint_bytes cs)
unfolding put_constraints
put_constraints-eq out [] h = ap ok (sym (append-nil out))
put_constraints-eq out (c ∷ cs) ((small, each), hs) =
    let tagged = out ++ constraint_tag c ∷ [] in
    let counted = tagged ++ u32_bytes (length (indices_of c)) in
    rw
      (
        number-eq tagged (length (indices_of c)) small,
        put_indices-eq counted (indices_of c) each,
        put_constraints-eq (counted ++ all_bytes u32_bytes (indices_of c)) cs hs,
      )
      (ap ok (simp append_assoc))

pub record Fitting (m : Metadata) : Type 0 where
  pub valid : validate m ≡ ok tt
  pub name : IsCount (length m.schema.name)
  pub width : IsCount (length m.schema.columns)
  pub columns : All ColumnFits m.schema.columns
  pub keys : IsCount (length m.constraints)
  pub constraints : All ConstraintFits m.constraints

sized :
    (large : Bool) (bytes : Bytes)
    → (guard (not large) record_too_large >> ok bytes)
      ≡ (if large then err record_too_large else ok bytes)
sized true bytes = refl
sized false bytes = refl

within_tuple :
    (bytes : Bytes)
    → (guard (not (ltb max_tuple_size (length bytes))) record_too_large >> ok bytes)
      ≡ (if ltb max_tuple_size (length bytes) then err record_too_large else ok bytes)
within_tuple bytes = sized (ltb max_tuple_size (length bytes)) bytes

-- Valid metadata whose lengths fit is encoded as its bytes unless they are too many.
pub encode-Fitting :
    (m : Metadata)
    → Fitting m
    → encode m ≡ (
        if ltb max_tuple_size (length (record_bytes m))
        then err record_too_large
        else ok (record_bytes m))
unfolding encode
encode-Fitting m h =
    let o₀ = table_tag ++ u32_bytes m.head in
    let o₁ = o₀ ++ string_bytes m.schema.name in
    let o₂ = o₁ ++ u32_bytes (length m.schema.columns) in
    let o₃ = o₂ ++ all_bytes column_bytes m.schema.columns in
    let o₄ = o₃ ++ u32_bytes (length m.constraints) in
    let o₅ = o₄ ++ all_bytes constraint_bytes m.constraints in
    let same : o₅ ≡ record_bytes m = simp append_assoc in
    rw
      (
        h.valid,
        string-eq o₀ m.schema.name h.name,
        number-eq o₁ (length m.schema.columns) h.width,
        put_columns-eq o₂ m.schema.columns h.columns,
        number-eq o₃ (length m.constraints) h.keys,
        put_constraints-eq o₄ m.constraints h.constraints,
      )
      (within_tuple o₅
        ∙ ap
            (λ (bytes : Bytes).
              if ltb max_tuple_size (length bytes) then err record_too_large else ok bytes)
            same)
