-- ===== src/Catalog/Codec/Written.antt =====
-- What `encode` of crates/catalog/src/codec.rs writes, as plain concatenation.
use mathlib.Core.List.{append-nil, append_assoc}
use chili_db.Prelude.{
  ℕ, ◌^◌, ◌≤◌, ◌<◌, ◌≡◌, sym, ap, ◌∙◌, not, none, some, List, [], ◌∷◌, ◌++◌, ltb, length, ok, ◌>>=◌,
  >>=-eq-ok, guard-eq-ok, arith, All, ◌≢◌,
}
use chili_db.Bytes.{Bytes, u32_bytes}
use chili_db.Binder.Types.{
  LogicalType, null, boolean, int32, int64, uint32, float32, float64, text, varchar, ColumnSchema,
  TableConstraint,
}
use chili_db.HeapAm.Page.{max_tuple_size}
use chili_db.Catalog.Codec.{
  Metadata, table_tag, flag, indices_of, constraint_tag, number, string, type_bytes, put_columns,
  put_indices, put_constraints, validate, encode, count_overflow,
}

abbrev pub all_bytes {ℓ} : {A : Type ℓ} → (A → Bytes) → List A → Bytes
all_bytes f [] = []
all_bytes f (x ∷ xs) = f x ++ all_bytes f xs

abbrev pub string_bytes : Bytes → Bytes
string_bytes s = u32_bytes (length s) ++ s

-- The tag and bound of a type that is not NULL.
abbrev pub tag_bytes : LogicalType → Bytes
tag_bytes null = []
tag_bytes boolean = 1 ∷ []
tag_bytes int32 = 2 ∷ []
tag_bytes int64 = 3 ∷ []
tag_bytes uint32 = 4 ∷ []
tag_bytes float32 = 5 ∷ []
tag_bytes float64 = 6 ∷ []
tag_bytes text = 7 ∷ []
tag_bytes (varchar none) = 8 ∷ []
tag_bytes (varchar (some n)) = 9 ∷ u32_bytes n

abbrev pub column_bytes : ColumnSchema → Bytes
column_bytes c = string_bytes c.name ++ (flag c.nullable ∷ tag_bytes c.data_type)

abbrev pub constraint_bytes : TableConstraint → Bytes
constraint_bytes c =
    constraint_tag c ∷ (u32_bytes (length (indices_of c)) ++ all_bytes u32_bytes (indices_of c))

abbrev pub record_bytes : Metadata → Bytes
record_bytes m =
    table_tag
    ++ (u32_bytes m.head
        ++ (string_bytes m.schema.name
            ++ (u32_bytes (length m.schema.columns)
                ++ (all_bytes column_bytes m.schema.columns
                    ++ (u32_bytes (length m.constraints)
                        ++ all_bytes constraint_bytes m.constraints)))))

abbrev pub IsCount : ℕ → Type 0
IsCount n = n < 2 ^ 32

-- The lengths in a column, the lengths and indices in a constraint.
abbrev pub ColumnFits : ColumnSchema → Type 0
ColumnFits c = IsCount (length c.name) × (c.data_type ≢ null)

abbrev pub ConstraintFits : TableConstraint → Type 0
ConstraintFits c = IsCount (length (indices_of c)) × All IsCount (indices_of c)

pub record Encoded (m : Metadata) (bytes : Bytes) : Type 0 where
  pub valid : validate m ≡ ok tt
  pub written : bytes ≡ record_bytes m
  pub fits : length bytes ≤ max_tuple_size
  pub name : IsCount (length m.schema.name)
  pub width : IsCount (length m.schema.columns)
  pub columns : All ColumnFits m.schema.columns
  pub keys : IsCount (length m.constraints)
  pub constraints : All ConstraintFits m.constraints

number-eq-ok :
    (out : Bytes) (n : ℕ) {o : Bytes} → number out n ≡ ok o → IsCount n × (o ≡ out ++ u32_bytes n)
unfolding number
number-eq-ok out n h =
    let (small, e) = guard-eq-ok (ltb n (2 ^ 32)) count_overflow (ok (out ++ u32_bytes n)) h in
    (ground arith, cc e)

string-eq-ok :
    (out s : Bytes) {o : Bytes}
    → string out s ≡ ok o
    → IsCount (length s) × (o ≡ out ++ string_bytes s)
unfolding string
string-eq-ok out s h =
    let (o', h₁, e) = >>=-eq-ok (number out (length s)) (λ o'. ok (o' ++ s)) h in
    let (small, at) = number-eq-ok out (length s) h₁ in
    let e' : o' ++ s ≡ _ = cc e in
    (small, sym e' ∙ ap (λ x. x ++ s) at ∙ append_assoc out (u32_bytes (length s)) s)

type_bytes-eq-ok :
    (t : LogicalType) {bs : Bytes} → type_bytes t ≡ ok bs → (t ≢ null) × (bs ≡ tag_bytes t)
unfolding type_bytes
type_bytes-eq-ok null h = absurd (cc)
type_bytes-eq-ok boolean h = (λ e. cc, cc)
type_bytes-eq-ok int32 h = (λ e. cc, cc)
type_bytes-eq-ok int64 h = (λ e. cc, cc)
type_bytes-eq-ok uint32 h = (λ e. cc, cc)
type_bytes-eq-ok float32 h = (λ e. cc, cc)
type_bytes-eq-ok float64 h = (λ e. cc, cc)
type_bytes-eq-ok text h = (λ e. cc, cc)
type_bytes-eq-ok (varchar none) h = (λ e. cc, cc)
type_bytes-eq-ok (varchar (some n)) h = (λ e. cc, cc)

put_columns-eq-ok :
    (out : Bytes) (cs : List ColumnSchema) {o : Bytes}
    → put_columns out cs ≡ ok o
    → All ColumnFits cs × (o ≡ out ++ all_bytes column_bytes cs)
unfolding put_columns
put_columns-eq-ok out [] h = (tt, rw append-nil (cc))
put_columns-eq-ok out (c ∷ cs) h =
    let (o₁, h₁, k₁) =
      >>=-eq-ok (string out c.name)
        (λ o. type_bytes c.data_type >>= λ tag. put_columns (o ++ (flag c.nullable ∷ tag)) cs) h in
    let (tag, h₂, k₂) =
      >>=-eq-ok (type_bytes c.data_type) (λ tag. put_columns (o₁ ++ (flag c.nullable ∷ tag)) cs)
        k₁ in
    let (small, e₁) = string-eq-ok out c.name h₁ in
    let (typed, e₂) = type_bytes-eq-ok c.data_type h₂ in
    let (rest, e) = put_columns-eq-ok (o₁ ++ (flag c.nullable ∷ tag)) cs k₂ in
    (((small, typed), rest), rw (e, e₁, e₂) (simp append_assoc))

put_indices-eq-ok :
    (out : Bytes) (is : List ℕ) {o : Bytes}
    → put_indices out is ≡ ok o
    → All IsCount is × (o ≡ out ++ all_bytes u32_bytes is)
unfolding put_indices
put_indices-eq-ok out [] h = (tt, rw append-nil (cc))
put_indices-eq-ok out (i ∷ is) h =
    let (o₁, h₁, k₁) = >>=-eq-ok (number out i) (λ o. put_indices o is) h in
    let (small, e₁) = number-eq-ok out i h₁ in
    let (rest, e) = put_indices-eq-ok o₁ is k₁ in ((small, rest), rw (e, e₁) (simp append_assoc))

put_constraints-eq-ok :
    (out : Bytes) (cs : List TableConstraint) {o : Bytes}
    → put_constraints out cs ≡ ok o
    → All ConstraintFits cs × (o ≡ out ++ all_bytes constraint_bytes cs)
unfolding put_constraints
put_constraints-eq-ok out [] h = (tt, rw append-nil (cc))
put_constraints-eq-ok out (c ∷ cs) h =
    let tagged = out ++ constraint_tag c ∷ [] in
    let (o₁, h₁, k₁) =
      >>=-eq-ok (number tagged (length (indices_of c)))
        (λ o. put_indices o (indices_of c) >>= λ o'. put_constraints o' cs) h in
    let (o₂, h₂, k₂) = >>=-eq-ok (put_indices o₁ (indices_of c)) (λ o. put_constraints o cs) k₁ in
    let (small, e₁) = number-eq-ok tagged (length (indices_of c)) h₁ in
    let (each, e₂) = put_indices-eq-ok o₁ (indices_of c) h₂ in
    let (rest, e) = put_constraints-eq-ok o₂ cs k₂ in
    (((small, each), rest), rw (e, e₂, e₁) (simp append_assoc))

-- A successful `encode` has validated the metadata and written its bytes in order.
pub encode-Encoded : (m : Metadata) (bytes : Bytes) → encode m ≡ ok bytes → Encoded m bytes
unfolding encode
encode-Encoded m bytes h =
    let (_, valid, k₀) = >>=-eq-ok (validate m) _ h in
    let (o₁, h₁, k₁) = >>=-eq-ok (string (table_tag ++ u32_bytes m.head) m.schema.name) _ k₀ in
    let (o₂, h₂, k₂) = >>=-eq-ok (number o₁ (length m.schema.columns)) _ k₁ in
    let (o₃, h₃, k₃) = >>=-eq-ok (put_columns o₂ m.schema.columns) _ k₂ in
    let (o₄, h₄, k₄) = >>=-eq-ok (number o₃ (length m.constraints)) _ k₃ in
    let (o₅, h₅, k₅) = >>=-eq-ok (put_constraints o₄ m.constraints) _ k₄ in
    let (small, k₆) = guard-eq-ok (not (ltb max_tuple_size (length o₅))) _ _ k₅ in
    let (f₁, e₁) = string-eq-ok _ m.schema.name h₁ in
    let (f₂, e₂) = number-eq-ok o₁ _ h₂ in
    let (f₃, e₃) = put_columns-eq-ok o₂ m.schema.columns h₃ in
    let (f₄, e₄) = number-eq-ok o₃ _ h₄ in
    let (f₅, e₅) = put_constraints-eq-ok o₄ m.constraints h₅ in
    let e : o₅ ≡ bytes = cc k₆ in
    record {
      valid = valid;
      written = rw (← e, e₅, e₄, e₃, e₂, e₁) (simp append_assoc);
      fits = rw (← e) (ground arith);
      name = f₁;
      width = f₂;
      columns = f₃;
      keys = f₄;
      constraints = f₅;
    }
