-- ===== src/Catalog/Codec/Canonical.antt =====
-- `decode` and `encode` of crates/catalog/src/codec.rs, one after the other.
use mathlib.Core.List.{append-nil}
use chili_db.Prelude.{
  ℕ, ◌≡◌, refl, ◌∙◌, List, [], ◌∷◌, ◌++◌, ltb, if◌then◌else◌, length, is_empty, ok, err, panic,
  guard, All, Yields,
}
use chili_db.Prelude.Methods.{pure, inspect, lift, ◌>>=◌, ◌>>◌}
use chili_db.Prelude.Methods
use chili_db.Bytes.{Bytes, IsByte, u32_bytes}
use chili_db.Binder.Types.{ColumnSchema, TableConstraint}
use chili_db.Catalog.Codec.{R, table_tag}
use chili_db.Catalog.Codec.Written.{
  all_bytes, string_bytes, column_bytes, constraint_bytes, record_bytes, IsCount, ColumnFits,
  ConstraintFits,
}
use chili_db.Catalog.Codec.RoundTrip.{IsColumn, IsMetadata}
use chili_db.Catalog.Codec.Decode.{
  Reader, number, count, string, column, repeat, constraint, record_tag, metadata, decode,
}
use chili_db.Catalog.Codec.Parsing.{
  Outcome, Parses, Exact, bind-Parses, inspect-Parses, lift-Parses, pure-Parses,
}
use chili_db.Catalog.Codec.Readers.{
  IsText, number-Parses, string-Parses, record_tag-Parses, counted-Parses,
}
use chili_db.Catalog.Codec.Checking.{validate-Yields}
use chili_db.Catalog.Codec.Writes.{Fitting, encode-Fitting}
use chili_db.HeapAm.Page.{max_tuple_size}
use chili_db.Catalog.Codec.{Metadata, validate, encode, trailing_bytes, record_too_large}
use chili_db.Catalog.Codec.Items.{column-Parses, constraint-Parses}

All-map :
    {A : Type 0} {P Q : A → Type 0} → ((x : A) → P x → Q x) → (xs : List A) → All P xs → All Q xs
All-map f [] h = tt
All-map f (x ∷ xs) (h, hs) = (f x h, All-map f xs hs)

abbrev table_of : ℕ → Bytes → List ColumnSchema → List TableConstraint → Metadata
table_of head name columns constraints = record {
  schema = record { name = name; columns = columns };
  head = head;
  constraints = constraints;
}

module _ (head : ℕ) (name : Bytes) (columns : List ColumnSchema) (cs : List TableConstraint) where
  table_of-IsMetadata :
      IsCount head
      → IsText name
      → All (λ c. IsColumn c × ColumnFits c) columns
      → IsMetadata (table_of head name columns cs)
  table_of-IsMetadata h n c = record {
    head = h;
    name = n.1;
    columns = All-map (λ c h. h.0) columns c;
  }

  table_of-Fitting :
      IsText name
      → IsCount (length columns)
      → All (λ c. IsColumn c × ColumnFits c) columns
      → IsCount (length cs)
      → All ConstraintFits cs
      → validate (table_of head name columns cs) ≡ ok tt
      → Fitting (table_of head name columns cs)
  table_of-Fitting n w c k f valid = record {
    valid = valid;
    name = n.0;
    width = w;
    columns = All-map (λ c h. h.1) columns c;
    keys = k;
    constraints = f;
  }

-- All bytes were taken, and they are those of the metadata.
abbrev Whole : Outcome Metadata
Whole m used rest = (rest ≡ []) × (used ≡ record_bytes m) × IsMetadata m × Fitting m

-- Nothing was taken and nothing is left.
abbrev Ended : Bytes → Bytes → Type 0
Ended used rest = (used ≡ []) × (rest ≡ [])

-- `metadata` after the constraints are read.
abbrev finish : Metadata → Reader Metadata
finish m = inspect (λ rest. guard (is_empty rest) trailing_bytes) >> (lift (validate m) >> pure m)

finish-Parses :
    (m : Metadata) (around : Bytes → Bytes) (rest : Bytes)
    → All IsByte rest
    → around [] ≡ record_bytes m
    → IsMetadata m
    → (validate m ≡ ok tt → Fitting m)
    → Parses (finish m) rest (λ m' more r. Whole m' (around more) r)
finish-Parses m around rest whole e v fitting =
    bind-Parses (λ u more r. Ended more r) (λ m' more r. Whole m' (around more) r)
      (inspect (λ rest. guard (is_empty rest) trailing_bytes)) (λ u. lift (validate m) >> pure m)
      rest
      (inspect-Parses (λ u more r. Ended more r) (λ rest. guard (is_empty rest) trailing_bytes) rest
        whole (no_more rest))
      (λ u u₁ r₁ w₁ h₁.
        bind-Parses (λ u more r. Ended more r × (validate m ≡ ok tt))
          (λ m' more r. Whole m' (around (u₁ ++ more)) r) (lift (validate m)) (λ u. pure m) r₁
          (lift-Parses (λ u more r. Ended more r × (validate m ≡ ok tt)) (validate m) r₁ w₁
            (is_valid (validate m) (validate-Yields m) r₁ h₁.1))
          (λ u' u₂ r₂ w₂ h₂.
            pure-Parses (λ m' more r. Whole m' (around (u₁ ++ (u₂ ++ more))) r) m r₂ w₂
              (h₂.0.1, rw (h₁.0, h₂.0.0) e, v, fitting h₂.1)))
  where
    no_more :
        (rest : Bytes)
        → Yields (λ (u : Unit {0}). Ended [] rest) (guard (is_empty rest) trailing_bytes)
    no_more [] = (refl, refl)
    no_more (b ∷ bs) = tt

    is_valid :
        (r : R (Unit {0}))
        → Yields (λ u. validate m ≡ ok tt) r
        → (rest : Bytes) → rest ≡ []
        → Yields (λ u. Ended [] rest × (validate m ≡ ok tt)) r
    is_valid (ok u) h rest e = ((refl, e), h)
    is_valid (err x) h rest e = tt
    is_valid panic h rest e = h

metadata-Parses : (bytes : Bytes) → All IsByte bytes → Parses metadata bytes Whole
unfolding metadata
metadata-Parses bytes whole =
    bind-Parses (Exact (λ u. table_tag) (λ u. Unit)) Whole record_tag
      (λ u. number >>= λ head. after_head head) bytes (record_tag-Parses bytes whole)
      (λ u u₁ r₁ w₁ h₁.
        bind-Parses (Exact u32_bytes IsCount) (λ m more r. Whole m (u₁ ++ more) r) number after_head
          r₁ (number-Parses r₁ w₁)
          (λ head u₂ r₂ w₂ h₂.
            bind-Parses (Exact string_bytes IsText) (λ m more r. Whole m (u₁ ++ (u₂ ++ more)) r)
              string (after_name head) r₂ (string-Parses r₂ w₂)
              (λ name u₃ r₃ w₃ h₃.
                counted-Parses column_bytes (λ c. IsColumn c × ColumnFits c) column column-Parses
                  (λ m more r. Whole m (u₁ ++ (u₂ ++ (u₃ ++ more))) r) (after_columns head name) r₃
                  w₃
                  (λ columns u₄ u₅ r₅ w₅ h₄ h₅.
                    counted-Parses constraint_bytes ConstraintFits constraint constraint-Parses
                      (λ m more r. Whole m (u₁ ++ (u₂ ++ (u₃ ++ (u₄ ++ (u₅ ++ more))))) r)
                      (λ cs. finish (table_of head name columns cs)) r₅ w₅
                      (λ cs u₆ u₇ r₇ w₇ h₆ h₇.
                        finish-Parses (table_of head name columns cs)
                          (λ more. u₁ ++ (u₂ ++ (u₃ ++ (u₄ ++ (u₅ ++ (u₆ ++ (u₇ ++ more))))))) r₇ w₇
                          (rw (h₁.0, h₂.0, h₃.0, h₄.0, h₅.0, h₆.0, h₇.0)
                            (rw (append-nil (all_bytes constraint_bytes cs)) refl))
                          (table_of-IsMetadata head name columns cs h₂.1 h₃.1 h₅.1)
                          (table_of-Fitting head name columns cs h₃.1 h₄.1 h₅.1 h₆.1 h₇.1))))))
  where
    after_columns : ℕ → Bytes → List ColumnSchema → Reader Metadata
    after_columns head name columns =
        count >>= λ k. repeat k constraint >>= λ cs. finish (table_of head name columns cs)

    after_name : ℕ → Bytes → Reader Metadata
    after_name head name =
        count >>= λ n. repeat n column >>= λ columns. after_columns head name columns

    after_head : ℕ → Reader Metadata
    after_head head = string >>= λ name. after_name head name

-- Bytes that `decode` accepts give metadata of a Rust value, for which `encode` writes the same
-- bytes again, or refuses them when there are more than a heap tuple holds. `decode` never panics.
pub encode-decode :
    (bytes : Bytes)
    → All IsByte bytes
    → Yields
        (λ m.
          IsMetadata m
          × (encode m
              ≡ (if ltb max_tuple_size (length bytes) then err record_too_large else ok bytes)))
        (decode bytes)
unfolding decode
encode-decode bytes whole = of (metadata bytes) (metadata-Parses bytes whole)
  where
    of :
        (r : Bytes × R Metadata)
        → Methods.Ensures
            (λ m rest.
              (used : Bytes) × (bytes ≡ used ++ rest) × All IsByte rest × Whole m used rest)
            (λ rest. Unit {0})
            r
        → Yields
            (λ m.
              IsMetadata m
              × (encode m
                  ≡ (if ltb max_tuple_size (length bytes) then err record_too_large else ok bytes)))
            r.1
    of (rest, ok m) (used, split, left, (none_left, is, v, fits)) =
        let same : bytes ≡ record_bytes m = split ∙ rw (none_left, append-nil used) is in
        (v, rw same (encode-Fitting m fits))
    of (rest, err e) h = tt
    of (rest, panic) h = absurd h
