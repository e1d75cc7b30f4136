-- ===== src/Catalog/Codec/Checking.antt =====
-- `validate` of crates/catalog/src/codec.rs answers or refuses.
use chili_db.Prelude.{
  ℕ, ◌≡◌, refl, inl, inr, Bool, false, not, ◌&&◌, ◌||◌, List, [], ◌∷◌, is_empty, get_elem?, ok, err,
  panic, ◌>>=◌, ◌>>◌, guard, Yields, bind-Yields, guard-Yields, Option-cases,
}
use chili_db.Bytes.{Bytes}
use chili_db.Binder.Types.{ColumnSchema, TableConstraint}
use chili_db.Catalog.Codec.{
  Metadata, R, bad_column_name, null_column, repeated_index, nullable_primary_key,
  multiple_primary_keys, empty_constraint, empty_table, seen_name, seen_index, is_null, indices_of,
  is_primary, check_columns, check_indices, check_constraints, validate,
}

abbrev Answered : R (Unit {0}) → Type 0
Answered = Yields (λ u. Unit {0})

check_columns-Answered :
    (cs : List ColumnSchema) (names : List Bytes) → Answered (check_columns cs names)
unfolding check_columns
check_columns-Answered [] names = tt
check_columns-Answered (c ∷ cs) names =
    guard-Yields (λ u. Unit) (not (is_empty c.name || seen_name c.name names)) bad_column_name
      (guard (not (is_null c.data_type)) null_column >> check_columns cs (c.name ∷ names))
      (λ e.
        guard-Yields (λ u. Unit) (not (is_null c.data_type)) null_column
          (check_columns cs (c.name ∷ names)) (λ e'. check_columns-Answered cs (c.name ∷ names)))

check_indices-Answered :
    (columns : List ColumnSchema) (pk : Bool) (is seen : List ℕ)
    → Answered (check_indices columns pk is seen)
unfolding check_indices
check_indices-Answered columns pk [] seen = tt
check_indices-Answered columns pk (i ∷ is) seen = elim (Option-cases (get_elem? columns i)) [
  | inl missing ↦ rw (check_indices, missing) tt
  | inr (column, found) ↦
      rw (check_indices, found)
        (guard-Yields (λ u. Unit) (not (seen_index i seen)) repeated_index
          (guard (not (pk && column.nullable)) nullable_primary_key
            >> check_indices columns pk is (i ∷ seen))
          (λ e.
            guard-Yields (λ u. Unit) (not (pk && column.nullable)) nullable_primary_key
              (check_indices columns pk is (i ∷ seen))
              (λ e'. check_indices-Answered columns pk is (i ∷ seen))))
]

check_constraints-Answered :
    (columns : List ColumnSchema) (cs : List TableConstraint) (primary : Bool)
    → Answered (check_constraints columns cs primary)
unfolding check_constraints
check_constraints-Answered columns [] primary = tt
check_constraints-Answered columns (c ∷ cs) primary =
    guard-Yields (λ u. Unit) (not (is_primary c && primary)) multiple_primary_keys
      (guard (not (is_empty (indices_of c))) empty_constraint
        >> (check_indices columns (is_primary c) (indices_of c) [] >>= λ u.
            check_constraints columns cs (primary || is_primary c)))
      (λ e.
        guard-Yields (λ u. Unit) (not (is_empty (indices_of c))) empty_constraint
          (check_indices columns (is_primary c) (indices_of c) [] >>= λ u.
            check_constraints columns cs (primary || is_primary c))
          (λ e'.
            bind-Yields (λ u. Unit) (λ u. Unit)
              (check_indices columns (is_primary c) (indices_of c) [])
              (λ u. check_constraints columns cs (primary || is_primary c))
              (check_indices-Answered columns (is_primary c) (indices_of c) [])
              (λ u h. check_constraints-Answered columns cs (primary || is_primary c))))

validate-Answered : (m : Metadata) → Answered (validate m)
unfolding validate
validate-Answered m =
    guard-Yields (λ u. Unit) (not (is_empty m.schema.name || is_empty m.schema.columns)) empty_table
      (check_columns m.schema.columns [] >>= λ u.
        check_constraints m.schema.columns m.constraints false)
      (λ e.
        bind-Yields (λ u. Unit) (λ u. Unit) (check_columns m.schema.columns [])
          (λ u. check_constraints m.schema.columns m.constraints false)
          (check_columns-Answered m.schema.columns [])
          (λ u h. check_constraints-Answered m.schema.columns m.constraints false))

-- An answer of `validate` is that the metadata is valid.
pub validate-Yields : (m : Metadata) → Yields (λ u. validate m ≡ ok tt) (validate m)
validate-Yields m = of (validate m) (validate-Answered m)
  where
    of : (r : R (Unit {0})) → Answered r → Yields (λ u. r ≡ ok tt) r
    of (ok tt) h = refl
    of (err e) h = tt
    of panic h = h
