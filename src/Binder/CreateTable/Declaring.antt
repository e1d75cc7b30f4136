-- ===== src/Binder/CreateTable/Declaring.antt =====
-- The type and the constraints that CREATE TABLE declares for one column.
use chili_db.Prelude.{
  ℕ, ◌≡◌, refl, ap, ◌∙◌, Bool, true, false, not, ◌&&◌, ◌||◌, List, [], ◌∷◌, ◌++◌, Option, none,
  some, ok, err, panic, get_elem?, arith, Yields, bind-Yields, guard-Yields,
}
use chili_db.Bytes.{Bytes}
use chili_db.Binder.Types.{ColumnSchema, TableConstraint, primary_key, unique}
use chili_db.Parser.Ast
use chili_db.Parser.Ast.{DataType, ColumnConstraint, ColumnDef}
use chili_db.Binder.Statement.{Answer}
use chili_db.Binder.CreateTable.{
  Declared, varchar_limit, bounded_varchar, data_type_of, pushed_first, declare,
}
use chili_db.Catalog.Codec.{is_null, check_indices, check_constraints}

-- NOT NULL and PRIMARY KEY make a column not nullable.
-- NOT NULL and PRIMARY KEY make a column not nullable.
abbrev pub may_be_null : List ColumnConstraint → Bool
may_be_null [] = true
may_be_null (Ast.not_null ∷ ks) = false
may_be_null (Ast.primary_key ∷ ks) = false
may_be_null (Ast.unique ∷ ks) = may_be_null ks

-- The table constraints of one column, and of all.
abbrev pub constraints_at : ℕ → List ColumnConstraint → List TableConstraint
constraints_at i [] = []
constraints_at i (Ast.not_null ∷ ks) = constraints_at i ks
constraints_at i (Ast.primary_key ∷ ks) = primary_key (i ∷ []) ∷ constraints_at i ks
constraints_at i (Ast.unique ∷ ks) = unique (i ∷ []) ∷ constraints_at i ks

module _ (E : Type 0) where
  pub data_type_of-Yields :
      (d : DataType)
      → Yields (λ t. (is_null t ≡ false) × (data_type_of {E = E} d ≡ ok t)) (data_type_of {E = E} d)
  data_type_of-Yields Ast.integer = (refl, refl)
  data_type_of-Yields Ast.big_int = (refl, refl)
  data_type_of-Yields Ast.real = (refl, refl)
  data_type_of-Yields Ast.double = (refl, refl)
  data_type_of-Yields Ast.boolean = (refl, refl)
  data_type_of-Yields Ast.text = (refl, refl)
  data_type_of-Yields (Ast.varchar none) = (refl, refl)
  data_type_of-Yields (Ast.varchar (some s)) = of_limit (varchar_limit s)
    where
      of_limit :
          (limit : Option ℕ)
          → Yields
              (λ t. (is_null t ≡ false) × (bounded_varchar {E = E} s limit ≡ ok t))
              (bounded_varchar {E = E} s limit)
      of_limit none = tt
      of_limit (some n) = (refl, refl)

  -- The constraints of one column pass the check wherever those that follow do.
  pub record ColumnDeclared (index : ℕ) (ks : List ColumnConstraint) (n p : Bool) (d : Declared)
      : Type 0 where
    pub nullable : d.nullable ≡ (n && may_be_null ks)
    pub constraints : d.constraints ≡ constraints_at index ks
    pub checked :
        (all : List ColumnSchema) (k : ColumnSchema)
        → get_elem? all index ≡ some k
        → k.nullable ≡ d.nullable
        → (rest : List TableConstraint) → check_constraints all rest d.primary ≡ ok tt
        → check_constraints all (d.constraints ++ rest) p ≡ ok tt

  pub not-true : {b : Bool} → not b ≡ true → b ≡ false
  not-true h = ground arith

  pub or-false : (a b : Bool) → (a || b) ≡ false → (a ≡ false) × (b ≡ false)
  or-false a b h = ground arith

  module _ (index : ℕ) (k : ColumnSchema) where
    one_index :
        (pk : Bool) (all : List ColumnSchema)
        → get_elem? all index ≡ some k
        → (pk && k.nullable) ≡ false
        → check_indices all pk (index ∷ []) [] ≡ ok tt
    unfolding check_indices
    one_index pk all at fine = rw (at, check_indices) (rw fine refl)

    primary_checked :
        (p : Bool)
        → (not p ≡ true)
        → (rest : List TableConstraint) (all : List ColumnSchema) → get_elem? all index ≡ some k
        → k.nullable ≡ false
        → check_constraints all rest true ≡ ok tt
        → check_constraints all (primary_key (index ∷ []) ∷ rest) p ≡ ok tt
    unfolding check_constraints
    primary_checked false first rest all at fine rest_ok = rw (one_index true all at fine) rest_ok
    primary_checked true first rest all at fine rest_ok = cc

    unique_checked :
        (p : Bool) (rest : List TableConstraint) (all : List ColumnSchema)
        → get_elem? all index ≡ some k
        → check_constraints all rest p ≡ ok tt
        → check_constraints all (unique (index ∷ []) ∷ rest) p ≡ ok tt
    unfolding check_constraints
    unique_checked false rest all at rest_ok = rw (one_index false all at refl) rest_ok
    unique_checked true rest all at rest_ok = rw (one_index false all at refl) rest_ok

  pub declare-Yields :
      (index : ℕ) (name : Bytes) (ks : List ColumnConstraint) (sn sp su n p : Bool)
      → Yields (ColumnDeclared index ks n p) (declare {E = E} index name ks sn sp su n p)
  unfolding declare check_constraints check_indices
  declare-Yields index name [] sn sp su n p = record {
    nullable = ground arith;
    constraints = refl;
    checked = λ all k at same rest ok. ok;
  }
  declare-Yields index name (Ast.not_null ∷ ks) sn sp su n p =
      guard-Yields (ColumnDeclared index (Ast.not_null ∷ ks) n p) (not sn) _ _ (λ fresh.
        weaken (declare {E = E} index name ks true sp su false p)
          (declare-Yields index name ks true sp su false p))
    where
      weaken :
          (r : Answer E Declared)
          → Yields (ColumnDeclared index ks false p) r
          → Yields (ColumnDeclared index (Ast.not_null ∷ ks) n p) r
      weaken (ok d) h = record {
        nullable = rw h.nullable (ground arith);
        constraints = h.constraints;
        checked = h.checked;
      }
      weaken (err e) h = tt
      weaken panic h = absurd h
  declare-Yields index name (Ast.primary_key ∷ ks) sn sp su n p =
      guard-Yields (ColumnDeclared index (Ast.primary_key ∷ ks) n p) (not sp) _ _ (λ fresh.
        guard-Yields (ColumnDeclared index (Ast.primary_key ∷ ks) n p) (not p) _ _ (λ first.
          bind-Yields (ColumnDeclared index (Ast.primary_key ∷ ks) n p)
            (ColumnDeclared index ks false true)
            (declare {E = E} index name ks sn true su false true)
            (pushed_first (primary_key (index ∷ [])))
            (declare-Yields index name ks sn true su false true)
            (λ d h. record {
              nullable = rw h.nullable (ground arith);
              constraints = ap (λ cs. primary_key (index ∷ []) ∷ cs) h.constraints;
              checked = λ all k at same rest rest_ok.
                  primary_checked index k p first (d.constraints ++ rest) all at (same ∙ h.nullable)
                    (h.checked all k at same rest rest_ok);
            })))
  declare-Yields index name (Ast.unique ∷ ks) sn sp su n p =
      guard-Yields (ColumnDeclared index (Ast.unique ∷ ks) n p) (not su) _ _ (λ fresh.
        bind-Yields (ColumnDeclared index (Ast.unique ∷ ks) n p) (ColumnDeclared index ks n p)
          (declare {E = E} index name ks sn sp true n p) (pushed_first (unique (index ∷ [])))
          (declare-Yields index name ks sn sp true n p)
          (λ d h. record {
            nullable = h.nullable;
            constraints = ap (λ cs. unique (index ∷ []) ∷ cs) h.constraints;
            checked = λ all k at same rest rest_ok.
                unique_checked index k p (d.constraints ++ rest) all at
                  (h.checked all k at same rest rest_ok);
          }))
