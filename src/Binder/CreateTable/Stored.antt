-- ===== src/Binder/CreateTable/Stored.antt =====
-- The declarations that CREATE TABLE binds, and the check of the catalog's codec on their metadata.
use chili_db.Prelude.{
  get_elem?-append_middle, length-append_one, is_empty, ℕ, suc, ◌≡◌, refl, ap, ap₂, ◌∙◌, subst,
  Bool, true, false, not, ◌||◌, List, [], ◌∷◌, ◌++◌, Option, some, ok, length, get_elem?, ◌⊎◌, inl,
  inr, Yields, bind-Yields, guard-Yields,
}
use mathlib.Core.List.{append_assoc}
use chili_db.Bytes.{Bytes}
use chili_db.Binder.Types.{LogicalType, ColumnSchema, TableSchema, TableConstraint}
use chili_db.Parser.Ast.{ColumnDef}
use chili_db.Binder.Statement.{Catalog, or_catalog}
use chili_db.Binder.CreateTable.{
  CreateTable, Declared, Pushed, any_unnamed, is_some, data_type_of, declare, push_column,
  push_columns, bind_create_table, metadata_of,
}
use chili_db.Catalog.Codec.{seen_name, is_null, check_columns, check_constraints, validate}
-- NOT NULL and PRIMARY KEY make a column not nullable.
use chili_db.Binder.CreateTable.Declaring.{
  may_be_null, constraints_at, ColumnDeclared, data_type_of-Yields, not-true, or-false,
  declare-Yields,
}

abbrev pub constraints_from : ℕ → List ColumnDef → List TableConstraint
constraints_from i [] = []
constraints_from i (c ∷ cs) = constraints_at i c.constraints ++ constraints_from (suc i) cs

module _ (E : Type 0) where
  -- The columns are those that are declared, in order.
  abbrev pub AreDeclared : List ColumnDef → List ColumnSchema → Type 0
  AreDeclared [] [] = Unit
  AreDeclared (c ∷ cs) [] = ⊥
  AreDeclared [] (k ∷ ks) = ⊥
  AreDeclared (c ∷ cs) (k ∷ ks) =
      (k.name ≡ c.name)
      × (data_type_of {E = E} c.data_type ≡ ok k.data_type)
      × (k.nullable ≡ may_be_null c.constraints)
      × AreDeclared cs ks

  -- The declared table, whose metadata the catalog accepts.
  pub record IsDeclared (named : Bytes) (declared : List ColumnDef) (c : CreateTable) : Type 0 where
    pub name : c.name ≡ named
    pub columns : AreDeclared declared c.columns
    pub constraints : c.constraints ≡ constraints_from 0 declared
    pub accepted : (head : ℕ) → validate (metadata_of head c) ≡ ok tt

  -- What is pushed from `index` on passes the checks after any columns before it.
  record ColumnsDeclared (index : ℕ) (cs : List ColumnDef) (names : List Bytes) (p : Bool)
      (r : Pushed) : Type 0 where
    columns : AreDeclared cs r.columns
    constraints : r.constraints ≡ constraints_from index cs
    named : check_columns r.columns names ≡ ok tt
    checked :
        (pre : List ColumnSchema)
        → length pre ≡ index
        → check_constraints (pre ++ r.columns) r.constraints p ≡ ok tt

  push_column-Yields :
      (index : ℕ) (c : ColumnDef) (cs : List ColumnDef) (names : List Bytes) (p : Bool)
      (t : LogicalType) (d : Declared) (r : Pushed)
      → is_empty c.name ≡ false
      → seen_name c.name names ≡ false
      → is_null t ≡ false
      → data_type_of {E = E} c.data_type ≡ ok t
      → ColumnDeclared E index c.constraints true p d
      → ColumnsDeclared (suc index) cs (c.name ∷ names) d.primary r
      → Yields (ColumnsDeclared index (c ∷ cs) names p) (push_column {E = E} c.name t d r)
  unfolding check_columns
  push_column-Yields index c cs names p t d r present fresh typed same one rest = record {
    columns = (refl, same, one.nullable, rest.columns);
    constraints = ap₂ (λ xs ys. xs ++ ys) one.constraints rest.constraints;
    named = rw present (rw fresh (rw typed rest.named));
    checked = λ pre at.
        one.checked (pre ++ k ∷ r.columns) k (at_index pre at) refl r.constraints
          (rest_checked pre at);
  }
    where
      k : ColumnSchema
      k = record { name = c.name; data_type = t; nullable = d.nullable }

      at_index :
          (pre : List ColumnSchema)
          → length pre ≡ index
          → get_elem? (pre ++ k ∷ r.columns) index ≡ some k
      at_index pre at =
          subst (λ i. get_elem? (pre ++ k ∷ r.columns) i ≡ some k) at
            (get_elem?-append_middle pre k r.columns)

      rest_checked :
          (pre : List ColumnSchema)
          → length pre ≡ index
          → check_constraints (pre ++ k ∷ r.columns) r.constraints d.primary ≡ ok tt
      rest_checked pre at =
          subst (λ all. check_constraints all r.constraints d.primary ≡ ok tt)
            (append_assoc pre (k ∷ []) r.columns)
            (rest.checked (pre ++ k ∷ []) (length-append_one pre k ∙ ap suc at))

  push_columns-Yields :
      (index : ℕ) (cs : List ColumnDef) (names : List Bytes) (p : Bool)
      → any_unnamed cs ≡ false
      → Yields (ColumnsDeclared index cs names p) (push_columns {E = E} index cs names p)
  unfolding push_columns check_columns check_constraints
  push_columns-Yields index [] names p named = record {
    columns = tt;
    constraints = refl;
    named = refl;
    checked = λ pre at. refl;
  }
  push_columns-Yields index (c ∷ cs) names p named =
      guard-Yields (ColumnsDeclared index (c ∷ cs) names p) (not (seen_name c.name names)) _ _
        (λ fresh.
          bind-Yields (ColumnsDeclared index (c ∷ cs) names p)
            (λ t. (is_null t ≡ false) × (data_type_of {E = E} c.data_type ≡ ok t))
            (data_type_of {E = E} c.data_type) _ (data_type_of-Yields E c.data_type)
            (λ t known.
              bind-Yields (ColumnsDeclared index (c ∷ cs) names p)
                (ColumnDeclared E index c.constraints true p)
                (declare {E = E} index c.name c.constraints false false false true p) _
                (declare-Yields E index c.name c.constraints false false false true p)
                (λ d one.
                  bind-Yields (ColumnsDeclared index (c ∷ cs) names p)
                    (ColumnsDeclared (suc index) cs (c.name ∷ names) d.primary)
                    (push_columns {E = E} (suc index) cs (c.name ∷ names) d.primary)
                    (push_column c.name t d)
                    (push_columns-Yields (suc index) cs (c.name ∷ names) d.primary
                      (or-false E (is_empty c.name) (any_unnamed cs) named).1)
                    (λ r rest.
                      push_column-Yields index c cs names p t d r
                        (or-false E (is_empty c.name) (any_unnamed cs) named).0 (not-true E fresh)
                        known.0 known.1 one rest))))

  same_emptiness :
      (cs : List ColumnDef) (ks : List ColumnSchema) → AreDeclared cs ks → is_empty ks ≡ is_empty cs
  same_emptiness [] [] h = refl
  same_emptiness (c ∷ cs) (k ∷ ks) h = refl
  same_emptiness (c ∷ cs) [] h = absurd h
  same_emptiness [] (k ∷ ks) h = absurd h

-- CREATE TABLE never panics, whatever the catalog answers, and a table that it binds is the one that
-- is declared: the columns in order with their types, not null where NOT NULL or PRIMARY KEY says so,
-- and one constraint for each PRIMARY KEY or UNIQUE. The catalog's codec accepts its metadata, so its
-- column names are distinct and it has at most one primary key, over columns that are not null.
pub bind_create_table-IsDeclared :
    (catalog : Catalog) (name : Bytes) (columns : List ColumnDef)
    → Yields (IsDeclared catalog.Error name columns) (bind_create_table catalog name columns)
unfolding bind_create_table validate check_constraints check_columns
bind_create_table-IsDeclared catalog name columns =
    guard-Yields Q (not (is_empty name || is_empty columns || any_unnamed columns)) _ _ (λ present.
      bind-Yields Q (λ t. Unit) (or_catalog (catalog.get_table name)) _
        (answered (catalog.get_table name))
        (λ existing known. guard-Yields Q (not (is_some existing)) _ _ (λ absent.
          bind-Yields Q (ColumnsDeclared catalog.Error 0 columns [] false)
            (push_columns 0 columns [] false) _
            (push_columns-Yields catalog.Error 0 columns [] false (parts present).1)
            (λ p pushed. record {
              name = refl;
              columns = pushed.columns;
              constraints = pushed.constraints;
              accepted = λ head.
                  rw (same_emptiness catalog.Error columns p.columns pushed.columns)
                    (rw (parts present).0 (rw pushed.named (pushed.checked [] refl)));
            }))))
  where
    Q : CreateTable → Type 0
    Q = IsDeclared catalog.Error name columns

    answered :
        (answer : catalog.Error ⊎ Option TableSchema) → Yields (λ t. Unit {0}) (or_catalog answer)
    answered (inl e) = tt
    answered (inr t) = tt

    parts :
        not (is_empty name || is_empty columns || any_unnamed columns) ≡ true
        → ((is_empty name || is_empty columns) ≡ false) × (any_unnamed columns ≡ false)
    parts h = or-false catalog.Error _ _ (not-true catalog.Error h)
