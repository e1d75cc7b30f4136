-- ===== src/Binder/Modify/Assigning.antt =====
-- The values and the filters that INSERT, UPDATE and DELETE bind.
use chili_db.Prelude.{
  ℕ, ◌≡◌, refl, inl, inr, true, false, not, List, [], ◌∷◌, Option, none, some, ok, err, panic,
  ◌>>=◌, is_empty, get_elem?, arith, Bool-cases, ◌⊎◌, Yields, bind-Yields, guard-Yields,
}
use chili_db.Bytes.{Bytes}
use chili_db.Parser.Ast
use chili_db.Binder.Types.{LogicalType, boolean, ColumnSchema, TableSchema}
use chili_db.Binder.Ast.{Expr, MaybeExpr, absent, present, nullable, type_of, where_clause, R}
use chili_db.Binder.Context.{BindContext, Table}
use chili_db.Binder.Number.{Floats}
use chili_db.Binder.Coercion.{assignable, as_boolean, assignment}
use chili_db.Binder.Expression.{bind_expr}
use chili_db.Binder.Expression.Typing.{Sound, IsTyped}
use chili_db.Binder.Expression.Parts.{Sound-bind, cast-IsTyped, as_boolean-Has}
use chili_db.Binder.Expression.Typed.{bind_expr_inner-IsTyped}
use chili_db.Binder.Statement.{Catalog, lifted, or_catalog}
use chili_db.Binder.Modify.{
  table_context, new_target, element, assigned, bind_where, SetClause, Assignment, bind_assignments,
  Update, or_unknown, lookup_table, bind_update,
}
use chili_db.Binder.Modify.Targets.{NewTarget, new_target-NewTarget}

module _ (E : Type 0) where
  pub lifted-Yields :
      {A : Type 0} (P : A → Type 0) (m : R A) → Sound P m → Yields P (lifted {E = E} m)
  lifted-Yields P (ok a) h = h
  lifted-Yields P (err e) h = tt
  lifted-Yields P panic h = absurd h

  -- A value that is there at an index below the length.
  pub element-Yields :
      {A : Type 0} (xs : List A) (i : ℕ) (a : A)
      → get_elem? xs i ≡ some a
      → element {E = E} xs i ≡ ok a
  element-Yields xs i a at = rw (at, element) refl

module _ (floats : Floats) (context : BindContext) where
  open floats use {Float}

  -- A typed expression of a type.
  abbrev pub HasType : LogicalType → Expr Float → Type 0
  HasType t v = IsTyped context v × (type_of v ≡ t)

  pub assignment-HasType :
      (e : Expr Float) (t : LogicalType)
      → IsTyped context e
      → Sound (λ v. HasType t v × (assignment e t ≡ ok v)) (assignment e t)
  assignment-HasType e t typed = elim (Bool-cases (assignable (type_of e) t)) [
    | inl fits ↦
        let has = cast-IsTyped context e t typed (ground arith) in rw fits ((has.0, has.1), refl)
    | inr misfit ↦ rw misfit tt
  ]

  bind_expr-IsTyped : (e : Ast.Expr) → Sound (IsTyped context) (bind_expr floats context e)
  unfolding bind_expr
  bind_expr-IsTyped e = bind_expr_inner-IsTyped floats context 0 false false e

  pub bind_expr-Sound :
      (e : Ast.Expr)
      → Sound
          (λ v. IsTyped context v × (bind_expr floats context e ≡ ok v))
          (bind_expr floats context e)
  bind_expr-Sound e = of (bind_expr floats context e) refl (bind_expr-IsTyped e)
    where
      of :
          (m : R (Expr Float))
          → bind_expr floats context e ≡ m
          → Sound (IsTyped context) m
          → Sound (λ v. IsTyped context v × (bind_expr floats context e ≡ ok v)) m
      of (ok v) is h = (h, is)
      of (err x) is h = tt
      of panic is h = absurd h

  -- The value of an expression for a column: it is bound and converted to the column's type.
  abbrev pub IsValue : Ast.Expr → ColumnSchema → Expr Float → Type 0
  IsValue e c v =
      (e' : Expr Float) × (bind_expr floats context e ≡ ok e')
      × (assignment e' c.data_type ≡ ok v)
      × HasType c.data_type v

  -- The condition of an expression: it is bound and made Boolean.
  abbrev pub IsCondition : Ast.Expr → Expr Float → Type 0
  IsCondition e v =
      (e' : Expr Float) × (bind_expr floats context e ≡ ok e')
      × (as_boolean e' where_clause ≡ ok v)
      × HasType boolean v

  -- There is a filter exactly where there is a WHERE, and it is the condition of that expression.
  abbrev pub IsFilter : Ast.MaybeExpr → MaybeExpr Float → Type 0
  IsFilter Ast.absent absent = Unit
  IsFilter Ast.absent (present v) = ⊥
  IsFilter (Ast.present e) absent = ⊥
  IsFilter (Ast.present e) (present v) = IsCondition e v

  as_boolean-IsCondition :
      (e : Ast.Expr) (e' : Expr Float)
      → IsTyped context e' × (bind_expr floats context e ≡ ok e')
      → Sound (IsCondition e) (as_boolean e' where_clause)
  as_boolean-IsCondition e e' bound =
      of (as_boolean e' where_clause) refl (as_boolean-Has context e' where_clause bound.0)
    where
      of :
          (m : R (Expr Float))
          → as_boolean e' where_clause ≡ m
          → Sound (λ v. IsTyped context v × (type_of v ≡ boolean) × (nullable v ≡ nullable e')) m
          → Sound (IsCondition e) m
      of (ok v) is h = (e', bound.1, is, (h.0, h.1))
      of (err x) is h = tt
      of panic is h = absurd h

  module _ (E : Type 0) (columns : List ColumnSchema) where
    pub assigned-IsValue :
        (i : ℕ) (c : ColumnSchema) (e : Ast.Expr)
        → get_elem? columns i ≡ some c
        → Yields (IsValue e c) (assigned floats {E = E} context columns i e)
    assigned-IsValue i c e at =
        bind-Yields (IsValue e c) (λ v. IsTyped context v × (bind_expr floats context e ≡ ok v))
          (lifted {E = E} (bind_expr floats context e)) _
          (lifted-Yields E (λ v. IsTyped context v × (bind_expr floats context e ≡ ok v))
            (bind_expr floats context e) (bind_expr-Sound e))
          (λ e' bound. rw (element-Yields E columns i c at) (
            lifted-Yields E (IsValue e c) (assignment e' c.data_type) (
              valued e' bound (assignment e' c.data_type)
                (assignment-HasType e' c.data_type bound.0))))
      where
        valued :
            (e' : Expr Float)
            → IsTyped context e' × (bind_expr floats context e ≡ ok e')
            → (m : R (Expr Float))
            → Sound (λ v. HasType c.data_type v × (assignment e' c.data_type ≡ ok v)) m
            → Sound (IsValue e c) m
        valued e' bound (ok v) h = (e', bound.1, h.1, h.0)
        valued e' bound (err x) h = tt
        valued e' bound panic h = absurd h

    pub bind_where-IsFilter :
        (filter : Ast.MaybeExpr)
        → Yields (IsFilter filter) (bind_where floats {E = E} context filter)
    bind_where-IsFilter Ast.absent = tt
    bind_where-IsFilter (Ast.present e) =
        bind-Yields (IsFilter (Ast.present e)) (IsCondition e)
          (lifted {E = E} (bind_expr floats context e >>= λ e'. as_boolean e' where_clause)) _
          (lifted-Yields E (IsCondition e)
            (bind_expr floats context e >>= λ e'. as_boolean e' where_clause)
            (Sound-bind (λ v. IsTyped context v × (bind_expr floats context e ≡ ok v))
              (IsCondition e) (bind_expr floats context e) _ (bind_expr-Sound e)
              (as_boolean-IsCondition e)))
          (λ v has. has)

  -- Each assignment is to a new target, which its column names, and its value is the bound one.
  abbrev pub AreAssigned :
      List ColumnSchema → List ℕ → List SetClause → List (Assignment Float) → Type 0
  AreAssigned columns seen [] [] = Unit
  AreAssigned columns seen (s ∷ ss) [] = ⊥
  AreAssigned columns seen [] (a ∷ as') = ⊥
  AreAssigned columns seen (s ∷ ss) (a ∷ as') =
      NewTarget columns seen s.column a.column_index
      × ((c : ColumnSchema) × (get_elem? columns a.column_index ≡ some c)
          × IsValue s.value c a.value)
      × AreAssigned columns (a.column_index ∷ seen) ss as'

  bind_assignments-AreAssigned :
      (E : Type 0) (columns : List ColumnSchema) (ss : List SetClause) (seen : List ℕ)
      → Yields
          (AreAssigned columns seen ss)
          (bind_assignments floats {E = E} context columns ss seen)
  unfolding bind_assignments
  bind_assignments-AreAssigned E columns [] seen = tt
  bind_assignments-AreAssigned E columns (s ∷ ss) seen =
      bind-Yields (AreAssigned columns seen (s ∷ ss)) (NewTarget columns seen s.column)
        (new_target {E = E} columns seen s.column) _ (new_target-NewTarget E columns seen s.column)
        (λ i new.
          bind-Yields (AreAssigned columns seen (s ∷ ss)) (IsValue s.value new.0.0)
            (assigned floats {E = E} context columns i s.value) _
            (assigned-IsValue E columns i new.0.0 s.value new.0.1)
            (λ v value.
              bind-Yields (AreAssigned columns seen (s ∷ ss)) (AreAssigned columns (i ∷ seen) ss)
                (bind_assignments floats {E = E} context columns ss (i ∷ seen)) _
                (bind_assignments-AreAssigned E columns ss (i ∷ seen))
                (λ rest assigned. (new, (new.0.0, new.0.1, value), assigned))))

module _ (floats : Floats) (catalog : Catalog) where
  open floats use {Float}
  open catalog use {Error, get_table}

  -- The table that the catalog has under a name.
  abbrev pub IsTable : Bytes → Table → Type 0
  IsTable name table = (table.relation ≡ 0) × (get_table name ≡ inr (some table.schema))

  pub lookup_table-IsTable :
      (name : Bytes) → Yields (IsTable name) (lookup_table floats catalog name)
  unfolding lookup_table
  lookup_table-IsTable name = of (get_table name) refl
    where
      of :
          (answer : Error ⊎ Option TableSchema)
          → get_table name ≡ answer
          → Yields (IsTable name) (or_catalog answer >>= or_unknown name)
      of (inl e) is = tt
      of (inr none) is = tt
      of (inr (some schema)) is = (refl, is)

  pub record IsUpdate (name : Bytes) (clauses : List SetClause) (filter : Ast.MaybeExpr)
      (u : Update Float) : Type 0 where
    pub table : IsTable name u.table
    pub changes : is_empty u.assignments ≡ false
    pub assignments :
        AreAssigned floats
          (table_context name u.table)
          u.table.schema.columns
          []
          clauses
          u.assignments
    pub condition : IsFilter floats (table_context name u.table) filter u.filter

  -- UPDATE never panics. What it binds is the table that the catalog has under the name, one
  -- assignment for each SET clause, of which there is one at least, and a filter exactly if there is
  -- a WHERE. The columns of the assignments are those named, each once, and each value is the
  -- clause's expression, bound over the table, well typed and converted to the column's type; the
  -- filter is the expression of WHERE, bound over the table, well typed and made Boolean.
  pub bind_update-IsUpdate :
      (name : Bytes) (clauses : List SetClause) (filter : Ast.MaybeExpr)
      → Yields (IsUpdate name clauses filter) (bind_update floats catalog name clauses filter)
  unfolding bind_update
  bind_update-IsUpdate name clauses filter =
      bind-Yields (IsUpdate name clauses filter) (IsTable name) (lookup_table floats catalog name) _
        (lookup_table-IsTable name)
        (λ table is.
          guard-Yields (IsUpdate name clauses filter) (not (is_empty clauses)) _ _ (λ some_clause.
            bind-Yields (IsUpdate name clauses filter)
              (AreAssigned floats (table_context name table) table.schema.columns [] clauses)
              (bind_assignments floats (table_context name table) table.schema.columns clauses []) _
              (bind_assignments-AreAssigned floats (table_context name table) Error
                table.schema.columns clauses [])
              (λ as' assigned.
                bind-Yields (IsUpdate name clauses filter)
                  (IsFilter floats (table_context name table) filter)
                  (bind_where floats (table_context name table) filter) _
                  (bind_where-IsFilter floats (table_context name table) Error table.schema.columns
                    filter)
                  (λ filter' typed. record {
                    table = is;
                    changes = nonempty table clauses as' some_clause assigned;
                    assignments = assigned;
                    condition = typed;
                  }))))
    where
      nonempty :
          (table : Table) (ss : List SetClause) (as' : List (Assignment Float))
          → not (is_empty ss) ≡ true
          → AreAssigned floats (table_context name table) table.schema.columns [] ss as'
          → is_empty as' ≡ false
      nonempty table (s ∷ ss) (a ∷ as') h assigned = refl
      nonempty table [] as' h assigned = cc
      nonempty table (s ∷ ss) [] h assigned = absurd assigned
