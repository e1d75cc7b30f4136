-- ===== src/Binder/Modify.antt =====
-- crates/binder/src/dml.rs: INSERT, UPDATE and DELETE, and `lookup_table` of crates/binder/src/binding.rs.
pub mod Targets
pub mod Assigning
pub mod Filling
pub mod Rows
pub mod Inserting
mod Tests
use chili_db.Prelude.{
  ℕ, zero, suc, ◌+◌, Bool, true, false, not, List, [], ◌∷◌, Option, none, some, Result, ok, err,
  panic, ◌>>=◌, ◌>>◌, guard, ltb, ◌==◌, if◌then◌else◌, length, is_empty, get_elem?, set,
}
use chili_db.Bytes.{Bytes, bytes_eq}
use chili_db.Parser.Ast
use chili_db.Binder.Types.{LogicalType, null, ColumnSchema, TableSchema}
use chili_db.Binder.Ast.{
  Scalar, Expr, expr, ExprKind, MaybeExpr, absent, present, unknown_column, ambiguous_column,
  where_clause,
}
use chili_db.Binder.Context.{Table, RelationBinding, Scope, BindContext}
use chili_db.Binder.Number.{Floats}
use chili_db.Binder.Coercion.{as_boolean, assignment}
use chili_db.Binder.Expression.{bind_expr}
use chili_db.Binder.Statement.{
  Catalog, StatementError, Answer, no_rows, empty_row, no_assignments, duplicate_column,
  unknown_table, invalid_statement, row_width, expression, lifted, or_catalog,
}
use chili_db.Catalog.Codec.{seen_index}

-- The positions of the columns with the name, from `i` on.
abbrev pub positions : Bytes → ℕ → List ColumnSchema → List ℕ
positions name i [] = []
positions name i (c ∷ cs) =
    if bytes_eq c.name name then i ∷ positions name (suc i) cs else positions name (suc i) cs

abbrev pub indices_from : ℕ → List ColumnSchema → List ℕ
indices_from i [] = []
indices_from i (c ∷ cs) = i ∷ indices_from (suc i) cs

-- `context`
abbrev pub table_context : Bytes → Table → BindContext
table_context name table = record {
  scopes = (record { relations = (record { name = name; table = table }) ∷ [] }) ∷ [];
}

abbrev pub no_tables : BindContext
no_tables = record { scopes = [] }

module _ {E : Type 0} where
  abbrev pub the_position : Bytes → List ℕ → Answer E ℕ
  the_position name [] = err (expression (unknown_column none name))
  the_position name (i ∷ []) = ok i
  the_position name (i ∷ j ∷ is) = err (expression (ambiguous_column none name))

  unfoldable pub target : List ColumnSchema → Bytes → Answer E ℕ
  target columns name = the_position name (positions name 0 columns)

  -- A name's target, which may not be one of those seen.
  abbrev pub new_target : List ColumnSchema → List ℕ → Bytes → Answer E ℕ
  new_target columns seen name = target columns name >>= λ index.
      guard (not (seen_index index seen)) (duplicate_column name) >> ok index

  unfoldable pub listed_targets :
      List ColumnSchema → (names : List Bytes) (seen : List ℕ) → Answer E (List ℕ)
  listed_targets columns [] seen = ok []
  listed_targets columns (name ∷ names) seen = new_target columns seen name >>= λ index.
      listed_targets columns names (index ∷ seen) >>= λ rest. ok (index ∷ rest)

  abbrev pub targets_of : List ColumnSchema → List Bytes → Answer E (List ℕ)
  targets_of columns [] = ok (indices_from 0 columns)
  targets_of columns (name ∷ names) = listed_targets columns (name ∷ names) []

  -- The loop that checks the rows, from the row `index`.
  unfoldable pub check_rows : (index expected : ℕ) → List (List Ast.Expr) → Answer E (Unit {0})
  check_rows index expected [] = ok tt
  check_rows index expected (row ∷ rows) =
      guard (length row == expected) (row_width (index + 1) expected (length row))
      >> (guard (not (is_empty row)) (invalid_statement empty_row)
          >> check_rows (suc index) expected rows)

  -- `xs[i]`
  abbrev pub element : {A : Type 0} → List A → ℕ → Answer E A
  element xs i = elim (get_elem? xs i) [ none ↦ panic | some a ↦ ok a ]

  -- `xs[i] = a`
  abbrev pub replaced_at : {A : Type 0} → List A → ℕ → A → Answer E (List A)
  replaced_at xs i a = if ltb i (length xs) then ok (set xs i a) else panic

module _ {F : Type 0} where
  abbrev pub unset : List ColumnSchema → List (Option (Expr F))
  unset [] = []
  unset (c ∷ cs) = none ∷ unset cs

  abbrev pub null_value : Expr F
  null_value = expr null true (ExprKind.literal Scalar.null)

module _ (floats : Floats) {E : Type 0} where
  open floats use {Float}

  -- `assignment(bind_expr(expr, context)?, &columns[index].data_type)?`
  abbrev pub assigned : BindContext → List ColumnSchema → ℕ → Ast.Expr → Answer E (Expr Float)
  assigned context columns index e = lifted (bind_expr floats context e) >>= λ e'.
      element columns index >>= λ (column : ColumnSchema). lifted (assignment e' column.data_type)

  -- The loop over `row.iter().zip(&targets)`.
  unfoldable pub fill :
      List ColumnSchema
      → List Ast.Expr
      → (targets : List ℕ) → List (Option (Expr Float))
      → Answer E (List (Option (Expr Float)))
  fill columns [] targets normalized = ok normalized
  fill columns (e ∷ es) [] normalized = ok normalized
  fill columns (e ∷ es) (index ∷ targets) normalized =
      assigned no_tables columns index e >>= λ value.
      replaced_at normalized index (some value) >>= fill columns es targets

  abbrev pub value_or_null : Option (Expr Float) → ColumnSchema → Answer E (Expr Float)
  value_or_null (some value) column = ok value
  value_or_null none column = lifted (assignment null_value column.data_type)

  -- A column that is not a target is NULL.
  unfoldable pub complete :
      List (Option (Expr Float)) → List ColumnSchema → Answer E (List (Expr Float))
  complete [] columns = ok []
  complete (v ∷ vs) [] = ok []
  complete (v ∷ vs) (c ∷ cs) =
      value_or_null v c >>= λ value. complete vs cs >>= λ rest. ok (value ∷ rest)

  abbrev pub bind_row : List ColumnSchema → List ℕ → List Ast.Expr → Answer E (List (Expr Float))
  bind_row columns targets row =
      fill columns row targets (unset columns) >>= λ normalized. complete normalized columns

  unfoldable pub bind_rows :
      List ColumnSchema → List ℕ → List (List Ast.Expr) → Answer E (List (List (Expr Float)))
  bind_rows columns targets [] = ok []
  bind_rows columns targets (row ∷ rows) = bind_row columns targets row >>= λ row'.
      bind_rows columns targets rows >>= λ rows'. ok (row' ∷ rows')

  abbrev pub bind_where : BindContext → Ast.MaybeExpr → Answer E (MaybeExpr Float)
  bind_where context Ast.absent = ok absent
  bind_where context (Ast.present e) =
      lifted (bind_expr floats context e >>= λ e'. as_boolean e' where_clause) >>= λ e''.
      ok (present e'')

-- `parser::Assignment`
pub record SetClause : Type 0 where
  pub column : Bytes
  pub value : Ast.Expr

pub record Assignment (F : Type 0) : Type 0 where
  pub column_index : ℕ
  pub value : Expr F

module _ (floats : Floats) {E : Type 0} where
  open floats use {Float}

  -- The assignments of UPDATE, with the targets seen.
  unfoldable pub bind_assignments :
      BindContext
      → List ColumnSchema
      → List SetClause
      → (seen : List ℕ) → Answer E (List (Assignment Float))
  bind_assignments context columns [] seen = ok []
  bind_assignments context columns (a ∷ rest) seen = new_target columns seen a.column >>= λ index.
      assigned floats context columns index a.value >>= λ value.
      bind_assignments context columns rest (index ∷ seen) >>= λ rest'.
      ok ((record { column_index = index; value = value }) ∷ rest')

pub record Insert (F : Type 0) : Type 0 where
  pub table : Table
  pub rows : List (List (Expr F))

pub record Update (F : Type 0) : Type 0 where
  pub table : Table
  pub assignments : List (Assignment F)
  pub filter : MaybeExpr F

pub record Delete (F : Type 0) : Type 0 where
  pub table : Table
  pub filter : MaybeExpr F

abbrev pub or_unknown : {E : Type 0} → Bytes → Option TableSchema → Answer E Table
or_unknown name none = err (unknown_table name)
or_unknown name (some schema) = ok (record { relation = 0; schema = schema })

module _ (floats : Floats) (catalog : Catalog) where
  open floats use {Float}
  open catalog use {Error, get_table}

  unfoldable pub lookup_table : Bytes → Answer Error Table
  lookup_table name = or_catalog (get_table name) >>= or_unknown name

  unfoldable pub bind_insert :
      Bytes → (columns : List Bytes) (rows : List (List Ast.Expr)) → Answer Error (Insert Float)
  unfolding target listed_targets check_rows fill complete bind_rows lookup_table
  bind_insert name columns rows = lookup_table name >>= λ (table : Table).
      targets_of table.schema.columns columns >>= λ targets.
      guard (not (is_empty rows)) (invalid_statement no_rows)
      >> (check_rows 0 (length targets) rows
          >> (bind_rows floats table.schema.columns targets rows >>= λ rows'.
              ok (record { table = table; rows = rows' })))

  unfoldable pub bind_update : Bytes → List SetClause → Ast.MaybeExpr → Answer Error (Update Float)
  unfolding bind_assignments
  bind_update name assignments filter = lookup_table name >>= λ (table : Table).
      guard (not (is_empty assignments)) (invalid_statement no_assignments)
      >> (bind_assignments floats (table_context name table) table.schema.columns assignments []
          >>= λ assignments'. bind_where floats (table_context name table) filter >>= λ filter'.
              ok (record { table = table; assignments = assignments'; filter = filter' }))

  unfoldable pub bind_delete : Bytes → Ast.MaybeExpr → Answer Error (Delete Float)
  bind_delete name filter = lookup_table name >>= λ (table : Table).
      bind_where floats (table_context name table) filter >>= λ filter'.
      ok (record { table = table; filter = filter' })
