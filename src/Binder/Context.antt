-- ===== src/Binder/Context.antt =====
-- crates/binder/src/context.rs: which column a name refers to.
pub mod Resolution
use chili_db.Prelude.{
  ℕ, zero, suc, ◌+◌, Bool, true, false, ◌&&◌, List, [], ◌∷◌, ◌++◌, Option, none, some, Result, ok,
  err, ◌>>=◌, ltb, if◌then◌else◌,
}
use mathlib.Core.List.{reverse}
use chili_db.Bytes.{Bytes, bytes_eq}
use chili_db.Binder.Types.{LogicalType, ColumnSchema, TableSchema}
use chili_db.Binder.Ast.{
  Expr, expr, ExprKind, ColumnBinding, BindError, unknown_column, ambiguous_column, R,
}

-- A table occurrence; its source is read through its schema alone.
pub record Table : Type 0 where
  pub relation : ℕ
  pub schema : TableSchema

pub record RelationBinding : Type 0 where
  pub name : Bytes
  pub table : Table

pub record Scope : Type 0 where
  pub relations : List RelationBinding

-- The scopes stand outermost first.
pub record BindContext : Type 0 where
  pub scopes : List Scope

-- A column that matches: the binding and its declaration.
pub record Found : Type 0 where
  pub relation : ℕ
  pub column_index : ℕ
  pub column : ColumnSchema

abbrev pub once : BindError → Option Found → Found → R (Option Found)
once ambiguous none new = ok (some new)
once ambiguous (some old) new = err ambiguous

-- The loop over `schema.columns`, from index `i`.
unfoldable pub scan_columns :
    BindError → Bytes → ℕ → ℕ → List ColumnSchema → Option Found → R (Option Found)
scan_columns ambiguous name relation i [] found = ok found
scan_columns ambiguous name relation i (c ∷ cs) found =
    (if bytes_eq c.name name
      then once ambiguous found (record { relation = relation; column_index = i; column = c })
      else ok found)
    >>= scan_columns ambiguous name relation (suc i) cs

abbrev pub has_name : Option Bytes → RelationBinding → Bool
has_name none r = true
has_name (some qualifier) r = bytes_eq r.name qualifier

-- `qualified_relations` counts only when there is a qualifier.
abbrev pub qualified : Option Bytes → ℕ → ℕ
qualified none n = n
qualified (some qualifier) n = n + 1

-- One relation: what is found so far, and how many relations have the qualifier's name.
abbrev pub visit_if :
    Bool
    → BindError
    → Option Bytes
    → Bytes
    → RelationBinding
    → Option Found
    → ℕ
    → R (Option Found × ℕ)
visit_if false ambiguous qualifier name r found n = ok (found, n)
visit_if true ambiguous qualifier name r found n =
    if ltb 1 (qualified qualifier n)
    then err ambiguous
    else (scan_columns ambiguous name r.table.relation 0 r.table.schema.columns found >>= λ found'.
        ok (found', qualified qualifier n))

-- The loop over the relations of a scope.
unfoldable pub scan_relations :
    BindError
    → Option Bytes
    → Bytes
    → List RelationBinding
    → Option Found
    → ℕ
    → R (Option Found × ℕ)
scan_relations ambiguous qualifier name [] found n = ok (found, n)
scan_relations ambiguous qualifier name (r ∷ rs) found n =
    visit_if (has_name qualifier r) ambiguous qualifier name r found n >>= λ (p : Option Found × ℕ).
    scan_relations ambiguous qualifier name rs p.0 p.1

abbrev pub next_scope : BindError → R Found → Option Found × ℕ → R Found
next_scope unknown outer (some found, n) = ok found
next_scope unknown outer (none, n) = if ltb 0 n then err unknown else outer

-- The loop over the scopes, innermost first.
unfoldable pub scan_scopes : Option Bytes → Bytes → List Scope → R Found
scan_scopes qualifier name [] = err (unknown_column qualifier name)
scan_scopes qualifier name (s ∷ ss) =
    scan_relations (ambiguous_column qualifier name) qualifier name s.relations none 0
    >>= next_scope (unknown_column qualifier name) (scan_scopes qualifier name ss)

abbrev pub column_expr : {F : Type 0} → Found → Expr F
column_expr f =
    expr f.column.data_type f.column.nullable
      (ExprKind.column (record { relation = f.relation; column_index = f.column_index }))

unfoldable pub resolve_column : {F : Type 0} → BindContext → Option Bytes → Bytes → R (Expr F)
unfolding scan_columns scan_relations scan_scopes
resolve_column context qualifier name =
    scan_scopes qualifier name (reverse context.scopes) >>= λ f. ok (column_expr f)
