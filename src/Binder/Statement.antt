-- ===== src/Binder/Statement.antt =====
-- What binding a statement asks of the catalog and how it fails (crates/binder/src/catalog.rs and
-- lib.rs).
use chili_db.Prelude.{ℕ, ◌⊎◌, inl, inr, Option, Result, ok, err, panic}
use chili_db.Bytes.{Bytes}
use chili_db.Binder.Types.{TableSchema}
use chili_db.Parser.Ast.{ColumnConstraint}
use chili_db.Binder.Ast.{BindError}
use chili_db.Binder.Ast

-- A table source is read through its schema alone.
pub record Catalog : Type 1 where
  pub Error : Type 0
  pub get_table : Bytes → Error ⊎ Option TableSchema

pub data BadStatement : Type 0 where
  unnamed_table_or_column no_rows empty_row no_assignments : BadStatement

pub data BadConstraint : Type 0 where
  duplicate_constraint : ColumnConstraint → (column : Bytes) → BadConstraint
  multiple_primary_keys : BadConstraint

-- The rest of `BindError`; `expression` is an error of `Binder.Ast.BindError`.
pub data StatementError (E : Type 0) : Type 0 where
  catalog : E → StatementError E
  table_already_exists duplicate_column invalid_type unknown_table : Bytes → StatementError E
  invalid_constraint : BadConstraint → StatementError E
  invalid_statement : BadStatement → StatementError E
  row_width : (row expected actual : ℕ) → StatementError E
  expression : BindError → StatementError E

abbrev pub Answer : Type 0 → Type 0 → Type 0
Answer E A = Result (StatementError E) A

module _ {E : Type 0} where
  abbrev pub lifted : {A : Type 0} → Ast.R A → Answer E A
  lifted (ok a) = ok a
  lifted (err e) = err (expression e)
  lifted panic = panic

  -- `.map_err(BindError::Catalog)`
  abbrev pub or_catalog : {A : Type 0} → E ⊎ A → Answer E A
  or_catalog (inl e) = err (catalog e)
  or_catalog (inr a) = ok a
