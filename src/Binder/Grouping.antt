-- ===== src/Binder/Grouping.antt =====
-- Grouping (crates/binder/src/aggregate.rs): `contains_aggregate` and `validate_grouped`.
pub mod Evaluation
pub mod Grouped
mod Tests
use chili_db.Prelude.{Bool, true, false, ◌||◌, List, [], ◌∷◌, Result, ok, err, ◌>>◌, if◌then◌else◌}
use chili_db.Binder.Ast.{
  Expr, expr, ExprKind, Exprs, nil, cons, MaybeExpr, absent, present, Orders, unordered, ordered,
  kind, BindError, ungrouped_column, R,
}
use chili_db.Binder.Equality.{expr_eq}

module _ {F : Type 0} where
  abbrev pub is_aggregate : ExprKind F → Bool
  is_aggregate (ExprKind.aggregate a es d f) = true
  is_aggregate k = false

  -- `children` and the tests on them, one function for each kind of list.
  unfoldable mutual
    pub contains_aggregate : Expr F → Bool
    contains_aggregate (expr t n k) = is_aggregate k || kind_contains k

    pub kind_contains : ExprKind F → Bool
    kind_contains (ExprKind.literal s) = false
    kind_contains (ExprKind.column c) = false
    kind_contains (ExprKind.aggregate a es d f) = false
    kind_contains (ExprKind.unary op e) = contains_aggregate e
    kind_contains (ExprKind.cast e) = contains_aggregate e
    kind_contains (ExprKind.is_null e b) = contains_aggregate e
    kind_contains (ExprKind.binary op l r) = contains_aggregate l || contains_aggregate r
    kind_contains (ExprKind.window w es d f ps os fr) =
        any_contain es || filter_contains f || any_contain ps || orders_contain os

    pub any_contain : Exprs F → Bool
    any_contain nil = false
    any_contain (cons e es) = contains_aggregate e || any_contain es

    pub filter_contains : MaybeExpr F → Bool
    filter_contains absent = false
    filter_contains (present e) = contains_aggregate e

    pub orders_contain : Orders F → Bool
    orders_contain unordered = false
    orders_contain (ordered e d n os) = contains_aggregate e || orders_contain os

  module _ (float_eq : F → F → Bool) where
    -- `groups.contains(expr)`
    abbrev pub is_group : List (Expr F) → Expr F → Bool
    is_group [] e = false
    is_group (g ∷ gs) e = expr_eq float_eq g e || is_group gs e

    abbrev pub grouped_or : Bool → R (Unit {0}) → R (Unit {0})
    grouped_or true children = ok tt
    grouped_or false children = children

    unfoldable mutual
      pub validate_grouped : List (Expr F) → Expr F → R (Unit {0})
      validate_grouped groups (expr t n k) =
          grouped_or (is_group groups (expr t n k) || is_aggregate k) (validate_kind groups k)

      pub validate_kind : List (Expr F) → ExprKind F → R (Unit {0})
      validate_kind groups (ExprKind.column c) = err ungrouped_column
      validate_kind groups (ExprKind.literal s) = ok tt
      validate_kind groups (ExprKind.aggregate a es d f) = ok tt
      validate_kind groups (ExprKind.unary op e) = validate_grouped groups e
      validate_kind groups (ExprKind.cast e) = validate_grouped groups e
      validate_kind groups (ExprKind.is_null e b) = validate_grouped groups e
      validate_kind groups (ExprKind.binary op l r) =
          validate_grouped groups l >> validate_grouped groups r
      validate_kind groups (ExprKind.window w es d f ps os fr) =
          validate_all groups es
          >> (validate_filter groups f >> (validate_all groups ps >> validate_orders groups os))

      pub validate_all : List (Expr F) → Exprs F → R (Unit {0})
      validate_all groups nil = ok tt
      validate_all groups (cons e es) = validate_grouped groups e >> validate_all groups es

      pub validate_filter : List (Expr F) → MaybeExpr F → R (Unit {0})
      validate_filter groups absent = ok tt
      validate_filter groups (present e) = validate_grouped groups e

      pub validate_orders : List (Expr F) → Orders F → R (Unit {0})
      validate_orders groups unordered = ok tt
      validate_orders groups (ordered e d n os) =
          validate_grouped groups e >> validate_orders groups os
