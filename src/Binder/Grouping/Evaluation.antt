-- ===== src/Binder/Grouping/Evaluation.antt =====
-- What an expression is worth at a row, whatever its operators mean.
use chili_db.Prelude.{Bool, List, [], ◌∷◌, Option, none, some}
use chili_db.Parser.Ast.{UnaryOp, BinaryOp, SortDirection, NullOrder}
use chili_db.Binder.Types.{LogicalType}
use chili_db.Binder.Ast.{
  Scalar, ColumnBinding, AggregateFunction, WindowFunction, WindowFrame, Expr, expr, ExprKind,
  Exprs, nil, cons, MaybeExpr, absent, present, Orders, unordered, ordered,
}

-- The operators. A window is computed from its arguments, filter, partition and order at the row, and
-- from the other rows, which do not change.
pub record Meaning (F V : Type 0) : Type 0 where
  pub literal : Scalar F → V
  pub unary : LogicalType → UnaryOp → V → V
  pub binary : LogicalType → BinaryOp → V → V → V
  pub cast : LogicalType → V → V
  pub is_null : Bool → V → V
  pub window :
      WindowFunction
      → Bool
      → WindowFrame
      → List V
      → Option V
      → List V
      → List (V × SortDirection × NullOrder)
      → V

-- A row gives the columns and, for its group, the aggregates.
pub record Row (F V : Type 0) : Type 0 where
  pub column : ColumnBinding → V
  pub aggregate : AggregateFunction → Exprs F → Bool → MaybeExpr F → V

module _ {F V : Type 0} (meaning : Meaning F V) (row : Row F V) where
  unfoldable mutual
    pub value : Expr F → V
    value (expr t n k) = kind_value t k

    pub kind_value : LogicalType → ExprKind F → V
    kind_value t (ExprKind.literal s) = meaning.literal s
    kind_value t (ExprKind.column c) = row.column c
    kind_value t (ExprKind.unary op e) = meaning.unary t op (value e)
    kind_value t (ExprKind.binary op l r) = meaning.binary t op (value l) (value r)
    kind_value t (ExprKind.cast e) = meaning.cast t (value e)
    kind_value t (ExprKind.is_null e b) = meaning.is_null b (value e)
    kind_value t (ExprKind.aggregate a es d f) = row.aggregate a es d f
    kind_value t (ExprKind.window w es d f ps os fr) =
        meaning.window w d fr (all_values es) (filter_value f) (all_values ps) (order_values os)

    pub all_values : Exprs F → List V
    all_values nil = []
    all_values (cons e es) = value e ∷ all_values es

    pub filter_value : MaybeExpr F → Option V
    filter_value absent = none
    filter_value (present e) = some (value e)

    pub order_values : Orders F → List (V × SortDirection × NullOrder)
    order_values unordered = []
    order_values (ordered e d n os) = (value e, d, n) ∷ order_values os
