-- ===== src/Binder/Expression.antt =====
-- Expressions (crates/binder/src/expression.rs) and calls (crates/binder/src/aggregate.rs).
pub mod Typing
pub mod Parts
pub mod Operands
pub mod Frames
pub mod Signatures
pub mod Calls
pub mod Typed
mod Tests
use chili_db.Prelude.{
  ℕ, zero, suc, ◌+◌, Bool, true, false, not, ◌&&◌, ◌||◌, List, [], ◌∷◌, Option, none, some, Result,
  ok, err, panic, ◌>>=◌, ◌>>◌, leb, ◌==◌, if◌then◌else◌, guard,
}
use chili_db.Bytes.{Bytes, bytes_eq}
use chili_db.Parser.Ast
use chili_db.Parser.Ast.{
  UnaryOp, not_op, plus, minus, BinaryOp, or_op, and_op, eq, not_eq, less, less_eq, greater,
  greater_eq, add, subtract, multiply, divide, modulo,
}
use chili_db.Binder.Types.{LogicalType, null, boolean, int32, int64, uint32, float64, text}
use chili_db.Binder.Ast.{
  Scalar, AggregateFunction, count, sum, avg, min, max, WindowFunction, aggregate, row_number, rank,
  dense_rank, Expr, expr, ExprKind, Exprs, nil, cons, MaybeExpr, absent, present, Orders, unordered,
  ordered, type_of, nullable, Clause, not_clause, boolean_operator, filter_clause, unary_sign,
  arithmetic, comparison, aggregate_clause, BadFunction, window_not_allowed, window_distinct,
  ranking_without_over, aggregate_not_allowed, aggregate_arguments, ranking_arguments, BindError,
  unknown_function, invalid_function, alias_outside_projection, incompatible_types,
  invalid_wildcard, expression_too_deep, R, WindowFrame,
}
use chili_db.Binder.Context.{BindContext, resolve_column}
use chili_db.Binder.Number.{Floats, number}
use chili_db.Binder.Coercion.{
  type_eq, is_null_type, is_float, require_numeric, numeric_common, comparison_common, cast,
  as_boolean,
}
use chili_db.Binder.Frame.{frame, null_order}
use chili_db.Binder.Call.{
  function_of, arity, is_star, has_filter, has_window, Over, no_over, windowed, call_of,
}
use chili_db.Binder.Operator.{
  literal, binary_operands, binary_expr, minus_number, unary_of, unary_operand, unary_expr,
}

module _ (floats : Floats) where
  open floats use {Float}

  abbrev pub too_deep : ℕ → R (Expr Float) → R (Expr Float)
  too_deep depth r = if leb 256 depth then err expression_too_deep else r

  abbrev pub is_ordered : Ast.Orders → Bool
  is_ordered Ast.unordered = false
  is_ordered (Ast.ordered e d n os) = true

  unfoldable mutual
    pub bind_expr_inner : BindContext → ℕ → Bool → Bool → Ast.Expr → R (Expr Float)
    bind_expr_inner context depth aggregates windows (Ast.alias e n) =
        too_deep depth (err alias_outside_projection)
    bind_expr_inner context depth aggregates windows
          (Ast.function_call name args distinct filter over) =
        too_deep depth (
          call_of floats (function_of name) name (arity args) (is_star args) distinct
            (has_filter filter) (has_window over) aggregates windows
            (bind_exprs context (suc depth) (has_window over) args)
            (bind_filter context (suc depth) (has_window over) filter)
            (bind_window context (suc depth) over))
    bind_expr_inner context depth aggregates windows (Ast.identifier name) =
        too_deep depth (resolve_column context none name)
    bind_expr_inner context depth aggregates windows (Ast.qualified_identifier table column) =
        too_deep depth (resolve_column context (some table) column)
    bind_expr_inner context depth aggregates windows Ast.wildcard =
        too_deep depth (err invalid_wildcard)
    bind_expr_inner context depth aggregates windows (Ast.literal l) =
        too_deep depth (literal floats l)
    bind_expr_inner context depth aggregates windows (Ast.unary op e) = too_deep depth (
        unary_of floats op (minus_number floats op e)
          (bind_expr_inner context (suc depth) aggregates windows e))
    bind_expr_inner context depth aggregates windows (Ast.binary left op right) = too_deep depth (
        bind_expr_inner context (suc depth) aggregates windows left >>= λ left'.
        bind_expr_inner context (suc depth) aggregates windows right >>= λ right'.
        binary_operands floats op left' right' >>= λ operands. ok (binary_expr floats op operands))
    bind_expr_inner context depth aggregates windows (Ast.is_null e negated) = too_deep depth (
        bind_expr_inner context (suc depth) aggregates windows e >>= λ e'.
        ok (expr boolean false (ExprKind.is_null e' negated)))

    -- The operands of a call: plain aggregates only under OVER, and no windows.
    pub bind_exprs : BindContext → ℕ → Bool → Ast.Exprs → R (Exprs Float)
    bind_exprs context depth over Ast.nil = ok nil
    bind_exprs context depth over (Ast.cons e es) =
        bind_expr_inner context depth over false e >>= λ e'.
        bind_exprs context depth over es >>= λ es'. ok (cons e' es')

    pub bind_filter : BindContext → ℕ → Bool → Ast.MaybeExpr → R (MaybeExpr Float)
    bind_filter context depth over Ast.absent = ok absent
    bind_filter context depth over (Ast.present e) =
        bind_expr_inner context depth over false e >>= λ e'.
        as_boolean e' filter_clause >>= λ e''. ok (present e'')

    pub bind_window : BindContext → ℕ → Ast.MaybeWindow → R (Over floats)
    bind_window context depth Ast.no_window = ok no_over
    bind_window context depth (Ast.window partition order f) =
        bind_exprs context depth true partition >>= λ partition'.
        bind_orders context depth order >>= λ order'.
        frame f (is_ordered order) >>= λ frame'. ok (windowed partition' order' frame')

    pub bind_orders : BindContext → ℕ → Ast.Orders → R (Orders Float)
    bind_orders context depth Ast.unordered = ok unordered
    bind_orders context depth (Ast.ordered e direction nulls rest) =
        bind_expr_inner context depth true false e >>= λ e'.
        bind_orders context depth rest >>= λ rest'.
        ok (ordered e' direction (null_order direction nulls) rest')

  unfoldable pub bind_expr : BindContext → Ast.Expr → R (Expr Float)
  unfolding bind_expr_inner bind_exprs bind_filter bind_window bind_orders
  bind_expr context e = bind_expr_inner context 0 false false e
