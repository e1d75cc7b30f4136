-- ===== src/Binder/Equality.antt =====
-- `PartialEq` of bound expressions (crates/binder/src/ast.rs and lib.rs). Floats are not compared by
-- identity: their equality is a parameter.
use chili_db.Prelude.{ℕ, Bool, true, false, ◌&&◌, ◌==◌}
use chili_db.Bytes.{bytes_eq}
use chili_db.Parser.Ast.{
  UnaryOp, not_op, plus, minus, BinaryOp, or_op, and_op, eq, not_eq, less, less_eq, greater,
  greater_eq, add, subtract, multiply, divide, modulo, SortDirection, ascending, descending,
  NullOrder, first, last, FrameUnits, rows, range,
}
use chili_db.Binder.Coercion.{type_eq}
use chili_db.Binder.Ast.{
  ℤ, pos, negsuc, Scalar, ColumnBinding, AggregateFunction, count, sum, avg, min, max,
  WindowFunction, aggregate, row_number, rank, dense_rank, FrameBound, unbounded_preceding,
  current_row, unbounded_following, preceding, following, WindowFrame, Expr, expr, ExprKind, Exprs,
  nil, cons, MaybeExpr, absent, present, Orders, unordered, ordered,
}

abbrev pub bool_eq : Bool → Bool → Bool
bool_eq true b = b
bool_eq false true = false
bool_eq false false = true

abbrev pub integer_eq : ℤ → ℤ → Bool
integer_eq (pos m) (pos n) = m == n
integer_eq (negsuc m) (negsuc n) = m == n
integer_eq (pos m) (negsuc n) = false
integer_eq (negsuc m) (pos n) = false

-- The position of a constructor in its enum.
abbrev pub unary_tag : UnaryOp → ℕ
unary_tag not_op = 0
unary_tag plus = 1
unary_tag minus = 2

abbrev pub binary_tag : BinaryOp → ℕ
binary_tag or_op = 0
binary_tag and_op = 1
binary_tag eq = 2
binary_tag not_eq = 3
binary_tag less = 4
binary_tag less_eq = 5
binary_tag greater = 6
binary_tag greater_eq = 7
binary_tag add = 8
binary_tag subtract = 9
binary_tag multiply = 10
binary_tag divide = 11
binary_tag modulo = 12

abbrev pub aggregate_tag : AggregateFunction → ℕ
aggregate_tag count = 0
aggregate_tag sum = 1
aggregate_tag avg = 2
aggregate_tag min = 3
aggregate_tag max = 4

abbrev pub window_tag : WindowFunction → ℕ
window_tag (aggregate a) = aggregate_tag a
window_tag row_number = 5
window_tag rank = 6
window_tag dense_rank = 7

abbrev pub direction_tag : SortDirection → ℕ
direction_tag ascending = 0
direction_tag descending = 1

abbrev pub nulls_tag : NullOrder → ℕ
nulls_tag first = 0
nulls_tag last = 1

abbrev pub units_tag : FrameUnits → ℕ
units_tag rows = 0
units_tag range = 1

abbrev pub bound_tag : FrameBound → ℕ
bound_tag unbounded_preceding = 0
bound_tag (preceding n) = 1
bound_tag current_row = 2
bound_tag (following n) = 3
bound_tag unbounded_following = 4

abbrev pub bound_offset : FrameBound → ℕ
bound_offset unbounded_preceding = 0
bound_offset (preceding n) = n
bound_offset current_row = 0
bound_offset (following n) = n
bound_offset unbounded_following = 0

abbrev pub bound_eq : FrameBound → FrameBound → Bool
bound_eq a b = bound_tag a == bound_tag b && bound_offset a == bound_offset b

abbrev pub frame_eq : WindowFrame → WindowFrame → Bool
frame_eq f g =
    units_tag f.units == units_tag g.units && bound_eq f.start g.start && bound_eq f.end g.end

abbrev pub column_eq : ColumnBinding → ColumnBinding → Bool
column_eq a b = a.relation == b.relation && a.column_index == b.column_index

module _ {F : Type 0} (float_eq : F → F → Bool) where
  abbrev pub scalar_eq : Scalar F → Scalar F → Bool
  scalar_eq Scalar.null Scalar.null = true
  scalar_eq (Scalar.boolean a) (Scalar.boolean b) = bool_eq a b
  scalar_eq (Scalar.int32 m) (Scalar.int32 n) = integer_eq m n
  scalar_eq (Scalar.int64 m) (Scalar.int64 n) = integer_eq m n
  scalar_eq (Scalar.uint32 m) (Scalar.uint32 n) = m == n
  scalar_eq (Scalar.float32 x) (Scalar.float32 y) = float_eq x y
  scalar_eq (Scalar.float64 x) (Scalar.float64 y) = float_eq x y
  scalar_eq (Scalar.string s) (Scalar.string t) = bytes_eq s t
  scalar_eq s t = false

  unfoldable mutual
    pub expr_eq : Expr F → Expr F → Bool
    expr_eq (expr t n k) (expr t' n' k') = type_eq t t' && bool_eq n n' && kind_eq k k'

    pub kind_eq : ExprKind F → ExprKind F → Bool
    kind_eq (ExprKind.literal s) (ExprKind.literal s') = scalar_eq s s'
    kind_eq (ExprKind.column c) (ExprKind.column c') = column_eq c c'
    kind_eq (ExprKind.unary op e) (ExprKind.unary op' e') =
        unary_tag op == unary_tag op' && expr_eq e e'
    kind_eq (ExprKind.binary op l r) (ExprKind.binary op' l' r') =
        binary_tag op == binary_tag op' && expr_eq l l' && expr_eq r r'
    kind_eq (ExprKind.cast e) (ExprKind.cast e') = expr_eq e e'
    kind_eq (ExprKind.is_null e b) (ExprKind.is_null e' b') = expr_eq e e' && bool_eq b b'
    kind_eq (ExprKind.aggregate a es d f) (ExprKind.aggregate a' es' d' f') =
        aggregate_tag a == aggregate_tag a' && exprs_eq es es' && bool_eq d d' && maybe_eq f f'
    kind_eq (ExprKind.window w es d f ps os fr) (ExprKind.window w' es' d' f' ps' os' fr') =
        window_tag w == window_tag w'
        && exprs_eq es es'
        && bool_eq d d'
        && maybe_eq f f'
        && exprs_eq ps ps'
        && orders_eq os os'
        && frame_eq fr fr'
    kind_eq k l = false

    pub exprs_eq : Exprs F → Exprs F → Bool
    exprs_eq nil nil = true
    exprs_eq nil (cons e' es') = false
    exprs_eq (cons e es) nil = false
    exprs_eq (cons e es) (cons e' es') = expr_eq e e' && exprs_eq es es'

    pub maybe_eq : MaybeExpr F → MaybeExpr F → Bool
    maybe_eq absent absent = true
    maybe_eq absent (present e') = false
    maybe_eq (present e) absent = false
    maybe_eq (present e) (present e') = expr_eq e e'

    pub orders_eq : Orders F → Orders F → Bool
    orders_eq unordered unordered = true
    orders_eq unordered (ordered e' d' n' os') = false
    orders_eq (ordered e d n os) unordered = false
    orders_eq (ordered e d n os) (ordered e' d' n' os') =
        expr_eq e e'
        && direction_tag d == direction_tag d'
        && nulls_tag n == nulls_tag n'
        && orders_eq os os'
