-- ===== src/Binder/Expression/Typing.antt =====
-- When a bound expression has the type and the nullability that it carries.
use chili_db.Prelude.{
  ◌^◌, ◌≡◌, ◌≤◌, Bool, true, false, not, ◌&&◌, ◌||◌, Option, ok, err, panic, ltb,
}
use mathlib.Core.List.{reverse}
use chili_db.Bytes.{Bytes}
use chili_db.Parser.Ast.{
  UnaryOp, not_op, plus, minus, BinaryOp, or_op, and_op, eq, not_eq, less, less_eq, greater,
  greater_eq, add, subtract, multiply, divide, modulo,
}
use chili_db.Binder.Types.{LogicalType, null, boolean, int32, int64, uint32, float32, float64, text}
use chili_db.Binder.Ast.{
  ℤ, pos, negsuc, Scalar, ColumnBinding, count, sum, avg, min, max, WindowFunction, aggregate,
  row_number, rank, dense_rank, WindowFrame, Expr, expr, ExprKind, Exprs, nil, cons, MaybeExpr,
  absent, present, Orders, unordered, ordered, type_of, nullable, R,
}
use chili_db.Binder.Context.{BindContext, Found}
use chili_db.Binder.Context.Resolution.{decided}
use chili_db.Binder.Number.{fits_i32}
use chili_db.Binder.Coercion.{type_eq, is_null_type, numeric, is_integer, is_string, is_boolean}
use chili_db.Binder.Frame.{category, is_unbounded_following, is_unbounded_preceding}

-- The answer, if there is one; no panic.
abbrev pub Sound : {A : Type 0} → (A → Type 0) → R A → Type 0
Sound P (ok a) = P a
Sound P (err e) = Unit
Sound P panic = ⊥

abbrev pub fits_i64 : ℤ → Bool
fits_i64 (pos m) = ltb m (2 ^ 63)
fits_i64 (negsuc m) = ltb m (2 ^ 63)

abbrev pub castable : LogicalType → LogicalType → Bool
castable source target =
    is_null_type source
    || (numeric source && numeric target)
    || (is_string source && is_string target)

abbrev pub comparable : LogicalType → Bool
comparable t = is_boolean t || type_eq t text || numeric t

abbrev pub SignTyped : UnaryOp → LogicalType → Type 0
SignTyped not_op t = t ≡ boolean
SignTyped plus t = numeric t ≡ true
SignTyped minus t = (numeric t ≡ true) × (type_eq t uint32 ≡ false)

abbrev pub BooleanTyped : (left right result : LogicalType) → Type 0
BooleanTyped l r t = (l ≡ boolean) × (r ≡ boolean) × (t ≡ boolean)

abbrev pub ArithmeticTyped : Bool → (left right result : LogicalType) → Type 0
ArithmeticTyped integral l r t =
    (l ≡ t) × (r ≡ t) × ((numeric t && (not integral || is_integer t)) ≡ true)

abbrev pub ComparisonTyped : (left right result : LogicalType) → Type 0
ComparisonTyped l r t = (l ≡ r) × (comparable r ≡ true) × (t ≡ boolean)

abbrev pub OperandsTyped : BinaryOp → (left right result : LogicalType) → Type 0
OperandsTyped or_op l r t = BooleanTyped l r t
OperandsTyped and_op l r t = BooleanTyped l r t
OperandsTyped add l r t = ArithmeticTyped false l r t
OperandsTyped subtract l r t = ArithmeticTyped false l r t
OperandsTyped multiply l r t = ArithmeticTyped false l r t
OperandsTyped divide l r t = ArithmeticTyped false l r t
OperandsTyped modulo l r t = ArithmeticTyped true l r t
OperandsTyped eq l r t = ComparisonTyped l r t
OperandsTyped not_eq l r t = ComparisonTyped l r t
OperandsTyped less l r t = ComparisonTyped l r t
OperandsTyped less_eq l r t = ComparisonTyped l r t
OperandsTyped greater l r t = ComparisonTyped l r t
OperandsTyped greater_eq l r t = ComparisonTyped l r t

-- The start is not after the end, and neither is unbounded the wrong way.
pub record FrameTyped (frame : WindowFrame) : Type 0 where
  pub in_order : category frame.start ≤ category frame.end
  pub starts : is_unbounded_following frame.start ≡ false
  pub ends : is_unbounded_preceding frame.end ≡ false

-- The column is one that a name refers to, with its declared type.
abbrev pub Declared : BindContext → ColumnBinding → LogicalType → Bool → Type 0
Declared context c t n =
    (qualifier : Option Bytes) × (name : Bytes) × (f : Found) × (decided qualifier name
        (reverse context.scopes)
      ≡ ok f)
    × (c ≡ record { relation = f.relation; column_index = f.column_index })
    × (t ≡ f.column.data_type)
    × (n ≡ f.column.nullable)

module _ {F : Type 0} where
  abbrev pub LiteralTyped : LogicalType → Bool → Scalar F → Type 0
  LiteralTyped t n Scalar.null = (t ≡ null) × (n ≡ true)
  LiteralTyped t n (Scalar.boolean b) = (t ≡ boolean) × (n ≡ false)
  LiteralTyped t n (Scalar.int32 z) = (t ≡ int32) × (n ≡ false) × (fits_i32 z ≡ true)
  LiteralTyped t n (Scalar.int64 z) = (t ≡ int64) × (n ≡ false) × (fits_i64 z ≡ true)
  LiteralTyped t n (Scalar.uint32 m) = (t ≡ uint32) × (n ≡ false) × (ltb m (2 ^ 32) ≡ true)
  LiteralTyped t n (Scalar.float32 x) = (t ≡ float32) × (n ≡ false)
  LiteralTyped t n (Scalar.float64 x) = (t ≡ float64) × (n ≡ false)
  LiteralTyped t n (Scalar.string s) = (t ≡ text) × (n ≡ false)

  abbrev pub OneArgument : LogicalType → Exprs F → Type 0
  OneArgument t (cons e nil) = type_of e ≡ t
  OneArgument t nil = ⊥
  OneArgument t (cons e (cons e' es)) = ⊥

  abbrev pub AtMostOne : Exprs F → Type 0
  AtMostOne nil = Unit
  AtMostOne (cons e nil) = Unit
  AtMostOne (cons e (cons e' es)) = ⊥

  abbrev pub NoArgument : Exprs F → Type 0
  NoArgument nil = Unit
  NoArgument (cons e es) = ⊥

  -- The result of each function, from its arguments.
  abbrev pub CallTyped : WindowFunction → LogicalType → Bool → Exprs F → Type 0
  CallTyped row_number t n args = (t ≡ int64) × (n ≡ false) × NoArgument args
  CallTyped rank t n args = (t ≡ int64) × (n ≡ false) × NoArgument args
  CallTyped dense_rank t n args = (t ≡ int64) × (n ≡ false) × NoArgument args
  CallTyped (aggregate count) t n args = (t ≡ int64) × (n ≡ false) × AtMostOne args
  CallTyped (aggregate sum) t n args =
      OneArgument t args × (n ≡ true) × ((type_eq t int64 || type_eq t float64) ≡ true)
  CallTyped (aggregate avg) t n args = OneArgument t args × (n ≡ true) × (t ≡ float64)
  CallTyped (aggregate min) t n args = OneArgument t args × (n ≡ true) × (is_null_type t ≡ false)
  CallTyped (aggregate max) t n args = OneArgument t args × (n ≡ true) × (is_null_type t ≡ false)

  module _ (context : BindContext) where
    unfoldable mutual
      pub IsTyped : Expr F → Type 0
      IsTyped (expr t n k) = KindTyped t n k

      pub KindTyped : LogicalType → Bool → ExprKind F → Type 0
      KindTyped t n (ExprKind.literal s) = LiteralTyped t n s
      KindTyped t n (ExprKind.column c) = Declared context c t n
      KindTyped t n (ExprKind.unary op e) =
          IsTyped e × (type_of e ≡ t) × (nullable e ≡ n) × SignTyped op t
      KindTyped t n (ExprKind.binary op l r) =
          IsTyped l
          × IsTyped r
          × ((nullable l || nullable r) ≡ n)
          × OperandsTyped op (type_of l) (type_of r) t
      KindTyped t n (ExprKind.cast e) =
          IsTyped e
          × (nullable e ≡ n)
          × (castable (type_of e) t ≡ true)
          × (type_eq (type_of e) t ≡ false)
      KindTyped t n (ExprKind.is_null e negated) = IsTyped e × (t ≡ boolean) × (n ≡ false)
      KindTyped t n (ExprKind.aggregate a args distinct filter) =
          AllTyped args × FilterTyped filter × CallTyped (aggregate a) t n args
      KindTyped t n (ExprKind.window w args distinct filter partition order frame) =
          AllTyped args
          × FilterTyped filter
          × AllTyped partition
          × OrdersTyped order
          × FrameTyped frame
          × (distinct ≡ false)
          × CallTyped w t n args

      pub AllTyped : Exprs F → Type 0
      AllTyped nil = Unit
      AllTyped (cons e es) = IsTyped e × AllTyped es

      pub FilterTyped : MaybeExpr F → Type 0
      FilterTyped absent = Unit
      FilterTyped (present e) = IsTyped e × (type_of e ≡ boolean)

      pub OrdersTyped : Orders F → Type 0
      OrdersTyped unordered = Unit
      OrdersTyped (ordered e direction nulls rest) = IsTyped e × OrdersTyped rest
