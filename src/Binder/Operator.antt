-- ===== src/Binder/Operator.antt =====
-- Literals and operators (crates/binder/src/expression.rs): the arms of `bind_expr_inner`.
use chili_db.Prelude.{
  Bool, true, false, ◌||◌, Option, none, some, ok, err, panic, ◌>>=◌, ◌>>◌, if◌then◌else◌,
}
use chili_db.Bytes.{Bytes}
use chili_db.Parser.Ast
use chili_db.Parser.Ast.{
  UnaryOp, not_op, plus, minus, BinaryOp, or_op, and_op, eq, not_eq, less, less_eq, greater,
  greater_eq, add, subtract, multiply, divide, modulo,
}
use chili_db.Binder.Types.{LogicalType, null, boolean, int32, int64, uint32, text}
use chili_db.Binder.Ast.{
  Scalar, Expr, expr, ExprKind, type_of, nullable, not_clause, boolean_operator, unary_sign,
  arithmetic, comparison, incompatible_types, R,
}
use chili_db.Binder.Number.{Floats, number}
use chili_db.Binder.Coercion.{
  type_eq, is_null_type, require_numeric, numeric_common, comparison_common, cast, as_boolean,
}

module _ (floats : Floats) where
  open floats use {Float}

  abbrev pub literal : Ast.Literal → R (Expr Float)
  literal Ast.null = ok (expr null true (ExprKind.literal Scalar.null))
  literal (Ast.boolean b) = ok (expr boolean false (ExprKind.literal (Scalar.boolean b)))
  literal (Ast.string s) = ok (expr text false (ExprKind.literal (Scalar.string s)))
  literal (Ast.number s) = number floats s false

  abbrev pub known_sign : Expr Float → Expr Float
  known_sign e = if is_null_type (type_of e) then cast e int32 else e

  abbrev pub signed : UnaryOp → Expr Float → Expr Float
  signed not_op e = e
  signed plus e = e
  signed minus e = if type_eq (type_of e) uint32 then cast e int64 else e

  abbrev pub sign_operand : UnaryOp → Expr Float → R (Expr Float)
  sign_operand op e =
      require_numeric (type_of (known_sign e)) false unary_sign >> ok (signed op (known_sign e))

  abbrev pub unary_operand : UnaryOp → Expr Float → R (Expr Float)
  unary_operand not_op e = as_boolean e not_clause
  unary_operand plus e = sign_operand plus e
  unary_operand minus e = sign_operand minus e

  abbrev pub unary_expr : UnaryOp → Expr Float → Expr Float
  unary_expr op e = expr (type_of e) (nullable e) (ExprKind.unary op e)

  -- The operands and the result type.
  abbrev pub Operands : Type 0
  Operands = Expr Float × Expr Float × LogicalType

  abbrev pub boolean_operands : Expr Float → Expr Float → R Operands
  boolean_operands left right = as_boolean left boolean_operator >>= λ left'.
      as_boolean right boolean_operator >>= λ right'. ok (left', right', boolean)

  -- `numeric_common(..).unwrap()`
  abbrev pub unwrapped : Expr Float → Expr Float → Option LogicalType → R Operands
  unwrapped left right none = panic
  unwrapped left right (some target) = ok (cast left target, cast right target, target)

  abbrev pub arithmetic_operands : Bool → Expr Float → Expr Float → R Operands
  arithmetic_operands integral left right =
      require_numeric (type_of left) integral arithmetic
      >> (require_numeric (type_of right) integral arithmetic
          >> unwrapped left right (numeric_common (type_of left) (type_of right)))

  abbrev pub compared : Expr Float → Expr Float → Option LogicalType → R Operands
  compared left right none = err (incompatible_types comparison (type_of left) (type_of right))
  compared left right (some target) = ok (cast left target, cast right target, boolean)

  abbrev pub comparison_operands : Expr Float → Expr Float → R Operands
  comparison_operands left right =
      compared left right (comparison_common (type_of left) (type_of right))

  abbrev pub binary_operands : BinaryOp → Expr Float → Expr Float → R Operands
  binary_operands or_op left right = boolean_operands left right
  binary_operands and_op left right = boolean_operands left right
  binary_operands add left right = arithmetic_operands false left right
  binary_operands subtract left right = arithmetic_operands false left right
  binary_operands multiply left right = arithmetic_operands false left right
  binary_operands divide left right = arithmetic_operands false left right
  binary_operands modulo left right = arithmetic_operands true left right
  binary_operands eq left right = comparison_operands left right
  binary_operands not_eq left right = comparison_operands left right
  binary_operands less left right = comparison_operands left right
  binary_operands less_eq left right = comparison_operands left right
  binary_operands greater left right = comparison_operands left right
  binary_operands greater_eq left right = comparison_operands left right

  abbrev pub binary_expr : BinaryOp → Operands → Expr Float
  binary_expr op (left, right, data_type) =
      expr data_type (nullable left || nullable right) (ExprKind.binary op left right)

  -- A signed token: `-` before a number.
  abbrev pub minus_number : UnaryOp → Ast.Expr → Option Bytes
  minus_number minus (Ast.literal (Ast.number s)) = some s
  minus_number minus (Ast.literal (Ast.string s)) = none
  minus_number minus (Ast.literal Ast.null) = none
  minus_number minus (Ast.literal (Ast.boolean b)) = none
  minus_number minus (Ast.identifier n) = none
  minus_number minus (Ast.qualified_identifier t c) = none
  minus_number minus (Ast.alias e n) = none
  minus_number minus (Ast.function_call n es d f o) = none
  minus_number minus Ast.wildcard = none
  minus_number minus (Ast.unary op e) = none
  minus_number minus (Ast.binary l op r) = none
  minus_number minus (Ast.is_null e n) = none
  minus_number plus e = none
  minus_number not_op e = none

  abbrev pub unary_of : UnaryOp → Option Bytes → R (Expr Float) → R (Expr Float)
  unary_of op (some s) operand = number floats s true
  unary_of op none operand = operand >>= λ e. unary_operand op e >>= λ e'. ok (unary_expr op e')
