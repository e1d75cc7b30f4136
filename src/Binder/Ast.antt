-- ===== src/Binder/Ast.antt =====
-- Bound expressions (crates/binder/src/ast.rs), scalars and errors (crates/binder/src/lib.rs).
use chili_db.Prelude.{ℕ, Bool, Option, Result}
use chili_db.Bytes.{Bytes}
use chili_db.Binder.Types.{LogicalType}
use chili_db.Parser.Ast.{UnaryOp, BinaryOp, SortDirection, NullOrder, FrameUnits}

-- `negsuc n` is -(n + 1).
pub data ℤ : Type 0 where
  pos : ℕ → ℤ
  negsuc : ℕ → ℤ

-- The floats are a parameter.
pub data Scalar (F : Type 0) : Type 0 where
  null : Scalar F
  boolean : Bool → Scalar F
  int32 int64 : ℤ → Scalar F
  uint32 : ℕ → Scalar F
  float32 float64 : F → Scalar F
  string : Bytes → Scalar F

pub record ColumnBinding : Type 0 where
  pub relation : ℕ
  pub column_index : ℕ

pub data AggregateFunction : Type 0 where
  count sum avg min max : AggregateFunction

pub data WindowFunction : Type 0 where
  aggregate : AggregateFunction → WindowFunction
  row_number rank dense_rank : WindowFunction

pub data FrameBound : Type 0 where
  unbounded_preceding current_row unbounded_following : FrameBound
  preceding following : ℕ → FrameBound

pub record WindowFrame : Type 0 where
  pub units : FrameUnits
  pub start : FrameBound
  pub end : FrameBound

-- `Expr` has its type, whether it may be null, and its kind.
mutual
  pub data Expr (F : Type 0) : Type 0 where
    expr : (data_type : LogicalType) → (nullable : Bool) → ExprKind F → Expr F

  pub data ExprKind (F : Type 0) : Type 0 where
    aggregate : AggregateFunction → Exprs F → (distinct : Bool) → MaybeExpr F → ExprKind F
    window :
        WindowFunction
        → Exprs F
        → (distinct : Bool) → MaybeExpr F
        → (partition_by : Exprs F) → Orders F
        → WindowFrame
        → ExprKind F
    literal : Scalar F → ExprKind F
    column : ColumnBinding → ExprKind F
    unary : UnaryOp → Expr F → ExprKind F
    binary : BinaryOp → Expr F → Expr F → ExprKind F
    cast : Expr F → ExprKind F
    is_null : Expr F → (negated : Bool) → ExprKind F

  pub data Exprs (F : Type 0) : Type 0 where
    nil : Exprs F
    cons : Expr F → Exprs F → Exprs F

  pub data MaybeExpr (F : Type 0) : Type 0 where
    absent : MaybeExpr F
    present : Expr F → MaybeExpr F

  pub data Orders (F : Type 0) : Type 0 where
    unordered : Orders F
    ordered : Expr F → SortDirection → NullOrder → Orders F → Orders F

abbrev pub type_of : {F : Type 0} → Expr F → LogicalType
type_of (expr t n k) = t

abbrev pub nullable : {F : Type 0} → Expr F → Bool
nullable (expr t n k) = n

abbrev pub kind : {F : Type 0} → Expr F → ExprKind F
kind (expr t n k) = k

-- The clause that an error message names.
pub data Clause : Type 0 where
  not_clause boolean_operator filter_clause unary_sign arithmetic comparison aggregate_clause :
      Clause
  assignment_clause where_clause : Clause

pub data Expected : Type 0 where
  boolean_type integer_type numeric_type : Expected

pub data BadFunction : Type 0 where
  window_not_allowed window_distinct ranking_without_over aggregate_not_allowed : BadFunction
  aggregate_arguments ranking_arguments : BadFunction

pub data BadFrame : Type 0 where
  range_offset not_an_integer offset_exceeds_u64 reversed_bounds : BadFrame

-- `BindError`, as far as expressions raise it. A number is given by its digits and its sign.
pub data BindError : Type 0 where
  unknown_function : Bytes → BindError
  invalid_function : BadFunction → BindError
  ungrouped_column : BindError
  invalid_window_frame : BadFrame → BindError
  alias_outside_projection : BindError
  unknown_column ambiguous_column : Option Bytes → Bytes → BindError
  type_mismatch : Clause → Expected → LogicalType → BindError
  incompatible_types : Clause → LogicalType → LogicalType → BindError
  invalid_number : Bool → Bytes → BindError
  invalid_wildcard expression_too_deep : BindError

abbrev pub R : Type 0 → Type 0
R A = Result BindError A
