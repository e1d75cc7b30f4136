-- ===== src/Parser/Ast.antt =====
-- Expressions and column declarations of the syntax tree (crates/parser/src/ast.rs). Text is its bytes.
use chili_db.Prelude.{Bool, Option, List}
use chili_db.Bytes.{Bytes}

pub data Literal : Type 0 where
  number : Bytes → Literal
  string : Bytes → Literal
  null : Literal
  boolean : Bool → Literal

pub data UnaryOp : Type 0 where
  not_op plus minus : UnaryOp

pub data BinaryOp : Type 0 where
  or_op and_op eq not_eq less less_eq greater greater_eq : BinaryOp
  add subtract multiply divide modulo : BinaryOp

pub data SortDirection : Type 0 where
  ascending descending : SortDirection

pub data NullOrder : Type 0 where
  first last : NullOrder

pub data FrameUnits : Type 0 where
  rows range : FrameUnits

-- An offset keeps its digits.
pub data FrameBound : Type 0 where
  unbounded_preceding current_row unbounded_following : FrameBound
  preceding following : Bytes → FrameBound

pub record WindowFrame : Type 0 where
  pub units : FrameUnits
  pub start : FrameBound
  pub end : FrameBound

-- `Vec`, `Option` and `OrderByExpr` of expressions are types of the block.
mutual
  pub data Expr : Type 0 where
    identifier : (name : Bytes) → Expr
    qualified_identifier : (table column : Bytes) → Expr
    alias : Expr → (name : Bytes) → Expr
    function_call : (name : Bytes) → Exprs → (distinct : Bool) → MaybeExpr → MaybeWindow → Expr
    wildcard : Expr
    literal : Literal → Expr
    unary : UnaryOp → Expr → Expr
    binary : Expr → BinaryOp → Expr → Expr
    is_null : Expr → (negated : Bool) → Expr

  pub data Exprs : Type 0 where
    nil : Exprs
    cons : Expr → Exprs → Exprs

  pub data MaybeExpr : Type 0 where
    absent : MaybeExpr
    present : Expr → MaybeExpr

  -- `WindowSpec`: partition, order and frame.
  pub data MaybeWindow : Type 0 where
    no_window : MaybeWindow
    window : Exprs → Orders → Option WindowFrame → MaybeWindow

  pub data Orders : Type 0 where
    unordered : Orders
    ordered : Expr → SortDirection → Option NullOrder → Orders → Orders

-- The length of a VARCHAR keeps its digits.
pub data DataType : Type 0 where
  integer big_int text boolean real double : DataType
  varchar : Option Bytes → DataType

pub data ColumnConstraint : Type 0 where
  not_null primary_key unique : ColumnConstraint

pub record ColumnDef : Type 0 where
  pub name : Bytes
  pub data_type : DataType
  pub constraints : List ColumnConstraint
