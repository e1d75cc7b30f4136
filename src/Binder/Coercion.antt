-- ===== src/Binder/Coercion.antt =====
-- Operand coercion (crates/binder/src/expression.rs): `cast`, `boolean`, `assignment` and the common
-- types.
use chili_db.Prelude.{
  ℕ, Bool, true, false, not, ◌&&◌, ◌||◌, Option, none, some, ok, err, ◌==◌, if◌then◌else◌,
}
use chili_db.Binder.Types.{
  LogicalType, null, boolean, int32, int64, uint32, float32, float64, text, varchar,
}
use chili_db.Binder.Ast.{
  Expr, expr, ExprKind, type_of, nullable, Clause, Expected, boolean_type, integer_type,
  numeric_type, type_mismatch, incompatible_types, assignment_clause, R,
}

-- `PartialEq` of `LogicalType`
abbrev pub limit_eq : Option ℕ → Option ℕ → Bool
limit_eq none none = true
limit_eq none (some m) = false
limit_eq (some n) none = false
limit_eq (some n) (some m) = n == m

abbrev pub tag : LogicalType → ℕ
tag null = 0
tag boolean = 1
tag int32 = 2
tag int64 = 3
tag uint32 = 4
tag float32 = 5
tag float64 = 6
tag text = 7
tag (varchar n) = 8

abbrev pub limit_of : LogicalType → Option ℕ
limit_of (varchar n) = n
limit_of null = none
limit_of boolean = none
limit_of int32 = none
limit_of int64 = none
limit_of uint32 = none
limit_of float32 = none
limit_of float64 = none
limit_of text = none

abbrev pub type_eq : LogicalType → LogicalType → Bool
type_eq t u = tag t == tag u && limit_eq (limit_of t) (limit_of u)

abbrev pub is_null_type : LogicalType → Bool
is_null_type t = type_eq t null

abbrev pub numeric : LogicalType → Bool
numeric int32 = true
numeric int64 = true
numeric uint32 = true
numeric float32 = true
numeric float64 = true
numeric null = false
numeric boolean = false
numeric text = false
numeric (varchar n) = false

abbrev pub is_integer : LogicalType → Bool
is_integer int32 = true
is_integer int64 = true
is_integer uint32 = true
is_integer float32 = false
is_integer float64 = false
is_integer null = false
is_integer boolean = false
is_integer text = false
is_integer (varchar n) = false

abbrev pub is_float : LogicalType → Bool
is_float t = numeric t && not (is_integer t)

-- `T::Text | T::Varchar(_)`
abbrev pub is_string : LogicalType → Bool
is_string text = true
is_string (varchar n) = true
is_string null = false
is_string boolean = false
is_string int32 = false
is_string int64 = false
is_string uint32 = false
is_string float32 = false
is_string float64 = false

abbrev pub expected : Bool → Expected
expected true = integer_type
expected false = numeric_type

abbrev pub require_numeric : LogicalType → Bool → Clause → R (Unit {0})
require_numeric t integral clause =
    if is_null_type t || (numeric t && (not integral || is_integer t))
    then ok tt
    else err (type_mismatch clause (expected integral) t)

abbrev pub if_numeric : LogicalType → Option LogicalType
if_numeric t = if numeric t then some t else none

unfoldable pub numeric_common : LogicalType → LogicalType → Option LogicalType
numeric_common left right =
    if is_null_type left && is_null_type right
    then some int32
    else (if is_null_type left
        then if_numeric right
        else (if is_null_type right
            then if_numeric left
            else (if not (numeric left) || not (numeric right)
                then none
                else (if type_eq left right
                    then some left
                    else (if is_float left || is_float right then some float64 else some int64)))))

abbrev pub is_boolean : LogicalType → Bool
is_boolean t = type_eq t boolean

-- Both types are known.
abbrev pub known_common : LogicalType → LogicalType → Option LogicalType
known_common left right =
    if is_boolean left && is_boolean right
    then some boolean
    else (if is_string left && is_string right then some text else numeric_common left right)

-- The recursive calls compare a type that is not NULL with itself.
unfoldable pub comparison_common : LogicalType → LogicalType → Option LogicalType
comparison_common left right =
    if is_null_type left && is_null_type right
    then some text
    else (if is_null_type left
        then known_common right right
        else (if is_null_type right then known_common left left else known_common left right))

abbrev pub assignable : LogicalType → LogicalType → Bool
assignable source target =
    type_eq source target
    || is_null_type source
    || (numeric source && numeric target)
    || (is_string source && is_string target)

module _ {F : Type 0} where
  unfoldable pub cast : Expr F → LogicalType → Expr F
  cast e target =
      if type_eq (type_of e) target then e else expr target (nullable e) (ExprKind.cast e)

  abbrev pub boolean_of : Expr F → Clause → LogicalType → R (Expr F)
  boolean_of e clause boolean = ok e
  boolean_of e clause null = ok (cast e boolean)
  boolean_of e clause int32 = err (type_mismatch clause boolean_type int32)
  boolean_of e clause int64 = err (type_mismatch clause boolean_type int64)
  boolean_of e clause uint32 = err (type_mismatch clause boolean_type uint32)
  boolean_of e clause float32 = err (type_mismatch clause boolean_type float32)
  boolean_of e clause float64 = err (type_mismatch clause boolean_type float64)
  boolean_of e clause text = err (type_mismatch clause boolean_type text)
  boolean_of e clause (varchar n) = err (type_mismatch clause boolean_type (varchar n))

  -- `boolean`
  abbrev pub as_boolean : Expr F → Clause → R (Expr F)
  as_boolean e clause = boolean_of e clause (type_of e)

  abbrev pub assignment : Expr F → LogicalType → R (Expr F)
  assignment e target =
      if assignable (type_of e) target
      then ok (cast e target)
      else err (incompatible_types assignment_clause (type_of e) target)
