-- ===== src/Binder/Expression/Operands.antt =====
-- Literals, signs and binary operators keep types.
use chili_db.Prelude.{
  ℕ, ◌≡◌, ◌≢◌, Bool, true, false, not, ◌||◌, Option, ok, err, panic, refl, sym, ap, ap₂, ◌∙◌, inl,
  inr, none, some, ◌>>=◌, ◌>>◌, if◌then◌else◌, arith, Bool-cases,
}
use chili_db.Bytes.{Bytes}
use chili_db.Parser.Ast.{
  UnaryOp, not_op, plus, minus, BinaryOp, or_op, and_op, eq, not_eq, less, less_eq, greater,
  greater_eq, add, subtract, multiply, divide, modulo,
}
use chili_db.Binder.Types.{LogicalType, boolean, int32, int64, uint32}
use chili_db.Binder.Ast.{
  ℤ, Expr, type_of, nullable, R, not_clause, boolean_operator, unary_sign, arithmetic,
}
use chili_db.Binder.Context.{BindContext}
use chili_db.Binder.Number.{
  fits_i32, Floats, number, integer, finite, or_invalid, to_i64, parse_u64, valid_number,
  is_fractional,
}
use chili_db.Binder.Coercion.{
  type_eq, is_null_type, numeric, require_numeric, numeric_common, comparison_common, cast,
  as_boolean,
}
use chili_db.Binder.Operator.{
  Operands, known_sign, signed, sign_operand, unary_operand, unary_expr, unary_of, boolean_operands,
  unwrapped, arithmetic_operands, compared, comparison_operands, binary_operands, binary_expr,
}
use chili_db.Binder.Expression.Typing.{
  Sound, fits_i64, castable, comparable, SignTyped, BooleanTyped, ArithmeticTyped, ComparisonTyped,
  OperandsTyped, IsTyped, KindTyped,
}
use chili_db.Binder.Expression.Parts.{
  Sound-bind, Has, cast-IsTyped, as_boolean-Has, usable, require_numeric-usable, Common,
  numeric_common-Common, Compared, comparison_common-Compared,
}

module _ (floats : Floats) (context : BindContext) where
  open floats use {Float}

  finite-IsTyped :
      (s : Bytes) (negative : Bool) (x : Float)
      → Sound (IsTyped context) (finite floats negative s x)
  unfolding IsTyped KindTyped
  finite-IsTyped s negative x = elim (Bool-cases (floats.is_finite x)) [
    | inl is ↦ rw is (refl, refl)
    | inr not_so ↦ rw not_so tt
  ]

  integer-IsTyped : (z : ℤ) → fits_i64 z ≡ true → IsTyped context (integer floats z)
  unfolding IsTyped KindTyped
  integer-IsTyped z h = elim (Bool-cases (fits_i32 z)) [
    | inl small ↦ rw small (refl, refl, small)
    | inr large ↦ rw large (refl, refl, h)
  ]

  to_i64-fits :
      (negative : Bool) (s : Bytes) (m : ℕ)
      → Sound (λ z. fits_i64 z ≡ true) (or_invalid floats negative s (to_i64 negative m))
  to_i64-fits true s m = ground arith
  to_i64-fits false s m = ground arith

  pub number-IsTyped :
      (s : Bytes) (negative : Bool) → Sound (IsTyped context) (number floats s negative)
  unfolding number
  number-IsTyped s negative = elim (Bool-cases (not (valid_number s))) [
    | inl bad ↦ rw bad tt
    | inr good ↦ elim (Bool-cases (is_fractional s)) [
      | inl fraction ↦ rw (good, fraction) (of (floats.parse s))
      | inr whole ↦ rw (good, whole) (read (parse_u64 s))
    ]
  ]
    where
      done : (x : Float) → Sound (IsTyped context) (finite floats negative s x)
      done x = finite-IsTyped s negative x

      of :
          (o : Option Float)
          → Sound (IsTyped context) (or_invalid floats negative s o >>= finite floats negative s)
      of none = tt
      of (some x) = done x

      read :
          (o : Option ℕ)
          → Sound (IsTyped context) (
              or_invalid floats negative s o >>= λ m.
              or_invalid floats negative s (to_i64 negative m) >>= λ z. ok (integer floats z))
      read none = tt
      read (some m) =
          Sound-bind (λ z. fits_i64 z ≡ true) (IsTyped context)
            (or_invalid floats negative s (to_i64 negative m)) (λ z. ok (integer floats z))
            (to_i64-fits negative s m) (λ z h. integer-IsTyped z h)

  known_sign-IsTyped : (e : Expr Float) → IsTyped context e → IsTyped context (known_sign floats e)
  known_sign-IsTyped e h = elim (Bool-cases (is_null_type (type_of e))) [
    | inl is ↦
        rw is
          (let (typed, of, n) = cast-IsTyped context e int32 h (null_casts (type_of e) is) in typed)
    | inr not_so ↦ rw not_so h
  ]
    where
      null_casts :
          (t : LogicalType) → is_null_type t ≡ true → (type_eq t int32 || castable t int32) ≡ true
      null_casts t is = ground arith

  signed-IsTyped :
      (op : UnaryOp) (e : Expr Float)
      → IsTyped context e
      → numeric (type_of e) ≡ true
      → IsTyped context (signed floats op e)
        × (op ≢ not_op → SignTyped op (type_of (signed floats op e)))
  signed-IsTyped not_op e h num = (h, (λ ne. absurd (ne refl)))
  signed-IsTyped plus e h num = (h, (λ ne. num))
  signed-IsTyped minus e h num = elim (Bool-cases (type_eq (type_of e) uint32)) [
    | inl is ↦
        let (typed, of, n) = cast-IsTyped context e int64 h (casts (type_of e) is) in
        rw is (typed, (λ ne. rw of (refl, refl)))
    | inr not_so ↦ rw not_so (h, (λ ne. (num, not_so)))
  ]
    where
      casts :
          (t : LogicalType) → type_eq t uint32 ≡ true → (type_eq t int64 || castable t int64) ≡ true
      casts t is = ground arith

  known_sign-numeric :
      (e : Expr Float)
      → usable (type_of (known_sign floats e)) false ≡ true
      → numeric (type_of (known_sign floats e)) ≡ true
  unfolding cast
  known_sign-numeric e h = of (is_null_type (type_of e)) refl h
    where
      other_type : (t : LogicalType) → is_null_type t ≡ true → type_eq t int32 ≡ false
      other_type t is = ground arith

      plain : (t : LogicalType) → is_null_type t ≡ false → usable t false ≡ true → numeric t ≡ true
      plain t is h' = ground arith

      of :
          (b : Bool)
          → is_null_type (type_of e) ≡ b
          → usable (type_of (if b then cast e int32 else e)) false ≡ true
          → numeric (type_of (if b then cast e int32 else e)) ≡ true
      of true is h' = rw (other_type (type_of e) is) refl
      of false is h' = plain (type_of e) is h'

  -- The operand of a sign or of NOT.
  abbrev Operand : UnaryOp → Expr Float → Type 0
  Operand op e = IsTyped context e × SignTyped op (type_of e)

  sign_operand-Operand :
      (op : UnaryOp) (e : Expr Float)
      → op ≢ not_op
      → IsTyped context e
      → Sound (Operand op) (sign_operand floats op e)
  sign_operand-Operand op e ne h =
      Sound-bind (λ done. usable (type_of (known_sign floats e)) false ≡ true) (Operand op)
        (require_numeric (type_of (known_sign floats e)) false unary_sign)
        (λ done. ok (signed floats op (known_sign floats e)))
        (require_numeric-usable (type_of (known_sign floats e)) false unary_sign)
        (λ done fits.
          let (typed, signs) =
            signed-IsTyped op (known_sign floats e) (known_sign-IsTyped e h)
              (known_sign-numeric e fits) in
          (typed, signs ne))

  unary_operand-Operand :
      (op : UnaryOp) (e : Expr Float)
      → IsTyped context e
      → Sound (Operand op) (unary_operand floats op e)
  unary_operand-Operand not_op e h =
      boolean_operand (as_boolean e not_clause) (as_boolean-Has context e not_clause h)
    where
      boolean_operand :
          (r : R (Expr Float))
          → Sound (Has context boolean (nullable e)) r
          → Sound (Operand not_op) r
      boolean_operand (ok a) (typed, is, n) = (typed, is)
      boolean_operand (err x) h' = tt
      boolean_operand panic h' = h'
  unary_operand-Operand plus e h = sign_operand-Operand plus e (λ q. cc) h
  unary_operand-Operand minus e h = sign_operand-Operand minus e (λ q. cc) h

  pub unary_of-IsTyped :
      (op : UnaryOp) (token : Option Bytes) (operand : R (Expr Float))
      → Sound (IsTyped context) operand
      → Sound (IsTyped context) (unary_of floats op token operand)
  unfolding IsTyped KindTyped
  unary_of-IsTyped op (some s) operand h = number-IsTyped s true
  unary_of-IsTyped op none operand h =
      Sound-bind (IsTyped context) (IsTyped context) operand
        (λ e. unary_operand floats op e >>= λ e'. ok (unary_expr floats op e')) h
        (λ e typed.
          Sound-bind (Operand op) (IsTyped context) (unary_operand floats op e)
            (λ e'. ok (unary_expr floats op e')) (unary_operand-Operand op e typed)
            (λ e' (typed', signs). (typed', refl, refl, signs)))

  module _ (left right : Expr Float) (hl : IsTyped context left) (hr : IsTyped context right) where
    -- For any reading of the operator as one on truth values, on numbers or as a comparison.
    abbrev Both : (LogicalType → LogicalType → LogicalType → Type 0) → Operands floats → Type 0
    Both P (l, r, t) =
        IsTyped context l
        × IsTyped context r
        × ((nullable l || nullable r) ≡ (nullable left || nullable right))
        × P (type_of l) (type_of r) t

    boolean_operands-Both : Sound (Both BooleanTyped) (boolean_operands floats left right)
    boolean_operands-Both =
        Sound-bind (Has context boolean (nullable left)) (Both BooleanTyped)
          (as_boolean left boolean_operator)
          (λ l. as_boolean right boolean_operator >>= λ r. ok (l, r, boolean))
          (as_boolean-Has context left boolean_operator hl)
          (λ l (typed, is, same).
            Sound-bind (Has context boolean (nullable right)) (Both BooleanTyped)
              (as_boolean right boolean_operator) (λ r. ok (l, r, boolean))
              (as_boolean-Has context right boolean_operator hr)
              (λ r (typed', is', same'). (typed, typed', ap₂ (◌||◌) same same', (is, is', refl))))

    arithmetic_operands-Both :
        (integral : Bool)
        → Sound (Both (ArithmeticTyped integral)) (arithmetic_operands floats integral left right)
    arithmetic_operands-Both integral =
        Sound-bind (λ done. usable (type_of left) integral ≡ true) (Both (ArithmeticTyped integral))
          (require_numeric (type_of left) integral arithmetic)
          (λ done.
            require_numeric (type_of right) integral arithmetic
            >> unwrapped floats left right (numeric_common (type_of left) (type_of right)))
          (require_numeric-usable (type_of left) integral arithmetic)
          (λ done fits.
            Sound-bind (λ done'. usable (type_of right) integral ≡ true)
              (Both (ArithmeticTyped integral))
              (require_numeric (type_of right) integral arithmetic)
              (λ done'. unwrapped floats left right (numeric_common (type_of left) (type_of right)))
              (require_numeric-usable (type_of right) integral arithmetic)
              (λ done' fits'.
                of (numeric_common (type_of left) (type_of right))
                  (numeric_common-Common (type_of left) (type_of right) integral fits fits')))
      where
        of :
            (o : Option LogicalType)
            → Common integral (type_of left) (type_of right) o
            → Sound (Both (ArithmeticTyped integral)) (unwrapped floats left right o)
        of none h = h
        of (some t) (cl, cr, num) =
            let (typed, is, same) = cast-IsTyped context left t hl cl in
            let (typed', is', same') = cast-IsTyped context right t hr cr in
            (typed, typed', ap₂ (◌||◌) same same', (is, is', num))

    comparison_operands-Both : Sound (Both ComparisonTyped) (comparison_operands floats left right)
    comparison_operands-Both =
        of (comparison_common (type_of left) (type_of right))
          (comparison_common-Compared (type_of left) (type_of right))
      where
        of :
            (o : Option LogicalType)
            → Compared (type_of left) (type_of right) o
            → Sound (Both ComparisonTyped) (compared floats left right o)
        of none h = tt
        of (some t) (cl, cr, comp) =
            let (typed, is, same) = cast-IsTyped context left t hl cl in
            let (typed', is', same') = cast-IsTyped context right t hr cr in
            (typed, typed', ap₂ (◌||◌) same same', (is ∙ sym is', ap comparable is' ∙ comp, refl))

    operands-Both :
        (op : BinaryOp) → Sound (Both (OperandsTyped op)) (binary_operands floats op left right)
    operands-Both or_op = boolean_operands-Both
    operands-Both and_op = boolean_operands-Both
    operands-Both add = arithmetic_operands-Both false
    operands-Both subtract = arithmetic_operands-Both false
    operands-Both multiply = arithmetic_operands-Both false
    operands-Both divide = arithmetic_operands-Both false
    operands-Both modulo = arithmetic_operands-Both true
    operands-Both eq = comparison_operands-Both
    operands-Both not_eq = comparison_operands-Both
    operands-Both less = comparison_operands-Both
    operands-Both less_eq = comparison_operands-Both
    operands-Both greater = comparison_operands-Both
    operands-Both greater_eq = comparison_operands-Both

    pub binary-IsTyped :
        (op : BinaryOp)
        → Sound
            (IsTyped context)
            (binary_operands floats op left right >>= λ o. ok (binary_expr floats op o))
    unfolding IsTyped KindTyped
    binary-IsTyped op =
        Sound-bind (Both (OperandsTyped op)) (IsTyped context)
          (binary_operands floats op left right) (λ o. ok (binary_expr floats op o))
          (operands-Both op)
          (λ (l, r, t) (typed, typed', same, operands). (typed, typed', refl, operands))
