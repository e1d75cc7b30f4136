-- ===== src/Binder/Number.antt =====
-- Number literals (crates/binder/src/expression.rs): `valid_number` and `number`.
use chili_db.Prelude.{
  ℕ, zero, suc, ◌+◌, ◌-◌, ◌*◌, ◌^◌, Bool, true, false, not, ◌&&◌, ◌||◌, [], ◌∷◌, Option, none, some,
  Result, ok, err, ◌>>=◌, ltb, leb, ◌==◌, if◌then◌else◌,
}
use chili_db.Bytes.{Bytes}
use chili_db.Binder.Types.{int32, int64, float64}
use chili_db.Binder.Ast.{ℤ, pos, negsuc, Scalar, Expr, expr, ExprKind, BindError, invalid_number, R}

-- The standard library's `f64`: parsing, the test for a finite value, and negation.
pub record Floats : Type 1 where
  pub Float : Type 0
  pub parse : Bytes → Option Float
  pub is_finite : Float → Bool
  pub negate : Float → Float

abbrev pub is_digit : ℕ → Bool
is_digit b = leb 48 b && leb b 57

-- `while i < bytes.len() && bytes[i].is_ascii_digit()`: the rest, and whether it moved.
pub skip_digits : Bytes → Bytes × Bool
skip_digits [] = ([], false)
skip_digits (b ∷ bs) = if is_digit b then ((skip_digits bs).0, true) else (b ∷ bs, false)

-- The exponent's sign, its digits and the end of the token.
abbrev pub skip_sign : Bytes → Bytes
skip_sign [] = []
skip_sign (b ∷ bs) = if b == 43 || b == 45 then bs else b ∷ bs

abbrev pub at_end : Bytes × Bool → Bool
at_end ([], moved) = moved
at_end (b ∷ bs, moved) = false

abbrev pub valid_exponent : Bytes → Bool
valid_exponent [] = true
valid_exponent (b ∷ bs) = if b == 101 || b == 69 then at_end (skip_digits (skip_sign bs)) else false

abbrev pub after_fraction : Bytes × Bool → Bool
after_fraction (rest, moved) = moved && valid_exponent rest

abbrev pub after_whole : Bytes × Bool → Bool
after_whole ([], moved) = moved
after_whole (b ∷ bs, moved) =
    if b == 46 then after_fraction (skip_digits bs) else (moved && valid_exponent (b ∷ bs))

unfoldable pub valid_number : Bytes → Bool
unfolding skip_digits
valid_number s = after_whole (skip_digits s)

-- `s.contains(['.', 'e', 'E'])`
unfoldable pub is_fractional : Bytes → Bool
is_fractional [] = false
is_fractional (b ∷ bs) = (b == 46 || b == 101 || b == 69) || is_fractional bs

-- `str::parse::<u64>` of a string of digits.
unfoldable pub digits_value : ℕ → Bytes → ℕ
digits_value acc [] = acc
digits_value acc (b ∷ bs) = digits_value (acc * 10 + (b - 48)) bs

abbrev pub parse_u64 : Bytes → Option ℕ
parse_u64 s = if ltb (digits_value 0 s) (2 ^ 64) then some (digits_value 0 s) else none

-- `-i64::try_from(magnitude)`, or `i64::MIN`.
abbrev pub negated : ℕ → ℤ
negated zero = pos 0
negated (suc m) = negsuc m

abbrev pub to_i64 : Bool → ℕ → Option ℤ
to_i64 true m =
    if m == 2 ^ 63
    then some (negsuc (2 ^ 63 - 1))
    else (if ltb m (2 ^ 63) then some (negated m) else none)
to_i64 false m = if ltb m (2 ^ 63) then some (pos m) else none

-- `i32::try_from(n)`
abbrev pub fits_i32 : ℤ → Bool
fits_i32 (pos m) = ltb m (2 ^ 31)
fits_i32 (negsuc m) = ltb m (2 ^ 31)

module _ (floats : Floats) where
  open floats use {Float, parse, is_finite, negate}

  abbrev pub integer : ℤ → Expr Float
  integer n =
      if fits_i32 n
      then expr int32 false (ExprKind.literal (Scalar.int32 n))
      else expr int64 false (ExprKind.literal (Scalar.int64 n))

  abbrev pub or_invalid {ℓ} : {A : Type ℓ} → Bool → Bytes → Option A → Result BindError A
  or_invalid negative s none = err (invalid_number negative s)
  or_invalid negative s (some a) = ok a

  abbrev pub finite : Bool → Bytes → Float → R (Expr Float)
  finite negative s n =
      if is_finite n
      then ok (
          expr float64 false (ExprKind.literal (Scalar.float64 (if negative then negate n else n))))
      else err (invalid_number negative s)

  unfoldable pub number : Bytes → Bool → R (Expr Float)
  number s negative =
      if not (valid_number s)
      then err (invalid_number negative s)
      else (if is_fractional s
          then (or_invalid negative s (parse s) >>= finite negative s)
          else (or_invalid negative s (parse_u64 s) >>= λ m.
              or_invalid negative s (to_i64 negative m) >>= λ n. ok (integer n)))
