-- ===== src/Binder/Expression/Frames.antt =====
-- Frames that `frame` accepts are in order.
use chili_db.Prelude.{
  is_empty, ℕ, ◌^◌, Bool, true, false, not, ◌||◌, Option, ok, err, ltb, refl, inl, inr, none, some,
  ◌>>=◌, if◌then◌else◌, arith, Bool-cases,
}
use chili_db.Bytes.{Bytes}
use chili_db.Parser.Ast.{
  UnaryOp, not_op, plus, minus, BinaryOp, or_op, and_op, eq, not_eq, less, less_eq, greater,
  greater_eq, add, subtract, multiply, divide, modulo, FrameUnits, range,
}
use chili_db.Binder.Ast.{BindError, BadFrame, following, preceding, FrameBound}
use chili_db.Binder.Frame.{
  category, is_unbounded_following, is_unbounded_preceding, frame, convert, checked_frame, offset,
  all_digits, is_range,
}
use chili_db.Binder.Number.{digits_value}
use chili_db.Binder.Expression.Typing.{Sound, FrameTyped}
use chili_db.Binder.Expression.Parts.{Sound-bind}
use chili_db.Parser.Ast

-- The answer, if any, is not a panic.
offset-Sound :
    (units : FrameUnits) (make : ℕ → FrameBound) (n : Bytes)
    → Sound (λ b. Unit {0}) (offset units make n)
offset-Sound units make n = elim (Bool-cases (is_range units)) [
  | inl is ↦ rw is tt
  | inr not_so ↦
      rw not_so (digits (is_empty n || not (all_digits n)) (ltb (digits_value 0 n) (2 ^ 64)))
]
  where
    digits :
        (a b : Bool)
        → Sound
            (λ (x : FrameBound). Unit {0})
            (if a
              then err (BindError.invalid_window_frame BadFrame.not_an_integer)
              else (if b
                  then ok (make (digits_value 0 n))
                  else err (BindError.invalid_window_frame BadFrame.offset_exceeds_u64)))
    digits true b = tt
    digits false true = tt
    digits false false = tt

convert-Sound : (units : FrameUnits) (b : Ast.FrameBound) → Sound (λ x. Unit {0}) (convert units b)
convert-Sound units Ast.unbounded_preceding = tt
convert-Sound units Ast.unbounded_following = tt
convert-Sound units Ast.current_row = tt
convert-Sound units (Ast.preceding n) = offset-Sound units preceding n
convert-Sound units (Ast.following n) = offset-Sound units following n

checked_frame-FrameTyped :
    (units : FrameUnits) (start end : FrameBound) → Sound FrameTyped (checked_frame units start end)
checked_frame-FrameTyped units start end =
    elim (Bool-cases (
      is_unbounded_following start
      || is_unbounded_preceding end
      || ltb (category end) (category start))) [
        | inl bad ↦ rw bad tt
        | inr good ↦
            rw good (record { in_order = ground arith; starts = ground arith; ends = ground arith })
      ]

-- A frame that is accepted, also the default one, does not end before it starts.
pub frame-FrameTyped :
    (f : Option Ast.WindowFrame) (sorted : Bool) → Sound FrameTyped (frame f sorted)
unfolding frame
frame-FrameTyped none true = record { in_order = omega arith; starts = refl; ends = refl }
frame-FrameTyped none false = record { in_order = omega arith; starts = refl; ends = refl }
frame-FrameTyped (some f) sorted =
    Sound-bind (λ x. Unit {0}) FrameTyped (convert f.units f.start)
      (λ start. convert f.units f.end >>= λ end. checked_frame f.units start end)
      (convert-Sound f.units f.start)
      (λ start done.
        Sound-bind (λ x. Unit {0}) FrameTyped (convert f.units f.end)
          (λ end. checked_frame f.units start end) (convert-Sound f.units f.end)
          (λ end done'. checked_frame-FrameTyped f.units start end))
