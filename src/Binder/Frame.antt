-- ===== src/Binder/Frame.antt =====
-- Window frames and sort keys (crates/binder/src/aggregate.rs): `frame` and `order`.
use chili_db.Prelude.{
  ℕ, is_empty, ◌^◌, Bool, true, false, not, ◌&&◌, ◌||◌, [], ◌∷◌, Option, none, some, ok, err, ◌>>=◌,
  ltb, if◌then◌else◌,
}
use chili_db.Bytes.{Bytes}
use chili_db.Parser.Ast.{
  FrameUnits, rows, range, SortDirection, ascending, descending, NullOrder, first, last,
}
use chili_db.Parser.Ast
use chili_db.Binder.Ast.{
  FrameBound, unbounded_preceding, preceding, current_row, following, unbounded_following,
  WindowFrame, invalid_window_frame, range_offset, not_an_integer, offset_exceeds_u64,
  reversed_bounds, R,
}
use chili_db.Binder.Number.{is_digit, digits_value}

-- `order.nulls.unwrap_or(..)`
abbrev pub null_order : SortDirection → Option NullOrder → NullOrder
null_order direction (some nulls) = nulls
null_order ascending none = last
null_order descending none = first

abbrev pub all_digits : Bytes → Bool
all_digits [] = true
all_digits (b ∷ bs) = is_digit b && all_digits bs

abbrev pub is_range : FrameUnits → Bool
is_range range = true
is_range rows = false

-- `str::parse::<u64>` of digits.
abbrev pub parsed_offset : (ℕ → FrameBound) → Bytes → R FrameBound
parsed_offset make n =
    if ltb (digits_value 0 n) (2 ^ 64)
    then ok (make (digits_value 0 n))
    else err (invalid_window_frame offset_exceeds_u64)

abbrev pub offset : FrameUnits → (ℕ → FrameBound) → Bytes → R FrameBound
offset units make n =
    if is_range units
    then err (invalid_window_frame range_offset)
    else (if is_empty n || not (all_digits n)
        then err (invalid_window_frame not_an_integer)
        else parsed_offset make n)

abbrev pub convert : FrameUnits → Ast.FrameBound → R FrameBound
convert units Ast.unbounded_preceding = ok unbounded_preceding
convert units Ast.unbounded_following = ok unbounded_following
convert units Ast.current_row = ok current_row
convert units (Ast.preceding n) = offset units preceding n
convert units (Ast.following n) = offset units following n

abbrev pub category : FrameBound → ℕ
category unbounded_preceding = 0
category (preceding n) = 1
category current_row = 2
category (following n) = 3
category unbounded_following = 4

abbrev pub is_unbounded_following : FrameBound → Bool
is_unbounded_following unbounded_following = true
is_unbounded_following unbounded_preceding = false
is_unbounded_following (preceding n) = false
is_unbounded_following current_row = false
is_unbounded_following (following n) = false

abbrev pub is_unbounded_preceding : FrameBound → Bool
is_unbounded_preceding unbounded_preceding = true
is_unbounded_preceding unbounded_following = false
is_unbounded_preceding (preceding n) = false
is_unbounded_preceding current_row = false
is_unbounded_preceding (following n) = false

abbrev pub checked_frame : FrameUnits → FrameBound → FrameBound → R WindowFrame
checked_frame units start end =
    if is_unbounded_following start
      || is_unbounded_preceding end
      || ltb (category end) (category start)
    then err (invalid_window_frame reversed_bounds)
    else ok (record { units = units; start = start; end = end })

unfoldable pub frame : Option Ast.WindowFrame → Bool → R WindowFrame
frame none ordered = ok (record {
  units = range;
  start = unbounded_preceding;
  end = if ordered then current_row else unbounded_following;
})
frame (some f) ordered = convert f.units f.start >>= λ start.
    convert f.units f.end >>= λ end. checked_frame f.units start end
