-- ===== src/Binder/Grouping/Tests.antt =====
-- SELECT id + COUNT(*) FROM t GROUP BY id, and a column that is not grouped.
use chili_db.Prelude.{
  ℕ, ◌+◌, ◌≡◌, refl, Bool, true, false, List, [], ◌∷◌, err, ◌==◌, if◌then◌else◌, arith,
}
use chili_db.Binder.Types.{int32, int64}
use chili_db.Parser.Ast.{add}
use chili_db.Binder.Ast.{count, Expr, expr, ExprKind, nil, absent, ungrouped_column}
use chili_db.Binder.Equality.{expr_eq}
use chili_db.Binder.Grouping.{is_group, contains_aggregate, validate_grouped}
use chili_db.Binder.Grouping.Evaluation.{Meaning, Row, value}
use chili_db.Binder.Grouping.Grouped.{SameGroup}

abbrev same_float : ℕ → ℕ → Bool
same_float x y = x == y

abbrev column_at : ℕ → Expr ℕ
column_at i = expr int32 false (ExprKind.column (record { relation = 0; column_index = i }))

abbrev count_star : Expr ℕ
count_star = expr int64 false (ExprKind.aggregate count nil false absent)

abbrev id_and_count : Expr ℕ
id_and_count = expr int64 false (ExprKind.binary add (column_at 0) count_star)

abbrev by_id : List (Expr ℕ)
by_id = column_at 0 ∷ []

abbrev meaning : Meaning ℕ ℕ
meaning = record {
  literal = λ s. 0;
  unary = λ t op v. v;
  binary = λ t op v w. v + w;
  cast = λ t v. v;
  is_null = λ b v. v;
  window = λ w d f args filter partition order. 0;
}

-- The rows differ in the second column.
abbrev this_row : Row ℕ ℕ
this_row = record { column = λ c. c.column_index; aggregate = λ a es d f. 2 }

abbrev other_row : Row ℕ ℕ
other_row = record { column = λ c. if 0 == c.column_index then 0 else 9; aggregate = λ a es d f. 2 }

has_aggregate : contains_aggregate id_and_count ≡ true
unfolding contains_aggregate
has_aggregate = refl

not_grouped : validate_grouped same_float by_id (column_at 1) ≡ err ungrouped_column
unfolding validate_grouped expr_eq
not_grouped = refl

same_id :
    (e : Expr ℕ)
    → is_group same_float by_id e ≡ true
    → value meaning this_row e ≡ value meaning other_row e
unfolding expr_eq value
same_id (expr t n (ExprKind.column c)) h = ground arith
same_id (expr t n (ExprKind.literal s)) h = ground arith
same_id (expr t n (ExprKind.unary op e)) h = ground arith
same_id (expr t n (ExprKind.binary op l r)) h = ground arith
same_id (expr t n (ExprKind.cast e)) h = ground arith
same_id (expr t n (ExprKind.is_null e b)) h = ground arith
same_id (expr t n (ExprKind.aggregate a es d f)) h = ground arith
same_id (expr t n (ExprKind.window w es d f ps os fr)) h = ground arith

abbrev one_group : SameGroup same_float by_id meaning this_row other_row
one_group = record { keys = same_id; aggregates = λ a es d f. refl }
