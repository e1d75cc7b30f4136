-- ===== src/Binder/Expression/Tests.antt =====
-- Names and expressions bound in a query over two tables.
use chili_db.Prelude.{ℕ, ◌≡◌, refl, true, false, [], ◌∷◌, none, some, ok, err, ◌>>=◌}
use mathlib.Core.List.{reverse}
use chili_db.Bytes.{Bytes}
use chili_db.Parser.Ast
use chili_db.Binder.Types.{int32, int64, uint32, text}
use chili_db.Binder.Ast.{
  negsuc, Scalar, sum, expr, ExprKind, nil, cons, absent, BindError, ambiguous_column,
  unknown_column,
}
use chili_db.Binder.Context.{BindContext, column_expr, resolve_column}
use chili_db.Binder.Context.Resolution.{decided, resolve_column-decided}
use chili_db.Binder.Number.{Floats, number, valid_number, is_fractional, digits_value}
use chili_db.Binder.Coercion.{cast}
use chili_db.Binder.Call.{sum_name}
use chili_db.Binder.Expression.{bind_expr, bind_expr_inner}
use chili_db.Binder.Expression.Typing.{Sound, IsTyped}
use chili_db.Binder.Expression.Typed.{bind_expr_inner-IsTyped}

abbrev no_floats : Floats
no_floats = record { Float = ℕ; parse = λ s. none; is_finite = λ x. true; negate = λ x. x }

-- Table `t` with the columns `id` and `v`, and table `u` with `id`.
abbrev id : Bytes
id = 105 ∷ 100 ∷ []

abbrev v : Bytes
v = 118 ∷ []

abbrev t : Bytes
t = 116 ∷ []

abbrev u : Bytes
u = 117 ∷ []

abbrev query : BindContext
query = record {
  scopes =
      (record {
        relations =
            (record {
              name = t;
              table = record {
                relation = 0;
                schema = record {
                  name = t;
                  columns =
                      (record { name = id; data_type = int32; nullable = false })
                      ∷ (record { name = v; data_type = uint32; nullable = true })
                      ∷ [];
                };
              };
            })
            ∷ (record {
              name = u;
              table = record {
                relation = 1;
                schema = record {
                  name = u;
                  columns = (record { name = id; data_type = text; nullable = false }) ∷ [];
                };
              };
            })
            ∷ [];
      })
      ∷ [];
}

id_ambiguous : bind_expr no_floats query (Ast.identifier id) ≡ err (ambiguous_column none id)
unfolding bind_expr resolve_column
id_ambiguous = refl

id_missing :
    bind_expr no_floats query (Ast.qualified_identifier u v) ≡ err (unknown_column (some u) v)
unfolding bind_expr resolve_column
id_missing = refl

-- -9223372036854775808 is a number, though its digits alone are not.
abbrev min_digits : Bytes
min_digits =
    57 ∷ 50 ∷ 50 ∷ 51 ∷ 51 ∷ 55 ∷ 50 ∷ 48 ∷ 51 ∷ 54 ∷ 56 ∷ 53 ∷ 52 ∷ 55 ∷ 55 ∷ 53 ∷ 56 ∷ 48 ∷ 56
    ∷ []

min_signed :
    bind_expr no_floats query (Ast.unary Ast.minus (Ast.literal (Ast.number min_digits)))
    ≡ ok (expr int64 false (ExprKind.literal (Scalar.int64 (negsuc 9223372036854775807))))
unfolding bind_expr number valid_number is_fractional digits_value
min_signed = refl

min_unsigned :
    bind_expr no_floats query (Ast.literal (Ast.number min_digits))
    ≡ err (BindError.invalid_number false min_digits)
unfolding bind_expr number valid_number is_fractional digits_value
min_unsigned = refl

-- SUM(-v): the unsigned column is widened before its sign changes.
abbrev sum_of_minus : Ast.Expr
sum_of_minus =
    Ast.function_call sum_name (Ast.cons (Ast.unary Ast.minus (Ast.identifier v)) Ast.nil) false
      Ast.absent Ast.no_window

sum_typed :
    bind_expr_inner no_floats query 0 true false sum_of_minus
    ≡ ok (
        expr int64 true (
          ExprKind.aggregate sum
            (cons
              (expr int64 true (
                ExprKind.unary Ast.minus (
                  expr int64 true (
                    ExprKind.cast (
                      expr uint32 true
                        (ExprKind.column (record { relation = 0; column_index = 1 })))))))
              nil)
            false
            absent))
unfolding bind_expr bind_expr_inner resolve_column cast
sum_typed = refl

resolve_column-decided_example :
    resolve_column {F = ℕ} query (some u) id
    ≡ (decided (some u) id (reverse query.scopes) >>= λ f. ok (column_expr f))
resolve_column-decided_example = resolve_column-decided {F = ℕ} query (some u) id

bind_expr_inner-IsTyped_example :
    Sound (IsTyped query) (bind_expr_inner no_floats query 0 true false sum_of_minus)
bind_expr_inner-IsTyped_example = bind_expr_inner-IsTyped no_floats query 0 true false sum_of_minus
