-- ===== src/Binder/Call.antt =====
-- Calls (crates/binder/src/aggregate.rs): `bind_call` on its bound parts.
use chili_db.Prelude.{
  ℕ, suc, Bool, true, false, not, ◌&&◌, ◌||◌, [], ◌∷◌, Option, none, some, ok, err, panic, ◌>>=◌,
  ◌>>◌, ◌==◌, if◌then◌else◌, guard,
}
use chili_db.Bytes.{Bytes, bytes_eq}
use chili_db.Parser.Ast
use chili_db.Parser.Ast.{
  UnaryOp, not_op, plus, minus, BinaryOp, or_op, and_op, eq, not_eq, less, less_eq, greater,
  greater_eq, add, subtract, multiply, divide, modulo,
}
use chili_db.Binder.Types.{LogicalType, int64, float64, text}
use chili_db.Binder.Ast.{
  AggregateFunction, count, sum, avg, min, max, WindowFunction, aggregate, row_number, rank,
  dense_rank, Expr, expr, ExprKind, Exprs, nil, cons, MaybeExpr, Orders, type_of, nullable,
  aggregate_clause, window_not_allowed, window_distinct, ranking_without_over,
  aggregate_not_allowed, aggregate_arguments, ranking_arguments, unknown_function, invalid_function,
  R, WindowFrame,
}
use chili_db.Binder.Number.{Floats}
use chili_db.Binder.Coercion.{is_null_type, is_float, require_numeric, cast}
use chili_db.Binder.Frame.{frame}

abbrev pub count_name : Bytes
count_name = 99 ∷ 111 ∷ 117 ∷ 110 ∷ 116 ∷ []

abbrev pub sum_name : Bytes
sum_name = 115 ∷ 117 ∷ 109 ∷ []

abbrev pub avg_name : Bytes
avg_name = 97 ∷ 118 ∷ 103 ∷ []

abbrev pub min_name : Bytes
min_name = 109 ∷ 105 ∷ 110 ∷ []

abbrev pub max_name : Bytes
max_name = 109 ∷ 97 ∷ 120 ∷ []

abbrev pub row_number_name : Bytes
row_number_name = 114 ∷ 111 ∷ 119 ∷ 95 ∷ 110 ∷ 117 ∷ 109 ∷ 98 ∷ 101 ∷ 114 ∷ []

abbrev pub rank_name : Bytes
rank_name = 114 ∷ 97 ∷ 110 ∷ 107 ∷ []

abbrev pub dense_rank_name : Bytes
dense_rank_name = 100 ∷ 101 ∷ 110 ∷ 115 ∷ 101 ∷ 95 ∷ 114 ∷ 97 ∷ 110 ∷ 107 ∷ []

-- `match name`
abbrev pub function_of : Bytes → Option WindowFunction
function_of name =
    if bytes_eq name count_name
    then some (aggregate count)
    else (if bytes_eq name sum_name
        then some (aggregate sum)
        else (if bytes_eq name avg_name
            then some (aggregate avg)
            else (if bytes_eq name min_name
                then some (aggregate min)
                else (if bytes_eq name max_name
                    then some (aggregate max)
                    else (if bytes_eq name row_number_name
                        then some row_number
                        else (if bytes_eq name rank_name
                            then some rank
                            else (if bytes_eq name dense_rank_name
                                then some dense_rank
                                else none)))))))

abbrev pub is_aggregate : WindowFunction → Bool
is_aggregate (aggregate a) = true
is_aggregate row_number = false
is_aggregate rank = false
is_aggregate dense_rank = false

abbrev pub is_count : AggregateFunction → Bool
is_count count = true
is_count sum = false
is_count avg = false
is_count min = false
is_count max = false

abbrev pub is_avg : AggregateFunction → Bool
is_avg avg = true
is_avg count = false
is_avg sum = false
is_avg min = false
is_avg max = false

-- Where the call stands: with or without OVER.
abbrev pub check_place : WindowFunction → (over distinct aggregates windows : Bool) → R (Unit {0})
check_place function true distinct aggregates windows =
    guard windows (invalid_function window_not_allowed)
    >> guard (not distinct) (invalid_function window_distinct)
check_place function false distinct aggregates windows =
    guard (is_aggregate function) (invalid_function ranking_without_over)
    >> guard aggregates (invalid_function aggregate_not_allowed)

abbrev pub arity : Ast.Exprs → ℕ
arity Ast.nil = 0
arity (Ast.cons e es) = suc (arity es)

abbrev pub is_wildcard : Ast.Expr → Bool
is_wildcard Ast.wildcard = true
is_wildcard (Ast.identifier n) = false
is_wildcard (Ast.qualified_identifier t c) = false
is_wildcard (Ast.alias e n) = false
is_wildcard (Ast.function_call n es d f o) = false
is_wildcard (Ast.literal l) = false
is_wildcard (Ast.unary op e) = false
is_wildcard (Ast.binary l op r) = false
is_wildcard (Ast.is_null e n) = false

-- `matches!(args, [p::Expr::Wildcard])`
abbrev pub is_star : Ast.Exprs → Bool
is_star Ast.nil = false
is_star (Ast.cons e Ast.nil) = is_wildcard e
is_star (Ast.cons e (Ast.cons e' es)) = false

abbrev pub has_filter : Ast.MaybeExpr → Bool
has_filter Ast.absent = false
has_filter (Ast.present e) = true

abbrev pub has_window : Ast.MaybeWindow → Bool
has_window Ast.no_window = false
has_window (Ast.window ps os f) = true

abbrev pub check_arguments :
    WindowFunction → (count : ℕ) → (star distinct filter : Bool) → R (Unit {0})
check_arguments (aggregate a) n star distinct filter =
    guard (not (not (n == 1) || (star && not (is_count a)) || (star && distinct)))
      (invalid_function aggregate_arguments)
check_arguments row_number n star distinct filter =
    guard (not (not (n == 0) || distinct || filter)) (invalid_function ranking_arguments)
check_arguments rank n star distinct filter =
    guard (not (not (n == 0) || distinct || filter)) (invalid_function ranking_arguments)
check_arguments dense_rank n star distinct filter =
    guard (not (not (n == 0) || distinct || filter)) (invalid_function ranking_arguments)

module _ (floats : Floats) where
  open floats use {Float}

  -- The result type, whether it may be null, and the arguments.
  abbrev pub Signature : Type 0
  Signature = LogicalType × Bool × Exprs Float

  abbrev pub cast_argument : Expr Float → LogicalType → Signature
  cast_argument arg target = (target, true, cons (cast arg target) nil)

  abbrev pub sum_type : AggregateFunction → LogicalType → LogicalType
  sum_type a t = if is_avg a || is_float t then float64 else int64

  abbrev pub extreme_type : LogicalType → LogicalType
  extreme_type t = if is_null_type t then text else t

  abbrev pub over_argument : AggregateFunction → Expr Float → R Signature
  over_argument sum arg =
      require_numeric (type_of arg) false aggregate_clause
      >> ok (cast_argument arg (sum_type sum (type_of arg)))
  over_argument avg arg =
      require_numeric (type_of arg) false aggregate_clause
      >> ok (cast_argument arg (sum_type avg (type_of arg)))
  over_argument min arg = ok (cast_argument arg (extreme_type (type_of arg)))
  over_argument max arg = ok (cast_argument arg (extreme_type (type_of arg)))
  over_argument count arg = panic

  -- `args.remove(0)` panics if there is none.
  abbrev pub first_argument : AggregateFunction → Exprs Float → R Signature
  first_argument a nil = panic
  first_argument a (cons arg rest) = over_argument a arg

  abbrev pub signature : WindowFunction → Exprs Float → R Signature
  signature row_number args = ok (int64, false, args)
  signature rank args = ok (int64, false, args)
  signature dense_rank args = ok (int64, false, args)
  signature (aggregate count) args = ok (int64, false, args)
  signature (aggregate sum) args = first_argument sum args
  signature (aggregate avg) args = first_argument avg args
  signature (aggregate min) args = first_argument min args
  signature (aggregate max) args = first_argument max args

  -- The bound window specification: nothing, or partition, order and frame.
  pub data Over : Type 0 where
    no_over : Over
    windowed : Exprs Float → Orders Float → WindowFrame → Over

  abbrev pub call_kind :
      WindowFunction → Exprs Float → Bool → MaybeExpr Float → Over → R (ExprKind Float)
  call_kind function args distinct filter (windowed partition order frame) =
      ok (ExprKind.window function args distinct filter partition order frame)
  call_kind (aggregate a) args distinct filter no_over =
      ok (ExprKind.aggregate a args distinct filter)
  call_kind row_number args distinct filter no_over = panic
  call_kind rank args distinct filter no_over = panic
  call_kind dense_rank args distinct filter no_over = panic

  abbrev pub call_expr : WindowFunction → Bool → MaybeExpr Float → Over → Signature → R (Expr Float)
  call_expr function distinct filter spec (data_type, nullable, args) =
      call_kind function args distinct filter spec >>= λ kind. ok (expr data_type nullable kind)

  -- `bind_call`, after the name is looked up, on the bound parts. A part is looked at in the order
  -- of the source.
  abbrev pub call_parts :
      WindowFunction
      → (distinct : Bool) → R (Exprs Float)
      → R (MaybeExpr Float)
      → R Over
      → R (Expr Float)
  call_parts function distinct args filter spec = args >>= λ args'. filter >>= λ filter'.
      signature function args' >>= λ typed.
      spec >>= λ spec'. call_expr function distinct filter' spec' typed

  -- COUNT(*) has no bound argument.
  abbrev pub arguments : Bool → R (Exprs Float) → R (Exprs Float)
  arguments true args = ok nil
  arguments false args = args

  abbrev pub call_of :
      Option WindowFunction
      → (name : Bytes) (count : ℕ) (star distinct filtered over aggregates windows : Bool)
      → R (Exprs Float)
      → R (MaybeExpr Float)
      → R Over
      → R (Expr Float)
  call_of none name n star distinct filtered over aggregates windows args filter spec =
      err (unknown_function name)
  call_of (some function) name n star distinct filtered over aggregates windows args filter spec =
      check_place function over distinct aggregates windows
      >> (check_arguments function n star distinct filtered
          >> call_parts function distinct (arguments star args) filter spec)
