-- ===== src/Binder/Expression/Typed.antt =====
-- Binding keeps types: what `bind_expr_inner` answers has the type and the nullability it carries.
use chili_db.Prelude.{
  ℕ, suc, ◌≡◌, Bool, true, false, Option, ok, err, panic, ltb, refl, ap, inl, inr, none, some,
  ◌>>=◌, leb, List, [], ◌∷◌, Bool-cases,
}
use mathlib.Core.List.{reverse}
use chili_db.Bytes.{Bytes}
use chili_db.Parser.Ast.{
  UnaryOp, not_op, plus, minus, BinaryOp, or_op, and_op, eq, not_eq, less, less_eq, greater,
  greater_eq, add, subtract, multiply, divide, modulo, FrameUnits, range,
}
use chili_db.Binder.Types.{boolean}
use chili_db.Binder.Ast.{
  Expr, expr, ExprKind, Exprs, cons, present, Orders, ordered, nullable, R, BindError,
  filter_clause, ambiguous_column, unknown_column,
}
use chili_db.Binder.Context.{BindContext, Found, resolve_column, column_expr, Scope}
use chili_db.Binder.Context.Resolution.{
  decided, resolve_column-decided, the_match, relations_named, matches,
}
use chili_db.Binder.Number.{Floats, negated}
use chili_db.Binder.Coercion.{as_boolean}
use chili_db.Binder.Frame.{frame, null_order}
use chili_db.Binder.Operator.{binary_operands, binary_expr, literal, minus_number}
use chili_db.Binder.Expression.Typing.{
  Sound, FrameTyped, IsTyped, KindTyped, AllTyped, FilterTyped, OrdersTyped,
}
use chili_db.Binder.Expression.Parts.{Sound-bind, Has, as_boolean-Has}
use chili_db.Parser.Ast
use chili_db.Binder.Call.{windowed, function_of, arity, is_star, has_filter, has_window}
use chili_db.Binder.Expression.{
  too_deep, is_ordered, bind_expr_inner, bind_exprs, bind_filter, bind_window, bind_orders,
}
use chili_db.Binder.Expression.Operands.{number-IsTyped, unary_of-IsTyped, binary-IsTyped}
use chili_db.Binder.Expression.Frames.{frame-FrameTyped}
use chili_db.Binder.Expression.Calls.{Bound, OverTyped, call_of-IsTyped}

-- Resolution does not panic.
the_match_answers :
    (ambiguous unknown : BindError) (n : ℕ) (outer : R Found) (ms : List Found)
    → Sound (λ f. Unit {0}) outer
    → Sound (λ f. Unit {0}) (the_match ambiguous unknown n outer ms)
the_match_answers ambiguous unknown n outer [] h = elim (Bool-cases (ltb 0 n)) [
  | inl is ↦ rw is tt
  | inr not_so ↦ rw not_so h
]
the_match_answers ambiguous unknown n outer (m ∷ []) h = tt
the_match_answers ambiguous unknown n outer (m ∷ m' ∷ ms) h = tt

decided_answers :
    (qualifier : Option Bytes) (name : Bytes) (ss : List Scope)
    → Sound (λ f. Unit {0}) (decided qualifier name ss)
decided_answers qualifier name [] = tt
decided_answers qualifier name (s ∷ ss) =
    elim (Bool-cases (ltb 1 (relations_named qualifier s.relations))) [
      | inl many ↦ rw many tt
      | inr few ↦ rw few (
          the_match_answers (ambiguous_column qualifier name) (unknown_column qualifier name)
            (relations_named qualifier s.relations) (decided qualifier name ss)
            (matches qualifier name s.relations) (decided_answers qualifier name ss))
    ]

-- The answer with the equation that it comes from.
Sound-self : {A : Type 0} (r : R A) → Sound (λ a. Unit {0}) r → Sound (λ a. r ≡ ok a) r
Sound-self (ok a) h = refl
Sound-self (err e) h = tt
Sound-self panic h = h

module _ (floats : Floats) (context : BindContext) where
  open floats use {Float}

  resolve_column-IsTyped :
      (qualifier : Option Bytes) (name : Bytes)
      → Sound (IsTyped context) (resolve_column {F = Float} context qualifier name)
  unfolding IsTyped KindTyped
  resolve_column-IsTyped qualifier name =
      rw (resolve_column-decided {F = Float} context qualifier name) (
        Sound-bind (λ f. decided qualifier name (reverse context.scopes) ≡ ok f)
          (IsTyped {F = Float} context) (decided qualifier name (reverse context.scopes))
          (λ f. ok (column_expr f))
          (Sound-self (decided qualifier name (reverse context.scopes))
            (decided_answers qualifier name (reverse context.scopes)))
          (λ f h. (qualifier, name, f, h, refl, refl, refl)))

  literal-IsTyped : (l : Ast.Literal) → Sound (IsTyped context) (literal floats l)
  unfolding IsTyped KindTyped
  literal-IsTyped Ast.null = (refl, refl)
  literal-IsTyped (Ast.boolean b) = (refl, refl)
  literal-IsTyped (Ast.string s) = (refl, refl)
  literal-IsTyped (Ast.number s) = number-IsTyped floats context s false

  not_too_deep :
      (depth : ℕ) (r : R (Expr Float))
      → Sound (IsTyped context) r
      → Sound (IsTyped context) (too_deep floats depth r)
  not_too_deep depth r h = elim (Bool-cases (leb 256 depth)) [
    | inl deep ↦ rw deep tt
    | inr fine ↦ rw fine h
  ]

  is_null-IsTyped :
      (r : R (Expr Float)) (negated : Bool)
      → Sound (IsTyped context) r
      → Sound (IsTyped context) (r >>= λ e. ok (expr boolean false (ExprKind.is_null e negated)))
  unfolding IsTyped KindTyped
  is_null-IsTyped r negated h =
      Sound-bind (IsTyped context) (IsTyped context) r
        (λ e. ok (expr boolean false (ExprKind.is_null e negated))) h
        (λ e typed. (typed, refl, refl))

  both-IsTyped :
      (op : BinaryOp) (left right : R (Expr Float))
      → Sound (IsTyped context) left
      → Sound (IsTyped context) right
      → Sound (IsTyped context) (
          left >>= λ l.
          right >>= λ r. binary_operands floats op l r >>= λ o. ok (binary_expr floats op o))
  both-IsTyped op left right hl hr =
      Sound-bind (IsTyped context) (IsTyped context) left
        (λ l. right >>= λ r. binary_operands floats op l r >>= λ o. ok (binary_expr floats op o)) hl
        (λ l typed.
          Sound-bind (IsTyped context) (IsTyped context) right
            (λ r. binary_operands floats op l r >>= λ o. ok (binary_expr floats op o)) hr
            (λ r typed'. binary-IsTyped floats context l r typed typed' op))

  cons-Bound :
      (n : ℕ) (r : R (Expr Float)) (rest : R (Exprs Float))
      → Sound (IsTyped context) r
      → Sound (Bound floats context n) rest
      → Sound (Bound floats context (suc n)) (r >>= λ e. rest >>= λ es. ok (cons e es))
  unfolding AllTyped
  cons-Bound n r rest h k =
      Sound-bind (IsTyped context) (Bound floats context (suc n)) r
        (λ e. rest >>= λ es. ok (cons e es)) h
        (λ e typed.
          Sound-bind (Bound floats context n) (Bound floats context (suc n)) rest
            (λ es. ok (cons e es)) k (λ es (all, same). ((typed, all), ap suc same)))

  present-FilterTyped :
      (r : R (Expr Float))
      → Sound (IsTyped context) r
      → Sound
          (FilterTyped context)
          (r >>= λ e. as_boolean e filter_clause >>= λ e'. ok (present e'))
  unfolding FilterTyped
  present-FilterTyped r h =
      Sound-bind (IsTyped context) (FilterTyped context) r
        (λ e. as_boolean e filter_clause >>= λ e'. ok (present e')) h
        (λ e typed.
          Sound-bind (Has context boolean (nullable e)) (FilterTyped context)
            (as_boolean e filter_clause) (λ e'. ok (present e'))
            (as_boolean-Has context e filter_clause typed) (λ e' (typed', is, same). (typed', is)))

  window-OverTyped :
      (n : ℕ) (partition : R (Exprs Float)) (order : R (Orders Float)) (f : Option Ast.WindowFrame)
      (sorted : Bool)
      → Sound (Bound floats context n) partition
      → Sound (OrdersTyped context) order
      → Sound
          (OverTyped floats context true)
          (partition >>= λ p. order >>= λ o. frame f sorted >>= λ f'. ok (windowed p o f'))
  window-OverTyped n partition order f sorted hp ho =
      Sound-bind (Bound floats context n) (OverTyped floats context true) partition
        (λ p. order >>= λ o. frame f sorted >>= λ f'. ok (windowed p o f')) hp
        (λ p (all, same).
          Sound-bind (OrdersTyped context) (OverTyped floats context true) order
            (λ o. frame f sorted >>= λ f'. ok (windowed p o f')) ho
            (λ o typed.
              Sound-bind FrameTyped (OverTyped floats context true) (frame f sorted)
                (λ f'. ok (windowed p o f')) (frame-FrameTyped f sorted)
                (λ f' framed. (all, typed, framed))))

  ordered-OrdersTyped :
      (r : R (Expr Float)) (direction : Ast.SortDirection) (nulls : Ast.NullOrder)
      (rest : R (Orders Float))
      → Sound (IsTyped context) r
      → Sound (OrdersTyped context) rest
      → Sound (OrdersTyped context) (r >>= λ e. rest >>= λ os. ok (ordered e direction nulls os))
  unfolding OrdersTyped
  ordered-OrdersTyped r direction nulls rest h k =
      Sound-bind (IsTyped context) (OrdersTyped context) r
        (λ e. rest >>= λ os. ok (ordered e direction nulls os)) h
        (λ e typed.
          Sound-bind (OrdersTyped context) (OrdersTyped context) rest
            (λ os. ok (ordered e direction nulls os)) k (λ os all. (typed, all)))

  mutual
    unfolding bind_expr_inner bind_exprs bind_filter bind_window bind_orders AllTyped FilterTyped
        OrdersTyped

    inner :
        (depth : ℕ) (aggregates windows : Bool) (e : Ast.Expr)
        → Sound (IsTyped context) (bind_expr_inner floats context depth aggregates windows e)
    inner depth aggregates windows (Ast.alias e n) = not_too_deep depth _ tt
    inner depth aggregates windows (Ast.function_call name args distinct filter over) =
        not_too_deep depth _ (
          call_of-IsTyped floats context (function_of name) name (arity args) (is_star args)
            distinct (has_filter filter) (has_window over) aggregates windows
            (bind_exprs floats context (suc depth) (has_window over) args)
            (bind_filter floats context (suc depth) (has_window over) filter)
            (bind_window floats context (suc depth) over)
            (inner_exprs (suc depth) (has_window over) args)
            (inner_filter (suc depth) (has_window over) filter) (inner_window (suc depth) over))
    inner depth aggregates windows (Ast.identifier name) =
        not_too_deep depth _ (resolve_column-IsTyped none name)
    inner depth aggregates windows (Ast.qualified_identifier table column) =
        not_too_deep depth _ (resolve_column-IsTyped (some table) column)
    inner depth aggregates windows Ast.wildcard = not_too_deep depth _ tt
    inner depth aggregates windows (Ast.literal l) = not_too_deep depth _ (literal-IsTyped l)
    inner depth aggregates windows (Ast.unary op e) = not_too_deep depth _ (
        unary_of-IsTyped floats context op (minus_number floats op e)
          (bind_expr_inner floats context (suc depth) aggregates windows e)
          (inner (suc depth) aggregates windows e))
    inner depth aggregates windows (Ast.binary left op right) = not_too_deep depth _ (
        both-IsTyped op (bind_expr_inner floats context (suc depth) aggregates windows left)
          (bind_expr_inner floats context (suc depth) aggregates windows right)
          (inner (suc depth) aggregates windows left) (inner (suc depth) aggregates windows right))
    inner depth aggregates windows (Ast.is_null e negated) = not_too_deep depth _ (
        is_null-IsTyped (bind_expr_inner floats context (suc depth) aggregates windows e) negated
          (inner (suc depth) aggregates windows e))

    inner_exprs :
        (depth : ℕ) (over : Bool) (es : Ast.Exprs)
        → Sound (Bound floats context (arity es)) (bind_exprs floats context depth over es)
    inner_exprs depth over Ast.nil = (tt, refl)
    inner_exprs depth over (Ast.cons e es) =
        cons-Bound (arity es) (bind_expr_inner floats context depth over false e)
          (bind_exprs floats context depth over es) (inner depth over false e)
          (inner_exprs depth over es)

    inner_filter :
        (depth : ℕ) (over : Bool) (f : Ast.MaybeExpr)
        → Sound (FilterTyped context) (bind_filter floats context depth over f)
    inner_filter depth over Ast.absent = tt
    inner_filter depth over (Ast.present e) =
        present-FilterTyped (bind_expr_inner floats context depth over false e)
          (inner depth over false e)

    inner_window :
        (depth : ℕ) (w : Ast.MaybeWindow)
        → Sound (OverTyped floats context (has_window w)) (bind_window floats context depth w)
    inner_window depth Ast.no_window = tt
    inner_window depth (Ast.window partition order f) =
        window-OverTyped (arity partition) (bind_exprs floats context depth true partition)
          (bind_orders floats context depth order) f (is_ordered floats order)
          (inner_exprs depth true partition) (inner_orders depth order)

    inner_orders :
        (depth : ℕ) (os : Ast.Orders)
        → Sound (OrdersTyped context) (bind_orders floats context depth os)
    inner_orders depth Ast.unordered = tt
    inner_orders depth (Ast.ordered e direction nulls rest) =
        ordered-OrdersTyped (bind_expr_inner floats context depth true false e) direction
          (null_order direction nulls) (bind_orders floats context depth rest)
          (inner depth true false e) (inner_orders depth rest)

  -- Binding an expression, at any depth and whether aggregates and windows are allowed or not, never
  -- panics, and a bound expression is well typed throughout: literals fit their types, a column has
  -- its declared type, casts are between castable types, the operands of an operator have the types
  -- it wants, the arguments and the result of a function fit its signature, filters are Boolean,
  -- frames are in order, and the nullability is that of the parts.
  pub bind_expr_inner-IsTyped :
      (depth : ℕ) (aggregates windows : Bool) (e : Ast.Expr)
      → Sound (IsTyped context) (bind_expr_inner floats context depth aggregates windows e)
  bind_expr_inner-IsTyped depth aggregates windows e = inner depth aggregates windows e
