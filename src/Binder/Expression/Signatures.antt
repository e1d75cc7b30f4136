-- ===== src/Binder/Expression/Signatures.antt =====
-- The arguments and the result that the signature of a function gives a call.
use chili_db.Prelude.{ℕ, suc, ◌≡◌, true, false, ◌||◌, ok, refl, ◌>>◌, arith}
use chili_db.Binder.Types.{LogicalType, int64, float64}
use chili_db.Binder.Ast.{
  AggregateFunction, count, sum, avg, min, max, WindowFunction, aggregate, row_number, rank,
  dense_rank, Expr, Exprs, nil, cons, type_of, aggregate_clause,
}
use chili_db.Binder.Context.{BindContext}
use chili_db.Binder.Coercion.{type_eq, is_null_type, require_numeric, cast}
use chili_db.Binder.Number.{Floats}
use chili_db.Binder.Call.{
  Signature, cast_argument, sum_type, extreme_type, over_argument, is_count, first_argument,
  signature,
}
use chili_db.Binder.Expression.Typing.{
  Sound, castable, OneArgument, AtMostOne, NoArgument, CallTyped, IsTyped, AllTyped,
}
use chili_db.Binder.Expression.Parts.{Sound-bind, cast-IsTyped, usable, require_numeric-usable}

module _ (floats : Floats) (context : BindContext) where
  open floats use {Float}

  abbrev pub width : Exprs Float → ℕ
  width nil = 0
  width (cons e es) = suc (width es)

  abbrev pub Single : Exprs Float → Type 0
  Single nil = ⊥
  Single (cons e nil) = Unit
  Single (cons e (cons e' es)) = ⊥

  -- What the checks leave of the arguments.
  abbrev pub Fit : WindowFunction → Exprs Float → Type 0
  Fit row_number es = NoArgument es
  Fit rank es = NoArgument es
  Fit dense_rank es = NoArgument es
  Fit (aggregate count) es = AtMostOne es
  Fit (aggregate sum) es = Single es
  Fit (aggregate avg) es = Single es
  Fit (aggregate min) es = Single es
  Fit (aggregate max) es = Single es

  abbrev pub TypedSignature : WindowFunction → Signature floats → Type 0
  TypedSignature w (t, n, es) = AllTyped context es × CallTyped w t n es

  extreme_type-castable :
      (t : LogicalType)
      → (type_eq t (extreme_type floats t) || castable t (extreme_type floats t)) ≡ true
  extreme_type-castable t = ground arith

  extreme_type-known : (t : LogicalType) → is_null_type (extreme_type floats t) ≡ false
  extreme_type-known t = ground arith

  sum_type-castable :
      (a : AggregateFunction) (t : LogicalType)
      → usable t false ≡ true
      → (type_eq t (sum_type floats a t) || castable t (sum_type floats a t)) ≡ true
  sum_type-castable a t fits = ground arith

  sum_type-wide :
      (t : LogicalType)
      → (type_eq (sum_type floats sum t) int64 || type_eq (sum_type floats sum t) float64) ≡ true
  sum_type-wide t = ground arith

  -- The one argument of SUM, AVG, MIN or MAX, cast to the result type.
  cast_argument-One :
      (e : Expr Float) (t : LogicalType)
      → IsTyped context e
      → (type_eq (type_of e) t || castable (type_of e) t) ≡ true
      → AllTyped context (cons (cast e t) nil) × OneArgument t (cons (cast e t) nil)
  unfolding AllTyped
  cast_argument-One e t h casts =
      let (typed, is, n) = cast-IsTyped context e t h casts in ((typed, tt), is)

  summed :
      (a : AggregateFunction) (e : Expr Float)
      → IsTyped context e
      → (OneArgument
            (sum_type floats a (type_of e))
            (cons (cast e (sum_type floats a (type_of e))) nil)
          → CallTyped
              (aggregate a)
              (sum_type floats a (type_of e))
              true
              (cons (cast e (sum_type floats a (type_of e))) nil))
      → Sound (TypedSignature (aggregate a)) (
          require_numeric (type_of e) false aggregate_clause
          >> ok (cast_argument floats e (sum_type floats a (type_of e))))
  summed a e h call =
      Sound-bind (λ done. usable (type_of e) false ≡ true) (TypedSignature (aggregate a))
        (require_numeric (type_of e) false aggregate_clause)
        (λ done. ok (cast_argument floats e (sum_type floats a (type_of e))))
        (require_numeric-usable (type_of e) false aggregate_clause)
        (λ done fits.
          let (typed, is) =
            cast_argument-One e (sum_type floats a (type_of e)) h
              (sum_type-castable a (type_of e) fits) in
          (typed, call is))

  over_argument-TypedSignature :
      (a : AggregateFunction) (e : Expr Float)
      → IsTyped context e
      → is_count a ≡ false
      → Sound (TypedSignature (aggregate a)) (over_argument floats a e)
  over_argument-TypedSignature count e h no_count = cc
  over_argument-TypedSignature min e h no_count =
      let (typed, is) =
        cast_argument-One e (extreme_type floats (type_of e)) h
          (extreme_type-castable (type_of e)) in
      (typed, (is, refl, extreme_type-known (type_of e)))
  over_argument-TypedSignature max e h no_count =
      let (typed, is) =
        cast_argument-One e (extreme_type floats (type_of e)) h
          (extreme_type-castable (type_of e)) in
      (typed, (is, refl, extreme_type-known (type_of e)))
  over_argument-TypedSignature sum e h no_count =
      summed sum e h (λ is. (is, refl, sum_type-wide (type_of e)))
  over_argument-TypedSignature avg e h no_count = summed avg e h (λ is. (is, refl, refl))

  first_argument-TypedSignature :
      (a : AggregateFunction) (es : Exprs Float)
      → is_count a ≡ false
      → AllTyped context es
      → Single es
      → Sound (TypedSignature (aggregate a)) (first_argument floats a es)
  unfolding AllTyped
  first_argument-TypedSignature a nil no_count h one = one
  first_argument-TypedSignature a (cons e nil) no_count (h, rest) one =
      over_argument-TypedSignature a e h no_count
  first_argument-TypedSignature a (cons e (cons e' es)) no_count h one = absurd one

  pub signature-TypedSignature :
      (w : WindowFunction) (es : Exprs Float)
      → AllTyped context es
      → Fit w es
      → Sound (TypedSignature w) (signature floats w es)
  signature-TypedSignature row_number es h fit = (h, (refl, refl, fit))
  signature-TypedSignature rank es h fit = (h, (refl, refl, fit))
  signature-TypedSignature dense_rank es h fit = (h, (refl, refl, fit))
  signature-TypedSignature (aggregate count) es h fit = (h, (refl, refl, fit))
  signature-TypedSignature (aggregate sum) es h fit =
      first_argument-TypedSignature sum es refl h fit
  signature-TypedSignature (aggregate avg) es h fit =
      first_argument-TypedSignature avg es refl h fit
  signature-TypedSignature (aggregate min) es h fit =
      first_argument-TypedSignature min es refl h fit
  signature-TypedSignature (aggregate max) es h fit =
      first_argument-TypedSignature max es refl h fit
