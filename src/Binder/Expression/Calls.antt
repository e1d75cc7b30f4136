-- ===== src/Binder/Expression/Calls.antt =====
-- Calls of built-in functions keep types: signatures, arguments and window frames.
use chili_db.Prelude.{
  ℕ, ◌≡◌, Bool, true, false, not, ◌&&◌, Option, ok, err, panic, refl, sym, subst, none, some, ◌>>=◌,
  ◌>>◌, arith,
}
use chili_db.Bytes.{Bytes}
use chili_db.Binder.Types.{LogicalType}
use chili_db.Binder.Ast.{
  count, sum, avg, min, max, WindowFunction, aggregate, row_number, rank, dense_rank, expr, Exprs,
  nil, cons, MaybeExpr, R,
}
use chili_db.Binder.Context.{BindContext}
use chili_db.Binder.Number.{Floats}
use chili_db.Binder.Call.{
  Signature, is_aggregate, is_count, check_place, check_arguments, signature, Over, no_over,
  windowed, call_kind, call_expr, call_parts, arguments, call_of,
}
use chili_db.Binder.Expression.Typing.{
  Sound, FrameTyped, AtMostOne, NoArgument, IsTyped, KindTyped, AllTyped, FilterTyped, OrdersTyped,
}
use chili_db.Binder.Expression.Parts.{Sound-bind}
use chili_db.Binder.Expression.Signatures.{
  width, Single, Fit, TypedSignature, signature-TypedSignature,
}

module _ (floats : Floats) (context : BindContext) where
  open floats use {Float}

  -- A window specification that stands where there is one.
  abbrev pub OverTyped : Bool → Over floats → Type 0
  OverTyped true (windowed partition order f) =
      AllTyped context partition × OrdersTyped context order × FrameTyped f
  OverTyped true no_over = ⊥
  OverTyped false no_over = Unit
  OverTyped false (windowed partition order f) = ⊥

  -- The place of the call has been checked.
  abbrev Placed : WindowFunction → (over distinct : Bool) → Type 0
  Placed w true distinct = distinct ≡ false
  Placed w false distinct = is_aggregate w ≡ true

  check_place-Placed :
      (w : WindowFunction) (over distinct aggregates windows : Bool)
      → Sound (λ done. Placed w over distinct) (check_place w over distinct aggregates windows)
  check_place-Placed w true true aggregates true = tt
  check_place-Placed w true true aggregates false = tt
  check_place-Placed w true false aggregates true = refl
  check_place-Placed w true false aggregates false = tt
  check_place-Placed (aggregate a) false distinct true windows = refl
  check_place-Placed (aggregate a) false distinct false windows = tt
  check_place-Placed row_number false distinct aggregates windows = tt
  check_place-Placed rank false distinct aggregates windows = tt
  check_place-Placed dense_rank false distinct aggregates windows = tt

  -- The number of arguments fits, and `*` is for COUNT.
  abbrev Counted : WindowFunction → ℕ → Bool → Type 0
  Counted row_number n star = n ≡ 0
  Counted rank n star = n ≡ 0
  Counted dense_rank n star = n ≡ 0
  Counted (aggregate a) n star = (n ≡ 1) × ((star && not (is_count a)) ≡ false)

  check_arguments-Counted :
      (w : WindowFunction) (n : ℕ) (star distinct filter : Bool)
      → Sound (λ done. Counted w n star) (check_arguments w n star distinct filter)
  check_arguments-Counted (aggregate a) n star distinct filter = ground arith
  check_arguments-Counted row_number n star distinct filter = ground arith
  check_arguments-Counted rank n star distinct filter = ground arith
  check_arguments-Counted dense_rank n star distinct filter = ground arith

  one_wide : (es : Exprs Float) → width floats context es ≡ 1 → Single floats context es
  one_wide nil h = absurd (omega arith)
  one_wide (cons e nil) h = tt
  one_wide (cons e (cons e' es)) h = absurd (omega arith)

  none_wide : (es : Exprs Float) → width floats context es ≡ 0 → NoArgument es
  none_wide nil h = tt
  none_wide (cons e es) h = absurd (omega arith)

  at_most : (es : Exprs Float) → Single floats context es → AtMostOne es
  at_most nil h = tt
  at_most (cons e nil) h = tt
  at_most (cons e (cons e' es)) h = h

  Counted-Fit :
      (w : WindowFunction) (es : Exprs Float)
      → Counted w (width floats context es) false
      → Fit floats context w es
  Counted-Fit row_number es h = none_wide es h
  Counted-Fit rank es h = none_wide es h
  Counted-Fit dense_rank es h = none_wide es h
  Counted-Fit (aggregate count) es (h, s) = at_most es (one_wide es h)
  Counted-Fit (aggregate sum) es (h, s) = one_wide es h
  Counted-Fit (aggregate avg) es (h, s) = one_wide es h
  Counted-Fit (aggregate min) es (h, s) = one_wide es h
  Counted-Fit (aggregate max) es (h, s) = one_wide es h

  star-Fit : (w : WindowFunction) (n : ℕ) → Counted w n true → Fit floats context w nil
  star-Fit row_number n h = tt
  star-Fit rank n h = tt
  star-Fit dense_rank n h = tt
  star-Fit (aggregate count) n h = tt
  star-Fit (aggregate sum) n (h, s) = cc
  star-Fit (aggregate avg) n (h, s) = cc
  star-Fit (aggregate min) n (h, s) = cc
  star-Fit (aggregate max) n (h, s) = cc

  -- The bound arguments: typed, and as many as were written.
  abbrev pub Bound : ℕ → Exprs Float → Type 0
  Bound n es = AllTyped context es × (width floats context es ≡ n)

  arguments-Fit :
      (w : WindowFunction) (n : ℕ) (star : Bool) (args : R (Exprs Float))
      → Counted w n star
      → Sound (Bound n) args
      → Sound (λ es. AllTyped context es × Fit floats context w es) (arguments floats star args)
  unfolding AllTyped
  arguments-Fit w n true args h bound = (tt, star-Fit w n h)
  arguments-Fit w n false (ok es) h (typed, same) =
      (typed, Counted-Fit w es (subst (λ i. Counted w i false) (sym same) h))
  arguments-Fit w n false (err e) h bound = tt
  arguments-Fit w n false panic h bound = bound

  call_kind-KindTyped :
      (w : WindowFunction) (over distinct : Bool) (filter : MaybeExpr Float) (spec : Over floats)
      (t : LogicalType) (null_result : Bool) (es : Exprs Float)
      → Placed w over distinct
      → FilterTyped context filter
      → OverTyped over spec
      → TypedSignature floats context w (t, null_result, es)
      → Sound (λ k. KindTyped context t null_result k) (call_kind floats w es distinct filter spec)
  unfolding KindTyped
  call_kind-KindTyped w true distinct filter no_over t b es place hf ho hs = absurd ho
  call_kind-KindTyped w true distinct filter (windowed p o f) t b es place hf (hp, hord, hfr)
        (ha, call) =
      (ha, hf, hp, hord, hfr, place, call)
  call_kind-KindTyped w false distinct filter (windowed p o f) t b es place hf ho hs = absurd ho
  call_kind-KindTyped (aggregate a) false distinct filter no_over t b es place hf ho (ha, call) =
      (ha, hf, call)
  call_kind-KindTyped row_number false distinct filter no_over t b es place hf ho hs = cc
  call_kind-KindTyped rank false distinct filter no_over t b es place hf ho hs = cc
  call_kind-KindTyped dense_rank false distinct filter no_over t b es place hf ho hs = cc

  call_expr-IsTyped :
      (w : WindowFunction) (over distinct : Bool) (filter : MaybeExpr Float) (spec : Over floats)
      (typed : Signature floats)
      → Placed w over distinct
      → FilterTyped context filter
      → OverTyped over spec
      → TypedSignature floats context w typed
      → Sound (IsTyped context) (call_expr floats w distinct filter spec typed)
  unfolding IsTyped
  call_expr-IsTyped w over distinct filter spec (t, b, es) place hf ho hs =
      Sound-bind (λ k. KindTyped context t b k) (IsTyped context)
        (call_kind floats w es distinct filter spec) (λ k. ok (expr t b k))
        (call_kind-KindTyped w over distinct filter spec t b es place hf ho hs) (λ k h. h)

  call_parts-IsTyped :
      (w : WindowFunction) (over distinct : Bool) (args : R (Exprs Float))
      (filter : R (MaybeExpr Float)) (spec : R (Over floats))
      → Placed w over distinct
      → Sound (λ es. AllTyped context es × Fit floats context w es) args
      → Sound (FilterTyped context) filter
      → Sound (OverTyped over) spec
      → Sound (IsTyped context) (call_parts floats w distinct args filter spec)
  call_parts-IsTyped w over distinct args filter spec place ha hf ho =
      Sound-bind (λ es. AllTyped context es × Fit floats context w es) (IsTyped context) args
        (λ es. filter >>= λ f.
          signature floats w es >>= λ typed. spec >>= λ o. call_expr floats w distinct f o typed)
        ha
        (λ es (typed, fit).
          Sound-bind (FilterTyped context) (IsTyped context) filter
            (λ f.
              signature floats w es >>= λ sig. spec >>= λ o. call_expr floats w distinct f o sig)
            hf
            (λ f filtered.
              Sound-bind (TypedSignature floats context w) (IsTyped context) (signature floats w es)
                (λ sig. spec >>= λ o. call_expr floats w distinct f o sig)
                (signature-TypedSignature floats context w es typed fit)
                (λ sig signed.
                  Sound-bind (OverTyped over) (IsTyped context) spec
                    (λ o. call_expr floats w distinct f o sig) ho
                    (λ o over_typed.
                      call_expr-IsTyped w over distinct f o sig place filtered over_typed signed))))

  pub call_of-IsTyped :
      (function : Option WindowFunction) (name : Bytes) (n : ℕ)
      (star distinct filtered over aggregates windows : Bool) (args : R (Exprs Float))
      (filter : R (MaybeExpr Float)) (spec : R (Over floats))
      → Sound (Bound n) args
      → Sound (FilterTyped context) filter
      → Sound (OverTyped over) spec
      → Sound (IsTyped context) (
          call_of floats function name n star distinct filtered over aggregates windows args filter
            spec)
  call_of-IsTyped none name n star distinct filtered over aggregates windows args filter spec ha hf
        ho =
      tt
  call_of-IsTyped (some w) name n star distinct filtered over aggregates windows args filter spec ha
        hf ho =
      Sound-bind (λ done. Placed w over distinct) (IsTyped context)
        (check_place w over distinct aggregates windows)
        (λ done.
          check_arguments w n star distinct filtered
          >> call_parts floats w distinct (arguments floats star args) filter spec)
        (check_place-Placed w over distinct aggregates windows)
        (λ done place.
          Sound-bind (λ done'. Counted w n star) (IsTyped context)
            (check_arguments w n star distinct filtered)
            (λ done'. call_parts floats w distinct (arguments floats star args) filter spec)
            (check_arguments-Counted w n star distinct filtered)
            (λ done' counted.
              call_parts-IsTyped w over distinct (arguments floats star args) filter spec place
                (arguments-Fit w n star args counted ha) hf ho))
