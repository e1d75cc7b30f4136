-- ===== src/Binder/Grouping/Grouped.antt =====
-- An expression that `validate_grouped` accepts has one value in each group.
use chili_db.Prelude.{
  ◌≡◌, refl, ap, ap₂, Bool, true, false, ◌||◌, List, ◌∷◌, some, ok, err, panic, ◌>>◌,
}
use chili_db.Binder.Types.{LogicalType}
use chili_db.Binder.Ast.{
  AggregateFunction, Expr, expr, ExprKind, Exprs, nil, cons, MaybeExpr, absent, present, Orders,
  unordered, ordered, R,
}
use chili_db.Binder.Expression.Typing.{Sound}
use chili_db.Binder.Grouping.{
  is_aggregate, is_group, grouped_or, validate_grouped, validate_kind, validate_all,
  validate_filter, validate_orders,
}
use chili_db.Binder.Grouping.Evaluation.{
  Meaning, Row, value, kind_value, all_values, filter_value, order_values,
}

module _ {F V : Type 0} (float_eq : F → F → Bool) (groups : List (Expr F))
    (meaning : Meaning F V) where
  -- Two rows of one group: they agree on what equals a group key, and on aggregates.
  pub record SameGroup (r s : Row F V) : Type 0 where
    pub keys :
        (e : Expr F) → is_group float_eq groups e ≡ true → value meaning r e ≡ value meaning s e
    pub aggregates :
        (a : AggregateFunction) (es : Exprs F) (d : Bool) (f : MaybeExpr F)
        → r.aggregate a es d f ≡ s.aggregate a es d f

  module _ (r s : Row F V) (same : SameGroup r s) where
    -- What holds if both checks pass.
    both :
        {P Q S : Type 0} (a b : R (Unit {0}))
        → Sound (λ u. P) a
        → Sound (λ u. Q) b
        → (P → Q → S)
        → Sound (λ u. S) (a >> b)
    both (ok u) (ok v) p q k = k p q
    both (ok u) (err e) p q k = tt
    both (ok u) panic p q k = absurd q
    both (err e) b p q k = tt
    both panic b p q k = absurd p

    also : {P S : Type 0} (a : R (Unit {0})) → Sound (λ u. P) a → (P → S) → Sound (λ u. S) a
    also (ok u) p k = k p
    also (err e) p k = tt
    also panic p k = absurd p

    grouped :
        (t : LogicalType) (n : Bool) (k : ExprKind F) (group aggregates : Bool)
        → is_group float_eq groups (expr t n k) ≡ group
        → is_aggregate k ≡ aggregates
        → Sound
            (λ u. kind_value meaning r t k ≡ kind_value meaning s t k)
            (validate_kind float_eq groups k)
        → Sound
            (λ u. kind_value meaning r t k ≡ kind_value meaning s t k)
            (grouped_or float_eq (group || aggregates) (validate_kind float_eq groups k))
    unfolding value kind_value
    grouped t n k true aggregates key is inner = same.keys (expr t n k) key
    grouped t n k false false key is inner = inner
    grouped t n (ExprKind.aggregate a es d f) false true key is inner = same.aggregates a es d f
    grouped t n k false true key is inner = cc

    all_four :
        {A B C D S : Type 0} (a b c d : R (Unit {0}))
        → Sound (λ u. A) a
        → Sound (λ u. B) b
        → Sound (λ u. C) c
        → Sound (λ u. D) d
        → (A → B → C → D → S)
        → Sound (λ u. S) (a >> (b >> (c >> d)))
    all_four {B = B} {C = C} {D = D} a b c d p q x y k =
        both {Q = B × C × D} a (b >> (c >> d)) p
          (both {Q = C × D} b (c >> d) q (both c d x y (λ u v. (u, v))) (λ u v. (u, v.0, v.1)))
          (λ u v. k u v.0 v.1 v.2)

    windowed :
        {A B C D W : Type 0} (f : A → B → C → D → W) {a a' : A} {b b' : B} {c c' : C} {d d' : D}
        → a ≡ a'
        → b ≡ b'
        → c ≡ c'
        → d ≡ d'
        → f a b c d ≡ f a' b' c' d'
    windowed f a b c d = cc

    mutual
      unfolding value kind_value all_values filter_value order_values validate_grouped validate_kind
          validate_all validate_filter validate_orders

      one :
          (e : Expr F)
          → Sound (λ u. value meaning r e ≡ value meaning s e) (validate_grouped float_eq groups e)
      one (expr t n k) =
          grouped t n k (is_group float_eq groups (expr t n k)) (is_aggregate k) refl refl
            (of_kind t k)

      of_kind :
          (t : LogicalType) (k : ExprKind F)
          → Sound
              (λ u. kind_value meaning r t k ≡ kind_value meaning s t k)
              (validate_kind float_eq groups k)
      of_kind t (ExprKind.column c) = tt
      of_kind t (ExprKind.literal x) = refl
      of_kind t (ExprKind.aggregate a es d f) = same.aggregates a es d f
      of_kind t (ExprKind.unary op e) =
          also (validate_grouped float_eq groups e) (one e) (λ h. ap (meaning.unary t op) h)
      of_kind t (ExprKind.cast e) =
          also (validate_grouped float_eq groups e) (one e) (λ h. ap (meaning.cast t) h)
      of_kind t (ExprKind.is_null e b) =
          also (validate_grouped float_eq groups e) (one e) (λ h. ap (meaning.is_null b) h)
      of_kind t (ExprKind.binary op x y) =
          both (validate_grouped float_eq groups x) (validate_grouped float_eq groups y) (one x)
            (one y) (λ p q. ap₂ (meaning.binary t op) p q)
      of_kind t (ExprKind.window w es d f ps os fr) =
          all_four (validate_all float_eq groups es) (validate_filter float_eq groups f)
            (validate_all float_eq groups ps) (validate_orders float_eq groups os) (each es)
            (filtered f) (each ps) (alike os) (windowed (meaning.window w d fr))

      each :
          (es : Exprs F)
          → Sound
              (λ u. all_values meaning r es ≡ all_values meaning s es)
              (validate_all float_eq groups es)
      each nil = refl
      each (cons e es) =
          both (validate_grouped float_eq groups e) (validate_all float_eq groups es) (one e)
            (each es) (λ p q. ap₂ (λ v vs. v ∷ vs) p q)

      filtered :
          (f : MaybeExpr F)
          → Sound
              (λ u. filter_value meaning r f ≡ filter_value meaning s f)
              (validate_filter float_eq groups f)
      filtered absent = refl
      filtered (present e) = also (validate_grouped float_eq groups e) (one e) (λ h. ap some h)

      alike :
          (os : Orders F)
          → Sound
              (λ u. order_values meaning r os ≡ order_values meaning s os)
              (validate_orders float_eq groups os)
      alike unordered = refl
      alike (ordered e d n os) =
          both (validate_grouped float_eq groups e) (validate_orders float_eq groups os) (one e)
            (alike os) (λ p q. ap₂ (λ v vs. (v, d, n) ∷ vs) p q)
