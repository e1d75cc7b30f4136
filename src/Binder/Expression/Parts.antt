-- ===== src/Binder/Expression/Parts.antt =====
-- Every part of binding an expression keeps types.
use chili_db.Prelude.{
  ◌≡◌, Bool, true, false, not, ◌&&◌, ◌||◌, Option, ok, err, panic, refl, inl, inr, none, some,
  ◌>>=◌, ◌>>◌, guard, arith, Bool-cases,
}
use chili_db.Binder.Types.{
  LogicalType, null, boolean, int32, int64, uint32, float32, float64, text, varchar,
}
use chili_db.Binder.Ast.{Expr, type_of, nullable, R, Clause, BindError}
use chili_db.Binder.Context.{BindContext}
use chili_db.Binder.Coercion.{
  type_eq, is_null_type, numeric, is_integer, require_numeric, numeric_common, comparison_common,
  cast, boolean_of, as_boolean,
}
use chili_db.Binder.Expression.Typing.{Sound, castable, comparable, IsTyped, KindTyped}

pub Sound-bind :
    {A B : Type 0} (P : A → Type 0) (Q : B → Type 0) (m : R A) (f : A → R B)
    → Sound P m
    → ((a : A) → P a → Sound Q (f a))
    → Sound Q (m >>= f)
Sound-bind P Q (ok a) f h k = k a h
Sound-bind P Q (err e) f h k = tt
Sound-bind P Q panic f h k = absurd h

pub Sound-guard :
    {B : Type 0} (Q : B → Type 0) (b : Bool) (e : BindError) (m : R B)
    → (b ≡ true → Sound Q m)
    → Sound Q (guard b e >> m)
Sound-guard Q true e m h = h refl
Sound-guard Q false e m h = tt

type_eq-eq : (t u : LogicalType) → type_eq t u ≡ true → t ≡ u
type_eq-eq t u h = ground arith

type_eq_refl : (t : LogicalType) → type_eq t t ≡ true
type_eq_refl t = ground arith

module _ {F : Type 0} (context : BindContext) where
  -- The expression has been typed, has this type, and may be null as before.
  abbrev pub Has : LogicalType → Bool → Expr F → Type 0
  Has t n e = IsTyped context e × (type_of e ≡ t) × (nullable e ≡ n)

  pub cast-IsTyped :
      (e : Expr F) (target : LogicalType)
      → IsTyped context e
      → (type_eq (type_of e) target || castable (type_of e) target) ≡ true
      → Has target (nullable e) (cast e target)
  unfolding cast IsTyped KindTyped
  cast-IsTyped e target h fits = elim (Bool-cases (type_eq (type_of e) target)) [
    | inl same ↦ rw same (h, type_eq-eq (type_of e) target same, refl)
    | inr other ↦ rw other ((h, refl, ground arith, other), refl, refl)
  ]

  pub as_boolean-Has :
      (e : Expr F) (clause : Clause)
      → IsTyped context e
      → Sound (Has boolean (nullable e)) (as_boolean e clause)
  as_boolean-Has e clause h = of (type_of e) refl
    where
      of :
          (t : LogicalType)
          → type_of e ≡ t
          → Sound (Has boolean (nullable e)) (boolean_of e clause t)
      of boolean is = (h, is, refl)
      of null is = cast-IsTyped e boolean h (rw is refl)
      of int32 is = tt
      of int64 is = tt
      of uint32 is = tt
      of float32 is = tt
      of float64 is = tt
      of text is = tt
      of (varchar n) is = tt

abbrev pub usable : LogicalType → Bool → Bool
usable t integral = is_null_type t || (numeric t && (not integral || is_integer t))

pub require_numeric-usable :
    (t : LogicalType) (integral : Bool) (clause : Clause)
    → Sound (λ done. usable t integral ≡ true) (require_numeric t integral clause)
require_numeric-usable t integral clause = elim (Bool-cases (usable t integral)) [
  | inl is ↦ rw is refl
  | inr not_so ↦ rw not_so tt
]

-- The common type of two usable types takes a cast of both.
abbrev pub Common : Bool → LogicalType → LogicalType → Option LogicalType → Type 0
Common integral l r none = ⊥
Common integral l r (some t) =
    ((type_eq l t || castable l t) ≡ true)
    × ((type_eq r t || castable r t) ≡ true)
    × ((numeric t && (not integral || is_integer t)) ≡ true)

pub numeric_common-Common :
    (l r : LogicalType) (integral : Bool)
    → usable l integral ≡ true
    → usable r integral ≡ true
    → Common integral l r (numeric_common l r)
unfolding numeric_common
numeric_common-Common l r integral h k = ground arith

-- The common type of a comparison, if there is one.
abbrev pub Compared : LogicalType → LogicalType → Option LogicalType → Type 0
Compared l r none = Unit
Compared l r (some t) =
    ((type_eq l t || castable l t) ≡ true)
    × ((type_eq r t || castable r t) ≡ true)
    × (comparable t ≡ true)

pub comparison_common-Compared : (l r : LogicalType) → Compared l r (comparison_common l r)
unfolding comparison_common numeric_common
comparison_common-Compared l r = ground arith
