-- ===== src/Prelude/Results.antt =====
-- Rust's `Result` with a third outcome for a panic, its `?` as a bind, and checks that end early.
use mathlib.Core.Path.{◌≡◌, refl}
use mathlib.Core.Bool.{Bool, true, false}
use native.Mathlib.Omega.{arith}

-- `panic` is an index or slice out of range, or an arithmetic underflow.
pub data Result {ℓ κ} (E : Type ℓ) (A : Type κ) : Type (ℓ ⊔ κ) where
  panic : Result E A
  err : E → Result E A
  ok : A → Result E A

-- What Rust checks at run time.
abbrev pub assert {ℓ} : {E : Type ℓ} → Bool → Result E (Unit {0})
assert false = panic
assert true = ok tt

-- `if !test { return Err(e) }`
abbrev pub guard {ℓ} : {E : Type ℓ} → Bool → E → Result E (Unit {0})
guard false e = err e
guard true _ = ok tt

module _ {ℓ κ μ} {E : Type ℓ} {A : Type κ} {B : Type μ} where
  -- The `?` operator.
  infixl 5 ◌>>=◌
  abbrev pub ◌>>=◌ : Result E A → (A → Result E B) → Result E B
  panic >>= next = panic
  err e >>= next = err e
  ok a >>= next = next a

  pub >>=-eq-ok :
      (first : Result E A) (next : A → Result E B) {b : B}
      → (first >>= next) ≡ ok b
      → (a : A) × (first ≡ ok a) × (next a ≡ ok b)
  >>=-eq-ok panic next h = cc
  >>=-eq-ok (err e) next h = cc
  >>=-eq-ok (ok a) next h = (a, refl, h)

module _ {ℓ μ} {E : Type ℓ} {B : Type μ} where
  infixl 5 ◌>>◌
  abbrev pub ◌>>◌ : Result E (Unit {0}) → Result E B → Result E B
  first >> second = first >>= λ done. second

  module _ (test : Bool) where
    pub guard-eq-ok :
        (e : E) (rest : Result E B) {x : B}
        → (guard test e >> rest) ≡ ok x
        → (test ≡ true) × (rest ≡ ok x)
    guard-eq-ok e rest h = ground arith

    pub assert-eq-ok :
        (rest : Result E B) {x : B} → (assert test >> rest) ≡ ok x → (test ≡ true) × (rest ≡ ok x)
    assert-eq-ok rest h = ground arith

-- No panic, and a value has the property.
abbrev pub Yields {ℓ κ} : {E : Type ℓ} {A : Type κ} → (A → Type 0) → Result E A → Type 0
Yields P (ok a) = P a
Yields P (err e) = Unit
Yields P panic = ⊥

module _ {ℓ μ} {E : Type ℓ} {B : Type μ} (Q : B → Type 0) where
  pub bind-Yields {κ} :
      {A : Type κ} (P : A → Type 0) (first : Result E A) (next : A → Result E B)
      → Yields P first
      → ((a : A) → P a → Yields Q (next a))
      → Yields Q (first >>= next)
  bind-Yields P (ok a) next h k = k a h
  bind-Yields P (err e) next h k = tt
  bind-Yields P panic next h k = absurd h

  pub guard-Yields :
      (test : Bool) (e : E) (rest : Result E B)
      → (test ≡ true → Yields Q rest)
      → Yields Q (guard test e >> rest)
  guard-Yields true e rest h = h refl
  guard-Yields false e rest h = tt

-- What holds of the answer, and what is so when there is an error; no panic.
abbrev pub Decides {ℓ κ} : {E : Type ℓ} {A : Type κ} → (A → Type 0) → Type 0 → Result E A → Type 0
Decides P N (ok a) = P a
Decides P N (err e) = N
Decides P N panic = ⊥

module _ {ℓ μ} {E : Type ℓ} {B : Type μ} (Q : B → Type 0) (N : Type 0) where
  pub bind-Decides {κ} :
      {A : Type κ} (P : A → Type 0) (M : Type 0) (first : Result E A) (next : A → Result E B)
      → Decides P M first
      → (M → N)
      → ((a : A) → P a → Decides Q N (next a))
      → Decides Q N (first >>= next)
  bind-Decides P M (ok a) next h n k = k a h
  bind-Decides P M (err e) next h n k = n h
  bind-Decides P M panic next h n k = absurd h

  pub guard-Decides :
      (test : Bool) (e : E) (rest : Result E B)
      → (test ≡ false → N)
      → (test ≡ true → Decides Q N rest)
      → Decides Q N (guard test e >> rest)
  guard-Decides true e rest n h = h refl
  guard-Decides false e rest n h = n refl
