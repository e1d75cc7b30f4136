-- ===== src/Prelude/Methods.antt =====
-- Methods that take `&mut self`: the state is returned on every path, failures included.
use mathlib.Core.Bool.{Bool, true, false}
use chili_db.Prelude.Results.{Result, ok, err, panic, guard, assert}
use mathlib.Core.Path.{◌≡◌, refl}

abbrev pub Method : Type 0 → Type 0 → Type 0 → Type 0
Method S E A = S → S × Result E A

module _ {S E : Type 0} where
  abbrev pub pure : {A : Type 0} → A → Method S E A
  pure a s = (s, ok a)

  -- A computation that only looks at the state, and one that does not.
  abbrev pub inspect : {A : Type 0} → (S → Result E A) → Method S E A
  inspect f s = (s, f s)

  abbrev pub lift : {A : Type 0} → Result E A → Method S E A
  lift r s = (s, r)

  -- `*self = s`
  abbrev pub assign : S → Method S E (Unit {0})
  assign s' s = (s', ok tt)

  abbrev pub resume : {A B : Type 0} → (A → Method S E B) → S × Result E A → S × Result E B
  resume f (s, ok a) = f a s
  resume f (s, err e) = (s, err e)
  resume f (s, panic) = (s, panic)

  infixl 5 ◌>>=◌ ◌>>◌
  abbrev pub ◌>>=◌ : {A B : Type 0} → Method S E A → (A → Method S E B) → Method S E B
  ◌>>=◌ m f s = resume f (m s)

  abbrev pub ◌>>◌ : {B : Type 0} → Method S E (Unit {0}) → Method S E B → Method S E B
  m >> k = m >>= λ _. k

  -- What holds of the state and the answer, and of the state after an error; no panic.
  abbrev pub Ensures : {A : Type 0} → (A → S → Type 0) → (S → Type 0) → S × Result E A → Type 0
  Ensures Q F (s, ok a) = Q a s
  Ensures Q F (s, err e) = F s
  Ensures Q F (s, panic) = ⊥

  pub resume-Ensures :
      {A B : Type 0} (Q : A → S → Type 0) (F : S → Type 0) (Q' : B → S → Type 0) (F' : S → Type 0)
      (f : A → Method S E B) (r : S × Result E A)
      → Ensures Q F r
      → ((a : A) (s : S) → Q a s → Ensures Q' F' (f a s))
      → ((s : S) → F s → F' s)
      → Ensures Q' F' (resume f r)
  resume-Ensures Q F Q' F' f (s, ok a) h k l = k a s h
  resume-Ensures Q F Q' F' f (s, err e) h k l = l s h
  resume-Ensures Q F Q' F' f (s, panic) h k l = absurd h

  pub guard-Ensures :
      {A : Type 0} (Q : A → S → Type 0) (F : S → Type 0) (b : Bool) (e : E) (m : Method S E A)
      (s : S)
      → F s
      → (b ≡ true → Ensures Q F (m s))
      → Ensures Q F ((lift (guard b e) >> m) s)
  guard-Ensures Q F true e m s h k = k refl
  guard-Ensures Q F false e m s h k = h

  pub assert-Ensures :
      {A : Type 0} (Q : A → S → Type 0) (F : S → Type 0) (b : Bool) (m : Method S E A) (s : S)
      → b ≡ true
      → Ensures Q F (m s)
      → Ensures Q F ((lift (assert b) >> m) s)
  assert-Ensures Q F true m s h k = k
  assert-Ensures Q F false m s h k = cc

  pub map-Ensures :
      {A : Type 0} (Q : A → S → Type 0) (F : S → Type 0) (Q' : A → S → Type 0) (F' : S → Type 0)
      (r : S × Result E A)
      → Ensures Q F r
      → ((a : A) (s : S) → Q a s → Q' a s)
      → ((s : S) → F s → F' s)
      → Ensures Q' F' r
  map-Ensures Q F Q' F' (s, ok a) h k l = k a s h
  map-Ensures Q F Q' F' (s, err e) h k l = l s h
  map-Ensures Q F Q' F' (s, panic) h k l = absurd h
