-- ===== src/Storage/BufferModel/Walks.antt =====
-- What a check over a whole list needs of each element.
use chili_db.Prelude.{
  ℕ, zero, suc, ◌+◌, ◌<◌, ◌≡◌, refl, ap, ap₂, ◌∙◌, Bool, true, false, ◌&&◌, ◌||◌, List, [], ◌∷◌,
  some, get_elem?, take, arith,
}
use chili_db.Storage.BufferModel.Actions.{any}
use chili_db.Storage.BufferModel.Checks.{all_at, any_at}

module _ {ℓ} {A : Type ℓ} where
  pub all_at-true :
      (test : ℕ → A → Bool) (i : ℕ) (xs : List A)
      → ((k : ℕ) (x : A) → get_elem? xs k ≡ some x → test (i + k) x ≡ true)
      → all_at test i xs ≡ true
  unfolding all_at
  all_at-true test i [] h = refl
  all_at-true test i (x ∷ xs) h =
      let first : test i x ≡ true = ap (λ j. test j x) (shift i) ∙ h 0 x refl in
      let rest : all_at test (suc i) xs ≡ true =
        all_at-true test (suc i) xs (λ k y at. ap (λ j. test j y) (omega arith) ∙ h (suc k) y at) in
      ap₂ (◌&&◌) first rest
    where
      shift : (j : ℕ) → j ≡ j + 0
      shift j = omega arith

  pub any_at-none :
      (test : ℕ → A → Bool) (i : ℕ) (xs : List A)
      → ((k : ℕ) (x : A) → get_elem? xs k ≡ some x → test (i + k) x ≡ false)
      → any_at test i xs ≡ false
  unfolding any_at
  any_at-none test i [] h = refl
  any_at-none test i (x ∷ xs) h =
      let first : test i x ≡ false = ap (λ j. test j x) (shift i) ∙ h 0 x refl in
      let rest : any_at test (suc i) xs ≡ false =
        any_at-none test (suc i) xs (λ k y at. ap (λ j. test j y) (omega arith) ∙ h (suc k) y at) in
      ap₂ (◌||◌) first rest
    where
      shift : (j : ℕ) → j ≡ j + 0
      shift j = omega arith

  pub any-none :
      (test : A → Bool) (xs : List A)
      → ((k : ℕ) (x : A) → get_elem? xs k ≡ some x → test x ≡ false)
      → any test xs ≡ false
  unfolding any
  any-none test [] h = refl
  any-none test (x ∷ xs) h = ap₂ (◌||◌) (h 0 x refl) (any-none test xs (λ k y at. h (suc k) y at))

  -- What stands among the first stands there in the whole.
  pub get_elem?-take :
      (n : ℕ) (xs : List A) (k : ℕ) (x : A)
      → get_elem? (take n xs) k ≡ some x
      → (k < n) × (get_elem? xs k ≡ some x)
  get_elem?-take zero xs k x h = cc
  get_elem?-take (suc n) [] k x h = cc
  get_elem?-take (suc n) (y ∷ xs) zero x h = (omega arith, h)
  get_elem?-take (suc n) (y ∷ xs) (suc k) x h =
      let (small, at) = get_elem?-take n xs k x h in (omega arith, at)
