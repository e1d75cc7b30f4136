-- ===== src/Prelude/Loops.antt =====
-- `for index in i..j` with early exits, and its two rules.
use Prim.Native.Nat.{ℕ, zero, suc, ◌+◌, ◌<◌}
use mathlib.Core.Path.{◌≡◌, refl, subst}
use native.Mathlib.Omega.{arith}
use chili_db.Prelude.Results.{Result, ok, ◌>>=◌, >>=-eq-ok, Decides, bind-Decides}

module _ {ℓ κ} {E : Type ℓ} {S : Type κ} (body : ℕ → S → Result E S) where
  -- The first number counts the rounds left.
  unfoldable pub for_range : ℕ → ℕ → S → Result E S
  for_range zero i s = ok s
  for_range (suc n) i s = body i s >>= λ s'. for_range n (suc i) s'

  module _ {μ} (P : ℕ → S → Type μ) where
    -- Whatever each successful round keeps, a successful loop keeps.
    pub for_range-ok :
        ((i : ℕ) (s s' : S) → P i s → body i s ≡ ok s' → P (suc i) s')
        → (n i j : ℕ) (s s' : S) → i + n ≡ j
        → P i s
        → for_range n i s ≡ ok s'
        → P j s'
    unfolding for_range
    for_range-ok keep zero i j s s' e p h =
        let e' : i ≡ j = omega arith in subst (λ k. P k s') e' (subst (P i) (cc) p)
    for_range-ok keep (suc n) i j s s' e p h =
        let (m, hm, rest) = >>=-eq-ok (body i s) (λ t. for_range n (suc i) t) h in
        for_range-ok keep n (suc i) j m s' (omega arith) (keep i s m p hm) rest

    -- If no round can fail where `P` holds, the loop does not fail.
    pub for_range_total :
        (N : ℕ)
        → ((i : ℕ) (s : S) → i < N → P i s → (s' : S) × (body i s ≡ ok s') × P (suc i) s')
        → (n i : ℕ) (s : S) → i + n ≡ N
        → P i s
        → (s' : S) × (for_range n i s ≡ ok s') × P N s'
    unfolding for_range
    for_range_total N step zero i s e p =
        let e' : i ≡ N = omega arith in (s, refl, subst (λ k. P k s) e' p)
    for_range_total N step (suc n) i s e p =
        let (m, hm, pm) = step i s (omega arith) p in
        let (r, hr, pr) = for_range_total N step n (suc i) m (omega arith) pm in (r, rw hm hr, pr)

  -- Rounds that keep `P` or end the loop where `M` is so.
  pub for_range-Decides :
      (P : ℕ → S → Type 0) (M : Type 0) (N : ℕ)
      → ((i : ℕ) (s : S) → i < N → P i s → Decides (P (suc i)) M (body i s))
      → (n i : ℕ) (s : S) → i + n ≡ N
      → P i s
      → Decides (P N) M (for_range n i s)
  unfolding for_range
  for_range-Decides P M N step zero i s e p =
      let e' : i ≡ N = omega arith in subst (λ k. P k s) e' p
  for_range-Decides P M N step (suc n) i s e p =
      bind-Decides (P N) M (P (suc i)) M (body i s) (λ s'. for_range n (suc i) s')
        (step i s (omega arith) p) (λ m. m)
        (λ s' p'. for_range-Decides P M N step n (suc i) s' (omega arith) p')
