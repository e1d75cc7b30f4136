-- ===== src/Storage/Clock/Victim.antt =====
-- What `victim` of crates/storage/src/replacement.rs chooses.
use chili_db.Prelude.{
  ℕ, ◌+◌, ◌-◌, ◌%◌, ◌≤◌, ◌<◌, ◌≡◌, ◌≢◌, sym, ◌∙◌, ap, subst, ◌⊎◌, inl, inr, Bool, true, false,
  Option, none, some, ok, err, panic, length, arith, Bool-cases, ltb,
}
use native.Mathlib.Nat.{mod-eq_of_lt, mod-eq-sub-mod, mod-lt}
use chili_db.Storage.Clock.{Clock, Step, or_again, victim}
use chili_db.Storage.Clock.Sweep.{
  bit, IsClock, place, Follows, Passed, Found, Outcome, sweep-Outcome,
}

-- Every frame is met in one turn.
round_of :
    (c : Clock) (i : ℕ)
    → IsClock c
    → i < length c.referenced
    → (k : ℕ) × (k < length c.referenced) × (place c k ≡ i)
round_of c i v h = elim (Bool-cases (ltb i c.hand)) [
  | inr at ↦
      let k = i - c.hand in
      let e : c.hand + k ≡ i = ground arith in
      (k, omega arith, ap (λ (t : ℕ). t % length c.referenced) e ∙ mod-eq_of_lt h)
  | inl before ↦
      let k = i + length c.referenced - c.hand in
      let e : c.hand + k ≡ i + length c.referenced = omega (arith, v.hand) in
      let over : length c.referenced ≤ i + length c.referenced = omega arith in
      let back : i + length c.referenced - length c.referenced ≡ i = omega arith in
      (
        k,
        ground arith,
        ap (λ (t : ℕ). t % length c.referenced) e
            ∙ mod-eq-sub-mod over
            ∙ ap (λ (t : ℕ). t % length c.referenced) back
            ∙ mod-eq_of_lt h,
      )
]

-- Frame `b` is the first eligible one with a clear bit, in the order of the clock.
pub record FirstClear (can_evict : ℕ → Bool) (c : Clock) (b : ℕ) : Type 0 where
  pub round : ℕ
  pub in_turn : round < length c.referenced
  pub at : b ≡ place c round
  pub clear : bit c b ≡ some false
  pub first : (k : ℕ) → k < round → can_evict (place c k) ≡ true → bit c (place c k) ≡ some true

abbrev pub AllSet : (ℕ → Bool) → Clock → Type 0
AllSet can_evict c = (i : ℕ) → i < length c.referenced → can_evict i ≡ true → bit c i ≡ some true

-- An eligible frame: the first whose bit is clear, unless every eligible frame has its bit set.
pub record Chosen (can_evict : ℕ → Bool) (c : Clock) (b : ℕ) : Type 0 where
  pub eligible : can_evict b ≡ true
  pub in_range : b < length c.referenced
  pub second_chance : FirstClear can_evict c b ⊎ AllSet can_evict c

abbrev pub VictimOk : (ℕ → Bool) → Clock → Step (Option ℕ) → Type 0
VictimOk can_evict c (c', ok none) =
    Follows c c' × ((i : ℕ) → i < length c.referenced → can_evict i ≡ false)
VictimOk can_evict c (c', ok (some b)) = Follows c c' × Chosen can_evict c b
VictimOk can_evict c (c', err e) = ⊥
VictimOk can_evict c (c', panic) = ⊥

place-lt : (c : Clock) (k : ℕ) → IsClock c → place c k < length c.referenced
place-lt c k v = mod-lt (c.hand + k) (omega (arith, v.hand))

module _ (can_evict : ℕ → Bool) (c : Clock) (v : IsClock c) where
  first-Chosen :
      (c' : Clock) (b : ℕ)
      → Found can_evict (length c.referenced) c c' b
      → VictimOk can_evict c (c', ok (some b))
  first-Chosen c' b f = (
    f.follows,
    record {
      eligible = f.eligible;
      in_range = rw (f.at) (place-lt c f.round v);
      second_chance = inl (record {
        round = f.round;
        in_turn = f.in_time;
        at = f.at;
        clear = f.clear;
        first = f.first;
      });
    },
  )

  module _ (c₁ : Clock) (p : Passed can_evict (length c.referenced) c c₁) where
    before-AllSet : AllSet can_evict c
    before-AllSet i h e =
        let (k, hk, at) = round_of c i v h in
        subst (λ j. bit c j ≡ some true) at
          (p.was_set k hk (subst (λ j. can_evict j ≡ true) (sym at) e)).0

    none_set_now : (i : ℕ) → i < length c.referenced → can_evict i ≡ true → bit c₁ i ≢ some true
    none_set_now i h e =
        let (k, hk, at) = round_of c i v h in
        subst (λ j. bit c₁ j ≢ some true) at
          (p.was_set k hk (subst (λ j. can_evict j ≡ true) (sym at) e)).1

    together : (c' : Clock) → Follows c₁ c' → Follows c c'
    together c' f = record {
      same_length = f.same_length ∙ p.follows.same_length;
      clock = f.clock;
      cleared = λ i x. p.follows.cleared i (f.cleared i x);
    }

    second_turn :
        (r : Step (Option ℕ))
        → Outcome can_evict (length c₁.referenced) c₁ r
        → VictimOk can_evict c r
    second_turn (c', ok none) q = (together c' q.follows, no_frame)
      where
        no_frame : (i : ℕ) → i < length c.referenced → can_evict i ≡ false
        no_frame i h = elim (Bool-cases (can_evict i)) [
          | inr free ↦ free
          | inl e ↦
              let h' : i < length c₁.referenced = omega (arith, p.follows.same_length) in
              let (k, hk, at) = round_of c₁ i p.follows.clock h' in
              absurd (
                none_set_now i h e (
                  subst (λ j. bit c₁ j ≡ some true) at
                    (q.was_set k hk (subst (λ j. can_evict j ≡ true) (sym at) e)).0))
        ]
    second_turn (c', ok (some b)) f = (
      together c' f.follows,
      record {
        eligible = f.eligible;
        in_range =
            let lt : b < length c₁.referenced = rw f.at (place-lt c₁ f.round p.follows.clock) in
            omega (arith, lt, p.follows.same_length);
        second_chance = inr before-AllSet;
      },
    )
    second_turn (c', err e) q = q
    second_turn (c', panic) q = q

  first_turn :
      (r : Step (Option ℕ))
      → Outcome can_evict (length c.referenced) c r
      → VictimOk can_evict c (or_again can_evict r)
  first_turn (c₁, ok none) p =
      second_turn c₁ p _
        (sweep-Outcome can_evict (length c₁.referenced) c₁ (omega arith) p.follows.clock)
  first_turn (c', ok (some b)) f = first-Chosen c' b f
  first_turn (c', err e) f = f
  first_turn (c', panic) f = f

-- On a well-formed clock `victim` ends without a panic. It answers `none` only if no frame is
-- eligible, and otherwise an eligible frame: the first in clock order whose bit is clear, unless
-- every eligible frame has its bit set. The clock stays well formed, and no bit is newly set.
pub victim_lem :
    (can_evict : ℕ → Bool) (c : Clock) → IsClock c → VictimOk can_evict c (victim can_evict c)
unfolding victim
victim_lem can_evict c v =
    first_turn can_evict c v _ (sweep-Outcome can_evict (length c.referenced) c (omega arith) v)
