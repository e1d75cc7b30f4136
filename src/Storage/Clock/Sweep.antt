-- ===== src/Storage/Clock/Sweep.antt =====
-- One sweep of the clock: which frames it passes, and what it does to their reference bits.
use chili_db.Prelude.{
  ℕ, zero, suc, ◌+◌, ◌-◌, ◌%◌, ◌^◌, ◌≤◌, ◌<◌, ◌≡◌, refl, sym, ◌∙◌, ap, ap₂, subst, ◌≢◌, inl, inr,
  Bool, true, false, Option, none, some, ok, err, panic, ◌==◌, length, length-set, get_elem?,
  get_elem?-lt, get_elem?-set_self, get_elem?-set_ne, arith, Bool-cases, ltb,
}
use native.Mathlib.Nat.{mod-eq_of_lt, mod-add-mod, mod-eq-sub-mod, mod-lt}
use chili_db.Storage.Clock.{Clock, Step, moved, spared, sweep}

-- The reference bit of a frame.
abbrev pub bit : Clock → ℕ → Option Bool
bit c i = get_elem? c.referenced i

pub record IsClock (c : Clock) : Type 0 where
  pub ids : length c.referenced ≤ 2 ^ 32
  pub hand : c.hand < length c.referenced

-- The frame that a sweep from `c` comes to after `k` rounds.
abbrev pub place : Clock → ℕ → ℕ
place c k = (c.hand + k) % length c.referenced

-- A clock reached from `c` by clearing bits and moving the hand.
pub record Follows (c c' : Clock) : Type 0 where
  pub same_length : length c'.referenced ≡ length c.referenced
  pub clock : IsClock c'
  pub cleared : (i : ℕ) → bit c' i ≡ some true → bit c i ≡ some true

module _ (can_evict : ℕ → Bool) (n : ℕ) (c : Clock) where
  -- Nothing was found: every eligible frame that was passed had its bit set, and has it no more.
  pub record Passed (c' : Clock) : Type 0 where
    pub follows : Follows c c'
    pub was_set :
        (k : ℕ)
        → k < n
        → can_evict (place c k) ≡ true
        → (bit c (place c k) ≡ some true) × (bit c' (place c k) ≢ some true)

  -- Frame `b` was found: eligible, its bit clear, and the first such in the order of the sweep.
  pub record Found (c' : Clock) (b : ℕ) : Type 0 where
    pub follows : Follows c c'
    pub round : ℕ
    pub in_time : round < n
    pub at : b ≡ place c round
    pub eligible : can_evict b ≡ true
    pub clear : bit c b ≡ some false
    pub first : (k : ℕ) → k < round → can_evict (place c k) ≡ true → bit c (place c k) ≡ some true

  abbrev pub Outcome : Step (Option ℕ) → Type 0
  Outcome (c', ok none) = Passed c'
  Outcome (c', ok (some b)) = Found c' b
  Outcome (c', err e) = ⊥
  Outcome (c', panic) = ⊥

-- The first round of a sweep: the hand moves on, and the bit of an eligible frame is cleared.
record Moved (can_evict : ℕ → Bool) (c c₁ : Clock) : Type 0 where
  follows : Follows c c₁
  hand : c₁.hand ≡ (c.hand + 1) % length c.referenced
  here : can_evict c.hand ≡ true → (bit c c.hand ≡ some true) × (bit c₁ c.hand ≢ some true)
  others : (i : ℕ) → i ≢ c.hand → bit c₁ i ≡ bit c i

turn-zero : (h N : ℕ) → h < N → (h + 0) % N ≡ h
turn-zero h N l = ap (λ (t : ℕ). t % N) (omega arith) ∙ mod-eq_of_lt l

turn-suc : (h k N : ℕ) → ((h + 1) % N + k) % N ≡ (h + suc k) % N
turn-suc h k N = mod-add-mod (h + 1) N k ∙ ap (λ (t : ℕ). t % N) (omega arith)

-- Less than a full turn does not come back to where it began.
turn-ne : (h k N : ℕ) → h < N → suc k < N → (h + suc k) % N ≢ h
turn-ne h k N hl kl e = elim (Bool-cases (ltb (h + suc k) N)) [
  | inl short ↦ absurd (omega (arith, mod-eq_of_lt {n = h + suc k} {m = N} (ground arith)))
  | inr long ↦
      let over : N ≤ h + suc k = ground arith in
      absurd
        (omega (arith, mod-eq-sub-mod over, mod-eq_of_lt {n = h + suc k - N} {m = N} (omega arith)))
]

module _ (can_evict : ℕ → Bool) (n : ℕ) (c c₁ : Clock) (v : IsClock c)
    (m : Moved can_evict c c₁) where
  place-suc : (k : ℕ) → place c₁ k ≡ place c (suc k)
  place-suc k =
      ap₂ (λ (x N : ℕ). (x + k) % N) m.hand m.follows.same_length
      ∙ turn-suc c.hand k (length c.referenced)

  place-zero : place c 0 ≡ c.hand
  place-zero = turn-zero c.hand (length c.referenced) v.hand

  Follows-trans : (c' : Clock) → Follows c₁ c' → Follows c c'
  Follows-trans c' f = record {
    same_length = f.same_length ∙ m.follows.same_length;
    clock = f.clock;
    cleared = λ i h. m.follows.cleared i (f.cleared i h);
  }

  extend_Passed : (c' : Clock) → Passed can_evict n c₁ c' → Passed can_evict (suc n) c c'
  extend_Passed c' p = record { follows = Follows-trans c' p.follows; was_set = set_before }
    where
      set_before :
          (k : ℕ)
          → k < suc n
          → can_evict (place c k) ≡ true
          → (bit c (place c k) ≡ some true) × (bit c' (place c k) ≢ some true)
      set_before zero h e =
          let z = place-zero in
          let (was, now) = m.here (subst (λ i. can_evict i ≡ true) z e) in
          (
            subst (λ i. bit c i ≡ some true) (sym z) was,
            subst (λ i. bit c' i ≢ some true) (sym z) (λ x. now (p.follows.cleared c.hand x)),
          )
      set_before (suc k) h e =
          let s = place-suc k in
          let (was, now) = p.was_set k (omega arith) (subst (λ i. can_evict i ≡ true) (sym s) e) in
          (
            subst (λ i. bit c i ≡ some true) s (m.follows.cleared _ was),
            subst (λ i. bit c' i ≢ some true) s now,
          )

  extend_Found :
      (c' : Clock) (b : ℕ)
      → suc n ≤ length c.referenced
      → Found can_evict n c₁ c' b
      → Found can_evict (suc n) c c' b
  extend_Found c' b short f =
      let s = place-suc f.round in
      let away : b ≢ c.hand = λ e.
        turn-ne c.hand f.round (length c.referenced) v.hand (omega (arith, f.in_time))
          (sym s ∙ sym f.at ∙ e) in
      record {
        follows = Follows-trans c' f.follows;
        round = suc f.round;
        in_time = omega (arith, f.in_time);
        at = f.at ∙ s;
        eligible = f.eligible;
        clear = sym (m.others b away) ∙ f.clear;
        first = set_before;
      }
    where
      set_before :
          (k : ℕ) → k < suc f.round → can_evict (place c k) ≡ true → bit c (place c k) ≡ some true
      set_before zero h e =
          let z = place-zero in
          subst (λ i. bit c i ≡ some true) (sym z) (m.here (subst (λ i. can_evict i ≡ true) z e)).0
      set_before (suc k) h e =
          let s = place-suc k in
          subst (λ i. bit c i ≡ some true) s
            (m.follows.cleared _
              (f.first k (omega arith) (subst (λ i. can_evict i ≡ true) (sym s) e)))

  extend_Outcome :
      (r : Step (Option ℕ))
      → suc n ≤ length c.referenced
      → Outcome can_evict n c₁ r
      → Outcome can_evict (suc n) c r
  extend_Outcome (c', ok none) short o = extend_Passed c' o
  extend_Outcome (c', ok (some b)) short o = extend_Found c' b short o
  extend_Outcome (c', err e) short o = o
  extend_Outcome (c', panic) short o = o

length-pos : (c : Clock) → IsClock c → 0 < length c.referenced
length-pos c v = omega (arith, v.hand)

moved-IsClock : (c : Clock) → IsClock c → IsClock (moved c)
moved-IsClock c v = record { ids = v.ids; hand = mod-lt (c.hand + 1) (length-pos c v) }

moved-Moved :
    (can_evict : ℕ → Bool) (c : Clock)
    → IsClock c
    → can_evict c.hand ≡ false
    → Moved can_evict c (moved c)
moved-Moved can_evict c v held = record {
  follows = record { same_length = refl; clock = moved-IsClock c v; cleared = λ i e. e };
  hand = refl;
  here = λ e. absurd (cc (held, e));
  others = λ i ne. refl;
}

spared-Moved :
    (can_evict : ℕ → Bool) (c : Clock)
    → IsClock c
    → bit c c.hand ≡ some true
    → Moved can_evict c (spared c)
spared-Moved can_evict c v was =
    let n = length-set c.referenced c.hand false in
    let self = get_elem?-set_self c.referenced c.hand false v.hand in
    record {
      follows = record {
        same_length = n;
        clock = record {
          ids = omega (arith, n, v.ids);
          hand = rw n (mod-lt (c.hand + 1) (length-pos c v));
        };
        cleared = only_cleared;
      };
      hand = refl;
      here = λ e. (was, λ x. cc (self, x));
      others = λ i ne. get_elem?-set_ne c.referenced c.hand i false (λ e. ne (sym e));
    }
  where
    only_cleared : (i : ℕ) → bit (spared c) i ≡ some true → bit c i ≡ some true
    only_cleared i e = elim (Bool-cases (c.hand == i)) [
      | inl h ↦ let h' : c.hand ≡ i = ground arith in subst (λ j. bit c j ≡ some true) h' was
      | inr ne ↦ sym (get_elem?-set_ne c.referenced c.hand i false (ground arith)) ∙ e
    ]

taken-Found :
    (can_evict : ℕ → Bool) (n : ℕ) (c : Clock)
    → IsClock c
    → can_evict c.hand ≡ true
    → bit c c.hand ≡ some false
    → Found can_evict (suc n) c (moved c) c.hand
taken-Found can_evict n c v e clear = record {
  follows = record { same_length = refl; clock = moved-IsClock c v; cleared = λ i x. x };
  round = 0;
  in_time = omega arith;
  at = sym (turn-zero c.hand (length c.referenced) v.hand);
  eligible = e;
  clear = clear;
  first = λ k h x. absurd (omega arith);
}

-- Every sweep of at most one turn ends without a panic, in one of the two ways.
pub sweep-Outcome :
    (can_evict : ℕ → Bool) (n : ℕ) (c : Clock)
    → n ≤ length c.referenced
    → IsClock c
    → Outcome can_evict n c (sweep can_evict n c)
unfolding sweep
sweep-Outcome can_evict zero c h v = record {
  follows = record { same_length = refl; clock = v; cleared = λ i e. e };
  was_set = λ k l e. absurd (omega arith);
}
sweep-Outcome can_evict (suc n) c h v =
    let id : c.hand % 2 ^ 32 ≡ c.hand = omega (arith, v.hand, v.ids) in
    elim (Bool-cases (can_evict c.hand)) [
      | inr held ↦
          let m = moved-Moved can_evict c v held in
          rw (id, held)
            (extend_Outcome can_evict n c (moved c) v m (sweep can_evict n (moved c)) h
              (sweep-Outcome can_evict n (moved c) (omega arith) m.follows.clock))
      | inl free ↦
          let (set?, read) = get_elem?-lt c.referenced c.hand v.hand in
          elim (Bool-cases set?) [
            | inr f ↦
                let b : bit c c.hand ≡ some false = read ∙ ap some f in
                rw (id, free, b) (rw id (taken-Found can_evict n c v free b))
            | inl t ↦
                let b : bit c c.hand ≡ some true = read ∙ ap some t in
                let m = spared-Moved can_evict c v b in
                rw (id, free, b)
                  (extend_Outcome can_evict n c (spared c) v m (sweep can_evict n (spared c)) h (
                    sweep-Outcome can_evict n (spared c) (omega (arith, m.follows.same_length))
                      m.follows.clock))
          ]
    ]
