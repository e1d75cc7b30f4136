-- ===== src/Storage/Pool/Opening.antt =====
-- The second-chance clock under the pool, and the constructors of `BufferPool`.
use chili_db.Prelude.{
  ℕ, zero, suc, ◌-◌, ◌^◌, ◌≤◌, ◌<◌, ◌≡◌, refl, sym, ap, ◌∙◌, subst, Bool, true, false, not, ◌||◌,
  Option, none, some, ◌==◌, ltb, length, length-set, get_elem?, get_elem?-lt, set, arith, inl, inr,
  ◌⊎◌, Bool-cases, Result, ok, err, panic,
}
use chili_db.Prelude.Methods.{Ensures}
use chili_db.Bytes.{Page}
use chili_db.Storage.Clock.{Clock, Step, access, accessed, load, victim}
use chili_db.Storage.Clock.Sweep.{IsClock}
use chili_db.Storage.Clock.Victim.{VictimOk, victim_lem}
use chili_db.Storage.Pool.{
  BufferError, invalid_capacity, Frame, VictimStrategy, Pool, fresh_frames, unused,
  validate_capacity, with_strategy,
}
use chili_db.Storage.Pool.PageTable.{lookup}
use chili_db.Storage.Pool.Cached.{Policy, Kept, Chosen, view, IsPool}

-- `impl VictimStrategy for ClockStrategy`
abbrev pub clock_strategy : VictimStrategy Clock
clock_strategy = record { access = access; load = load; victim = victim }

abbrev pub IsClockOf : ℕ → Clock → Type 0
IsClockOf capacity c = IsClock c × (length c.referenced ≡ capacity)

access-Kept :
    (capacity i : ℕ) (c : Clock)
    → IsClockOf capacity c
    → i < capacity
    → Kept clock_strategy IsClockOf capacity (access i c)
unfolding access
access-Kept capacity i c (v, n) h =
    let (b, at) = get_elem?-lt c.referenced i (omega (arith, n)) in
    let e = length-set c.referenced i true in
    let c' : Clock = record c { referenced = set c.referenced i true } in
    let answer : access i c ≡ (c', ok tt) = ap (accessed i c) at in
    subst (Kept clock_strategy IsClockOf capacity) (sym answer)
      (record { ids = omega (arith, e, v.ids); hand = omega (arith, e, v.hand) }, e ∙ n)

-- The second-chance clock of the pool's capacity keeps the promise of a replacement strategy: no
-- call panics, `victim` answers an eligible frame of the pool, and none only if no frame is
-- eligible.
pub clock_strategy-Policy : Policy clock_strategy IsClockOf
unfolding load
clock_strategy-Policy = record {
  accesses = access-Kept;
  loads = access-Kept;
  chooses = λ can_evict capacity c (v, n).
      chosen can_evict capacity c n (victim can_evict c) (victim_lem can_evict c v);
}
  where
    chosen :
        (can_evict : ℕ → Bool) (capacity : ℕ) (c : Clock)
        → length c.referenced ≡ capacity
        → (r : Step (Option ℕ)) → VictimOk can_evict c r
        → Ensures
            (λ choice c'.
              IsClockOf capacity c' × Chosen clock_strategy IsClockOf can_evict capacity choice)
            (λ c'. ⊥)
            r
    chosen can_evict capacity c n (c', ok none) (f, no_frame) =
        ((f.clock, f.same_length ∙ n), (λ i h. no_frame i (omega (arith, n))))
    chosen can_evict capacity c n (c', ok (some b)) (f, k) =
        let lt = k.in_range in ((f.clock, f.same_length ∙ n), (k.eligible, omega (arith, n)))
    chosen can_evict capacity c n (c', err e) h = h
    chosen can_evict capacity c n (c', panic) h = h

length-fresh_frames : (n : ℕ) → length (fresh_frames n) ≡ n
length-fresh_frames zero = refl
length-fresh_frames (suc n) = ap suc (length-fresh_frames n)

fresh_frames-unused : (n i : ℕ) (f : Frame) → get_elem? (fresh_frames n) i ≡ some f → f ≡ unused
fresh_frames-unused zero i f h = cc
fresh_frames-unused (suc n) zero f h = cc
fresh_frames-unused (suc n) (suc i) f h = fresh_frames-unused n i f h

module _ {S K : Type 0} (contents : S → ℕ → Option Page) (IsStrategy : ℕ → K → Type 0) where
  -- A new pool shows the store's pages and has a capacity from 1 to 2^32; one that is refused is zero
  -- or above 2^32.
  abbrev pub Opened : ℕ → S → Result BufferError (Pool S K) → Type 0
  Opened capacity s (ok p) =
      IsPool contents IsStrategy p
      × ((id : ℕ) → view contents p id ≡ contents s id)
      × (length p.frames ≡ capacity)
      × (0 < capacity)
      × (capacity ≤ 2 ^ 32)
  Opened capacity s (err e) = (e ≡ invalid_capacity) × ((capacity ≡ 0) ⊎ (2 ^ 32 < capacity))
  Opened capacity s panic = ⊥

  -- With a strategy fit for the capacity, `with_strategy` answers a pool of that many frames that
  -- meets its invariant and shows the pages of the store if the capacity is from 1 to 2^32, and
  -- refuses one that is zero or above 2^32 with `InvalidCapacity`. It never panics.
  pub with_strategy-Opened :
      (capacity : ℕ) (s : S) (k : K)
      → IsStrategy capacity k
      → Opened capacity s (with_strategy capacity s k)
  unfolding with_strategy validate_capacity lookup
  with_strategy-Opened capacity s k h =
      elim (Bool-cases (capacity == 0 || not (ltb (capacity - 1) (2 ^ 32)))) [
        | inl bad ↦ rw bad (refl, too_large capacity bad)
        | inr good ↦ rw good (
          record {
            unique = tt;
            mapped = λ id i e. cc;
            tagged = λ i id f at t.
                let tag = ap (λ (g : Frame). g.tag) (fresh_frames-unused capacity i f at) in
                absurd (cc);
            untagged = λ i f at t.
                (ap (λ (g : Frame). g.pins) (fresh_frames-unused capacity i f at), omega arith);
            counts = λ i f at.
                let pins = ap (λ (g : Frame). g.pins) (fresh_frames-unused capacity i f at) in
                omega arith;
            fits = omega arith;
            indexed =
                let n = length-fresh_frames capacity in
                let small = in_range capacity good in omega arith;
            strategy = subst (λ n. IsStrategy n k) (sym (length-fresh_frames capacity)) h;
          },
          (λ id. refl),
          length-fresh_frames capacity,
          positive capacity good,
          in_range capacity good,
        )
      ]
    where
      too_large : (n : ℕ) → (n == 0 || not (ltb (n - 1) (2 ^ 32))) ≡ true → (n ≡ 0) ⊎ (2 ^ 32 < n)
      too_large zero e = inl refl
      too_large (suc n) e = inr (ground arith)

      positive : (n : ℕ) → (n == 0 || not (ltb (n - 1) (2 ^ 32))) ≡ false → 0 < n
      positive zero e = cc
      positive (suc n) e = omega arith

      in_range : (n : ℕ) → (n == 0 || not (ltb (n - 1) (2 ^ 32))) ≡ false → n ≤ 2 ^ 32
      in_range zero e = omega arith
      in_range (suc n) e = ground arith
