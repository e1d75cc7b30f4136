-- ===== src/Storage/Pool/Victims.antt =====
-- The choice of a victim and its write-back, before its frame takes a new page.
use chili_db.Prelude.{
  ℕ, ◌≤◌, ◌<◌, ◌≡◌, refl, sym, ap, ◌∙◌, subst, true, false, not, ◌||◌, List, Option, none, some,
  ◌==◌, ltb, length, get_elem?, arith, inl, inr, Option-cases, Bool-cases, Result, ok, err, panic,
  get_elem?-lt, guard, assert, eq→==,
}
use chili_db.Prelude.Methods.{
  Method, Ensures, guard-Ensures, assert-Ensures, resume, lift, inspect, ◌>>◌, ◌>>=◌,
}
use chili_db.Bytes.{Page}
use chili_db.Storage.Store.{PageStore}
use chili_db.Storage.Pool.{BufferError, Frame, VictimStrategy, Pool, poisoned}
use chili_db.Storage.Pool.Ops.{
  is_free, can_evict, chosen, never, victim, check, frame, or_panic, with_victim,
}
use chili_db.Storage.Pool.Cached.{Policy, Chosen, IsPool, Still, Still-refl, strategy-Still}
use chili_db.Storage.Pool.Installing.{IsVictim}

can_evict-eq-true :
    (frames : List Frame) (i : ℕ)
    → can_evict frames i ≡ true
    → (f : Frame) × (get_elem? frames i ≡ some f) × (f.pins ≡ 0)
can_evict-eq-true frames i h = elim (Option-cases (get_elem? frames i)) [
  | inl e ↦ let no : false ≡ true = ap is_free (sym e) ∙ h in absurd (cc)
  | inr (f, e) ↦ let idle : (f.pins == 0) ≡ true = ap is_free (sym e) ∙ h in (f, e, ground arith)
]

module _ {S K : Type 0} (contents : S → ℕ → Option Page) (IsStrategy : ℕ → K → Type 0)
    (store : PageStore S) (policy : VictimStrategy K) where
  -- Only the strategy has changed, and the frame is a victim's.
  pub record Picked (p : Pool S K) (i : ℕ) (p' : Pool S K) : Type 0 where
    pub still : Still contents IsStrategy p p'
    pub frame : Frame
    pub is_victim : IsVictim contents IsStrategy p' i frame
    pub same_pages : p'.pages ≡ p.pages
    pub same_store : p'.store ≡ p.store

  module _ (p : Pool S K) (v : IsPool contents IsStrategy p) where
    tag_of_free : (f : Frame) → get_elem? p.frames (length p.pages) ≡ some f → f.tag ≡ none
    tag_of_free f at = elim (Option-cases f.tag) [
      | inl e ↦ e
      | inr (id, e) ↦
          let (found, lt) = v.tagged (length p.pages) id f at e in absurd (omega (arith, lt))
    ]

    free_frame : length p.pages < length p.frames → Picked p (length p.pages) p
    free_frame lt =
        let (f, at) = get_elem?-lt p.frames (length p.pages) lt in
        let (idle, ge) = v.untagged (length p.pages) f at (tag_of_free f at) in
        record {
          still = Still-refl contents IsStrategy p v;
          frame = f;
          is_victim = record { at = at; unpinned = idle; next_unused = λ e. refl };
          same_pages = refl;
          same_store = refl;
        }

    evicted :
        (r : K × Result ⊥ (Option ℕ))
        → length p.frames ≤ length p.pages
        → Ensures
            (λ choice k.
              IsStrategy (length p.frames) k
              × Chosen policy IsStrategy (can_evict p.frames) (length p.frames) choice)
            (λ k. ⊥)
            r
        → Ensures (Picked p) (Still contents IsStrategy p) (
            resume
              (λ choice. lift (chosen store policy p.frames choice))
              (record p { strategy = r.0 }, never r.1))
    evicted (k, ok none) full (s, c) = strategy-Still contents IsStrategy p k v s
    evicted (k, ok (some i)) full (s, (free, lt)) =
        let (f, at, idle) = can_evict-eq-true p.frames i free in
        rw free (record {
          still = strategy-Still contents IsStrategy p k v s;
          frame = f;
          is_victim = record {
            at = at;
            unpinned = idle;
            next_unused = λ e. let (_, ge) = v.untagged i f at e in absurd (omega (arith, ge, lt));
          };
          same_pages = refl;
          same_store = refl;
        })
    evicted (k, err e) full h = absurd h
    evicted (k, panic) full h = absurd h

    pub victim-Picked :
        Policy policy IsStrategy
        → Ensures (Picked p) (Still contents IsStrategy p) (victim store policy p)
    unfolding victim
    victim-Picked rule = elim (Bool-cases (ltb (length p.pages) (length p.frames))) [
      | inl h ↦ rw h (free_frame (ground arith))
      | inr h ↦ rw h (
          evicted (policy.victim (can_evict p.frames) p.strategy) (ground arith)
            (rule.chooses (can_evict p.frames) (length p.frames) p.strategy v.strategy))
    ]

  module _ {A : Type 0} (Q : A → Pool S K → Type 0) (F : Pool S K → Type 0) (p : Pool S K) (i : ℕ)
      (f : Frame) (at : get_elem? p.frames i ≡ some f) (unchanged : F p) where
    pub frame-Ensures :
        (k : Frame → Method (Pool S K) BufferError A)
        → Ensures Q F (k f p)
        → Ensures Q F ((frame i >>= k) p)
    frame-Ensures k h = subst (λ o. Ensures Q F (resume k (p, or_panic o))) (sym at) h

    pub check-Ensures :
        (m : Method (Pool S K) BufferError A) → Ensures Q F (m p) → Ensures Q F ((check i >> m) p)
    unfolding check
    check-Ensures m h =
        subst
          (λ o. Ensures Q F (
            resume (λ _. m)
              (resume (λ f. inspect (λ p. guard (not (p.is_poisoned || f.is_poisoned)) poisoned))
                (p, or_panic o))))
          (sym at)
          (guard-Ensures Q F (not (p.is_poisoned || f.is_poisoned)) poisoned m p unchanged (λ e. h))

    pub with_victim-Ensures :
        (replace : Frame → Method (Pool S K) BufferError A)
        → f.pins ≡ 0
        → Ensures Q F (replace f p)
        → Ensures Q F (with_victim store policy i replace p)
    unfolding with_victim
    with_victim-Ensures replace idle h =
        frame-Ensures
          (λ f.
            lift (assert (f.pins == 0))
            >> (lift (guard (not f.is_poisoned) poisoned) >> (check i >> replace f)))
          (assert-Ensures Q F (f.pins == 0)
            (lift (guard (not f.is_poisoned) poisoned) >> (check i >> replace f)) p
            (eq→== f.pins 0 idle)
            (guard-Ensures Q F (not f.is_poisoned) poisoned (check i >> replace f) p unchanged
              (λ e. check-Ensures (replace f) h)))
