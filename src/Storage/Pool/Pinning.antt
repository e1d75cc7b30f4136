-- ===== src/Storage/Pool/Pinning.antt =====
-- `BufferPool::pin` and the parts it shares with `new_page`: a resident page, and the loaded pin.
use chili_db.Prelude.{
  ℕ, suc, ◌+◌, ◌%◌, ◌^◌, ◌<◌, ◌≡◌, refl, sym, ap, ◌∙◌, subst, Bool, true, false, Option, none, some,
  ltb, length, length-set, get_elem?, get_elem?-eq-some, set, arith, Result, ok, err, panic, guard,
}
use chili_db.Prelude.Methods.{Ensures, resume-Ensures, guard-Ensures, lift, pure, ◌>>◌}
use chili_db.Bytes.{Page}
use chili_db.Storage.Store.{PageStore}
use chili_db.Storage.Pool.{Frame, VictimStrategy, Pool, Pin, pin_overflow}
use chili_db.Storage.Pool.PageTable.{lookup}
use chili_db.Storage.Pool.Ops.{
  never, on_strategy, put, accessed, resident_pin, pin_found, pinned_buffer, loaded_pin,
}
use chili_db.Storage.Pool.Cached.{
  Policy, Kept, pins_of, pins_at, bytes_at, view, shown, Clean, IsPool, Moves, Still, Still-refl,
  update, update-same, update-old, update-positive, Moves-same, Moves-Still, strategy-Still,
}
use chili_db.Storage.Pool.Frames.{set-Moves}
use chili_db.Storage.Pool.Victims.{frame-Ensures}

module _ {S K : Type 0} (contents : S → ℕ → Option Page) (IsStrategy : ℕ → K → Type 0)
    (store : PageStore S) (policy : VictimStrategy K) (rule : Policy policy IsStrategy) where
  -- One more pin on the frame of `held`, which holds the page.
  pub record PinsPage (pages : ℕ → Option Page) (p : Pool S K) (held : Pin) (p' : Pool S K)
      : Type 0 where
    pub moves :
        Moves contents IsStrategy pages
          (update (pins_of p) held.index (suc (pins_of p held.index)))
          p
          p'
    pub found : lookup held.page p'.pages ≡ some held.index

  same_index :
      (p : Pool S K) (i : ℕ) → IsPool contents IsStrategy p → i < length p.frames → i % 2 ^ 32 ≡ i
  same_index p i v h = let le = v.indexed in omega arith

  module _ (pages : ℕ → Option Page) (p : Pool S K) (q i : ℕ) (p' : Pool S K)
      (moves : Moves contents IsStrategy pages (update (pins_of p) i (suc (pins_of p i))) p p')
      (found : lookup q p'.pages ≡ some i) (in_range : i < length p'.frames) where
    strategy_called :
        (r : K × Result ⊥ (Unit {0}))
        → Kept policy IsStrategy (length p'.frames) r
        → Ensures
            (λ u p''.
              PinsPage pages p (record { index = i; page = q }) p'' × (p''.store ≡ p'.store))
            (λ p''. ⊥)
            (record p' { strategy = r.0 }, never r.1)
    strategy_called (k, ok u) h = (
      record {
        moves =
            Moves-Still contents IsStrategy pages _ p p' _
              (update-positive (pins_of p) i (suc (pins_of p i)) (omega arith)) moves
              (strategy-Still contents IsStrategy p' k moves.valid h);
        found = found;
      },
      refl,
    )
    strategy_called (k, err e) h = absurd h
    strategy_called (k, panic) h = absurd h

    pub loaded_pin-PinsPage :
        Ensures
          (λ held p''. PinsPage pages p held p'' × (held.page ≡ q))
          (Still contents IsStrategy p)
          (loaded_pin store policy i q p')
    unfolding loaded_pin
    loaded_pin-PinsPage =
        let at = same_index p' i moves.valid in_range in
        rw at (
          resume-Ensures
            (λ u p''.
              PinsPage pages p (record { index = i; page = q }) p'' × (p''.store ≡ p'.store))
            (λ p''. ⊥) (λ held p''. PinsPage pages p held p'' × (held.page ≡ q))
            (Still contents IsStrategy p) (λ u. pure (record { index = i; page = q }))
            (on_strategy (policy.load i) p')
            (strategy_called (policy.load i p'.strategy)
              (rule.loads (length p'.frames) i p'.strategy moves.valid.strategy in_range))
            (λ u p'' (h, e). (h, refl)) (λ p'' h. absurd h))

  -- A resident page's frame gets one more pin.
  module _ (p : Pool S K) (q i : ℕ) (f : Frame) (v : IsPool contents IsStrategy p)
      (here : lookup q p.pages ≡ some i) (at : get_elem? p.frames i ≡ some f) where
    pinned_once : Frame
    pinned_once = record f { pins = f.pins + 1 }

    bumped : Pool S K
    bumped = record p { frames = set p.frames i pinned_once }

    view-here : view contents p q ≡ some f.bytes
    view-here = ap (shown contents p.store p.frames q) here ∙ ap bytes_at at

    bump-Moves :
        f.pins + 1 < 2 ^ 32
        → Moves contents IsStrategy
            (view contents p)
            (update (pins_of p) i (suc (pins_of p i)))
            p
            bumped
    unfolding bumped pinned_once
    bump-Moves small =
        let (g, at', tag', clean) = v.mapped q i here in
        let two : some g ≡ some f = sym at' ∙ at in
        let frame : g ≡ f = cc in
        let tag : f.tag ≡ some q = ap (λ (h : Frame). h.tag) (sym frame) ∙ tag' in
        let tidy : Clean contents p.store q f = subst (Clean contents p.store q) frame clean in
        let count : f.pins + 1 ≡ suc (pins_of p i) = let n = ap pins_at at in omega arith in
        Moves-same contents IsStrategy _ (view contents p) _ _ p _
          (update-old (view contents p) q (some f.bytes) (sym view-here))
          (update-same (pins_of p) (pins_of p) i _ _ (λ j. refl) count)
          (set-Moves contents IsStrategy p i q f pinned_once v here at tag tidy small)

    in_range : i < length bumped.frames
    unfolding bumped
    in_range =
        let lt = get_elem?-eq-some p.frames i at in omega (arith, length-set p.frames i pinned_once)

    -- An answer that is a pin.
    abbrev pub IsPinned : Option Pin → Pool S K → Type 0
    IsPinned none p' = ⊥
    IsPinned (some held) p' =
        PinsPage (view contents p) p held p' × (held.page ≡ q) × (p'.store ≡ p.store)

    accessed-IsPinned :
        (record_access : Bool)
        → f.pins + 1 < 2 ^ 32
        → Ensures IsPinned
            (Still contents IsStrategy p)
            (accessed store policy record_access (record { index = i; page = q }) bumped)
    unfolding bumped
    accessed-IsPinned false small = (record { moves = bump-Moves small; found = here }, refl, refl)
    accessed-IsPinned true small =
        resume-Ensures
          (λ u p''.
            PinsPage (view contents p) p (record { index = i; page = q }) p''
            × (p''.store ≡ p.store))
          (λ p''. ⊥) IsPinned (Still contents IsStrategy p)
          (λ u. pure (some (record { index = i; page = q }))) (on_strategy (policy.access i) bumped)
          (strategy_called (view contents p) p q i bumped (bump-Moves small) here in_range
            (policy.access i p.strategy)
            (rule.accesses (length bumped.frames) i p.strategy (bump-Moves small).valid.strategy
              in_range))
          (λ u p'' (h, e). (h, refl, e)) (λ p'' h. absurd h)

    pub resident_pin-IsPinned :
        (record_access : Bool)
        → Ensures IsPinned
            (Still contents IsStrategy p)
            (resident_pin store policy record_access q p)
    unfolding resident_pin bumped pinned_once
    resident_pin-IsPinned record_access =
        let still = Still-refl contents IsStrategy p v in
        subst
          (λ o.
            Ensures IsPinned (Still contents IsStrategy p)
              (pin_found store policy record_access q o p))
          (sym here)
          (frame-Ensures contents IsStrategy store policy IsPinned (Still contents IsStrategy p) p i
            f at still
            (λ f.
              lift (guard (ltb (f.pins + 1) (2 ^ 32)) pin_overflow)
              >> (put i (record f { pins = f.pins + 1 })
                  >> accessed store policy record_access (pinned_buffer store policy i q)))
            (guard-Ensures IsPinned (Still contents IsStrategy p) (ltb (f.pins + 1) (2 ^ 32))
              pin_overflow
              (put i (record f { pins = f.pins + 1 })
                >> accessed store policy record_access (pinned_buffer store policy i q))
              p still
              (λ h.
                rw (same_index p i v (get_elem?-eq-some p.frames i at))
                  (accessed-IsPinned record_access (ground arith)))))
