-- ===== src/Storage/Pool/FlushAll.antt =====
-- `BufferPool::flush_page` (crates/storage/src/buffer.rs): the pin that it takes and drops.
use chili_db.Prelude.{
  ℕ, suc, ◌≡◌, refl, sym, ap, ◌∙◌, subst, Bool, true, false, not, Option, none, some, ◌==◌,
  get_elem?, ◌-◌, eq→==, arith, inl, inr, Bool-cases, Result, ok, err, panic,
}
use chili_db.Prelude.Methods.{
  Ensures, resume, resume-Ensures, map-Ensures, guard-Ensures, lift, pure, ◌>>=◌, ◌>>◌,
}
use chili_db.Bytes.{Page}
use chili_db.Storage.Store.{PageStore, Contract}
use chili_db.Storage.Pool.{BufferError, Frame, VictimStrategy, Pool, Pin, poisoned}
use chili_db.Storage.Pool.PageTable.{lookup}
use chili_db.Storage.Pool.Ops.{
  resident_pin, pin_found, drop_pin, write_back, unpinned, flushed, flush_page,
}
use chili_db.Storage.Pool.Cached.{
  Policy, pins_of, view, shown, IsPool, Still, Still-refl, update, update-positive, Moves-same,
  Moves-trans, Moves-Still,
}
use chili_db.Storage.Pool.Pinning.{PinsPage, IsPinned, resident_pin-IsPinned}
use chili_db.Storage.Pool.Pinning.{PinsPage, IsPinned, resident_pin-IsPinned}
use chili_db.Storage.Pool.Holding.{Dropped, drop_pin-Dropped}
use chili_db.Storage.Pool.Flush.{Saves, write_back-Saves}

module _ {S K : Type 0} (contents : S → ℕ → Option Page) (IsStrategy : ℕ → K → Type 0)
    (store : PageStore S) (policy : VictimStrategy K) (law : Contract contents store)
    (rule : Policy policy IsStrategy) where
  module _ (p : Pool S K) (held : Pin) (p₁ p₂ : Pool S K)
      (pins : PinsPage contents IsStrategy store policy rule (view contents p) p held p₁)
      (still : Still contents IsStrategy p₁ p₂) where
    count₁ : pins_of p₁ held.index ≡ suc (pins_of p held.index)
    count₁ = pins.moves.pinned held.index ∙ rw (eq→== held.index held.index refl) refl

    here₂ : lookup held.page p₂.pages ≡ some held.index
    here₂ = still.stays held.page held.index pins.found (omega (arith, count₁))

    count₂ : pins_of p₂ held.index ≡ suc (pins_of p held.index)
    count₂ = still.pinned held.index ∙ count₁

    counts_back :
        (j : ℕ) → update (pins_of p₂) held.index (pins_of p₂ held.index - 1) j ≡ pins_of p j
    counts_back j = elim (Bool-cases (j == held.index)) [
      | inl eq ↦
          let same : j ≡ held.index = ground arith in
          let n = count₂ in
          let less : pins_of p₂ held.index - 1 ≡ pins_of p held.index = omega arith in
          rw eq (less ∙ ap (pins_of p) (sym same))
      | inr ne ↦
          let before : pins_of p₁ j ≡ pins_of p j = pins.moves.pinned j ∙ rw ne refl in
          rw ne (still.pinned j ∙ before)
    ]

    unpinned-Still :
        (p₃ : Pool S K)
        → Dropped contents IsStrategy store policy p₂ still.valid held here₂ p₃
        → Still contents IsStrategy p p₃
    unpinned-Still p₃ h =
        let more =
          update-positive (pins_of p) held.index (suc (pins_of p held.index)) (omega arith) in
        Moves-same contents IsStrategy _ (view contents p) _ (pins_of p) p p₃
          (λ id. still.seen id ∙ pins.moves.seen id) counts_back
          (Moves-trans contents IsStrategy _ _ _ _ p p₂ p₃ more
            (Moves-Still contents IsStrategy (view contents p) _ p p₁ p₂ more pins.moves still)
            h.moves)

    -- The pin is dropped whatever the result is.
    unpinned-Ensures :
        (Q : Pool S K → Type 0)
        → ((p₃ : Pool S K) → p₃.store ≡ p₂.store → Still contents IsStrategy p p₃ → Q p₃)
        → Ensures (λ u. Q) (λ p₃. ⊥) (drop_pin held p₂)
    unpinned-Ensures Q k =
        map-Ensures (λ u. Dropped contents IsStrategy store policy p₂ still.valid held here₂)
          (λ p₃. ⊥) (λ u. Q) (λ p₃. ⊥) (drop_pin held p₂)
          (drop_pin-Dropped contents IsStrategy store policy p₂ still.valid held here₂
            (omega (arith, count₂)))
          (λ u p₃ h. k p₃ h.same_store (unpinned-Still p₃ h)) (λ p₃ h. h)

  module _ (p : Pool S K) (v : IsPool contents IsStrategy p) (q : ℕ) where
    -- The answer of `flush_page`, whether the page was resident or not.
    abbrev pub HasFlushed : Bool → Pool S K → Type 0
    HasFlushed found p' = Saves contents IsStrategy p q p'

    module _ (held : Pin) (page : held.page ≡ q) (p₁ : Pool S K)
        (pins : PinsPage contents IsStrategy store policy rule (view contents p) p held p₁)
        (same : p₁.store ≡ p.store) where
      saved_then_unpinned :
          (p₂ p₃ : Pool S K)
          → Saves contents IsStrategy p₁ held.page p₂
          → p₃.store ≡ p₂.store
          → Still contents IsStrategy p p₃
          → Saves contents IsStrategy p q p₃
      saved_then_unpinned p₂ p₃ h e still = record {
        still = still;
        saved =
            ap (λ s. contents s q) e
            ∙ ap (contents p₂.store) (sym page)
            ∙ h.saved
            ∙ pins.moves.seen held.page
            ∙ ap (view contents p) page;
        keeps = λ r k.
            ap (λ s. contents s r) e
            ∙ h.keeps r (ap (λ s. contents s r) same ∙ k ∙ sym (pins.moves.seen r))
            ∙ pins.moves.seen r;
      }

      unpinned-HasFlushed :
          (r : Pool S K × Result BufferError Bool)
          → Ensures (λ b. Saves contents IsStrategy p₁ held.page) (Still contents IsStrategy p₁) r
          → Ensures HasFlushed (Still contents IsStrategy p) (unpinned store policy held r)
      unpinned-HasFlushed (p₂, ok b) h =
          resume-Ensures (λ u. Saves contents IsStrategy p q) (λ p₃. ⊥) HasFlushed
            (Still contents IsStrategy p) (λ u. lift (ok b)) (drop_pin held p₂)
            (unpinned-Ensures p held p₁ p₂ pins h.still (Saves contents IsStrategy p q)
              (λ p₃ e still. saved_then_unpinned p₂ p₃ h e still))
            (λ u p₃ k. k) (λ p₃ k. absurd k)
      unpinned-HasFlushed (p₂, err e) h =
          resume-Ensures (λ u. Still contents IsStrategy p) (λ p₃. ⊥) HasFlushed
            (Still contents IsStrategy p) (λ u. lift (err e)) (drop_pin held p₂)
            (unpinned-Ensures p held p₁ p₂ pins h (Still contents IsStrategy p)
              (λ p₃ e' still. still))
            (λ u p₃ k. k) (λ p₃ k. absurd k)
      unpinned-HasFlushed (p₂, panic) h = absurd h

      flushed-HasFlushed :
          Ensures HasFlushed (Still contents IsStrategy p) (flushed store policy (some held) p₁)
      flushed-HasFlushed = unpinned-HasFlushed ((write_back store policy held >> pure true) p₁) (
          resume-Ensures (λ u. Saves contents IsStrategy p₁ held.page)
            (Still contents IsStrategy p₁) (λ b. Saves contents IsStrategy p₁ held.page)
            (Still contents IsStrategy p₁) (λ u. pure true) (write_back store policy held p₁)
            (write_back-Saves contents IsStrategy store policy law p₁ pins.moves.valid held
              pins.found)
            (λ u p₂ h. h) (λ p₂ h. h))

    found_or_not :
        (o : Option ℕ)
        → lookup q p.pages ≡ o
        → Ensures HasFlushed
            (Still contents IsStrategy p)
            (resume (flushed store policy) (pin_found store policy false q o p))
    unfolding resident_pin
    found_or_not none e = record {
      still = Still-refl contents IsStrategy p v;
      saved = sym (ap (shown contents p.store p.frames q) e);
      keeps = λ r h. h;
    }
    found_or_not (some i) e =
        let (f, at, tag, clean) = v.mapped q i e in
        let Q : Option Pin → Pool S K → Type 0 =
          IsPinned contents IsStrategy store policy rule p q i f v e at in
        resume-Ensures Q (Still contents IsStrategy p) HasFlushed (Still contents IsStrategy p)
          (flushed store policy) (pin_found store policy false q (some i) p)
          (subst (λ o. Ensures Q (Still contents IsStrategy p) (pin_found store policy false q o p))
            e (resident_pin-IsPinned contents IsStrategy store policy rule p q i f v e at false))
          (pinned_now f at) (λ p' h. h)
      where
        pinned_now :
            (f : Frame) (at : get_elem? p.frames i ≡ some f) (a : Option Pin) (p' : Pool S K)
            → IsPinned contents IsStrategy store policy rule p q i f v e at a p'
            → Ensures HasFlushed (Still contents IsStrategy p) (flushed store policy a p')
        pinned_now f at none p' h = absurd h
        pinned_now f at (some held) p' (pins, page, same) =
            flushed-HasFlushed held page p' pins same

    -- On a pool that meets its invariant, over a store and a strategy that keep their promises,
    -- `flush_page` ends without a panic, and the pages that a client sees, the pin counts and the
    -- frames of pinned pages are as they were. If it succeeds, resident or not, the store has the
    -- page as a client sees it, and lost no other page that it had so.
    pub flush_page-HasFlushed :
        Ensures HasFlushed (Still contents IsStrategy p) (flush_page store policy q p)
    unfolding flush_page resident_pin
    flush_page-HasFlushed =
        guard-Ensures HasFlushed (Still contents IsStrategy p) (not p.is_poisoned) poisoned
          (resident_pin store policy false q >>= flushed store policy) p
          (Still-refl contents IsStrategy p v) (λ e. found_or_not (lookup q p.pages) refl)
