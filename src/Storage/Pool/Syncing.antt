-- ===== src/Storage/Pool/Syncing.antt =====
-- `BufferPool::flush_all` (crates/storage/src/buffer.rs): the store after it.
use chili_db.Prelude.{
  All, leb, ℕ, ◌≡◌, sym, ap, ◌∙◌, subst, not, List, [], ◌∷◌, Option, some, ◌==◌, if◌then◌else◌,
  arith, inl, inr, Option-cases, Bool-cases, Result, ok, err, panic,
}
use chili_db.Prelude.Methods.{Ensures, resume, resume-Ensures, map-Ensures, guard-Ensures}
use chili_db.Bytes.{Page}
use chili_db.Storage.Store.{IoError, Same, PageStore, Contract}
use chili_db.Storage.Pool.{VictimStrategy, Pool, poisoned}
use chili_db.Storage.Pool.PageTable.{Table, lookup, keys, place, sorted}
use chili_db.Storage.Pool.Ops.{as_io, on_store, flush_page, flush_each, flush_all}
use chili_db.Storage.Pool.Cached.{
  Policy, pins_of, view, shown, IsPool, Still, Still-refl, Moves-Still, same-Still,
}
use chili_db.Storage.Pool.Flush.{Saves}
use chili_db.Storage.Pool.FlushAll.{flush_page-HasFlushed}

module _ (P : ℕ → Type 0) where
  place-All : (k : ℕ) (xs : List ℕ) → All P (place k xs) → P k × All P xs
  unfolding place
  place-All k [] h = h
  place-All k (x ∷ xs) h = elim (Bool-cases (leb k x)) [
    | inl e ↦ subst (λ b. All P (if b then k ∷ x ∷ xs else x ∷ place k xs)) e h
    | inr e ↦
        let (here, rest) = subst (λ b. All P (if b then k ∷ x ∷ xs else x ∷ place k xs)) e h in
        let (at, others) = place-All k xs rest in (at, (here, others))
  ]

  sorted-All : (xs : List ℕ) → All P (sorted xs) → All P xs
  unfolding sorted
  sorted-All [] h = tt
  sorted-All (x ∷ xs) h = let (here, rest) = place-All x (sorted xs) h in (here, sorted-All xs rest)

  keys-All : (k i : ℕ) (m : Table) → All P (keys m) → lookup k m ≡ some i → P k
  unfolding lookup
  keys-All k i [] h e = cc
  keys-All k i ((k', v) ∷ m) (here, rest) e = elim (Bool-cases (k == k')) [
    | inl eq ↦ let same : k' ≡ k = ground arith in subst P same here
    | inr ne ↦ keys-All k i m rest (subst (λ b. (if b then some v else lookup k m) ≡ some i) ne e)
  ]

module _ {S K : Type 0} (contents : S → ℕ → Option Page) (IsStrategy : ℕ → K → Type 0)
    (store : PageStore S) (policy : VictimStrategy K) (law : Contract contents store)
    (rule : Policy policy IsStrategy) where
  -- Every one of these pages is in the store as it was seen, and what was is still.
  pub record SavesEach (p : Pool S K) (pages : List ℕ) (p' : Pool S K) : Type 0 where
    pub still : Still contents IsStrategy p p'
    pub saved : All (λ q. contents p'.store q ≡ view contents p q) pages
    pub keeps :
        (r : ℕ) → contents p.store r ≡ view contents p r → contents p'.store r ≡ view contents p r

  flush_each-SavesEach :
      (pages : List ℕ) (p : Pool S K)
      → IsPool contents IsStrategy p
      → Ensures
          (λ u. SavesEach p pages)
          (Still contents IsStrategy p)
          (flush_each store policy pages p)
  unfolding flush_each
  flush_each-SavesEach [] p v = record {
    still = Still-refl contents IsStrategy p v;
    saved = tt;
    keeps = λ r h. h;
  }
  flush_each-SavesEach (q ∷ pages) p v =
      resume-Ensures (λ b. Saves contents IsStrategy p q) (Still contents IsStrategy p)
        (λ u. SavesEach p (q ∷ pages)) (Still contents IsStrategy p)
        (λ b. flush_each store policy pages) (flush_page store policy q p)
        (flush_page-HasFlushed contents IsStrategy store policy law rule p v q)
        (λ b p' h.
          map-Ensures (λ u. SavesEach p' pages) (Still contents IsStrategy p')
            (λ u. SavesEach p (q ∷ pages)) (Still contents IsStrategy p)
            (flush_each store policy pages p') (flush_each-SavesEach pages p' h.still.valid)
            (λ u p'' k. both p' p'' h k)
            (λ p'' k.
              Moves-Still contents IsStrategy (view contents p) (pins_of p) p p' p'' (λ j g. g)
                h.still k))
        (λ p' h. h)
    where
      both :
          (p' p'' : Pool S K)
          → Saves contents IsStrategy p q p'
          → SavesEach p' pages p''
          → SavesEach p (q ∷ pages) p''
      both p' p'' h k =
          let later : (r : ℕ)
              → contents p'.store r ≡ view contents p r
              → contents p''.store r ≡ view contents p r =
            λ r e. k.keeps r (e ∙ sym (h.still.seen r)) ∙ h.still.seen r in
          record {
            still =
                Moves-Still contents IsStrategy (view contents p) (pins_of p) p p' p'' (λ j g. g)
                  h.still k.still;
            saved = (later q h.saved, seen_all pages p' p'' h.still.seen k.saved);
            keeps = λ r e. later r (h.keeps r e);
          }
        where
          seen_all :
              (qs : List ℕ) (p' p'' : Pool S K)
              → ((r : ℕ) → view contents p' r ≡ view contents p r)
              → All (λ r. contents p''.store r ≡ view contents p' r) qs
              → All (λ r. contents p''.store r ≡ view contents p r) qs
          seen_all [] p' p'' e h = tt
          seen_all (r ∷ qs) p' p'' e (h, hs) = (h ∙ e r, seen_all qs p' p'' e hs)

  -- The answer of `flush_all`: the store holds every page as a client sees it.
  pub record Durable (p p' : Pool S K) : Type 0 where
    pub still : Still contents IsStrategy p p'
    pub stored : (q : ℕ) → contents p'.store q ≡ view contents p q

  module _ (p : Pool S K) (v : IsPool contents IsStrategy p) where
    all_stored :
        (p' : Pool S K)
        → SavesEach p (sorted (keys p.pages)) p'
        → (q : ℕ) → contents p'.store q ≡ view contents p q
    all_stored p' h q = elim (Option-cases (lookup q p.pages)) [
      | inl e ↦ h.keeps q (sym (ap (shown contents p.store p.frames q) e))
      | inr (i, e) ↦
          let P : ℕ → Type 0 = λ r. contents p'.store r ≡ view contents p r in
          keys-All P q i p.pages (sorted-All P (keys p.pages) h.saved) e
    ]

    synced :
        (p' : Pool S K)
        → Durable p p'
        → (r : S × Result IoError (Unit {0}))
        → Ensures (λ u. Same contents p'.store) (Same contents p'.store) r
        → Ensures
            (λ u. Durable p)
            (Still contents IsStrategy p)
            (record p' { store = r.0 }, as_io r.1)
    synced p' h (s, ok u) same = record {
      still =
          Moves-Still contents IsStrategy (view contents p) (pins_of p) p p' _ (λ j g. g) h.still
            (same-Still contents IsStrategy p' s h.still.valid same);
      stored = λ q. same q ∙ h.stored q;
    }
    synced p' h (s, err e) same =
        Moves-Still contents IsStrategy (view contents p) (pins_of p) p p' _ (λ j g. g) h.still
          (same-Still contents IsStrategy p' s h.still.valid same)
    synced p' h (s, panic) e = absurd e

    -- On a pool that meets its invariant, over a store and a strategy that keep their promises,
    -- `flush_all` ends without a panic, and the pages that a client sees, the pin counts and the
    -- frames of pinned pages are as they were. If it succeeds, the store holds every page as a
    -- client sees it.
    pub flush_all-Durable :
        Ensures (λ u. Durable p) (Still contents IsStrategy p) (flush_all store policy p)
    unfolding flush_all
    flush_all-Durable =
        let pages = sorted (keys p.pages) in
        guard-Ensures (λ u. Durable p) (Still contents IsStrategy p) (not p.is_poisoned) poisoned
          (λ p.
            resume (λ u. on_store store.sync) (flush_each store policy (sorted (keys p.pages)) p))
          p (Still-refl contents IsStrategy p v)
          (λ e.
            resume-Ensures (λ u. SavesEach p pages) (Still contents IsStrategy p) (λ u. Durable p)
              (Still contents IsStrategy p) (λ u. on_store store.sync)
              (flush_each store policy pages p) (flush_each-SavesEach pages p v)
              (λ u p' h.
                synced p' (record { still = h.still; stored = all_stored p' h })
                  (store.sync p'.store) (law.syncs p'.store))
              (λ p' h. h))
