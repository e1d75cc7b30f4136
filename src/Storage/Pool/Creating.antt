-- ===== src/Storage/Pool/Creating.antt =====
-- `BufferPool::new_page`: what a client sees of it.
use chili_db.Prelude.{ℕ, ◌<◌, ◌≡◌, refl, sym, ap, ◌∙◌, subst, not, Option, some, length, arith}
use chili_db.Prelude.Methods.{
  Method, Ensures, resume-Ensures, map-Ensures, guard-Ensures, pure, ◌>>=◌, ◌>>◌,
}
use chili_db.Bytes.{Page, zeros}
use chili_db.Storage.Store.{PageStore, Contract}
use chili_db.Storage.Pool.{BufferError, VictimStrategy, Pool, Pin, poisoned}
use chili_db.Storage.Pool.Ops.{
  on_store, check, victim, loaded_pin, with_victim, flush_victim, publish, new_page,
}
use chili_db.Storage.Pool.Cached.{
  Policy, pins_of, view, IsPool, Still, Still-refl, update, update-same, Still-trans, Moves-same,
  Moves-Still,
}
use chili_db.Storage.Pool.Victims.{Picked, victim-Picked, check-Ensures, with_victim-Ensures}
use chili_db.Storage.Pool.Replacing.{Created, create-Created}
use chili_db.Storage.Pool.Pinning.{PinsPage, loaded_pin-PinsPage}
use chili_db.Storage.Pool.Loading.{Fresh, victim_frame, counted_once}

abbrev create_rest :
    {S K : Type 0} → PageStore S → VictimStrategy K → ℕ → Method (Pool S K) BufferError Pin
create_rest store policy i =
    with_victim store policy i (λ f.
      flush_victim store policy f
      >> (do page ← on_store store.allocate_page; publish store policy i page zeros f; pure page))
    >>= λ page. loaded_pin store policy i page

module _ {S K : Type 0} (contents : S → ℕ → Option Page) (IsStrategy : ℕ → K → Type 0)
    (store : PageStore S) (policy : VictimStrategy K) (law : Contract contents store)
    (rule : Policy policy IsStrategy) (p : Pool S K) (v : IsPool contents IsStrategy p) where
  abbrev pub Answer : Pin → Pool S K → Type 0
  Answer = Fresh contents IsStrategy store policy law rule p v

  module _ (i : ℕ) (p' : Pool S K) (picked : Picked contents IsStrategy store policy p i p') where
    abbrev Made : ℕ → Pool S K → Type 0
    Made =
        Created contents IsStrategy store policy law p' i picked.frame picked.still.valid
          picked.is_victim

    created_in :
        (q : ℕ) (p'' : Pool S K)
        → Made q p''
        → Ensures Answer (Still contents IsStrategy p) (loaded_pin store policy i q p'')
    created_in q p'' h =
        let pages = update (view contents p) q (some zeros) in
        let moves = Still-trans contents IsStrategy pages _ p p' p'' picked.still (
          Moves-same contents IsStrategy _ pages _ _ p' p''
            (update-same (view contents p') (view contents p) q (some zeros) (some zeros)
              picked.still.seen refl)
            (counted_once contents IsStrategy store policy law rule p v i p' picked)
            h.loaded.moves) in
        let in_range : i < length p''.frames =
          let lt = victim_frame contents IsStrategy store policy law rule p v i p' picked in
          let e = h.loaded.same_frames in omega arith in
        map-Ensures
          (λ held p3.
            PinsPage contents IsStrategy store policy rule pages p held p3 × (held.page ≡ q))
          (Still contents IsStrategy p) Answer (Still contents IsStrategy p)
          (loaded_pin store policy i q p'')
          (loaded_pin-PinsPage contents IsStrategy store policy rule pages p q i p'' moves
            h.loaded.found in_range)
          (λ held p3 (pins, page). record {
            fresh = ap (view contents p) page ∙ sym (picked.still.seen q) ∙ h.fresh;
            pins =
                subst
                  (λ k.
                    PinsPage contents IsStrategy store policy rule
                      (update (view contents p) k (some zeros)) p held p3)
                  (sym page) pins;
          })
          (λ p3 k. k)

    create_in :
        Ensures Answer (Still contents IsStrategy p) ((check i >> create_rest store policy i) p')
    create_in =
        let valid = picked.still.valid in
        check-Ensures contents IsStrategy store policy Answer (Still contents IsStrategy p) p' i
          picked.frame picked.is_victim.at picked.still (create_rest store policy i)
          (resume-Ensures Made (Still contents IsStrategy p') Answer (Still contents IsStrategy p)
            (λ q. loaded_pin store policy i q) (with_victim store policy i _ p')
            (with_victim-Ensures contents IsStrategy store policy Made
              (Still contents IsStrategy p') p' i picked.frame picked.is_victim.at
              (Still-refl contents IsStrategy p' valid)
              (λ f. flush_victim store policy f >> (do
                page ← on_store store.allocate_page
                publish store policy i page zeros f
                pure page))
              picked.is_victim.unpinned
              (create-Created contents IsStrategy store policy law p' i picked.frame valid
                picked.is_victim))
            created_in
            (λ p'' h.
              Moves-Still contents IsStrategy (view contents p) (pins_of p) p p' p'' (λ j g. g)
                picked.still h))

  -- On a pool that meets its invariant, over a store and a strategy that keep their promises,
  -- `new_page` ends without a panic. If it succeeds, the page did not exist before; now it is seen
  -- as zeros and is resident in the frame of the pin, whose pin count is one more; all else is as
  -- it was. If it fails, the pages that a client sees, the pin counts and the frames of pinned
  -- pages are as they were.
  pub new_page-Fresh : Ensures Answer (Still contents IsStrategy p) (new_page store policy p)
  unfolding new_page
  new_page-Fresh =
      guard-Ensures Answer (Still contents IsStrategy p) (not p.is_poisoned) poisoned
        (victim store policy >>= λ i. check i >> create_rest store policy i) p
        (Still-refl contents IsStrategy p v)
        (λ e.
          resume-Ensures (Picked contents IsStrategy store policy p) (Still contents IsStrategy p)
            Answer (Still contents IsStrategy p) (λ i. check i >> create_rest store policy i)
            (victim store policy p) (victim-Picked contents IsStrategy store policy p v rule)
            create_in (λ p' h. h))
