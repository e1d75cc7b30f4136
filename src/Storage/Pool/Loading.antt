-- ===== src/Storage/Pool/Loading.antt =====
-- `BufferPool::pin` (crates/storage/src/buffer.rs): what a client sees of it.
use chili_db.Prelude.{
  ℕ, suc, ◌<◌, ◌≡◌, refl, sym, ap, ◌∙◌, subst, true, not, Option, none, some, length, get_elem?,
  get_elem?-eq-some, arith, Result, ok, err, panic,
}
use chili_db.Prelude.Methods.{
  Method, Ensures, resume, resume-Ensures, map-Ensures, guard-Ensures, ◌>>=◌, ◌>>◌,
}
use chili_db.Bytes.{Page, zeros}
use chili_db.Storage.Store.{IoError, PageStore, Contract, ReadBack}
use chili_db.Storage.Pool.{BufferError, Frame, VictimStrategy, Pool, Pin, poisoned}
use chili_db.Storage.Pool.PageTable.{lookup}
use chili_db.Storage.Pool.Ops.{
  as_io, on_store, check, victim, resident_pin, pin_found, or_load, loaded_pin, with_victim,
  flush_victim, publish, load_page, pin,
}
use chili_db.Storage.Pool.Cached.{
  Policy, pins_of, pins_at, view, IsPool, Still, Still-refl, update, update-same, Still-trans,
  Moves-same, Moves-Still, same-Still,
}
use chili_db.Storage.Pool.Installing.{IsVictim}
use chili_db.Storage.Pool.Victims.{Picked, victim-Picked, check-Ensures, with_victim-Ensures}
use chili_db.Storage.Pool.Replacing.{Loaded, replace-Loaded}
use chili_db.Storage.Pool.Pinning.{PinsPage, IsPinned, loaded_pin-PinsPage, resident_pin-IsPinned}

-- What follows the read, and the allocation, of `pin` and `new_page`.
abbrev load_rest :
    {S K : Type 0}
    → PageStore S
    → VictimStrategy K
    → ℕ
    → ℕ
    → Page
    → Method (Pool S K) BufferError Pin
load_rest store policy i q bytes =
    with_victim store policy i
      (λ f. flush_victim store policy f >> publish store policy i q bytes f)
    >> loaded_pin store policy i q

module _ {S K : Type 0} (contents : S → ℕ → Option Page) (IsStrategy : ℕ → K → Type 0)
    (store : PageStore S) (policy : VictimStrategy K) (law : Contract contents store)
    (rule : Policy policy IsStrategy) (p : Pool S K) (v : IsPool contents IsStrategy p) where
  -- The answer of `pin`: nothing that is seen changes, and the page is pinned.
  pub record Pinned (q : ℕ) (held : Pin) (p' : Pool S K) : Type 0 where
    pub same_page : held.page ≡ q
    pub pins : PinsPage contents IsStrategy store policy rule (view contents p) p held p'

  -- The answer of `new_page`: a page that did not exist, now zero and pinned.
  pub record Fresh (held : Pin) (p' : Pool S K) : Type 0 where
    pub fresh : view contents p held.page ≡ none
    pub pins :
        PinsPage contents IsStrategy store policy rule
          (update (view contents p) held.page (some zeros))
          p
          held
          p'

  module _ (i : ℕ) (p' : Pool S K) (picked : Picked contents IsStrategy store policy p i p') where
    pub victim_frame : i < length p'.frames
    victim_frame = get_elem?-eq-some p'.frames i picked.is_victim.at

    -- The pins of the frame, before and after.
    no_pins : pins_of p i ≡ 0
    no_pins =
        sym (picked.still.pinned i) ∙ ap pins_at picked.is_victim.at ∙ picked.is_victim.unpinned

    pub counted_once :
        (j : ℕ) → update (pins_of p') i 1 j ≡ update (pins_of p) i (suc (pins_of p i)) j
    counted_once =
        update-same (pins_of p') (pins_of p) i 1 (suc (pins_of p i)) picked.still.pinned
          (ap suc (sym no_pins))

    -- The page comes from the store into the frame.
    module _ (q : ℕ) (absent : lookup q p.pages ≡ none) where
      module _ (s : S) (bytes : Page) (stored : contents p'.store q ≡ some bytes)
          (same : (id : ℕ) → contents s id ≡ contents p'.store id) where
        after_read : Pool S K
        after_read = record p' { store = s }

        still_after : Still contents IsStrategy p' after_read
        unfolding after_read
        still_after = same-Still contents IsStrategy p' s picked.still.valid same

        ready : IsVictim contents IsStrategy after_read i picked.frame
        unfolding after_read
        ready =
            let victim = picked.is_victim in
            record { at = victim.at; unpinned = victim.unpinned; next_unused = victim.next_unused }

        loaded_in :
            (p'' : Pool S K)
            → Loaded contents IsStrategy store policy law after_read i picked.frame
                still_after.valid ready
                (view contents after_read)
                q
                p''
            → Ensures (Pinned q) (Still contents IsStrategy p) (loaded_pin store policy i q p'')
        unfolding after_read
        loaded_in p'' h =
            let moves = Still-trans contents IsStrategy (view contents p) _ p p' p'' picked.still (
              Still-trans contents IsStrategy (view contents p) _ p' after_read p'' still_after (
                Moves-same contents IsStrategy (view contents after_read) (view contents p) _ _
                  after_read p'' (λ id. still_after.seen id ∙ picked.still.seen id) counted_once
                  h.moves)) in
            let in_range : i < length p''.frames =
              let lt = victim_frame in let e = h.same_frames in omega arith in
            map-Ensures
              (λ held p3.
                PinsPage contents IsStrategy store policy rule (view contents p) p held p3
                × (held.page ≡ q))
              (Still contents IsStrategy p) (Pinned q) (Still contents IsStrategy p)
              (loaded_pin store policy i q p'')
              (loaded_pin-PinsPage contents IsStrategy store policy rule (view contents p) p q i p''
                moves h.found in_range)
              (λ held p3 (pins, page). record { same_page = page; pins = pins }) (λ p3 k. k)

        read_then_loaded :
            Ensures
              (Pinned q)
              (Still contents IsStrategy p)
              (load_rest store policy i q bytes after_read)
        unfolding after_read
        read_then_loaded =
            let valid = still_after.valid in
            let here =
              Still-trans contents IsStrategy (view contents p) (pins_of p) p p' after_read
                picked.still
                (Moves-same contents IsStrategy _ (view contents p) _ (pins_of p) p' after_read
                  picked.still.seen picked.still.pinned still_after) in
            let absent' : lookup q p'.pages ≡ none = ap (lookup q) picked.same_pages ∙ absent in
            let Q : Unit {0} → Pool S K → Type 0 = λ u.
              Loaded contents IsStrategy store policy law after_read i picked.frame valid ready
                (view contents after_read) q in
            resume-Ensures Q (Still contents IsStrategy after_read) (Pinned q)
              (Still contents IsStrategy p) (λ u. loaded_pin store policy i q)
              (with_victim store policy i _ after_read)
              (with_victim-Ensures contents IsStrategy store policy Q
                (Still contents IsStrategy after_read) after_read i picked.frame ready.at
                (Still-refl contents IsStrategy after_read valid)
                (λ f. flush_victim store policy f >> publish store policy i q bytes f)
                ready.unpinned
                (replace-Loaded contents IsStrategy store policy law after_read i picked.frame valid
                  ready q bytes absent' (same q ∙ stored)))
              (λ u p'' h. loaded_in p'' h)
              (λ p'' h.
                Moves-Still contents IsStrategy (view contents p) (pins_of p) p after_read p''
                  (λ j g. g) here h)

      read_in :
          (r : S × Result IoError Page)
          → ReadBack contents q p'.store r
          → Ensures
              (Pinned q)
              (Still contents IsStrategy p)
              (resume (load_rest store policy i q) (record p' { store = r.0 }, as_io r.1))
      unfolding after_read
      read_in (s, ok bytes) (stored, same) = read_then_loaded s bytes stored same
      read_in (s, err e) same =
          Moves-Still contents IsStrategy (view contents p) (pins_of p) p p' _ (λ j g. g)
            picked.still (same-Still contents IsStrategy p' s picked.still.valid same)
      read_in (s, panic) e = absurd e

    pub load_in :
        (q : ℕ)
        → lookup q p.pages ≡ none
        → Ensures
            (Pinned q)
            (Still contents IsStrategy p)
            ((check i >> (on_store (store.read_page q) >>= load_rest store policy i q)) p')
    load_in q absent =
        check-Ensures contents IsStrategy store policy (Pinned q) (Still contents IsStrategy p) p' i
          picked.frame picked.is_victim.at picked.still
          (on_store (store.read_page q) >>= load_rest store policy i q)
          (read_in q absent (store.read_page q p'.store) (law.reads q p'.store))

  load_page-Pinned :
      (q : ℕ)
      → lookup q p.pages ≡ none
      → Ensures (Pinned q) (Still contents IsStrategy p) (load_page store policy q p)
  unfolding load_page
  load_page-Pinned q absent =
      resume-Ensures (Picked contents IsStrategy store policy p) (Still contents IsStrategy p)
        (Pinned q) (Still contents IsStrategy p)
        (λ i. check i >> (on_store (store.read_page q) >>= load_rest store policy i q))
        (victim store policy p) (victim-Picked contents IsStrategy store policy p v rule)
        (λ i p' picked. load_in i p' picked q absent) (λ p' h. h)

  resident_or_loaded :
      (q : ℕ) (o : Option ℕ)
      → lookup q p.pages ≡ o
      → Ensures
          (Pinned q)
          (Still contents IsStrategy p)
          (resume (or_load store policy q) (pin_found store policy true q o p))
  unfolding resident_pin
  resident_or_loaded q none e = load_page-Pinned q e
  resident_or_loaded q (some i) e =
      let (f, at, tag, clean) = v.mapped q i e in
      let Q : Option Pin → Pool S K → Type 0 =
        IsPinned contents IsStrategy store policy rule p q i f v e at in
      resume-Ensures Q (Still contents IsStrategy p) (Pinned q) (Still contents IsStrategy p)
        (or_load store policy q) (pin_found store policy true q (some i) p)
        (subst (λ o. Ensures Q (Still contents IsStrategy p) (pin_found store policy true q o p)) e
          (resident_pin-IsPinned contents IsStrategy store policy rule p q i f v e at true))
        (held_now f at) (λ p' h. h)
    where
      held_now :
          (f : Frame) (at : get_elem? p.frames i ≡ some f) (a : Option Pin) (p' : Pool S K)
          → IsPinned contents IsStrategy store policy rule p q i f v e at a p'
          → Ensures (Pinned q) (Still contents IsStrategy p) (or_load store policy q a p')
      held_now f at none p' h = absurd h
      held_now f at (some held) p' (pins, page, e) = record { same_page = page; pins = pins }

  -- On a pool that meets its invariant, over a store and a strategy that keep their promises,
  -- `pin` ends without a panic. If it succeeds, the page is resident in the frame of the pin,
  -- whose pin count is one more; the other counts, the pages that a client sees and the frames of
  -- pinned pages are as they were. If it fails, the pages that a client sees, the pin counts and
  -- the frames of pinned pages are as they were.
  pub pin-Pinned : (q : ℕ) → Ensures (Pinned q) (Still contents IsStrategy p) (pin store policy q p)
  unfolding pin resident_pin
  pin-Pinned q =
      guard-Ensures (Pinned q) (Still contents IsStrategy p) (not p.is_poisoned) poisoned
        (resident_pin store policy true q >>= or_load store policy q) p
        (Still-refl contents IsStrategy p v) (λ e. resident_or_loaded q (lookup q p.pages) refl)
