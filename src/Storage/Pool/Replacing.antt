-- ===== src/Storage/Pool/Replacing.antt =====
-- A victim's frame is written back and takes a page, old or new.
use chili_db.Prelude.{
  ℕ, ◌≡◌, ◌≢◌, refl, sym, ap, ◌∙◌, subst, false, Option, none, some, ◌==◌, length, length-set, true,
  get_elem?, set, arith, inl, inr, Option-cases, Bool-cases, Result, ok, err, panic,
}
use chili_db.Prelude.Methods.{Method, Ensures, resume, resume-Ensures, pure, ◌>>=◌, ◌>>◌}
use chili_db.Bytes.{Page, zeros}
use chili_db.Storage.Store.{IoError, PageStore, Contract, Allocated}
use chili_db.Storage.Pool.{BufferError, Frame, VictimStrategy, Pool}
use chili_db.Storage.Pool.PageTable.{Table, lookup, insert, lookup-insert_self}
use chili_db.Storage.Pool.Ops.{as_io, on_store, flush_victim, install, publish, kept, is_next}
use chili_db.Storage.Pool.Cached.{
  pins_of, view, shown, IsPool, Moves, Still, update, update-same, update-old, Still-trans,
  Moves-same, Moves-Still, same-Still, store-IsPool,
}
use chili_db.Storage.Pool.Installing.{IsVictim, install-Moves}
use chili_db.Storage.Pool.Flushing.{Flushed, flush_victim-Flushed}

is_next-next_unused :
    (tag : Option ℕ) (i : ℕ) (pages : Table)
    → (tag ≡ none → i ≡ length pages)
    → is_next tag i pages ≡ true
is_next-next_unused none i pages h = let e : i ≡ length pages = h refl in ground arith
is_next-next_unused (some old) i pages h = refl

module _ {S K : Type 0} (contents : S → ℕ → Option Page) (IsStrategy : ℕ → K → Type 0)
    (store : PageStore S) (policy : VictimStrategy K) (law : Contract contents store) (p : Pool S K)
    (i : ℕ) (f : Frame) (v : IsPool contents IsStrategy p)
    (is_victim : IsVictim contents IsStrategy p i f) where
  new_frame : ℕ → Page → Frame
  new_frame q bytes = record f { bytes = bytes; dirty = false; pins = 1; tag = some q }

  -- The frame `i` now holds the page `q`, pinned once.
  pub record Loaded (pages : ℕ → Option Page) (q : ℕ) (p' : Pool S K) : Type 0 where
    pub moves : Moves contents IsStrategy pages (update (pins_of p) i 1) p p'
    pub found : lookup q p'.pages ≡ some i
    pub same_frames : length p'.frames ≡ length p.frames

  flushed_victim :
      (p' : Pool S K)
      → Flushed contents IsStrategy store policy law p i f v is_victim p'
      → IsVictim contents IsStrategy p' i f
  flushed_victim p' h = record {
    at = ap (λ (o : Pool S K). get_elem? o.frames i) h.same ∙ is_victim.at;
    unpinned = is_victim.unpinned;
    next_unused = λ e. is_victim.next_unused e ∙ sym (ap (λ (o : Pool S K). length o.pages) h.same);
  }

  module _ (q : ℕ) (bytes : Page) (absent : lookup q p.pages ≡ none)
      (stored : contents p.store q ≡ some bytes) where
    view-absent : view contents p q ≡ some bytes
    view-absent = ap (shown contents p.store p.frames q) absent ∙ stored

    published :
        (p' : Pool S K)
        → Flushed contents IsStrategy store policy law p i f v is_victim p'
        → Ensures
            (λ u. Loaded (view contents p) q)
            (Still contents IsStrategy p)
            (publish store policy i q bytes f p')
    unfolding install new_frame
    published p' h =
        let absent' : lookup q p'.pages ≡ none =
          ap (λ (o : Pool S K). lookup q o.pages) h.same ∙ absent in
        let still_stored : contents p'.store q ≡ some bytes =
          sym (ap (shown contents p'.store p'.frames q) absent') ∙ h.still.seen q ∙ view-absent in
        let m =
          install-Moves contents IsStrategy p' i q f (new_frame q bytes) h.still.valid
            (flushed_victim p' h) h.saved absent' still_stored refl refl in
        rw (is_next-next_unused f.tag i p'.pages (flushed_victim p' h).next_unused) (record {
          moves = Still-trans contents IsStrategy _ _ p p' _ h.still (
              Moves-same contents IsStrategy _ (view contents p) _ (update (pins_of p) i 1) p' _
                (λ id.
                  update-same (view contents p') (view contents p) q (some bytes) (some bytes)
                    h.still.seen refl id
                  ∙ update-old (view contents p) q (some bytes) (sym view-absent) id)
                (update-same (pins_of p') (pins_of p) i 1 1 h.still.pinned refl) m);
          found = lookup-insert_self q i (kept f.tag p'.pages);
          same_frames =
              length-set p'.frames i (new_frame q bytes)
              ∙ ap (λ (o : Pool S K). length o.frames) h.same;
        })

    pub replace-Loaded :
        Ensures
          (λ u. Loaded (view contents p) q)
          (Still contents IsStrategy p)
          ((flush_victim store policy f >> publish store policy i q bytes f) p)
    replace-Loaded =
        resume-Ensures (λ u. Flushed contents IsStrategy store policy law p i f v is_victim)
          (Still contents IsStrategy p) (λ u. Loaded (view contents p) q)
          (Still contents IsStrategy p) (λ u. publish store policy i q bytes f)
          (flush_victim store policy f p)
          (flush_victim-Flushed contents IsStrategy store policy law p i f v is_victim)
          (λ u p' h. published p' h) (λ p' h. h)

  -- The page that the store gives out is put into the frame.
  abbrev pub allocated_into : Method (Pool S K) BufferError ℕ
  allocated_into = do
    page ← on_store store.allocate_page
    publish store policy i page zeros f
    pure page

  pub record Created (q : ℕ) (p' : Pool S K) : Type 0 where
    pub fresh : view contents p q ≡ none
    pub loaded : Loaded (update (view contents p) q (some zeros)) q p'

  module _ (p' : Pool S K) (h : Flushed contents IsStrategy store policy law p i f v is_victim p')
      (s : S) (q : ℕ) (was : contents p'.store q ≡ none) (now : contents s q ≡ some zeros)
      (others : (id : ℕ) → id ≢ q → contents s id ≡ contents p'.store id) where
    grown : Pool S K
    grown = record p' { store = s }

    -- A page that is stored is not the one given out.
    apart : (id : ℕ) → contents p'.store id ≢ none → id ≢ q
    apart id stored e = stored (ap (contents p'.store) e ∙ was)

    unmapped : lookup q p'.pages ≡ none
    unmapped = elim (Option-cases (lookup q p'.pages)) [
      | inl e ↦ e
      | inr (j, e) ↦
          let (g, at, tag, (clean, stored)) = h.still.valid.mapped q j e in absurd (stored was)
    ]

    grown-IsPool : IsPool contents IsStrategy grown
    unfolding grown
    grown-IsPool = store-IsPool contents IsStrategy p' s h.still.valid (λ id j g e at.
        let (g', at', tag, (clean, stored)) = h.still.valid.mapped id j e in
        let two : some g' ≡ some g = sym at' ∙ at in
        let frame : g' ≡ g = cc in
        let same = others id (apart id stored) in
        (
          subst (λ k. k.dirty ≡ false → contents s id ≡ some k.bytes) frame (λ d. same ∙ clean d),
          (λ no. stored (sym same ∙ no)),
        ))

    grown-view : (id : ℕ) → id ≢ q → view contents grown id ≡ view contents p' id
    unfolding grown
    grown-view id ne = elim (Option-cases (lookup id p'.pages)) [
      | inl e ↦ rw e (others id ne)
      | inr (j, e) ↦ rw e refl
    ]

    -- What the client sees afterwards, from what it saw of the grown store.
    seen_new :
        (id : ℕ)
        → update (view contents grown) q (some zeros) id
          ≡ update (view contents p) q (some zeros) id
    seen_new id = elim (Bool-cases (id == q)) [
      | inl eq ↦ rw eq refl
      | inr ne ↦ rw ne (grown-view id (ground arith) ∙ h.still.seen id)
    ]

    created :
        Ensures Created
          (Still contents IsStrategy p)
          ((publish store policy i q zeros f >> pure q) grown)
    unfolding grown install new_frame
    created =
        let unused = flushed_victim p' h in
        let m =
          install-Moves contents IsStrategy grown i q f (new_frame q zeros) grown-IsPool
            (record {
              at = unused.at;
              unpinned = unused.unpinned;
              next_unused = unused.next_unused;
            })
            (λ old t.
              others old (
                apart old
                  (λ no. let bad : none ≡ some f.bytes = sym no ∙ h.saved old t in absurd (cc)))
              ∙ h.saved old t)
            unmapped now refl refl in
        let filled : Pool S K = record p' {
          store = s;
          frames = set p'.frames i (new_frame q zeros);
          pages = insert q i (kept f.tag p'.pages);
        } in
        let from_flushed : Moves contents IsStrategy (update (view contents grown) q (some zeros))
            (update (pins_of p') i 1) p' filled =
          record { valid = m.valid; seen = m.seen; pinned = m.pinned; stays = m.stays } in
        rw (is_next-next_unused f.tag i p'.pages unused.next_unused) (record {
          fresh = sym (h.still.seen q) ∙ ap (shown contents p'.store p'.frames q) unmapped ∙ was;
          loaded = record {
            moves = Still-trans contents IsStrategy _ _ p p' _ h.still (
                Moves-same contents IsStrategy _ _ _ (update (pins_of p) i 1) p' _ seen_new
                  (update-same (pins_of p') (pins_of p) i 1 1 h.still.pinned refl) from_flushed);
            found = lookup-insert_self q i (kept f.tag p'.pages);
            same_frames =
                length-set p'.frames i (new_frame q zeros)
                ∙ ap (λ (o : Pool S K). length o.frames) h.same;
          };
        })

  allocate-Created :
      (p' : Pool S K) (h : Flushed contents IsStrategy store policy law p i f v is_victim p')
      (r : S × Result IoError ℕ)
      → Allocated contents p'.store r
      → Ensures Created (Still contents IsStrategy p) (
          resume
            (λ q. publish store policy i q zeros f >> pure q)
            (record p' { store = r.0 }, as_io r.1))
  unfolding grown
  allocate-Created p' h (s, ok q) (was, now, others, small) = created p' h s q was now others
  allocate-Created p' h (s, err e) same =
      Moves-Still contents IsStrategy (view contents p) (pins_of p) p p' _ (λ j g. g) h.still
        (same-Still contents IsStrategy p' s h.still.valid same)
  allocate-Created p' h (s, panic) e = absurd e

  pub create-Created :
      Ensures Created
        (Still contents IsStrategy p)
        ((flush_victim store policy f >> allocated_into) p)
  create-Created =
      resume-Ensures (λ u. Flushed contents IsStrategy store policy law p i f v is_victim)
        (Still contents IsStrategy p) Created (Still contents IsStrategy p) (λ u. allocated_into)
        (flush_victim store policy f p)
        (flush_victim-Flushed contents IsStrategy store policy law p i f v is_victim)
        (λ u p' h. allocate-Created p' h (store.allocate_page p'.store) (law.allocates p'.store))
        (λ p' h. h)
