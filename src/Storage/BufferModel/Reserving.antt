-- ===== src/Storage/BufferModel/Reserving.antt =====
-- The steps that take a frame for a backend, or end its reservation, keep the invariant.
use chili_db.Prelude.{
  ℕ, zero, suc, ◌≡◌, refl, sym, subst, Bool, true, false, List, [], ◌∷◌, Option, none, some,
  get_elem?, set, arith,
}
use chili_db.Storage.BufferModel.{
  Frame, free, flushing, loading, ready, Backend, idle, miss, waiting, pinned, reading, writing,
  Event, State,
}
use chili_db.Storage.BufferModel.Actions.{is_accessing}
use chili_db.Storage.BufferModel.Invariant.{
  frame_of, InRange, Owned, Fits, pin_count, pins_at, pins_of, Inv,
}
use chili_db.Storage.BufferModel.Entries.{Entries, same-Entries, clear-Entries, list-Entries}
use chili_db.Storage.BufferModel.Patch.{Patch, OwnedBy, patch-Inv, set-same}

pins_at-le :
    (f : ℕ) (ks : List Backend) (c : ℕ) (j : Backend)
    → get_elem? ks c ≡ some j
    → pins_of f ks ≡ 0
    → pins_at f j ≡ 0
unfolding pins_of
pins_at-le f [] c j h e = cc
pins_at-le f (k ∷ ks) zero j h e = let same : k ≡ j = cc in rw (← same) (omega arith)
pins_at-le f (k ∷ ks) (suc c) j h e = pins_at-le f ks c j h (omega arith)

Shows-pins :
    (c f q n : ℕ) (d : Bool) (j : Backend)
    → frame_of j ≡ some f
    → Fits c j (ready q n d)
    → pins_at f j ≡ 1
Shows-pins c f q n d idle h fits = cc
Shows-pins c f q n d (Backend.request p r) h fits = cc
Shows-pins c f q n d (miss p r) h fits = cc
Shows-pins c f q n d (Backend.reserved g p r) h fits = absurd fits
Shows-pins c f q n d (waiting g p r) h fits = absurd fits
Shows-pins c f q n d (pinned g p) h fits = ground arith
Shows-pins c f q n d (reading g p) h fits = ground arith
Shows-pins c f q n d (writing g p) h fits = ground arith

Fits-free : (c f : ℕ) (j : Backend) → frame_of j ≡ some f → Fits c j free → ⊥
Fits-free c f idle h fits = cc
Fits-free c f (Backend.request p r) h fits = cc
Fits-free c f (miss p r) h fits = cc
Fits-free c f (Backend.reserved g p r) h fits = fits
Fits-free c f (waiting g p r) h fits = fits
Fits-free c f (pinned g p) h fits = fits
Fits-free c f (reading g p) h fits = fits
Fits-free c f (writing g p) h fits = fits

-- Only its owner uses a frame that is reserved.
Fits-reserved :
    (c f t o : ℕ) (j : Backend) → frame_of j ≡ some f → Fits c j (Frame.reserved t o) → o ≡ c
Fits-reserved c f t o idle h fits = cc
Fits-reserved c f t o (Backend.request p r) h fits = cc
Fits-reserved c f t o (miss p r) h fits = cc
Fits-reserved c f t o (Backend.reserved g p r) h fits = fits.1
Fits-reserved c f t o (waiting g p r) h fits = absurd fits
Fits-reserved c f t o (pinned g p) h fits = absurd fits
Fits-reserved c f t o (reading g p) h fits = absurd fits
Fits-reserved c f t o (writing g p) h fits = absurd fits

Fits-flushed :
    (c q t o : ℕ) (j : Backend) → Fits c j (flushing q t o) → Fits c j (Frame.reserved t o)
Fits-flushed c q t o idle fits = tt
Fits-flushed c q t o (Backend.request p r) fits = tt
Fits-flushed c q t o (miss p r) fits = tt
Fits-flushed c q t o (Backend.reserved g p r) fits = fits
Fits-flushed c q t o (waiting g p r) fits = fits
Fits-flushed c q t o (pinned g p) fits = fits
Fits-flushed c q t o (reading g p) fits = fits
Fits-flushed c q t o (writing g p) fits = fits

module _ (n : ℕ) (s : State) (e : Event) (v : Inv n s) where
  nobody_uses :
      (c f q : ℕ) (d : Bool) (j : Backend)
      → get_elem? s.frames f ≡ some (ready q 0 d)
      → get_elem? s.backends c ≡ some j
      → frame_of j ≡ some f
      → Fits c j (ready q 0 d)
      → ⊥
  nobody_uses c f q d j here at of fits =
      let zero_pins : pins_at f j ≡ 0 =
        pins_at-le f s.backends c j at (sym (v.counted f (ready q 0 d) here)) in
      absurd (omega (arith, Shows-pins c f q 0 d j of fits))

  module _ (b f p : ℕ) (r : Bool) (at : get_elem? s.backends b ≡ some (miss p r)) where
    -- `reserve`, for a frame that nobody uses.
    taken :
        (x x' : Frame) (table : List (Option ℕ))
        → get_elem? s.frames f ≡ some x
        → ((c : ℕ) (j : Backend)
            → get_elem? s.backends c ≡ some j
            → frame_of j ≡ some f
            → Fits c j x
            → ⊥)
        → Owned b p x'
        → OwnedBy f b x' (Backend.reserved f p r)
        → pin_count x ≡ pin_count x'
        → Entries n s f x' table
        → Patch n s f b x x' (miss p r) (Backend.reserved f p r) table
    taken x x' table here nobody mine owner pins entries = record {
      at_frame = here;
      at_backend = at;
      range = v.known b (miss p r) at;
      seat = λ g is. (ground arith, mine);
      others = λ c j ne old of fits. absurd (nobody c j old of fits);
      owner = owner;
      holder = tt;
      entries = entries;
      pins = ground arith;
      elsewhere = λ g ne. refl;
      apart = λ g. refl;
    }

    pub reserve_dirty-Inv :
        (q : ℕ)
        → get_elem? s.frames f ≡ some (ready q 0 true)
        → Inv n (record {
          frames = set s.frames f (flushing q p b);
          backends = set s.backends b (Backend.reserved f p r);
          page_table = s.page_table;
          event = e;
        })
    reserve_dirty-Inv q here =
        patch-Inv n s f b (ready q 0 true) (flushing q p b) (miss p r) (Backend.reserved f p r)
          s.page_table e v
          (taken (ready q 0 true) (flushing q p b) s.page_table here
            (λ c j old of fits. nobody_uses c f q true j here old of fits) (refl, refl)
            (refl, (r, refl)) refl
            (same-Entries n s f (ready q 0 true) (flushing q p b) v here refl))

    pub reserve_clean-Inv :
        (q : ℕ)
        → get_elem? s.frames f ≡ some (ready q 0 false)
        → Inv n (record {
          frames = set s.frames f (Frame.reserved p b);
          backends = set s.backends b (Backend.reserved f p r);
          page_table = set s.page_table q none;
          event = e;
        })
    reserve_clean-Inv q here =
        patch-Inv n s f b (ready q 0 false) (Frame.reserved p b) (miss p r) (Backend.reserved f p r)
          (set s.page_table q none) e v
          (taken (ready q 0 false) (Frame.reserved p b) (set s.page_table q none) here
            (λ c j old of fits. nobody_uses c f q false j here old of fits) (refl, refl)
            (refl, (r, refl)) refl
            (clear-Entries n s f (ready q 0 false) (Frame.reserved p b) v here q refl refl))

    pub reserve_free-Inv :
        get_elem? s.frames f ≡ some free
        → Inv n (record {
          frames = set s.frames f (Frame.reserved p b);
          backends = set s.backends b (Backend.reserved f p r);
          page_table = s.page_table;
          event = e;
        })
    reserve_free-Inv here =
        patch-Inv n s f b free (Frame.reserved p b) (miss p r) (Backend.reserved f p r) s.page_table
          e v
          (taken free (Frame.reserved p b) s.page_table here
            (λ c j old of fits. Fits-free c f j of fits) (refl, refl) (refl, (r, refl)) refl
            (same-Entries n s f free (Frame.reserved p b) v here refl))

  module _ (b f p : ℕ) (r : Bool)
      (at : get_elem? s.backends b ≡ some (Backend.reserved f p r)) where
    -- The owner gives up its frame, or takes it to another state.
    given :
        (x x' : Frame) (k' : Backend) (table : List (Option ℕ))
        → get_elem? s.frames f ≡ some x
        → ((c : ℕ) (j : Backend) → frame_of j ≡ some f → Fits c j x → b ≡ c)
        → InRange n k'
        → ((g : ℕ) → frame_of k' ≡ some g → (g ≡ f) × Fits b k' x')
        → OwnedBy f b x' k'
        → ((g : ℕ) → pins_at g k' ≡ 0)
        → pin_count x ≡ pin_count x'
        → ((g : ℕ) → is_accessing g k' ≡ false)
        → Entries n s f x' table
        → Patch n s f b x x' (Backend.reserved f p r) k' table
    given x x' k' table here only range seat owner pins same apart entries = record {
      at_frame = here;
      at_backend = at;
      range = range;
      seat = seat;
      others = λ c j ne old of fits. absurd (ne (sym (only c j of fits)));
      owner = owner;
      holder = refl;
      entries = entries;
      pins = omega (arith, pins f);
      elsewhere = λ g ne. sym (pins g);
      apart = apart;
    }

    pub publish-Inv :
        get_elem? s.frames f ≡ some (Frame.reserved p b)
        → get_elem? s.page_table p ≡ some none
        → Inv n (record {
          frames = set s.frames f (loading p false);
          backends = set s.backends b (waiting f p r);
          page_table = set s.page_table p (some f);
          event = e;
        })
    publish-Inv here vacant =
        patch-Inv n s f b (Frame.reserved p b) (loading p false) (Backend.reserved f p r)
          (waiting f p r) (set s.page_table p (some f)) e v
          (given (Frame.reserved p b) (loading p false) (waiting f p r)
            (set s.page_table p (some f)) here (λ c j of fits. Fits-reserved c f p b j of fits)
            (v.known b (Backend.reserved f p r) at) (λ g is. (ground arith, refl)) tt (λ g. refl)
            refl (λ g. refl)
            (list-Entries n s f (Frame.reserved p b) (loading p false) v here p refl refl vacant))

    pub release-Inv :
        get_elem? s.frames f ≡ some (Frame.reserved p b)
        → Inv n (record {
          frames = set s.frames f free;
          backends = set s.backends b (Backend.request p r);
          page_table = s.page_table;
          event = e;
        })
    release-Inv here =
        patch-Inv n s f b (Frame.reserved p b) free (Backend.reserved f p r) (Backend.request p r)
          s.page_table e v
          (given (Frame.reserved p b) free (Backend.request p r) s.page_table here
            (λ c j of fits. Fits-reserved c f p b j of fits) (v.known b (Backend.reserved f p r) at)
            (λ g is. cc) tt (λ g. refl) refl (λ g. refl)
            (same-Entries n s f (Frame.reserved p b) free v here refl))

    pub flush_failed-Inv :
        (q : ℕ)
        → get_elem? s.frames f ≡ some (flushing q p b)
        → Inv n (record {
          frames = set s.frames f (ready q 0 true);
          backends = set s.backends b (Backend.request p r);
          page_table = s.page_table;
          event = e;
        })
    flush_failed-Inv q here =
        patch-Inv n s f b (flushing q p b) (ready q 0 true) (Backend.reserved f p r)
          (Backend.request p r) s.page_table e v
          (given (flushing q p b) (ready q 0 true) (Backend.request p r) s.page_table here
            (λ c j of fits. Fits-reserved c f p b j of (Fits-flushed c q p b j fits))
            (v.known b (Backend.reserved f p r) at) (λ g is. cc) tt (λ g. refl) refl (λ g. refl)
            (same-Entries n s f (flushing q p b) (ready q 0 true) v here refl))

    -- The backend keeps its reservation.
    pub flushed-Inv :
        (q : ℕ)
        → get_elem? s.frames f ≡ some (flushing q p b)
        → Inv n (record {
          frames = set s.frames f (Frame.reserved p b);
          backends = s.backends;
          page_table = set s.page_table q none;
          event = e;
        })
    flushed-Inv q here =
        subst
          (λ ks. Inv n (record {
            frames = set s.frames f (Frame.reserved p b);
            backends = ks;
            page_table = set s.page_table q none;
            event = e;
          }))
          (set-same s.backends b (Backend.reserved f p r) at)
          (patch-Inv n s f b (flushing q p b) (Frame.reserved p b) (Backend.reserved f p r)
            (Backend.reserved f p r) (set s.page_table q none) e v
            (given (flushing q p b) (Frame.reserved p b) (Backend.reserved f p r)
              (set s.page_table q none) here
              (λ c j of fits. Fits-reserved c f p b j of (Fits-flushed c q p b j fits))
              (v.known b (Backend.reserved f p r) at) (λ g is. (ground arith, (refl, refl)))
              (refl, (r, refl)) (λ g. refl) refl (λ g. refl)
              (clear-Entries n s f (flushing q p b) (Frame.reserved p b) v here q refl refl)))
