-- ===== src/Storage/BufferModel/Accessing.antt =====
-- Reading, writing, and the I/O of a load keep the invariant.
use chili_db.Prelude.{
  ℕ, ◌==◌, ◌≡◌, ◌≢◌, refl, sym, ap, ◌∙◌, subst, Bool, true, false, List, none, some, get_elem?, set,
  arith,
}
use chili_db.Storage.BufferModel.{
  Frame, free, flushing, loading, ready, Backend, idle, miss, waiting, pinned, reading, writing,
  Event, State,
}
use chili_db.Storage.BufferModel.Actions.{is_accessing}
use chili_db.Storage.BufferModel.Step.{soil, settle_all, joined}
use chili_db.Storage.BufferModel.Invariant.{frame_of, Shows, Fits, HasOwner, pins_at, Inv}
use chili_db.Storage.BufferModel.Entries.{same-Entries, clear-Entries}
use chili_db.Storage.BufferModel.Turn.{turn-Inv, touch-Inv}
use chili_db.Storage.BufferModel.Settle.{
  Fits-settle, Fits-failed, pins_of-settle_all, pins_of-settle_ne, pins_of-failed,
}
use chili_db.Storage.BufferModel.Moves.{Fits-ready}
use chili_db.Storage.BufferModel.Landing.{landing-Inv}

Fits-started :
    (i : ℕ) (j : Backend) (p : ℕ) → Fits i j (loading p false) → Fits i j (loading p true)
Fits-started i idle p h = tt
Fits-started i (Backend.request q r) p h = tt
Fits-started i (miss q r) p h = tt
Fits-started i (Backend.reserved g q r) p h = h
Fits-started i (waiting g q r) p h = h
Fits-started i (pinned g q) p h = h
Fits-started i (reading g q) p h = h
Fits-started i (writing g q) p h = h

Fits-soiled : (i : ℕ) (j : Backend) (x : Frame) → Fits i j x → Fits i j (soil x)
Fits-soiled i j (ready p c d) h = Fits-ready i j p c c d true h
Fits-soiled i j free h = h
Fits-soiled i j (Frame.reserved t o) h = h
Fits-soiled i j (flushing q t o) h = h
Fits-soiled i j (loading q io) h = h

HasOwner-soiled : (ks : List Backend) (f : ℕ) (x : Frame) → HasOwner ks f x → HasOwner ks f (soil x)
HasOwner-soiled ks f (ready p c d) h = tt
HasOwner-soiled ks f free h = h
HasOwner-soiled ks f (Frame.reserved t o) h = h
HasOwner-soiled ks f (flushing q t o) h = h
HasOwner-soiled ks f (loading q io) h = h

module _ (n : ℕ) (s : State) (e : Event) (v : Inv n s) where
  pub submit-Inv :
      (f p : ℕ)
      → get_elem? s.frames f ≡ some (loading p false)
      → Inv n (record {
        frames = set s.frames f (loading p true);
        backends = s.backends;
        page_table = s.page_table;
        event = e;
      })
  submit-Inv f p here = touch-Inv n s f (loading p false) (loading p true) e v (record {
    at_frame = here;
    fits = λ c j fits. Fits-started c j p fits;
    owner = tt;
    page = refl;
    pins = refl;
  })

  pub soil-Inv :
      (f : ℕ) (x : Frame)
      → get_elem? s.frames f ≡ some x
      → Inv n (record {
        frames = set s.frames f (soil x);
        backends = s.backends;
        page_table = s.page_table;
        event = e;
      })
  soil-Inv f x here = touch-Inv n s f x (soil x) e v (record {
    at_frame = here;
    fits = λ c j fits. Fits-soiled c j x fits;
    owner = HasOwner-soiled s.backends f x (v.owned f x here);
    page = ground arith;
    pins = ground arith;
  })

  pub read-Inv :
      (b f p : ℕ)
      → get_elem? s.backends b ≡ some (pinned f p)
      → ((c q : ℕ) → get_elem? s.backends c ≢ some (writing f q))
      → Inv n (record {
        frames = s.frames;
        backends = set s.backends b (reading f p);
        page_table = s.page_table;
        event = e;
      })
  read-Inv b f p at none_writes = turn-Inv n s b (pinned f p) (reading f p) e v (record {
    at_backend = at;
    range = tt;
    seat = λ g is. v.seated b g (pinned f p) at is;
    unreserved = λ g t r h. cc;
    pins = λ g. refl;
    writes = λ g q c j w h acc. cc;
    accesses = λ g q c acc h.
        let same : f ≡ g = ground arith in
        absurd
          (none_writes c q (subst (λ i. get_elem? s.backends c ≡ some (writing i q)) (sym same) h));
  })

  -- The pin stays when the access ends.
  pub end-Inv :
      (b f p : ℕ) (k : Backend)
      → get_elem? s.backends b ≡ some k
      → ((g : ℕ) → frame_of k ≡ some g → (g ≡ f))
      → frame_of k ≡ some f
      → ((c : ℕ) (x : Frame) → Fits c k x → Shows p x)
      → ((g t : ℕ) (r : Bool) → k ≢ Backend.reserved g t r)
      → ((g : ℕ) → pins_at g k ≡ pins_at g (pinned f p))
      → Inv n (record {
        frames = s.frames;
        backends = set s.backends b (pinned f p);
        page_table = s.page_table;
        event = e;
      })
  end-Inv b f p k at one of shows unreserved pins = turn-Inv n s b k (pinned f p) e v (record {
    at_backend = at;
    range = tt;
    seat = λ g is.
        let (x, here, fits) = v.seated b f k at of in
        let same : f ≡ g = cc in (x, ap (get_elem? s.frames) (sym same) ∙ here, shows b x fits);
    unreserved = unreserved;
    pins = pins;
    writes = λ g q c j w h acc. cc;
    accesses = λ g q c acc h. cc;
  })

  pub write-Inv :
      (b f p : ℕ)
      → get_elem? s.backends b ≡ some (pinned f p)
      → ((c : ℕ) (j : Backend) → get_elem? s.backends c ≡ some j → is_accessing f j ≡ false)
      → Inv n (record {
        frames = s.frames;
        backends = set s.backends b (writing f p);
        page_table = s.page_table;
        event = e;
      })
  write-Inv b f p at none_accesses = turn-Inv n s b (pinned f p) (writing f p) e v (record {
    at_backend = at;
    range = tt;
    seat = λ g is. v.seated b g (pinned f p) at is;
    unreserved = λ g t r h. cc;
    pins = λ g. refl;
    writes = λ g q c j w h acc.
        let same : f ≡ g = cc in
        cc (subst (λ i. is_accessing i j ≡ true) (sym same) acc, none_accesses c j h);
    accesses = λ g q c acc h.
        let same : f ≡ g = ground arith in
        let clash : (g == g) ≡ false =
          subst (λ i. (g == i) ≡ false) same (none_accesses c (writing g q) h) in
        absurd (ground arith);
  })

  pub loaded-Inv :
      (f p : ℕ)
      → get_elem? s.frames f ≡ some (loading p true)
      → Inv n (record {
        frames = set s.frames f (ready p (joined f s.backends) false);
        backends = settle_all f true s.backends;
        page_table = s.page_table;
        event = e;
      })
  loaded-Inv f p here =
      landing-Inv n s f p true (ready p (joined f s.backends) false) s.page_table e v (record {
        at_frame = here;
        fits = λ c k fits of. Fits-settle f c p (joined f s.backends) k true fits of;
        owner = tt;
        entries =
            same-Entries n s f (loading p true) (ready p (joined f s.backends) false) v here refl;
        pins = omega (arith, pins_of-settle_all f s.backends, v.counted f (loading p true) here);
        elsewhere = λ g ne. pins_of-settle_ne f g s.backends ne;
      })

  pub load_failed-Inv :
      (f p : ℕ)
      → get_elem? s.frames f ≡ some (loading p true)
      → Inv n (record {
        frames = set s.frames f free;
        backends = settle_all f false s.backends;
        page_table = set s.page_table p none;
        event = e;
      })
  load_failed-Inv f p here = landing-Inv n s f p false free (set s.page_table p none) e v (record {
    at_frame = here;
    fits = λ c k fits of. absurd (Fits-failed f c p k true fits of);
    owner = tt;
    entries = clear-Entries n s f (loading p true) free v here p refl refl;
    pins = v.counted f (loading p true) here ∙ sym (pins_of-failed f f s.backends);
    elsewhere = λ g ne. pins_of-failed f g s.backends;
  })
