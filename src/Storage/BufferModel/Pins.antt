-- ===== src/Storage/BufferModel/Pins.antt =====
-- The checks on pins follow from the invariant.
use chili_db.Prelude.{ℕ, ◌≡◌, refl, subst, Bool, true, some, ltb, get_elem?, arith}
use chili_db.Storage.BufferModel.{
  Frame, free, flushing, loading, ready, Backend, idle, miss, waiting, pinned, reading, writing,
  pin, State,
}
use chili_db.Storage.BufferModel.Invariant.{Shows, pin_count, pins_of, pins_at, Inv}
use chili_db.Storage.BufferModel.Keeps.{pins_at-le-pins_of}
use chili_db.Storage.BufferModel.Checks.{
  is_ready, pin_is_ready, access_ready, counts, pin_accounting,
}
use chili_db.Storage.BufferModel.Walks.{all_at-true}

module _ (n : ℕ) (s : State) (v : Inv n s) where
  pin-is_ready :
      (b : ℕ) (k : Backend) → get_elem? s.backends b ≡ some k → pin_is_ready s (pin k) ≡ true
  pin-is_ready b k at = of k at
    where
      counted :
          (f p : ℕ) (c : ℕ) (d : Bool) (j : Backend)
          → get_elem? s.backends b ≡ some j
          → pins_at f j ≡ 1
          → get_elem? s.frames f ≡ some (ready p c d)
          → ltb 0 c ≡ true
      counted f p c d j at' one here =
          ground (arith, v.counted f (ready p c d) here, pins_at-le-pins_of f s.backends b j at')

      shown :
          (f p : ℕ) (j : Backend) (x : Frame)
          → get_elem? s.backends b ≡ some j
          → pins_at f j ≡ 1
          → get_elem? s.frames f ≡ some x
          → Shows p x
          → is_ready (record { frame_id = f; page_id = p }) (some x) ≡ true
      shown f p j (ready q c d) at' one here same = ground (arith, counted f q c d j at' one here)
      shown f p j free at' one here h = absurd h
      shown f p j (Frame.reserved t o) at' one here h = absurd h
      shown f p j (flushing q t o) at' one here h = absurd h
      shown f p j (loading q io) at' one here h = absurd h

      sees :
          (f p : ℕ) (j : Backend) (x : Frame)
          → get_elem? s.backends b ≡ some j
          → pins_at f j ≡ 1
          → get_elem? s.frames f ≡ some x
          → Shows p x
          → is_ready (record { frame_id = f; page_id = p }) (get_elem? s.frames f) ≡ true
      sees f p j x at' one here h = rw here (shown f p j x at' one here h)

      of : (j : Backend) → get_elem? s.backends b ≡ some j → pin_is_ready s (pin j) ≡ true
      of (pinned f p) h =
          let (x, here, fits) = v.seated b f (pinned f p) h refl in
          sees f p (pinned f p) x h (ground arith) here fits
      of (reading f p) h =
          let (x, here, fits) = v.seated b f (reading f p) h refl in
          sees f p (reading f p) x h (ground arith) here fits
      of (writing f p) h =
          let (x, here, fits) = v.seated b f (writing f p) h refl in
          sees f p (writing f p) x h (ground arith) here fits
      of idle h = refl
      of (Backend.request p r) h = refl
      of (miss p r) h = refl
      of (Backend.reserved f p r) h = refl
      of (waiting f p r) h = refl

  pub access_ready-Inv : access_ready s ≡ true
  unfolding access_ready
  access_ready-Inv =
      all_at-true (λ b k. pin_is_ready s (pin k)) 0 s.backends (λ b k at. pin-is_ready b k at)

  counts-pins :
      (f : ℕ) (x : Frame) → get_elem? s.frames f ≡ some x → counts x (pins_of f s.backends) ≡ true
  counts-pins f x here = of x (v.counted f x here)
    where
      of : (y : Frame) → pin_count y ≡ pins_of f s.backends → counts y (pins_of f s.backends) ≡ true
      of (ready q c d) h = ground arith
      of free h = ground arith
      of (Frame.reserved t o) h = ground arith
      of (flushing q t o) h = ground arith
      of (loading q io) h = ground arith

  pub pin_accounting-Inv : pin_accounting s ≡ true
  unfolding pin_accounting
  pin_accounting-Inv =
      all_at-true (λ f x. counts x (pins_of f s.backends)) 0 s.frames
        (λ f x here.
          subst (λ i. counts x (pins_of i s.backends) ≡ true) (omega arith) (counts-pins f x here))
