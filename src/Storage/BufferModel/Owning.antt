-- ===== src/Storage/BufferModel/Owning.antt =====
-- The checks on reservations, waiters and writers follow from the invariant.
use chili_db.Prelude.{
  ℕ, ◌==◌, ◌≡◌, inl, inr, refl, ap, ap₂, ◌∙◌, subst, Bool, true, false, not, ◌&&◌, some, get_elem?,
  arith, Bool-cases,
}
use chili_db.Storage.BufferModel.{
  Frame, free, flushing, loading, ready, Backend, idle, miss, waiting, pinned, reading, writing,
  State,
}
use chili_db.Storage.BufferModel.Actions.{is_accessing}
use chili_db.Storage.BufferModel.Invariant.{Owned, Loads, Inv}
use chili_db.Storage.BufferModel.Checks.{
  is_kept, is_loading, has_its_frame, is_reserving, has_its_owner, ownership, writes_alone,
  writer_exclusivity,
}
use chili_db.Storage.BufferModel.Walks.{all_at-true, any_at-none}

module _ (n : ℕ) (s : State) (v : Inv n s) where
  kept_ok : (b p : ℕ) (x : Frame) → Owned b p x → is_kept b p (some x) ≡ true
  kept_ok b p (Frame.reserved t o) h = ground arith
  kept_ok b p (flushing q t o) h = ground arith
  kept_ok b p free h = absurd h
  kept_ok b p (loading q io) h = absurd h
  kept_ok b p (ready q c d) h = absurd h

  loading_ok : (p : ℕ) (x : Frame) → Loads p x → is_loading p (some x) ≡ true
  loading_ok p (loading q io) h = ground arith
  loading_ok p free h = absurd h
  loading_ok p (Frame.reserved t o) h = absurd h
  loading_ok p (flushing q t o) h = absurd h
  loading_ok p (ready q c d) h = absurd h

  frame_kept : (b : ℕ) (k : Backend) → get_elem? s.backends b ≡ some k → has_its_frame s b k ≡ true
  frame_kept b (Backend.reserved f p r) h =
      let (x, here, fits) = v.seated b f (Backend.reserved f p r) h refl in
      ap (is_kept b p) here ∙ kept_ok b p x fits
  frame_kept b (waiting f p r) h =
      let (x, here, fits) = v.seated b f (waiting f p r) h refl in
      ap (is_loading p) here ∙ loading_ok p x fits
  frame_kept b idle h = refl
  frame_kept b (Backend.request p r) h = refl
  frame_kept b (miss p r) h = refl
  frame_kept b (pinned f p) h = refl
  frame_kept b (reading f p) h = refl
  frame_kept b (writing f p) h = refl

  reserving_ok : (f t : ℕ) (r : Bool) → is_reserving f t (some (Backend.reserved f t r)) ≡ true
  reserving_ok f t r = ground arith

  owner_kept : (f : ℕ) (x : Frame) → get_elem? s.frames f ≡ some x → has_its_owner s f x ≡ true
  owner_kept f (Frame.reserved t o) h =
      let (r, at) = v.owned f (Frame.reserved t o) h in
      ap (is_reserving f t) at ∙ reserving_ok f t r
  owner_kept f (flushing q t o) h =
      let (r, at) = v.owned f (flushing q t o) h in ap (is_reserving f t) at ∙ reserving_ok f t r
  owner_kept f free h = refl
  owner_kept f (loading q io) h = refl
  owner_kept f (ready q c d) h = refl

  pub ownership-Inv : ownership s ≡ true
  unfolding ownership
  ownership-Inv =
      ap₂ (◌&&◌)
        (all_at-true (has_its_frame s) 0 s.backends
          (λ b k h. subst (λ i. has_its_frame s i k ≡ true) (omega arith) (frame_kept b k h)))
        (all_at-true (has_its_owner s) 0 s.frames
          (λ f x h. subst (λ i. has_its_owner s i x ≡ true) (omega arith) (owner_kept f x h)))

  alone_ok : (b : ℕ) (k : Backend) → get_elem? s.backends b ≡ some k → writes_alone s b k ≡ true
  alone_ok b (writing f p) h = ap not (
      any_at-none (λ c k. not (b == c) && is_accessing f k) 0 s.backends
        (λ c k at.
          subst (λ i. (not (b == i) && is_accessing f k) ≡ false) (omega arith) (other c k at)))
    where
      other :
          (c : ℕ) (k : Backend)
          → get_elem? s.backends c ≡ some k
          → (not (b == c) && is_accessing f k) ≡ false
      other c k at = elim (Bool-cases (is_accessing f k)) [
        | inl acc ↦ let same : b ≡ c = v.alone b c f p k h at acc in rw acc (ground arith)
        | inr away ↦ rw away (ground arith)
      ]
  alone_ok b idle h = refl
  alone_ok b (Backend.request p r) h = refl
  alone_ok b (miss p r) h = refl
  alone_ok b (Backend.reserved f p r) h = refl
  alone_ok b (waiting f p r) h = refl
  alone_ok b (pinned f p) h = refl
  alone_ok b (reading f p) h = refl

  pub writer_exclusivity-Inv : writer_exclusivity s ≡ true
  unfolding writer_exclusivity
  writer_exclusivity-Inv =
      all_at-true (writes_alone s) 0 s.backends
        (λ b k h. subst (λ i. writes_alone s i k ≡ true) (omega arith) (alone_ok b k h))
