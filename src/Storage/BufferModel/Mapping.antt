-- ===== src/Storage/BufferModel/Mapping.antt =====
-- The checks on the page table follow from the invariant.
use chili_db.Prelude.{
  ℕ, ◌<◌, ◌==◌, ◌≡◌, inl, inr, refl, ap, ap₂, ◌∙◌, subst, true, false, not, ◌&&◌, Option, none,
  some, get_elem?, take, arith, Bool-cases,
}
use chili_db.Storage.BufferModel.{Frame, published, State}
use chili_db.Storage.BufferModel.Invariant.{Inv}
use chili_db.Storage.BufferModel.Checks.{
  is_page, is_first, unique_published, has_entry, publishes, has_frame, mapping_bijection,
}
use chili_db.Storage.BufferModel.Walks.{all_at-true, any-none, get_elem?-take}

module _ (n : ℕ) (s : State) (v : Inv n s) where
  -- Two frames that publish one page are one frame.
  same_frame :
      (f g p : ℕ) (x y : Frame)
      → get_elem? s.frames f ≡ some x
      → get_elem? s.frames g ≡ some y
      → published x ≡ some p
      → published y ≡ some p
      → f ≡ g
  same_frame f g p x y here there is is' = cc (v.listed f p x here is, v.listed g p y there is')

  is_first-published :
      (f : ℕ) (x : Frame)
      → get_elem? s.frames f ≡ some x
      → is_first (take f s.frames) (published x) ≡ true
  is_first-published f x here = of (published x) refl
    where
      of : (o : Option ℕ) → published x ≡ o → is_first (take f s.frames) o ≡ true
      of none e = refl
      of (some p) e = ap not (
          any-none (λ y. is_page p (published y)) (take f s.frames)
            (λ g y at.
              let (small, there) = get_elem?-take f s.frames g y at in
              other p g y e small there (published y) refl))
        where
          other :
              (q g : ℕ) (y : Frame)
              → published x ≡ some q
              → g < f
              → get_elem? s.frames g ≡ some y
              → (o : Option ℕ) → published y ≡ o
              → is_page q o ≡ false
          other q g y is small there none h = refl
          other q g y is small there (some r) h = elim (Bool-cases (r == q)) [
            | inl eq ↦
                let named : r ≡ q = ground arith in
                let same : f ≡ g =
                  same_frame f g q x y here there is (h ∙ ap (λ i. some i) named) in
                absurd (omega arith)
            | inr ne ↦ ne
          ]

  pub unique_published-Inv : unique_published s ≡ true
  unfolding unique_published
  unique_published-Inv =
      all_at-true (λ f x. is_first (take f s.frames) (published x)) 0 s.frames
        (λ f x here.
          subst (λ i. is_first (take i s.frames) (published x) ≡ true) (omega arith)
            (is_first-published f x here))

  entry_ok :
      (f : ℕ) (x : Frame) → get_elem? s.frames f ≡ some x → has_entry s f (published x) ≡ true
  entry_ok f x here = of (published x) refl
    where
      of : (o : Option ℕ) → published x ≡ o → has_entry s f o ≡ true
      of none e = refl
      of (some p) e = rw (v.listed f p x here e) (ground arith)

  frame_ok :
      (p : ℕ) (slot : Option ℕ) → get_elem? s.page_table p ≡ some slot → has_frame s p slot ≡ true
  frame_ok p none h = refl
  frame_ok p (some f) h =
      let (x, here, is) = v.mapped p f h in rw (here, publishes, is) (ground arith)

  pub mapping_bijection-Inv : mapping_bijection s ≡ true
  unfolding mapping_bijection
  mapping_bijection-Inv =
      ap₂ (◌&&◌)
        (all_at-true (λ f x. has_entry s f (published x)) 0 s.frames
          (λ f x here.
            subst (λ i. has_entry s i (published x) ≡ true) (omega arith) (entry_ok f x here)))
        (all_at-true (λ p slot. has_frame s p slot) 0 s.page_table
          (λ p slot h. subst (λ i. has_frame s i slot ≡ true) (omega arith) (frame_ok p slot h)))
