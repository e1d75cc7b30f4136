-- ===== src/Storage/BufferModel/Entries.antt =====
-- The page table after a step that changes one frame: unchanged, or with one entry set or cleared.
use chili_db.Prelude.{
  ℕ, ◌==◌, ◌≡◌, ◌≢◌, ◌⊎◌, inl, inr, sym, ap, ◌∙◌, subst, List, Option, none, some, length,
  get_elem?, set, arith, set-cases, get_elem?-set_self, get_elem?-set_ne, get_elem?-eq-some,
  length-set, Bool-cases,
}
use chili_db.Storage.BufferModel.{Frame, published, State}
use chili_db.Storage.BufferModel.Invariant.{Inv}

-- The table lists frame `f` for the page that `x'` publishes, and the other frames as before.
pub record Entries (n : ℕ) (s : State) (f : ℕ) (x' : Frame) (table : List (Option ℕ)) : Type 0 where
  pub entry : (p : ℕ) → published x' ≡ some p → get_elem? table p ≡ some (some f)
  pub keep :
      (p g : ℕ)
      → g ≢ f
      → get_elem? s.page_table p ≡ some (some g)
      → get_elem? table p ≡ some (some g)
  pub back :
      (p g : ℕ)
      → get_elem? table p ≡ some (some g)
      → ((g ≢ f) × (get_elem? s.page_table p ≡ some (some g))) ⊎ ((g ≡ f) × (published x' ≡ some p))
  pub sized : length table ≡ n

module _ (n : ℕ) (s : State) (f : ℕ) (x x' : Frame) (v : Inv n s)
    (here : get_elem? s.frames f ≡ some x) where
  -- An entry that names the frame is the page that the frame publishes.
  entry_of : (p : ℕ) → get_elem? s.page_table p ≡ some (some f) → published x ≡ some p
  entry_of p h =
      let (y, at, is) = v.mapped p f h in let same : y ≡ x = cc in ap published (sym same) ∙ is

  named :
      (p g : ℕ)
      → get_elem? s.page_table p ≡ some (some g)
      → ((g ≢ f) × (get_elem? s.page_table p ≡ some (some g))) ⊎ ((g ≡ f) × (published x ≡ some p))
  named p g h = elim (Bool-cases (g == f)) [
    | inl eq ↦
        let same : g ≡ f = ground arith in inr (same, entry_of p (h ∙ ap (λ i. some (some i)) same))
    | inr other ↦ inl ((ground arith), h)
  ]

  pub same-Entries : published x' ≡ published x → Entries n s f x' s.page_table
  same-Entries same = record {
    entry = λ p e. v.listed f p x here (sym same ∙ e);
    keep = λ p g ne h. h;
    back = λ p g h. elim (named p g h) [ inl old ↦ inl old | inr (at, is) ↦ inr (at, same ∙ is) ];
    sized = v.pages;
  }

  -- The frame's page leaves the table with the frame.
  pub clear-Entries :
      (q : ℕ)
      → published x ≡ some q
      → published x' ≡ none
      → Entries n s f x' (set s.page_table q none)
  clear-Entries q is gone = record {
    entry = λ p e. cc;
    keep = λ p g ne h. elim (Bool-cases (p == q)) [
      | inl eq ↦
          let same : p ≡ q = ground arith in
          let mine : get_elem? s.page_table p ≡ some (some f) =
            ap (get_elem? s.page_table) same ∙ v.listed f q x here is in
          absurd (ne (cc))
      | inr other ↦ get_elem?-set_ne s.page_table q p none (ground arith) ∙ h
    ];
    back = λ p g h. elim (set-cases s.page_table q p none (some g) h) [
      | inl (at, bad) ↦ cc
      | inr (ne, old) ↦ elim (named p g old) [
        | inl kept ↦ inl kept
        | inr (at, was) ↦ absurd (ne (cc))
      ]
    ];
    sized = length-set s.page_table q none ∙ v.pages;
  }

  -- A frame that published nothing takes a page that no frame has.
  pub list-Entries :
      (q : ℕ)
      → published x ≡ none
      → published x' ≡ some q
      → get_elem? s.page_table q ≡ some none
      → Entries n s f x' (set s.page_table q (some f))
  list-Entries q was is vacant = record {
    entry = λ p e.
        let same : q ≡ p = cc in
        subst (λ i. get_elem? (set s.page_table q (some f)) i ≡ some (some f)) same
          (get_elem?-set_self s.page_table q (some f) (get_elem?-eq-some s.page_table q vacant));
    keep = λ p g ne h. elim (Bool-cases (p == q)) [
      | inl eq ↦
          let same : p ≡ q = ground arith in
          let empty : get_elem? s.page_table p ≡ some none =
            ap (get_elem? s.page_table) same ∙ vacant in
          cc
      | inr other ↦ get_elem?-set_ne s.page_table q p (some f) (ground arith) ∙ h
    ];
    back = λ p g h. elim (set-cases s.page_table q p (some f) (some g) h) [
      | inl (at, mine) ↦ inr ((cc), is ∙ ap (λ i. some i) (sym at))
      | inr (ne, old) ↦ elim (named p g old) [ inl kept ↦ inl kept | inr (at, bad) ↦ cc ]
    ];
    sized = length-set s.page_table q (some f) ∙ v.pages;
  }
