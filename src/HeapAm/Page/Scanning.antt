-- ===== src/HeapAm/Page/Scanning.antt =====
-- The loop of `HeapPage::validate`: what is marked after each round.
use chili_db.Prelude.{
  ℕ, suc, ◌+◌, ◌≤◌, ◌<◌, ◌≡◌, refl, sym, ◌∙◌, ◌⊎◌, inl, inr, true, false, not, ◌&&◌, ◌||◌, ok, leb,
  ltb, ◌==◌, arith, Bool-cases, ◌>>=◌, Decides, bind-Decides, guard-Decides, below_suc, subst,
}
use chili_db.Bytes.{Page, page_size}
use chili_db.HeapAm.Errors.{corrupt, slot_bounds}
use chili_db.HeapAm.Page.{Occupied, occupy, claim}
use chili_db.HeapAm.Page.Directory.{sum_to}
use chili_db.HeapAm.Page.Layout.{
  first, extent, free_end, In, SlotFits, IsDirectory, Marked, Taken, occupy-Decides,
}

-- After `i` rounds: the marked bytes are those of the first `i` slots.
pub record Scanned (p : Page) (i : ℕ) (s : Occupied × ℕ) : Type 0 where
  pub directory : IsDirectory p i
  pub total : s.1 ≡ sum_to (extent p) i
  pub marked : (j b : ℕ) → j < i → In p j b → s.0 b ≡ true
  pub only : (b : ℕ) → s.0 b ≡ true → (j : ℕ) × (j < i) × In p j b

pub nothing-Scanned : (p : Page) → Scanned p 0 ((λ _. false), 0)
nothing-Scanned p = record {
  directory = record {
    fit = λ i h. absurd (omega arith);
    apart = λ i j b h k x y. absurd (omega arith);
  };
  total = refl;
  marked = λ j b h x. absurd (omega arith);
  only = λ b e. absurd (cc);
}

-- A byte is in a slot or outside it.
In-cases : (p : Page) (i b : ℕ) → In p i b ⊎ ((b < first p i) ⊎ (first p i + extent p i ≤ b))
In-cases p i b = elim (Bool-cases (leb (first p i) b)) [
  | inl h ↦ elim (Bool-cases (ltb b (first p i + extent p i))) [
    | inl k ↦ inl (ground arith)
    | inr k ↦ inr (inr (ground arith))
  ]
  | inr h ↦ inr (inl (ground arith))
]

-- A round over a slot that fits and whose bytes are the ones newly marked.
module _ (p : Page) (i : ℕ) (old new : Occupied) (used : ℕ) (c : Scanned p i (old, used))
    (m : Marked (extent p i) (first p i) old new) where
  alone : (j b : ℕ) → j < i → In p j b → ¬ In p i b
  alone j b h x y = cc (c.marked j b h x, m.was_free b y.0 y.1)

  next_apart : (j k b : ℕ) → j < suc i → k < suc i → In p j b → In p k b → j ≡ k
  next_apart j k b hj hk x y = elim (Bool-cases (j == i)) [
    | inl t ↦
        let ji : j ≡ i = ground arith in
        elim (Bool-cases (k == i)) [
          | inl u ↦ ground arith
          | inr u ↦ absurd (alone k b (ground arith) y (subst (λ z. In p z b) ji x))
        ]
    | inr t ↦ elim (Bool-cases (k == i)) [
      | inl u ↦
          let ki : k ≡ i = ground arith in
          absurd (alone j b (ground arith) x (subst (λ z. In p z b) ki y))
      | inr u ↦ c.directory.apart j k b (ground arith) (ground arith) x y
    ]
  ]

  next_marked : (j b : ℕ) → j < suc i → In p j b → new b ≡ true
  next_marked j b h x = elim (In-cases p i b) [
    | inl y ↦ m.now_marked b y.0 y.1
    | inr out ↦ elim (Bool-cases (j == i)) [
      | inl t ↦
          let ji : j ≡ i = ground arith in
          let y : In p i b = subst (λ z. In p z b) ji x in m.now_marked b y.0 y.1
      | inr t ↦ m.kept b out ∙ c.marked j b (ground arith) x
    ]
  ]

  next_only : (b : ℕ) → new b ≡ true → (j : ℕ) × (j < suc i) × In p j b
  next_only b e = elim (In-cases p i b) [
    | inl y ↦ (i, omega arith, y)
    | inr out ↦ let (j, h, x) = c.only b (sym (m.kept b out) ∙ e) in (j, omega arith, x)
  ]

  next-Scanned : SlotFits p i → Scanned p (suc i) (new, used + extent p i)
  next-Scanned fit = record {
    directory = record { fit = below_suc (SlotFits p) i c.directory.fit fit; apart = next_apart };
    total = omega (arith, c.total);
    marked = next_marked;
    only = next_only;
  }

-- A slot of no bytes marks none.
dead-Marked :
    (p : Page) (i : ℕ) (old : Occupied) → extent p i ≡ 0 → Marked (extent p i) (first p i) old old
dead-Marked p i old z = record {
  was_free = λ b h k. absurd (omega (arith, z));
  now_marked = λ b h k. absurd (omega (arith, z));
  kept = λ b h. refl;
}

pub claim-Decides :
    (p : Page) (n i : ℕ) (old : Occupied) (used : ℕ)
    → i < n
    → Scanned p i (old, used)
    → Decides
        (Scanned p (suc i))
        (¬ IsDirectory p n)
        (claim (free_end p) (first p i) (extent p i) (old, used))
unfolding claim
claim-Decides p n i old used h c = elim (Bool-cases (first p i == 0 && extent p i == 0)) [
  | inl dead ↦
      let z : (first p i ≡ 0) × (extent p i ≡ 0) = ground arith in
      let after = next-Scanned p i old old used c (dead-Marked p i old z.1) (inl z) in
      let same : used + extent p i ≡ used = omega (arith, z) in
      rw dead (subst (λ u. Scanned p (suc i) (old, u)) same after)
  | inr live ↦ rw live (
      guard-Decides (Scanned p (suc i)) (¬ IsDirectory p n)
        (not (
          extent p i == 0
          || ltb (first p i) (free_end p)
          || ltb page_size (first p i + extent p i)))
        (corrupt slot_bounds)
        (occupy (extent p i) (first p i) old >>= λ new. ok (new, used + extent p i))
        (λ bad d. ground (arith, d.fit i h))
        (λ good.
          let within : (0 < extent p i)
              × (free_end p ≤ first p i)
              × (first p i + extent p i ≤ 8192) =
            ground arith in
          bind-Decides (Scanned p (suc i)) (¬ IsDirectory p n) (Marked (extent p i) (first p i) old)
            (Taken (extent p i) (first p i) old) (occupy (extent p i) (first p i) old)
            (λ new. ok (new, used + extent p i)) (occupy-Decides (extent p i) (first p i) old)
            (λ (b, lo, hi, t) d.
              let (j, hj, x) = c.only b t in
              let same : j ≡ i = d.apart j i b (omega arith) h x (lo, hi) in absurd (omega arith))
            (λ new m. next-Scanned p i old new used c m (inr within))))
]
