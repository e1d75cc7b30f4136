-- ===== src/Storage/Pool/Frames.antt =====
-- One frame changes: a resident page's frame, or a victim that takes a new page.
use chili_db.Prelude.{
  ℕ, ◌^◌, ◌≤◌, ◌<◌, ◌≡◌, ◌≢◌, refl, sym, ap, ◌∙◌, subst, Option, none, some, ◌==◌, length,
  get_elem?, set, arith, inl, inr, Bool-cases, get_elem?-set_self, get_elem?-set_ne,
  get_elem?-eq-some, length-set, set-cases,
}
use chili_db.Bytes.{Page}
use chili_db.Storage.Pool.{Frame, Pool}
use chili_db.Storage.Pool.PageTable.{lookup}
use chili_db.Storage.Pool.Cached.{
  update, pins_at, bytes_at, pins_of, shown, view, Clean, IsPool, Moves,
}

module _ {S K : Type 0} (contents : S → ℕ → Option Page) (IsStrategy : ℕ → K → Type 0) where
  module _ (p : Pool S K) (i id : ℕ) (f f' : Frame) (v : IsPool contents IsStrategy p)
      (here : lookup id p.pages ≡ some i) (at : get_elem? p.frames i ≡ some f)
      (tag : f'.tag ≡ some id) (clean : Clean contents p.store id f') (few : f'.pins < 2 ^ 32) where
    changed : Pool S K
    changed = record p { frames = set p.frames i f' }

    set-IsPool : IsPool contents IsStrategy changed
    unfolding changed
    set-IsPool = record {
      unique = v.unique;
      mapped = mapped;
      tagged = tagged;
      untagged = untagged;
      counts = counts;
      fits = rw (length-set p.frames i f') v.fits;
      indexed = rw (length-set p.frames i f') v.indexed;
      strategy = rw (length-set p.frames i f') v.strategy;
    }
      where
        mapped :
            (q j : ℕ)
            → lookup q p.pages ≡ some j
            → (g : Frame) × (get_elem? (set p.frames i f') j ≡ some g)
              × (g.tag ≡ some q)
              × Clean contents p.store q g
        mapped q j e =
            let (g, at', tag', c) = v.mapped q j e in
            elim (Bool-cases (j == i)) [
              | inl eq ↦
                  let same : j ≡ i = ground arith in
                  let was : get_elem? p.frames i ≡ some g =
                    subst (λ k. get_elem? p.frames k ≡ some g) same at' in
                  let (h, at'', tag'', c'') = v.mapped id i here in
                  let named : id ≡ q = cc in
                  subst
                    (λ k.
                      (g : Frame) × (get_elem? (set p.frames i f') k ≡ some g)
                      × (g.tag ≡ some q)
                      × Clean contents p.store q g)
                    (sym same)
                    (
                      f',
                      get_elem?-set_self p.frames i f' (get_elem?-eq-some p.frames i at),
                      tag ∙ ap some named,
                      subst (λ k. Clean contents p.store k f') named clean,
                    )
              | inr ne ↦
                  let other : i ≢ j = ground arith in
                  (g, get_elem?-set_ne p.frames i j f' other ∙ at', tag', c)
            ]

        tagged :
            (j q : ℕ) (g : Frame)
            → get_elem? (set p.frames i f') j ≡ some g
            → g.tag ≡ some q
            → (lookup q p.pages ≡ some j) × (j < length p.pages)
        tagged j q g e t = elim (set-cases p.frames i j f' g e) [
          | inl (same, new) ↦
              let (h, at', tag', c) = v.mapped id i here in
              let named : id ≡ q = cc in
              let (l, lt) = v.tagged i id h at' tag' in
              (
                subst (λ k. lookup k p.pages ≡ some j) named (here ∙ ap some (sym same)),
                omega arith,
              )
          | inr (ne, old) ↦ v.tagged j q g old t
        ]

        untagged :
            (j : ℕ) (g : Frame)
            → get_elem? (set p.frames i f') j ≡ some g
            → g.tag ≡ none
            → (g.pins ≡ 0) × (length p.pages ≤ j)
        untagged j g e t = elim (set-cases p.frames i j f' g e) [
          | inl (same, new) ↦ absurd (cc)
          | inr (ne, old) ↦ v.untagged j g old t
        ]

        counts : (j : ℕ) (g : Frame) → get_elem? (set p.frames i f') j ≡ some g → g.pins < 2 ^ 32
        counts j g e = elim (set-cases p.frames i j f' g e) [
          | inl (same, new) ↦ subst (λ h. h.pins < 2 ^ 32) (sym new) few
          | inr (ne, old) ↦ v.counts j g old
        ]

    other_page : (q : ℕ) → lookup q p.pages ≡ some i → q ≡ id
    other_page q e =
        let (g, at', tag', c) = v.mapped q i e in
        let (h, at'', tag'', c') = v.mapped id i here in cc

    seen : (q : ℕ) → view contents changed q ≡ update (view contents p) id (some f'.bytes) q
    unfolding changed
    seen q = elim (Bool-cases (q == id)) [
      | inl eq ↦
          let same : q ≡ id = ground arith in
          let found : lookup q p.pages ≡ some i =
            subst (λ k. lookup k p.pages ≡ some i) (sym same) here in
          rw (found, eq)
            (ap bytes_at (get_elem?-set_self p.frames i f' (get_elem?-eq-some p.frames i at)))
      | inr ne ↦ rw ne (unchanged (ground arith) (lookup q p.pages) refl)
    ]
      where
        unchanged :
            q ≢ id
            → (o : Option ℕ) → lookup q p.pages ≡ o
            → shown contents p.store (set p.frames i f') q o ≡ shown contents p.store p.frames q o
        unchanged ne none e = refl
        unchanged ne (some j) e =
            let other : i ≢ j = λ at. ne (other_page q (e ∙ ap some (sym at))) in
            ap bytes_at (get_elem?-set_ne p.frames i j f' other)

    pinned : (j : ℕ) → pins_of changed j ≡ update (pins_of p) i f'.pins j
    unfolding changed
    pinned j = elim (Bool-cases (j == i)) [
      | inl eq ↦
          let same : j ≡ i = ground arith in
          rw (eq, same)
            (ap pins_at (get_elem?-set_self p.frames i f' (get_elem?-eq-some p.frames i at)))
      | inr ne ↦
          let other : j ≢ i = ground arith in
          rw ne (ap pins_at (get_elem?-set_ne p.frames i j f' (λ e. other (sym e))))
    ]

    -- The frame of a resident page changes: that page shows the new bytes.
    pub set-Moves :
        Moves contents IsStrategy
          (update (view contents p) id (some f'.bytes))
          (update (pins_of p) i f'.pins)
          p
          (record p { frames = set p.frames i f' })
    unfolding changed
    set-Moves = record { valid = set-IsPool; seen = seen; pinned = pinned; stays = λ q j e h. e }
