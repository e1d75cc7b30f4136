-- ===== src/Storage/Pool/Installing.antt =====
-- A victim's frame takes a page that was not resident.
use chili_db.Prelude.{
  ℕ, suc, ◌^◌, ◌≤◌, ◌<◌, ◌≡◌, ◌≢◌, refl, sym, ap, ◌∙◌, subst, Option, none, some, ◌==◌, length,
  get_elem?, set, arith, inl, inr, Option-cases, Bool-cases, ◌⊎◌, get_elem?-set_self,
  get_elem?-set_ne, get_elem?-eq-some, length-set, set-cases,
}
use chili_db.Bytes.{Page}
use chili_db.Storage.Pool.{Frame, Pool}
use chili_db.Storage.Pool.Ops.{kept}
use chili_db.Storage.Pool.PageTable.{
  Table, lookup, insert, Unique, Unique-insert, Unique-remove, lookup-insert_self, lookup-insert_ne,
  lookup-remove_ne, lookup-remove_self, lookup-remove-none, length-remove, length-insert,
}
use chili_db.Storage.Pool.Cached.{
  update, pins_at, bytes_at, pins_of, shown, view, Clean, IsPool, Moves,
}

module _ {S K : Type 0} (contents : S → ℕ → Option Page) (IsStrategy : ℕ → K → Type 0) where
  -- The frame of a victim: unpinned, the next unused one unless it holds a page, which is stored.
  pub record IsVictim (p : Pool S K) (i : ℕ) (f : Frame) : Type 0 where
    pub at : get_elem? p.frames i ≡ some f
    pub unpinned : f.pins ≡ 0
    pub next_unused : f.tag ≡ none → i ≡ length p.pages

  module _ (p : Pool S K) (i q : ℕ) (f new : Frame) (v : IsPool contents IsStrategy p)
      (victim : IsVictim p i f)
      (saved : (old : ℕ) → f.tag ≡ some old → contents p.store old ≡ some f.bytes)
      (absent : lookup q p.pages ≡ none) (stored : contents p.store q ≡ some new.bytes)
      (tag : new.tag ≡ some q) (one : new.pins ≡ 1) where
    rest : Table
    rest = kept f.tag p.pages

    table : Table
    table = insert q i rest

    -- What is known of the rest of the mapping, by cases on the frame's tag.
    record IsRest : Type 0 where
      unique : Unique rest
      gone : (id : ℕ) → f.tag ≡ some id → lookup id rest ≡ none
      others : (id : ℕ) → f.tag ≢ some id → lookup id rest ≡ lookup id p.pages
      no_new : lookup q rest ≡ none
      size :
          ((suc (length rest) ≡ length p.pages) × (i < length p.pages))
          ⊎ ((suc (length rest) ≡ suc (length p.pages)) × (i ≡ length p.pages))

    rest-IsRest : IsRest
    unfolding rest
    rest-IsRest = elim (Option-cases f.tag) [
      | inl e ↦ record {
        unique = rw e v.unique;
        gone = λ id e'. cc;
        others = λ id ne. rw e refl;
        no_new = rw e absent;
        size = inr (rw e refl, victim.next_unused e);
      }
      | inr (old, e) ↦
          let (found, lt) = v.tagged i old f victim.at e in
          record {
            unique = rw e (Unique-remove old p.pages v.unique);
            gone = λ id e'.
                let same : old ≡ id = cc in rw (e, same) (lookup-remove_self id p.pages v.unique);
            others =
                λ id ne. rw e (lookup-remove_ne id old p.pages (λ eq. ne (e ∙ ap some (sym eq))));
            no_new = rw e (lookup-remove-none q old p.pages absent);
            size = inl (rw e (length-remove old p.pages found), lt);
          }
    ]

    length-table : length table ≡ suc (length rest)
    unfolding table
    length-table = length-insert q i rest rest-IsRest.no_new

    bounds : (i < length table) × (length p.pages ≤ length table) × (length table ≤ length p.frames)
    bounds =
        let lt = get_elem?-eq-some p.frames i victim.at in
        elim rest-IsRest.size [
          | inl (n, at) ↦ (
            omega (arith, length-table),
            omega (arith, length-table),
            omega (arith, length-table, v.fits),
          )
          | inr (n, at) ↦ (
            omega (arith, length-table),
            omega (arith, length-table),
            omega (arith, length-table),
          )
        ]

    installed : Pool S K
    installed = record p { frames = set p.frames i new; pages = table }

    not_new : (id j : ℕ) → lookup id p.pages ≡ some j → id ≢ q
    not_new id j e same =
        let no : lookup id p.pages ≡ none =
          subst (λ k. lookup k p.pages ≡ none) (sym same) absent in
        absurd (cc)

    not_old : (id j : ℕ) → j ≢ i → lookup id p.pages ≡ some j → f.tag ≢ some id
    not_old id j ne e old =
        let (found, lt) = v.tagged i id f victim.at old in
        let same : some j ≡ some i = sym e ∙ found in ne (cc)

    -- A page of another frame is found where it was.
    still_there : (id j : ℕ) → j ≢ i → lookup id p.pages ≡ some j → lookup id table ≡ some j
    unfolding table
    still_there id j ne e =
        lookup-insert_ne id q i rest (not_new id j e)
        ∙ rest-IsRest.others id (not_old id j ne e)
        ∙ e

    -- A page that is found is the new one, or one of another frame.
    found_cases :
        (id j : ℕ)
        → lookup id table ≡ some j
        → ((id ≡ q) × (j ≡ i)) ⊎ ((j ≢ i) × (lookup id p.pages ≡ some j))
    unfolding table
    found_cases id j e = elim (Bool-cases (id == q)) [
      | inl eq ↦
          let same : id ≡ q = ground arith in
          let at : lookup q (insert q i rest) ≡ some j =
            subst (λ k. lookup k (insert q i rest) ≡ some j) same e in
          let new_at = lookup-insert_self q i rest in inl (same, cc)
      | inr ne ↦
          let other : id ≢ q = ground arith in
          let in_rest : lookup id rest ≡ some j = sym (lookup-insert_ne id q i rest other) ∙ e in
          let kept_on : f.tag ≢ some id = λ old.
            let no = rest-IsRest.gone id old in
            let bad : none ≡ some j = sym no ∙ in_rest in absurd (cc) in
          let was : lookup id p.pages ≡ some j = sym (rest-IsRest.others id kept_on) ∙ in_rest in
          let elsewhere : j ≢ i = λ at.
            let (g, at', tag', c) = v.mapped id j was in
            let here : get_elem? p.frames i ≡ some g =
              subst (λ k. get_elem? p.frames k ≡ some g) at at' in
            let eq : some f ≡ some g = sym (victim.at) ∙ here in
            let same : f ≡ g = cc in kept_on (ap (λ (h : Frame). h.tag) same ∙ tag') in
          inr (elsewhere, was)
    ]

    installed-IsPool : IsPool contents IsStrategy installed
    unfolding installed table
    installed-IsPool = record {
      unique = unique;
      mapped = mapped;
      tagged = tagged;
      untagged = untagged;
      counts = counts;
      fits = rw (length-set p.frames i new) fits_in;
      indexed = rw (length-set p.frames i new) v.indexed;
      strategy = rw (length-set p.frames i new) v.strategy;
    }
      where
        fits_in : length table ≤ length p.frames
        fits_in = let (lt, grown, fit) = bounds in fit

        unique : Unique table
        unique = Unique-insert q i rest rest-IsRest.unique

        mapped :
            (id j : ℕ)
            → lookup id table ≡ some j
            → (g : Frame) × (get_elem? (set p.frames i new) j ≡ some g)
              × (g.tag ≡ some id)
              × Clean contents p.store id g
        mapped id j e = elim (found_cases id j e) [
          | inl (page, at) ↦ (
            new,
            subst (λ k. get_elem? (set p.frames i new) k ≡ some new) (sym at)
                (get_elem?-set_self p.frames i new (get_elem?-eq-some p.frames i victim.at)),
            tag ∙ ap some (sym page),
            subst (λ k. Clean contents p.store k new) (sym page) ((λ d. stored), (λ no. cc)),
          )
          | inr (ne, was) ↦
              let (g, at', tag', c) = v.mapped id j was in
              (g, get_elem?-set_ne p.frames i j new (λ e. ne (sym e)) ∙ at', tag', c)
        ]

        tagged :
            (j id : ℕ) (g : Frame)
            → get_elem? (set p.frames i new) j ≡ some g
            → g.tag ≡ some id
            → (lookup id table ≡ some j) × (j < length table)
        tagged j id g e t = elim (set-cases p.frames i j new g e) [
          | inl (same, eq) ↦
              let named : some id ≡ some q = sym t ∙ ap (λ (h : Frame). h.tag) eq ∙ tag in
              let page : id ≡ q = cc in
              let (lt, _, _) = bounds in
              (
                subst (λ k. lookup k table ≡ some j) (sym page)
                    (lookup-insert_self q i rest ∙ ap some (sym same)),
                omega (arith, lt),
              )
          | inr (ne, old) ↦
              let (found, lt) = v.tagged j id g old t in
              let (_, grown, _) = bounds in (still_there id j ne found, omega (arith, grown))
        ]

        untagged :
            (j : ℕ) (g : Frame)
            → get_elem? (set p.frames i new) j ≡ some g
            → g.tag ≡ none
            → (g.pins ≡ 0) × (length table ≤ j)
        untagged j g e t = elim (set-cases p.frames i j new g e) [
          | inl (same, eq) ↦
              let named : none ≡ some q = sym t ∙ ap (λ (h : Frame). h.tag) eq ∙ tag in absurd (cc)
          | inr (ne, old) ↦
              let (idle, ge) = v.untagged j g old t in
              (
                idle,
                elim rest-IsRest.size [
                  | inl (n, lt) ↦ omega (arith, length-table)
                  | inr (n, at) ↦
                      let other : j ≢ length p.pages = λ eq. ne (eq ∙ sym at) in
                      omega (arith, length-table)
                ],
              )
        ]

        counts : (j : ℕ) (g : Frame) → get_elem? (set p.frames i new) j ≡ some g → g.pins < 2 ^ 32
        counts j g e = elim (set-cases p.frames i j new g e) [
          | inl (same, eq) ↦
              let once : g.pins ≡ 1 = ap (λ (h : Frame). h.pins) eq ∙ one in omega arith
          | inr (ne, old) ↦ v.counts j g old
        ]

    same_elsewhere :
        (id : ℕ)
        → id ≢ q
        → (o : Option ℕ) → lookup id p.pages ≡ o
        → view contents installed id ≡ shown contents p.store p.frames id o
    unfolding installed table
    same_elsewhere id ne none e =
        let still : lookup id rest ≡ none = elim (Option-cases (lookup id rest)) [
          | inl none_left ↦ none_left
          | inr (j, found) ↦ elim (found_cases id j (lookup-insert_ne id q i rest ne ∙ found)) [
            | inl (page, at) ↦ absurd (ne page)
            | inr (_, was) ↦ absurd (cc)
          ]
        ] in
        ap (shown contents p.store (set p.frames i new) id)
          (lookup-insert_ne id q i rest ne ∙ still)
    same_elsewhere id ne (some j) e = elim (Bool-cases (j == i)) [
      | inr other ↦
          let apart : j ≢ i = ground arith in
          ap (shown contents p.store (set p.frames i new) id) (still_there id j apart e)
          ∙ ap bytes_at (get_elem?-set_ne p.frames i j new (λ at. apart (sym at)))
      | inl eq ↦
          let same : j ≡ i = ground arith in
          let (g, at', tag', c) = v.mapped id j e in
          let here : get_elem? p.frames i ≡ some g =
            subst (λ k. get_elem? p.frames k ≡ some g) same at' in
          let twice : some f ≡ some g = sym (victim.at) ∙ here in
          let one_frame : f ≡ g = cc in
          let old : f.tag ≡ some id = ap (λ (h : Frame). h.tag) one_frame ∙ tag' in
          ap (shown contents p.store (set p.frames i new) id)
            (lookup-insert_ne id q i rest ne ∙ rest-IsRest.gone id old)
          ∙ saved id old
          ∙ ap some (ap (λ (h : Frame). h.bytes) one_frame)
          ∙ sym (ap bytes_at at')
    ]

    seen : (id : ℕ) → view contents installed id ≡ update (view contents p) q (some new.bytes) id
    unfolding installed table
    seen id = elim (Bool-cases (id == q)) [
      | inl eq ↦
          let same : id ≡ q = ground arith in
          rw eq (
            ap (λ k. view contents installed k) same
            ∙ ap (shown contents p.store (set p.frames i new) q) (lookup-insert_self q i rest)
            ∙ ap bytes_at
                (get_elem?-set_self p.frames i new (get_elem?-eq-some p.frames i victim.at)))
      | inr ne ↦ rw ne (same_elsewhere id (ground arith) (lookup id p.pages) refl)
    ]

    pinned : (j : ℕ) → pins_of installed j ≡ update (pins_of p) i 1 j
    unfolding installed
    pinned j = elim (Bool-cases (j == i)) [
      | inl eq ↦
          let same : j ≡ i = ground arith in
          rw (eq, same)
            (ap pins_at (get_elem?-set_self p.frames i new (get_elem?-eq-some p.frames i victim.at))
              ∙ one)
      | inr ne ↦
          let other : j ≢ i = ground arith in
          rw ne (ap pins_at (get_elem?-set_ne p.frames i j new (λ e. other (sym e))))
    ]

    stays : (id j : ℕ) → lookup id p.pages ≡ some j → 0 < pins_of p j → lookup id table ≡ some j
    stays id j e h =
        still_there id j
          (λ same.
            let idle : pins_of p j ≡ 0 =
              ap (pins_of p) same ∙ ap pins_at victim.at ∙ victim.unpinned in
            absurd (omega arith))
          e

    pub install-Moves :
        Moves contents IsStrategy
          (update (view contents p) q (some new.bytes))
          (update (pins_of p) i 1)
          p
          (record p { frames = set p.frames i new; pages = insert q i (kept f.tag p.pages) })
    unfolding installed table rest
    install-Moves = record { valid = installed-IsPool; seen = seen; pinned = pinned; stays = stays }
