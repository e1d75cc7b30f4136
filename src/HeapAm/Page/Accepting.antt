-- ===== src/HeapAm/Page/Accepting.antt =====
-- `validate` on a packed page, and what its slots read as.
use chili_db.Prelude.{
  ℕ, suc, ◌+◌, ◌-◌, ◌^◌, ◌≤◌, ◌<◌, ◌≡◌, refl, ◌∙◌, ap, ap₂, subst, inl, inr, true, false, not, ◌&&◌,
  ◌||◌, some, ok, leb, ltb, ◌==◌, length, arith, Option-cases, Bool-cases, le→leb,
}
use chili_db.Prelude.Loops.{for_range_total}
use chili_db.Bytes.{Bytes, Page, page_size, bytes_at, read_slice}
use chili_db.Bytes.Slices.{bytes_at_of}
use chili_db.HeapAm.Page.{
  Header, Occupied, slot_at, slot, claim, validate_slot, validate, header_at, stored,
}
use chili_db.HeapAm.Page.Directory.{offset_at, len_at, upper_at, size, content}
use chili_db.HeapAm.Page.Occupancy.{occupy_free}
use chili_db.HeapAm.Page.Building.{Contents, sizes, start, IsSized, tuple_of, Entry, sum_to_mono}
use chili_db.HeapAm.Page.Compaction.{Packed, head_fields}

pub slot_lem :
    (p : Page) (i : ℕ) → slot_at i + 4 ≤ page_size → slot p i ≡ ok (offset_at p i, len_at p i)
unfolding slot
slot_lem p i h = rw (le→leb (slot_at i + 4) page_size h)

-- A slot that was claimed from free bytes below all others.
claim_free :
    (upper offset len used : ℕ) (occupied : Occupied)
    → upper ≤ offset
    → offset + len ≤ page_size
    → 0 < len
    → ((j : ℕ) → j < offset + len → occupied j ≡ false)
    → (occupied' : Occupied) × (claim upper offset len (occupied, used)
        ≡ ok (occupied', used + len))
      × ((j : ℕ) → j < offset → occupied' j ≡ false)
unfolding claim
claim_free upper offset len used occupied h₁ h₂ h₃ free =
    let (o, run, keep) = occupy_free len offset occupied (λ i a b. free i b) in
    let live : (offset == 0 && len == 0) ≡ false = ground arith in
    let good : not (len == 0 || ltb offset upper || ltb page_size (offset + len)) ≡ true =
      ground arith in
    (o, rw (live, good, run) refl, λ j h. keep j h ∙ free j (omega arith))

claim_dead :
    (upper used : ℕ) (occupied : Occupied) → claim upper 0 0 (occupied, used) ≡ ok (occupied, used)
unfolding claim
claim_dead upper used occupied = refl

-- After `i` rounds the bytes below the first `i` tuples are free.
abbrev Scanned : Contents → ℕ → Occupied × ℕ → Type 0
Scanned c i (occupied, used) =
    (used ≡ sizes c i) × ((j : ℕ) → j < page_size - sizes c i → occupied j ≡ false)

module _ (c : Contents) (h : Header) (r : Page) (packed : Packed c h r)
    (fits : slot_at h.slots + sizes c h.slots ≤ page_size) where
  scan_round :
      (i : ℕ) (s : Occupied × ℕ)
      → i < h.slots
      → Scanned c i s
      → (s' : Occupied × ℕ) × (validate_slot r (upper_at r) i s ≡ ok s') × Scanned c (suc i) s'
  unfolding validate_slot
  scan_round i (occupied, used) hi (total, free) =
      let e : Entry c r i = packed.built.entry i hi in
      let mono = sum_to_mono (λ m. size (c m)) (suc i) h.slots hi in
      let inside : slot_at i + 4 ≤ page_size = omega (arith, fits) in
      elim (Bool-cases (size (c i) == 0)) [
        | inl z ↦
            let z' : size (c i) ≡ 0 = ground arith in
            let off : offset_at r i ≡ 0 = e.offset ∙ rw z in
            let len : len_at r i ≡ 0 = e.len ∙ z' in
            (
              (occupied, used),
              rw (slot_lem r i inside, off, len) (claim_dead _ used occupied),
              (omega (arith, total, z'), λ j x. free j (omega arith)),
            )
        | inr nz ↦
            let pos : 0 < size (c i) = ground arith in
            let off : offset_at r i ≡ start c i = e.offset ∙ rw nz in
            let (o, run, keep) =
              claim_free (upper_at r) (start c i) (size (c i)) used occupied
                (omega (arith, packed.built.room, mono)) (omega (arith, mono)) pos
                (λ j x. free j (omega (arith, mono, fits))) in
            (
              (o, used + size (c i)),
              rw (slot_lem r i inside, off, e.len) run,
              (omega (arith, total), keep),
            )
      ]

  -- A packed page is accepted.
  pub validate-Packed :
      h.owner < 2 ^ 32
      → ((n : ℕ) → h.next ≡ some n → n < 2 ^ 32)
      → validate r ≡ ok (h, sizes c h.slots)
  unfolding validate
  validate-Packed ho hn =
      let (m, f, hd) = head_fields h.owner r h.next ho hn packed.built.head in
      let (s, looped, (total, _)) =
        for_range_total (validate_slot r (upper_at r)) (Scanned c) h.slots scan_round h.slots 0
          ((λ _. false), 0) (omega arith) (refl, λ j x. refl) in
      let bounds : (leb (slot_at h.slots) (upper_at r) && leb (upper_at r) page_size) ≡ true =
        ground (arith, packed.built.room, fits) in
      let same : header_at r ≡ h = hd ∙ ap (λ (n : ℕ). record h { slots = n }) packed.count in
      rw (m, f, packed.count, bounds, looped)
        (ap₂ (λ (x : Header) (n : ℕ). ok (record x { slots = h.slots }, n)) same total)

  entry_bytes :
      (i : ℕ)
      → i < h.slots
      → (tuple : Bytes) → c i ≡ some tuple
      → bytes_at r (start c i) (length tuple) ≡ tuple
  entry_bytes i hi tuple e =
      let n : size (c i) ≡ length tuple = ap size e in
      bytes_at_of r (start c i) tuple
        λ k a b. (packed.built.entry i hi).bytes k a (omega (arith, n)) ∙ cc (ap tuple_of e)

  -- The slots of a packed page read back its contents.
  pub stored-Packed : (i : ℕ) → i < h.slots → IsSized (c i) → stored r i ≡ ok (c i)
  unfolding stored read_slice
  stored-Packed i hi sized =
      let e : Entry c r i = packed.built.entry i hi in
      let mono = sum_to_mono (λ m. size (c m)) (suc i) h.slots hi in
      let read = slot_lem r i (omega (arith, fits)) in
      elim (Option-cases (c i)) [
        | inl dead ↦ let z : len_at r i ≡ 0 = e.len ∙ ap size dead in rw (read, z, dead) refl
        | inr (tuple, live) ↦
            let n : size (c i) ≡ length tuple = ap size live in
            let pos : 0 < length tuple = subst IsSized live sized in
            let len : len_at r i ≡ length tuple = e.len ∙ n in
            let off : offset_at r i ≡ start c i = ground (arith, e.offset, n) in
            let inside : leb (start c i + length tuple) page_size ≡ true =
              le→leb _ _ (omega (arith, n, mono, fits)) in
            let nz : (length tuple == 0) ≡ false = ground arith in
            rw (read, len, off, nz, inside, entry_bytes i hi tuple live, live) refl
      ]

  pub content-Packed : (i : ℕ) → i < h.slots → IsSized (c i) → content r i ≡ c i
  unfolding content
  content-Packed i hi sized =
      let e : Entry c r i = packed.built.entry i hi in
      elim (Option-cases (c i)) [
        | inl dead ↦ let z : len_at r i ≡ 0 = e.len ∙ ap size dead in rw (z, dead) refl
        | inr (tuple, live) ↦
            let n : size (c i) ≡ length tuple = ap size live in
            let pos : 0 < length tuple = subst IsSized live sized in
            let len : len_at r i ≡ length tuple = e.len ∙ n in
            let off : offset_at r i ≡ start c i = ground (arith, e.offset, n) in
            let nz : (length tuple == 0) ≡ false = ground arith in
            rw (len, off, nz, entry_bytes i hi tuple live, live) refl
      ]
