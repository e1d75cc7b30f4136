-- ===== src/HeapAm/Page/Compaction.antt =====
-- `compact` writes a fresh page with the same owner, successor and slots, and the chosen contents.
use chili_db.Prelude.{
  ℕ, suc, ◌+◌, ◌^◌, ◌≤◌, ◌<◌, ◌≡◌, refl, ◌∙◌, subst, ◌⊎◌, inl, inr, true, Option, none, some, [],
  ◌∷◌, ok, arith, Option-cases,
}
use chili_db.Prelude.Loops.{for_range, for_range_total}
use chili_db.Bytes.{Page, page_size, zeros, overwrite, write_slice, u32_bytes}
use chili_db.HeapAm.Page.{
  Header, magic, slot_at, u16_at, u32_at, put_u16, initialize, next_bytes, next_flag, compact_base,
  has_magic, good_flags, header_at, place, compact_slot, compact, Change, tuple_for,
}
use chili_db.HeapAm.Page.Directory.{upper_at, size}
use chili_db.HeapAm.Page.Placing.{
  with_u16, put_u16_lem, with_u16_other, with_u16_low, with_u16_high,
}
use chili_db.HeapAm.Page.Building.{
  Contents, sizes, IsSized, Entry-ext, Built, sum_to_mono, skipped, laid_down,
}

-- The page of `compact_base` before it gets its slot count.
pub head_page : ℕ → Option ℕ → Page
head_page owner next =
    overwrite
      (overwrite (with_u16 (overwrite (overwrite zeros 0 magic) 8 (u32_bytes owner)) 22 page_size)
        12 (next_bytes next))
      16 (next_flag next ∷ [])

compact_base_lem :
    (owner slots : ℕ) (next : Option ℕ)
    → compact_base (record { owner = owner; next = next; slots = slots })
      ≡ ok (with_u16 (head_page owner next) 20 slots)
unfolding compact_base initialize put_u16 write_slice with_u16 head_page
compact_base_lem owner slots none = refl
compact_base_lem owner slots (some next) = refl

head_page_above : (owner : ℕ) (next : Option ℕ) (k : ℕ) → 24 ≤ k → head_page owner next k ≡ 0
unfolding head_page with_u16 overwrite
head_page_above owner none k h = ground arith
head_page_above owner (some next) k h = ground arith

module _ (owner : ℕ) (r : Page) where
  module _ (next : Option ℕ) (h : (k : ℕ) → k < 20 → r k ≡ head_page owner next k) where
    head_magic : has_magic r ≡ true
    unfolding head_page with_u16 overwrite
    head_magic = rw (
      h 0 (omega arith),
      h 1 (omega arith),
      h 2 (omega arith),
      h 3 (omega arith),
      h 4 (omega arith),
      h 5 (omega arith),
      h 6 (omega arith),
      h 7 (omega arith),
    )

    head_owner : owner < 2 ^ 32 → u32_at r 8 ≡ owner
    unfolding head_page with_u16 overwrite
    head_owner ho =
        omega (arith, h 8 (omega arith), h 9 (omega arith), h 10 (omega arith), h 11 (omega arith))

  -- A page with the header bytes of `head_page` has that header.
  pub head_fields :
      (next : Option ℕ)
      → owner < 2 ^ 32
      → ((n : ℕ) → next ≡ some n → n < 2 ^ 32)
      → ((k : ℕ) → k < 20 → r k ≡ head_page owner next k)
      → (has_magic r ≡ true)
        × (good_flags r ≡ true)
        × (header_at r ≡ record { owner = owner; next = next; slots = u16_at r 20 })
  unfolding head_page with_u16 overwrite
  head_fields none ho hn h =
      let flag : r 16 ≡ 0 = h 16 (omega arith) in
      let r17 : r 17 ≡ 0 = h 17 (omega arith) in
      let r18 : r 18 ≡ 0 = h 18 (omega arith) in
      let r19 : r 19 ≡ 0 = h 19 (omega arith) in
      (head_magic none h, ground arith, ground (arith, head_owner none h ho))
  head_fields (some n) ho hn h =
      let flag : r 16 ≡ 1 = h 16 (omega arith) in
      let r17 : r 17 ≡ 0 = h 17 (omega arith) in
      let r18 : r 18 ≡ 0 = h 18 (omega arith) in
      let r19 : r 19 ≡ 0 = h 19 (omega arith) in
      let link : u32_at r 12 ≡ n = omega (
        arith,
        hn n refl,
        h 12 (omega arith),
        h 13 (omega arith),
        h 14 (omega arith),
        h 15 (omega arith),
      ) in
      (head_magic (some n) h, ground arith, ground (arith, head_owner (some n) h ho))

abbrev pub head_of : Header → Page
head_of h = head_page h.owner h.next

pub record Packed (c : Contents) (h : Header) (r : Page) : Type 0 where
  pub built : Built c (head_of h) r h.slots (upper_at r)
  pub count : u16_at r 20 ≡ h.slots

-- Writing the two counters of the header leaves the rest as it was built.
pub Built-counter :
    (c : Contents) (base r : Page) (i upper at value : ℕ)
    → slot_at i ≤ upper
    → (at ≡ 20) ⊎ (at ≡ 22)
    → Built c base r i upper
    → Built c base (with_u16 r at value) i upper
Built-counter c base r i upper at value low h b = record {
  room = b.room;
  head = λ k x. with_u16_other r at value k (inl (omega arith)) ∙ b.head k x;
  blank = λ k x y. with_u16_other r at value k (inr (omega arith)) ∙ b.blank k x y;
  entry = λ j x.
      Entry-ext c r _ j (λ k y z. with_u16_other r at value k (inr (omega arith)))
        (λ k y z.
          with_u16_other r at value k
            (inr (omega (arith, b.room, sum_to_mono (λ m. size (c m)) (suc j) i x))))
        (b.entry j x);
}

-- Nothing is built yet.
start_Built :
    (c : Contents) (owner slots : ℕ) (next : Option ℕ)
    → Built c (head_page owner next) (with_u16 (head_page owner next) 20 slots) 0 page_size
start_Built c owner slots next = record {
  room = omega arith;
  head = λ k h. with_u16_other _ 20 slots k (inl h);
  blank = λ k h _.
      with_u16_other _ 20 slots k (inr (omega arith)) ∙ head_page_above owner next k (omega arith);
  entry = λ j h. absurd (omega arith);
}

compact_slot-Built :
    (p : Page) (change : Change) (c : Contents) (base r : Page) (i upper : ℕ)
    → tuple_for p change i ≡ ok (c i)
    → IsSized (c i)
    → slot_at (suc i) + sizes c (suc i) ≤ page_size
    → Built c base r i upper
    → (s : Page × ℕ) × (compact_slot p change i (r, upper) ≡ ok s)
      × Built c base s.0 (suc i) s.1
      × ((k : ℕ) → k < 24 → s.0 k ≡ r k)
unfolding compact_slot place
compact_slot-Built p change c base r i upper chosen sized fits b = elim (Option-cases (c i)) [
  | inl e ↦ ((r, upper), rw (chosen, e, place), skipped c base r i upper b fits e, λ k h. refl)
  | inr (tuple, e) ↦
      let (run, built, same) = laid_down c base r i upper b fits tuple e (subst IsSized e sized) in
      (_, rw (chosen, e) run, built, same)
]

-- `compact` succeeds where every chosen tuple can be read and all of them fit, and packs them.
pub compact-Packed :
    (p : Page) (h : Header) (change : Change) (c : Contents)
    → ((i : ℕ) → i < h.slots → tuple_for p change i ≡ ok (c i))
    → ((i : ℕ) → i < h.slots → IsSized (c i))
    → slot_at h.slots + sizes c h.slots ≤ page_size
    → (r : Page) × (compact p h change ≡ ok r) × Packed c h r
unfolding compact
compact-Packed p h change c chosen sized fits =
    let (s, looped, b, same) = packed_slots in
    let small : s.1 ≤ page_size = omega (arith, b.room) in
    let low : slot_at h.slots ≤ s.1 = omega (arith, b.room, fits) in
    let r : Page = with_u16 s.0 22 s.1 in
    let up : upper_at r ≡ s.1 = omega (arith, with_u16_low s.0 22 s.1, with_u16_high s.0 22 s.1) in
    let kept : u16_at r 20 ≡ u16_at base 20 = cc (
      with_u16_other s.0 22 s.1 20 (inl (omega arith)),
      with_u16_other s.0 22 s.1 21 (inl (omega arith)),
      same 20 (omega arith),
      same 21 (omega arith),
    ) in
    (
      r,
      rw (compact_base_lem h.owner h.slots h.next, looped) (put_u16_lem s.0 22 s.1 (omega arith)),
      record {
        built = rw up (Built-counter c (head_of h) s.0 h.slots s.1 22 s.1 low (inr refl) b);
        count = omega (
          arith,
          kept,
          with_u16_low (head_of h) 20 h.slots,
          with_u16_high (head_of h) 20 h.slots,
        );
      },
    )
  where
    base : Page
    base = with_u16 (head_of h) 20 h.slots

    State : ℕ → Page × ℕ → Type 0
    State i s = Built c (head_of h) s.0 i s.1 × ((k : ℕ) → k < 24 → s.0 k ≡ base k)

    round :
        (i : ℕ) (s : Page × ℕ)
        → i < h.slots
        → State i s
        → (s' : Page × ℕ) × (compact_slot p change i s ≡ ok s') × State (suc i) s'
    round i (r, upper) hi (b, same) =
        let room : slot_at (suc i) + sizes c (suc i) ≤ page_size =
          omega (arith, fits, sum_to_mono (λ m. size (c m)) (suc i) h.slots hi) in
        let (s', run, b', same') =
          compact_slot-Built p change c (head_of h) r i upper (chosen i hi) (sized i hi) room b in
        (s', run, (b', λ k x. same' k x ∙ same k x))

    packed_slots :
        (s : Page × ℕ) × (for_range (compact_slot p change) h.slots 0 (base, page_size) ≡ ok s)
        × Built c (head_of h) s.0 h.slots s.1
        × ((k : ℕ) → k < 24 → s.0 k ≡ base k)
    packed_slots =
        let (s, looped, (b, same)) =
          for_range_total (compact_slot p change) State h.slots round h.slots 0 (base, page_size)
            (omega arith) (start_Built c h.owner h.slots h.next, λ k x. refl) in
        (s, looped, b, same)
