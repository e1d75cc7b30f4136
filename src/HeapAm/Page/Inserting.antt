-- ===== src/HeapAm/Page/Inserting.antt =====
-- `insert` of crates/heapam/src/page.rs against the view that the page holds.
use chili_db.Prelude.{
  ℕ, suc, ◌+◌, ◌-◌, ◌*◌, ◌%◌, ◌^◌, ◌≤◌, ◌<◌, ◌≡◌, refl, sym, ◌∙◌, ap, subst, inl, inr, true, false,
  Option, none, some, List, [], ◌∷◌, ◌++◌, ok, err, ltb, leb, ◌==◌, length, length-append,
  get_or-append_left, get_or-append_last, arith, Bool-cases, le→leb, below_suc,
}
use chili_db.Bytes.{Bytes, Page, page_size, overwrite, write_slice}
use chili_db.HeapAm.Page.{slot_at, u16_at, check_tuple, stored, tuple_for, compact}
use chili_db.HeapAm.Page.Directory.{upper_at, size}
use chili_db.HeapAm.Page.Validity.{validate-IsValid}
use chili_db.HeapAm.Page.Placing.{
  placed, with_slot, with_u16, put_slot_lem, put_u16_lem, with_u16_low, with_u16_high,
  with_u16_other,
}
use chili_db.HeapAm.Page.Building.{sizes, IsSized, Built, laid_down}
use chili_db.HeapAm.Page.Compaction.{Packed, head_of, compact-Packed, Built-counter}
use chili_db.HeapAm.Page.View
use chili_db.HeapAm.Page.View.{View, total, header_of, taken, bad_size, size_error}
use chili_db.HeapAm.Page.Holds.{
  Holds, contents, sum_to_ext, sizes-total, content-IsSized, stored-content, Packed-Holds,
}
use chili_db.HeapAm.Page.Ops.{insert}

pub total-append :
    (xs : List (Option Bytes)) (t : Bytes) → total (xs ++ some t ∷ []) ≡ total xs + length t
total-append [] t = omega arith
total-append (x ∷ xs) t = omega (arith, total-append xs t)

-- The slots of a page that holds a view read as the view says.
pub stored-Holds :
    (p : Page) (v : View) (i : ℕ)
    → Holds p v
    → i < length v.slots
    → stored p i ≡ ok (contents v.slots i)
stored-Holds p v i h hi =
    stored-content p (header_of v) _ i (validate-IsValid p _ _ h.valid) hi ∙ ap ok (h.slots i hi)

pub Holds-IsSized :
    (p : Page) (v : View) (i : ℕ) → Holds p v → i < length v.slots → IsSized (contents v.slots i)
Holds-IsSized p v i h hi = subst IsSized (h.slots i hi) (content-IsSized p i)

-- What the last four writes of `insert` make of the compacted page.
written : Page → ℕ → ℕ → Bytes → Page
written r n upper t = with_u16 (with_u16 (placed r n upper t) 20 (n + 1)) 22 upper

module _ (p : Page) (v : View) (h : Holds p v) (t : Bytes) (pos : 0 < length t)
    (fits : taken (length v.slots + 1) v.slots + length t ≤ page_size) where
  grown : View
  grown = record v { slots = v.slots ++ some t ∷ [] }

  c : ℕ → Option Bytes
  c = contents (v.slots ++ some t ∷ [])

  old : (i : ℕ) → i < length v.slots → c i ≡ contents v.slots i
  unfolding c
  old i hi = get_or-append_left v.slots (some t ∷ []) i none hi

  new : c (length v.slots) ≡ some t
  unfolding c
  new = get_or-append_last v.slots (some t) none

  sizes-c : sizes c (length v.slots) ≡ total v.slots
  sizes-c =
      sum_to_ext (λ m. size (c m)) (λ m. size (contents v.slots m)) (length v.slots)
        (λ i hi. ap size (old i hi))
      ∙ sizes-total v.slots

  compacted : (r : Page) × (compact p (header_of v) none ≡ ok r) × Packed c (header_of v) r
  unfolding tuple_for
  compacted =
      compact-Packed p (header_of v) none c
        (λ i hi. stored-Holds p v i h hi ∙ ap ok (sym (old i hi)))
        (λ i hi. subst IsSized (sym (old i hi)) (Holds-IsSized p v i h hi)) (omega (arith, sizes-c))

  upper : ℕ
  upper = page_size - total v.slots - length t

  module _ (r : Page) (packed : Packed c (header_of v) r) where
    w : Page
    w = written r (length v.slots) upper t

    lower : slot_at (suc (length v.slots)) ≤ upper
    unfolding upper
    lower = omega arith

    w-upper : upper_at w ≡ upper
    unfolding w written upper
    w-upper =
        let q = with_u16 (placed r (length v.slots) upper t) 20 (length v.slots + 1) in
        omega (arith, with_u16_low q 22 upper, with_u16_high q 22 upper)

    w-count : u16_at w 20 ≡ length v.slots + 1
    unfolding w written
    w-count =
        let q = placed r (length v.slots) upper t in
        let q' = with_u16 q 20 (length v.slots + 1) in
        omega (
          arith,
          with_u16_other q' 22 upper 20 (omega arith),
          with_u16_other q' 22 upper 21 (omega arith),
          with_u16_low q 20 (length v.slots + 1),
          with_u16_high q 20 (length v.slots + 1),
        )

    w-Built : Built c (head_of (header_of v)) w (suc (length v.slots)) upper
    unfolding w written
    w-Built =
        let b = packed.built in
        let room : slot_at (suc (length v.slots)) + sizes c (suc (length v.slots)) ≤ page_size =
          omega (arith, sizes-c, ap size new) in
        let at : upper_at r - length t ≡ upper = unfold upper in omega (arith, b.room, sizes-c) in
        let (_, b', _) = laid_down c _ r (length v.slots) (upper_at r) b room t new pos in
        let b'' : Built c (head_of (header_of v)) (placed r (length v.slots) upper t)
            (suc (length v.slots)) upper =
          subst
            (λ u.
              Built c (head_of (header_of v)) (placed r (length v.slots) u t) (suc (length v.slots))
                u)
            at b' in
        Built-counter c _ _ _ upper 22 upper lower (inr refl)
          (Built-counter c _ _ _ upper 20 (length v.slots + 1) lower (inl refl) b'')

    grown-IsSized : (i : ℕ) → i < length grown.slots → IsSized (c i)
    unfolding grown
    grown-IsSized i hi =
        below_suc (λ k. IsSized (c k)) (length v.slots)
          (λ k hk. subst IsSized (sym (old k hk)) (Holds-IsSized p v k h hk))
          (subst IsSized (sym new) pos) i (omega (arith, hi, length-append v.slots (some t ∷ [])))

    w-Holds : Holds w grown
    unfolding grown c
    w-Holds =
        let grows = length-append v.slots (some t ∷ []) in
        let count : suc (length v.slots) ≡ length (v.slots ++ some t ∷ []) = omega (arith, grows) in
        Packed-Holds (record v { slots = v.slots ++ some t ∷ [] }) w
          (record {
            built =
                subst (λ k. Built c (head_of (header_of v)) w k (upper_at w)) count
                  (subst (λ u. Built c (head_of (header_of v)) w (suc (length v.slots)) u)
                    (sym w-upper) w-Built);
            count = w-count ∙ omega (arith, grows);
          })
          grown-IsSized (omega (arith, grows, total-append v.slots t)) h.owner h.next

    w-insert :
        compact p (header_of v) none ≡ ok r → insert t p ≡ (w, ok (some (length v.slots + 1)))
    unfolding insert w written upper check_tuple write_slice placed
    w-insert run =
        let at = page_size - total v.slots - length t in
        let n = length v.slots in
        let sized : bad_size t ≡ false = ground arith in
        let room : ltb page_size (24 + (n + 1) * 4 + total v.slots + length t) ≡ false =
          ground arith in
        let inside : leb (at + length t) page_size ≡ true = le→leb _ _ (omega arith) in
        let wraps : (n + 1) % 2 ^ 16 ≡ n + 1 = omega arith in
        let some_id : (n + 1 == 0) ≡ false = ground arith in
        rw
          (
            sized,
            h.valid,
            room,
            run,
            inside,
            put_slot_lem (overwrite r at t) n at (length t) (omega arith),
            put_u16_lem (with_slot (overwrite r at t) n at (length t)) 20 (n + 1) (omega arith),
            put_u16_lem (with_u16 (with_slot (overwrite r at t) n at (length t)) 20 (n + 1)) 22 at
                (omega arith),
            wraps,
            some_id,
          )
          refl

  pub insert_fits :
      (r : Page) × (insert t p ≡ (r, ok (some (length v.slots + 1))))
      × Holds r (record v { slots = v.slots ++ some t ∷ [] })
  unfolding grown
  insert_fits =
      let (r, run, packed) = compacted in (w r packed, w-insert r packed run, w-Holds r packed)

-- A tuple of a bad size is refused, and one that does not fit is turned away; the page is untouched.
insert_bad : (p : Page) (t : Bytes) → bad_size t ≡ true → insert t p ≡ (p, err (size_error t))
unfolding insert check_tuple
insert_bad p t bad = rw bad refl

insert_full :
    (p : Page) (v : View) (t : Bytes)
    → Holds p v
    → bad_size t ≡ false
    → ltb page_size (taken (length v.slots + 1) v.slots + length t) ≡ true
    → insert t p ≡ (p, ok none)
unfolding insert check_tuple
insert_full p v t h good full = rw (good, h.valid, full) refl

-- On a page that holds a view `insert` answers as the view's `insert` does, and the page then holds
-- the view that this leaves.
pub insert_refines :
    (p : Page) (v : View) (t : Bytes)
    → Holds p v
    → ((insert t p).1 ≡ (View.insert t v).1) × Holds (insert t p).0 (View.insert t v).0
insert_refines p v t h = elim (Bool-cases (bad_size t)) [
  | inl bad ↦ rw (insert_bad p t bad, bad) (refl, h)
  | inr good ↦ elim (Bool-cases (ltb page_size (taken (length v.slots + 1) v.slots + length t))) [
    | inl full ↦ rw (insert_full p v t h good full, good, full) (refl, h)
    | inr room ↦
        let (r, run, holds) = insert_fits p v h t (ground arith) (ground arith) in
        rw (run, good, room) (refl, holds)
  ]
]
