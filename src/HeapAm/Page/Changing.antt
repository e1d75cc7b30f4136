-- ===== src/HeapAm/Page/Changing.antt =====
-- `delete` and `replace` of crates/heapam/src/page.rs against the view that the page holds.
use chili_db.Prelude.{
  ℕ, zero, suc, ◌+◌, ◌-◌, ◌≤◌, ◌<◌, ◌≡◌, refl, sym, ◌∙◌, ap, subst, inl, inr, true, Option, none,
  some, List, [], ◌∷◌, ok, err, ltb, ◌==◌, length, set, length-set, get_or, get_or-set_self,
  get_or-set_ne, arith, Bool-cases,
}
use chili_db.Bytes.{Bytes, Page, page_size}
use chili_db.HeapAm.Page.{slot, check_tuple, tuple_for, compact}
use chili_db.HeapAm.Page.Directory.{offset_at, size}
use chili_db.HeapAm.Page.Validity.{validate-IsValid}
use chili_db.HeapAm.Page.Building.{sizes, IsSized}
use chili_db.HeapAm.Page.Compaction.{Packed, compact-Packed}
use chili_db.HeapAm.Page.Accepting.{slot_lem}
use chili_db.HeapAm.Page.View
use chili_db.HeapAm.Page.View.{View, total, header_of, slot_of, taken, bad_size, size_error}
use chili_db.HeapAm.Page.Holds.{Holds, contents, sizes-total, size-content, Packed-Holds}
use chili_db.HeapAm.Page.Inserting.{stored-Holds, Holds-IsSized}
use chili_db.HeapAm.Page.Ops.{delete, replace}

total-set :
    (xs : List (Option Bytes)) (i : ℕ) (o : Option Bytes)
    → i < length xs
    → total (set xs i o) + size (get_or xs i none) ≡ total xs + size o
total-set [] i o h = elim h [ ]
total-set (x ∷ xs) zero o h = omega arith
total-set (x ∷ xs) (suc i) o h = omega (arith, total-set xs i o (omega arith))

module _ (p : Page) (v : View) (h : Holds p v) (index : ℕ) (o : Option Bytes)
    (hi : index < length v.slots) (sized : IsSized o)
    (fits : taken (length v.slots) (set v.slots index o) ≤ page_size) where
  c : ℕ → Option Bytes
  c = contents (set v.slots index o)

  chosen : (i : ℕ) → i < length v.slots → tuple_for p (some (index, o)) i ≡ ok (c i)
  unfolding tuple_for c
  chosen i h' = elim (Bool-cases (index == i)) [
    | inl e ↦
        let e' : index ≡ i = ground arith in
        rw e (
          ap ok (
            sym (get_or-set_self v.slots index o none hi)
            ∙ ap (λ k. get_or (set v.slots index o) k none) e'))
    | inr n ↦ rw n (
        stored-Holds p v i h h' ∙ ap ok (sym (get_or-set_ne v.slots index i o none (ground arith))))
  ]

  after-IsSized : (i : ℕ) → i < length v.slots → IsSized (c i)
  unfolding c
  after-IsSized i h' = elim (Bool-cases (index == i)) [
    | inl e ↦
        let e' : index ≡ i = ground arith in
        subst (λ k. IsSized (get_or (set v.slots index o) k none)) e'
          (subst IsSized (sym (get_or-set_self v.slots index o none hi)) sized)
    | inr n ↦
        subst IsSized (sym (get_or-set_ne v.slots index i o none (ground arith)))
          (Holds-IsSized p v i h h')
  ]

  -- `compact` with a change yields a page that holds the changed view.
  pub compact_change :
      (r : Page) × (compact p (header_of v) (some (index, o)) ≡ ok r)
      × Holds r (record v { slots = set v.slots index o })
  unfolding c
  compact_change =
      let n = length-set v.slots index o in
      let all : sizes c (length v.slots) ≡ total (set v.slots index o) =
        ap (λ k. sizes c k) (sym n) ∙ sizes-total (set v.slots index o) in
      let (r, run, packed) =
        compact-Packed p (header_of v) (some (index, o)) c chosen after-IsSized
          (omega (arith, all)) in
      (
        r,
        run,
        Packed-Holds (record v { slots = set v.slots index o }) r
            (subst
              (λ (k : ℕ).
                Packed (contents (set v.slots index o)) (record (header_of v) { slots = k }) r)
              (sym n) packed)
            (λ i h'. after-IsSized i (omega (arith, n))) (omega (arith, n)) h.owner h.next,
      )

-- The directory entry of a live slot, as the operations read it first.
slot-Holds :
    (p : Page) (v : View) (i : ℕ)
    → Holds p v
    → i < length v.slots
    → slot p i ≡ ok (offset_at p i, size (contents v.slots i))
slot-Holds p v i h hi =
    let valid = validate-IsValid p _ _ h.valid in
    slot_lem p i (omega (arith, valid.lower, valid.upper))
    ∙ ap (λ (n : ℕ). ok (offset_at p i, n)) (sym (size-content p i) ∙ ap size (h.slots i hi))

-- What a view takes fits on the page that holds it.
pub Holds-taken : (p : Page) (v : View) → Holds p v → taken (length v.slots) v.slots ≤ page_size
Holds-taken p v h =
    let valid = validate-IsValid p _ _ h.valid in omega (arith, valid.lower, valid.fits)

-- On a page that holds a view `delete` answers as the view's `delete` does, and the page then holds
-- the view that this leaves.
pub delete_refines :
    (p : Page) (v : View) (id : ℕ)
    → 0 < id
    → Holds p v
    → ((delete id p).1 ≡ (View.delete id v).1) × Holds (delete id p).0 (View.delete id v).0
unfolding delete
delete_refines p v id pos h = elim (Bool-cases (ltb (length v.slots) id)) [
  | inl beyond ↦ rw (h.valid, beyond) (refl, h)
  | inr within ↦
      let hi : id - 1 < length v.slots = ground arith in
      let read = slot-Holds p v (id - 1) h hi in
      elim (Bool-cases (size (slot_of v id) == 0)) [
        | inl dead ↦ rw (h.valid, within, read, dead) (refl, h)
        | inr live ↦
            let (r, run, holds) =
              compact_change p v h (id - 1) none hi tt
                (omega (arith, Holds-taken p v h, total-set v.slots (id - 1) none hi)) in
            rw (h.valid, within, read, live, run) (refl, holds)
      ]
]

replace_bad :
    (p : Page) (id : ℕ) (t : Bytes) → bad_size t ≡ true → replace id t p ≡ (p, err (size_error t))
unfolding replace check_tuple
replace_bad p id t bad = rw bad refl

-- On a page that holds a view `replace` answers as the view's `replace` does, and the page then
-- holds the view that this leaves.
pub replace_refines :
    (p : Page) (v : View) (id : ℕ) (t : Bytes)
    → 0 < id
    → Holds p v
    → ((replace id t p).1 ≡ (View.replace id t v).1)
      × Holds (replace id t p).0 (View.replace id t v).0
unfolding replace check_tuple
replace_refines p v id t pos h = elim (Bool-cases (bad_size t)) [
  | inl bad ↦ rw (replace_bad p id t bad, bad) (refl, h)
  | inr good ↦ elim (Bool-cases (ltb (length v.slots) id)) [
    | inl beyond ↦ rw (good, h.valid, beyond) (refl, h)
    | inr within ↦
        let hi : id - 1 < length v.slots = ground arith in
        let read = slot-Holds p v (id - 1) h hi in
        elim (Bool-cases (size (slot_of v id) == 0)) [
          | inl dead ↦ rw (good, h.valid, within, read, dead) (refl, h)
          | inr live ↦
              elim (Bool-cases
                (ltb page_size (taken (length v.slots) v.slots - size (slot_of v id) + length t))) [
                  | inl full ↦ rw (good, h.valid, within, read, live, full) (refl, h)
                  | inr room ↦
                      let spare : taken (length v.slots) v.slots - size (slot_of v id) + length t
                          ≤ page_size =
                        ground arith in
                      let (r, run, holds) =
                        compact_change p v h (id - 1) (some t) hi (ground arith)
                          (omega (arith, spare, total-set v.slots (id - 1) (some t) hi)) in
                      rw (good, h.valid, within, read, live, room, run) (refl, holds)
                ]
        ]
  ]
]
