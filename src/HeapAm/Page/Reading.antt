-- ===== src/HeapAm/Page/Reading.antt =====
-- `initialize`, `set_next`, `get` and `records` against the view that the page holds.
use chili_db.Prelude.{
  ℕ, zero, suc, ◌+◌, ◌-◌, ◌%◌, ◌^◌, ◌≤◌, ◌<◌, ◌≡◌, refl, ap, inl, inr, Option, none, List, [], ◌∷◌,
  ok, ltb, length, get_or, arith, Bool-cases, Option-cases,
}
use chili_db.Prelude.Loops.{for_range}
use chili_db.Bytes.{Bytes, Page, page_size, overwrite, write_slice}
use chili_db.Bytes.Words.{u32_of-bytes}
use chili_db.HeapAm.Page.{validate, initialize, put_u16}
use chili_db.HeapAm.Page.View
use chili_db.HeapAm.Page.View.{View, total, header_of, slot_of, live_rows}
use chili_db.HeapAm.Page.Holds.{Holds}
use chili_db.HeapAm.Page.Inserting.{stored-Holds}
use chili_db.HeapAm.Page.Changing.{Holds-taken}
use chili_db.HeapAm.Page.Ops.{get, records, rows_from, add_row}

-- On a page that holds a view `get` answers the tuple of a live slot, `none` for a deleted slot or
-- an id beyond the last, and leaves the page alone.
pub get_refines :
    (p : Page) (v : View) (id : ℕ) → 0 < id → Holds p v → get id p ≡ (p, (View.get id v).1)
unfolding get
get_refines p v id pos h = elim (Bool-cases (ltb (length v.slots) id)) [
  | inl beyond ↦ rw (h.valid, beyond) refl
  | inr within ↦ rw (h.valid, within, stored-Holds p v (id - 1) h (ground arith)) refl
]

-- The rest of a list from an index on.
abbrev drop : ℕ → List (Option Bytes) → List (Option Bytes)
drop zero xs = xs
drop (suc n) [] = []
drop (suc n) (x ∷ xs) = drop n xs

drop-cons :
    (xs : List (Option Bytes)) (i : ℕ)
    → i < length xs
    → drop i xs ≡ get_or xs i none ∷ drop (suc i) xs
drop-cons [] i h = elim h [ ]
drop-cons (x ∷ xs) zero h = refl
drop-cons (x ∷ xs) (suc i) h = drop-cons xs i (omega arith)

rows_from_lem :
    (p : Page) (v : View) (n i : ℕ)
    → Holds p v
    → n + i ≤ length v.slots
    → length v.slots ≤ page_size
    → rows_from n i p ≡ (p, ok (live_rows n i (drop i v.slots)))
unfolding rows_from add_row
rows_from_lem p v zero i h fits small = refl
rows_from_lem p v (suc n) i h fits small =
    let hi : i < length v.slots = omega arith in
    let id : i % 2 ^ 16 + 1 ≡ suc i = omega arith in
    let row = stored-Holds p v i h hi in
    let rest = rows_from_lem p v n (suc i) h (omega arith) small in
    elim (Option-cases (get_or v.slots i none)) [
      | inl dead ↦ rw (row, dead, rest, drop-cons v.slots i hi, dead) refl
      | inr (tuple, live) ↦ rw (row, live, rest, drop-cons v.slots i hi, live, id) refl
    ]

-- On a page that holds a view `records` yields the live slots up to the limit, in order, and refuses
-- a limit beyond the directory.
pub records_refines :
    (p : Page) (v : View) (limit : ℕ) → Holds p v → records limit p ≡ (p, (View.records limit v).1)
unfolding records
records_refines p v limit h = elim (Bool-cases (ltb (length v.slots) limit)) [
  | inl beyond ↦ rw (h.valid, beyond) refl
  | inr within ↦
      rw (h.valid, within)
        (rows_from_lem p v limit 0 h (ground arith) (omega (arith, Holds-taken p v h)))
]

-- A page fresh from `initialize` holds the empty view of its owner, whatever it held before.
pub initialize_refines :
    (p : Page) (owner : ℕ)
    → owner < 2 ^ 32
    → (r : Page) × (initialize p owner ≡ ok r) × Holds r (View.empty owner)
unfolding initialize put_u16 write_slice validate for_range overwrite
initialize_refines p owner ho = (
  _,
  refl,
  record {
    valid =
        ap (λ (o : ℕ). ok (record { owner = o; next = none; slots = 0 }, 0))
          (u32_of-bytes owner ho);
    slots = λ i h. absurd (omega arith);
    owner = ho;
    next = λ n e. cc;
  },
)
