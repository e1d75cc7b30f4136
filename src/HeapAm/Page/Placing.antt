-- ===== src/HeapAm/Page/Placing.antt =====
-- One tuple laid down by `compact` or `insert`: its bytes below `upper`, and its directory entry.
use chili_db.Prelude.{
  ℕ, ◌+◌, ◌-◌, ◌/◌, ◌%◌, ◌^◌, ◌≤◌, ◌<◌, ◌≡◌, ◌∙◌, ◌⊎◌, inr, some, ok, length, get_or, arith, le→leb,
}
use chili_db.Bytes.{Bytes, Page, page_size, overwrite, write_slice, u16_bytes}
use chili_db.Bytes.Slices.{overwrite_in, overwrite_out}
use chili_db.HeapAm.Page.{slot_at, put_u16, put_slot, place}
use chili_db.HeapAm.Page.Directory.{offset_at, len_at}

-- A number written with `put_u16`.
unfoldable pub with_u16 : Page → ℕ → ℕ → Page
with_u16 p at value = overwrite p at (u16_bytes (value % 2 ^ 16))

pub put_u16_lem :
    (p : Page) (at value : ℕ) → at + 2 ≤ page_size → put_u16 p at value ≡ ok (with_u16 p at value)
unfolding put_u16 write_slice with_u16
put_u16_lem p at value h = rw (le→leb (at + 2) page_size h)

pub with_u16_other :
    (p : Page) (at value k : ℕ) → (k < at) ⊎ (at + 2 ≤ k) → with_u16 p at value k ≡ p k
unfolding with_u16
with_u16_other p at value k h = overwrite_out p at _ k h

pub with_u16_low : (p : Page) (at value : ℕ) → with_u16 p at value at ≡ value % 256
unfolding with_u16 overwrite
with_u16_low p at value = ground arith

pub with_u16_high : (p : Page) (at value : ℕ) → with_u16 p at value (at + 1) ≡ value / 256 % 256
unfolding with_u16 overwrite
with_u16_high p at value = ground arith

-- The page after the two writes of a directory entry.
unfoldable pub with_slot : Page → ℕ → ℕ → ℕ → Page
with_slot p i offset len = with_u16 (with_u16 p (slot_at i) offset) (slot_at i + 2) len

pub put_slot_lem :
    (p : Page) (i offset len : ℕ)
    → slot_at i + 4 ≤ page_size
    → put_slot p i offset len ≡ ok (with_slot p i offset len)
unfolding put_slot with_slot
put_slot_lem p i offset len h =
    rw (put_u16_lem p (slot_at i) offset (omega arith))
      (put_u16_lem _ (slot_at i + 2) len (omega arith))

pub with_slot_other :
    (p : Page) (i offset len k : ℕ)
    → (k < slot_at i) ⊎ (slot_at i + 4 ≤ k)
    → with_slot p i offset len k ≡ p k
unfolding with_slot
with_slot_other p i offset len k h = omega (
  arith,
  with_u16_other (with_u16 p (slot_at i) offset) (slot_at i + 2) len k (omega arith),
  with_u16_other p (slot_at i) offset k (omega arith),
)

-- A directory entry reads back what was written.
pub with_slot_reads :
    (p : Page) (i offset len : ℕ)
    → offset < 2 ^ 16
    → len < 2 ^ 16
    → (offset_at (with_slot p i offset len) i ≡ offset)
      × (len_at (with_slot p i offset len) i ≡ len)
unfolding with_slot
with_slot_reads p i offset len ho hl =
    let q = with_u16 p (slot_at i) offset in
    omega (
      arith,
      with_u16_other q (slot_at i + 2) len (slot_at i) (omega arith),
      with_u16_other q (slot_at i + 2) len (slot_at i + 1) (omega arith),
      with_u16_low p (slot_at i) offset,
      with_u16_high p (slot_at i) offset,
      with_u16_low q (slot_at i + 2) len,
      with_u16_high q (slot_at i + 2) len,
    )

-- The page after `place` has laid a tuple down from `at` on.
unfoldable pub placed : Page → ℕ → ℕ → Bytes → Page
placed p i at tuple = with_slot (overwrite p at tuple) i at (length tuple)

pub place_lem :
    (i : ℕ) (tuple : Bytes) (p : Page) (upper : ℕ)
    → upper ≤ page_size
    → slot_at i + 4 + length tuple ≤ upper
    → place i (some tuple) (p, upper)
      ≡ ok (placed p i (upper - length tuple) tuple, upper - length tuple)
unfolding place write_slice placed
place_lem i tuple p upper hu h = rw (
  le→leb (length tuple) upper (omega arith),
  le→leb (upper - length tuple + length tuple) page_size (omega arith),
  put_slot_lem (overwrite p (upper - length tuple) tuple) i (upper - length tuple) (length tuple)
      (omega arith),
)

pub placed_other :
    (p : Page) (i at : ℕ) (tuple : Bytes) (k : ℕ)
    → (k < slot_at i) ⊎ (slot_at i + 4 ≤ k)
    → (k < at) ⊎ (at + length tuple ≤ k)
    → placed p i at tuple k ≡ p k
unfolding placed
placed_other p i at tuple k h h' =
    with_slot_other _ i at (length tuple) k h ∙ overwrite_out p at tuple k h'

pub placed_tuple :
    (p : Page) (i at : ℕ) (tuple : Bytes) (k : ℕ)
    → slot_at i + 4 ≤ at
    → at ≤ k
    → k < at + length tuple
    → placed p i at tuple k ≡ get_or tuple (k - at) 0
unfolding placed
placed_tuple p i at tuple k h a b =
    with_slot_other _ i at (length tuple) k (inr (omega arith)) ∙ overwrite_in p at tuple k a b

pub placed-reads :
    (p : Page) (i at : ℕ) (tuple : Bytes)
    → at < 2 ^ 16
    → length tuple < 2 ^ 16
    → (offset_at (placed p i at tuple) i ≡ at) × (len_at (placed p i at tuple) i ≡ length tuple)
unfolding placed
placed-reads p i at tuple h h' = with_slot_reads _ i at (length tuple) h h'
