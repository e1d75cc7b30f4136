-- ===== src/HeapAm/Page.antt =====
-- crates/heapam/src/page.rs: stable, one-based slot ids over a compactable heap page.
pub mod Ops
pub mod Directory
mod Occupancy
pub mod Validity
mod Placing
mod Building
pub mod Compaction
mod Accepting
pub mod View
pub mod Holds
pub mod Layout
mod Scanning
pub mod Deciding
pub mod Inserting
pub mod Changing
pub mod Reading
pub mod Linking
pub mod Session
mod Tests
use chili_db.Prelude.{
  ℕ, zero, suc, ◌+◌, ◌-◌, ◌*◌, ◌%◌, ◌^◌, ◌≤◌, Bool, true, false, not, ◌&&◌, ◌||◌, Option, none,
  some, List, [], ◌∷◌, ltb, leb, ◌==◌, if◌then◌else◌, length, Result, ok, err, panic, ◌>>=◌, ◌>>◌,
  guard, assert,
}
use chili_db.Prelude.Loops.{for_range}
use chili_db.Bytes.{
  Bytes, Page, page_size, zeros, overwrite, read_slice, write_slice, u16_bytes, u32_bytes, u16_of,
  u32_of,
}
use chili_db.HeapAm.Errors.{
  HeapError, corrupt, invalid_tuple_size, page_magic, flags_or_reserved, free_space_bounds,
  slot_bounds, overlapping_slots, scan_limit,
}

-- b"CHILIHP1"
abbrev pub magic : Bytes
magic = 67 ∷ 72 ∷ 73 ∷ 76 ∷ 73 ∷ 72 ∷ 80 ∷ 49 ∷ []

abbrev pub header_size : ℕ
header_size = 24

abbrev pub slot_size : ℕ
slot_size = 4

abbrev pub max_tuple_size : ℕ
max_tuple_size = page_size - header_size - slot_size

pub record Header : Type 0 where
  pub owner : ℕ
  pub next : Option ℕ
  pub slots : ℕ

abbrev pub R : Type 0 → Type 0
R = Result HeapError

abbrev pub u16_at : Page → ℕ → ℕ
u16_at p at = u16_of (p at) (p (at + 1))

abbrev pub u32_at : Page → ℕ → ℕ
u32_at p at = u32_of (p at) (p (at + 1)) (p (at + 2)) (p (at + 3))

-- `value as u16` keeps the low 16 bits.
unfoldable pub put_u16 : Page → ℕ → ℕ → R Page
put_u16 p at value = write_slice p at (u16_bytes (value % 2 ^ 16))

abbrev pub slot_at : ℕ → ℕ
slot_at index = header_size + index * slot_size

-- The two numbers of a slot are read by index, so a directory entry outside the page is a panic.
unfoldable pub slot : Page → ℕ → R (ℕ × ℕ)
slot p index = do
  assert (leb (slot_at index + 4) page_size)
  ok (u16_at p (slot_at index), u16_at p (slot_at index + 2))

unfoldable pub put_slot : Page → ℕ → ℕ → ℕ → R Page
put_slot p index offset len = do
  p' ← put_u16 p (slot_at index) offset
  put_u16 p' (slot_at index + 2) len

unfoldable pub initialize : Page → ℕ → R Page
initialize p owner = do
  p' ← write_slice zeros 0 magic
  p'' ← write_slice p' 8 (u32_bytes owner)
  put_u16 p'' 22 page_size

abbrev pub Occupied : Type 0
Occupied = ℕ → Bool

abbrev pub mark : Occupied → ℕ → Occupied
mark occupied at i = if i == at then true else occupied i

-- The bytes of a slot are marked one by one; the first number counts those left.
unfoldable pub occupy : ℕ → ℕ → Occupied → R Occupied
occupy zero at occupied = ok occupied
occupy (suc n) at occupied =
    let rest = occupy n (suc at) (mark occupied at) in
    if occupied at then err (corrupt overlapping_slots) else rest

-- The body of the loop of `validate` on a slot's two numbers.
unfoldable pub claim : ℕ → ℕ → ℕ → Occupied × ℕ → R (Occupied × ℕ)
claim upper offset len (occupied, used) =
    if offset == 0 && len == 0 then ok (occupied, used) else do
      guard (not (len == 0 || ltb offset upper || ltb page_size (offset + len)))
          (corrupt slot_bounds)
      occupied' ← occupy len offset occupied
      ok (occupied', used + len)

unfoldable pub validate_slot : Page → ℕ → ℕ → Occupied × ℕ → R (Occupied × ℕ)
validate_slot p upper index s = do (offset, len) ← slot p index; claim upper offset len s

abbrev pub has_magic : Page → Bool
has_magic p =
    p 0 == 67
    && p 1 == 72
    && p 2 == 73
    && p 3 == 76
    && p 4 == 73
    && p 5 == 72
    && p 6 == 80
    && p 7 == 49

abbrev pub good_flags : Page → Bool
good_flags p = leb (p 16) 1 && p 17 == 0 && p 18 == 0 && p 19 == 0

abbrev pub header_at : Page → Header
header_at p = record {
  owner = u32_at p 8;
  next = if p 16 == 1 then some (u32_at p 12) else none;
  slots = u16_at p 20;
}

unfoldable pub validate : Page → R (Header × ℕ)
validate p = do
  guard (has_magic p) (corrupt page_magic)
  guard (good_flags p) (corrupt flags_or_reserved)
  let slots = u16_at p 20
  let upper = u16_at p 22
  guard (leb (slot_at slots) upper && leb upper page_size) (corrupt free_space_bounds)
  (occupied, used) ← for_range (validate_slot p upper) slots 0 ((λ _. false), 0)
  ok (header_at p, used)

unfoldable pub check_tuple : Bytes → R (Unit {0})
check_tuple tuple =
    guard (not (length tuple == 0 || ltb max_tuple_size (length tuple)))
      (invalid_tuple_size (length tuple) max_tuple_size)

abbrev pub Change : Type 0
Change = Option (ℕ × Option Bytes)

unfoldable pub stored : Page → ℕ → R (Option Bytes)
stored p index = do
  (offset, len) ← slot p index
  if len == 0 then ok none else (read_slice p offset len >>= λ bytes. ok (some bytes))

unfoldable pub tuple_for : Page → Change → ℕ → R (Option Bytes)
tuple_for p (some (changed, tuple)) index = if changed == index then ok tuple else stored p index
tuple_for p none index = stored p index

-- One round of the loop of `compact`, over the page under construction and `upper`.
unfoldable pub place : ℕ → Option Bytes → Page × ℕ → R (Page × ℕ)
place index none (result, upper) = ok (result, upper)
place index (some tuple) (result, upper) = do
  assert (leb (length tuple) upper)
  let upper' = upper - length tuple
  result' ← write_slice result upper' tuple
  result'' ← put_slot result' index upper' (length tuple)
  ok (result'', upper')

unfoldable pub compact_slot : Page → Change → ℕ → Page × ℕ → R (Page × ℕ)
compact_slot p change index s = do tuple ← tuple_for p change index; place index tuple s

abbrev pub next_bytes : Option ℕ → Bytes
next_bytes none = 0 ∷ 0 ∷ 0 ∷ 0 ∷ []
next_bytes (some next) = u32_bytes next

abbrev pub next_flag : Option ℕ → ℕ
next_flag none = 0
next_flag (some next) = 1

-- The page that `compact` starts from: the header alone.
unfoldable pub compact_base : Header → R Page
compact_base h = do
  p ← initialize zeros h.owner
  p' ← write_slice p 12 (next_bytes h.next)
  p'' ← write_slice p' 16 (next_flag h.next ∷ [])
  put_u16 p'' 20 h.slots

unfoldable pub compact : Page → Header → Change → R Page
compact p h change = do
  base ← compact_base h
  (result, upper) ← for_range (compact_slot p change) h.slots 0 (base, page_size)
  put_u16 result 22 upper
