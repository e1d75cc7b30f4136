-- ===== src/HeapAm/Page/Ops.antt =====
-- The operations of crates/heapam/src/page.rs on `&mut Page` and on `&Page`.
use chili_db.Prelude.{
  ℕ, zero, suc, ◌+◌, ◌-◌, ◌*◌, ◌%◌, ◌^◌, Bool, true, false, Option, none, some, List, [], ◌∷◌, ltb,
  ◌||◌, ◌==◌, if◌then◌else◌, length, err,
}
use chili_db.Prelude.Methods.{Method, pure, inspect, lift, assign, ◌>>=◌, ◌>>◌}
use chili_db.Bytes.{Bytes, Page, page_size, write_slice}
use chili_db.HeapAm.Errors.{HeapError, corrupt, scan_limit}
use chili_db.HeapAm.Page.{
  validate, check_tuple, compact, header_size, slot_size, slot, put_slot, put_u16, next_bytes,
  next_flag, stored,
}

abbrev pub M : Type 0 → Type 0
M = Method Page HeapError

unfoldable pub set_next : Option ℕ → M (Unit {0})
set_next next = do
  _ ← inspect validate
  p ← inspect (λ p. write_slice p 12 (next_bytes next))
  p' ← lift (write_slice p 16 (next_flag next ∷ []))
  assign p'

-- `NonZeroU16::new(n as u16)`
abbrev pub slot_id : ℕ → Option ℕ
slot_id n = if n % 2 ^ 16 == 0 then none else some (n % 2 ^ 16)

-- The answer is the one-based slot id, `none` when the tuple does not fit.
unfoldable pub insert : Bytes → M (Option ℕ)
insert tuple = do
  lift (check_tuple tuple)
  (h, used) ← inspect validate
  let new_slots = h.slots + 1
  if ltb page_size (header_size + new_slots * slot_size + used + length tuple)
      then pure none
      else do
        result ← inspect (λ p. compact p h none)
        let upper = page_size - used - length tuple
        result' ← lift (write_slice result upper tuple)
        result'' ← lift (put_slot result' h.slots upper (length tuple))
        result₃ ← lift (put_u16 result'' 20 new_slots)
        result₄ ← lift (put_u16 result₃ 22 upper)
        assign result₄
        pure (slot_id new_slots)

-- `get` and `records` take `&Page`. A slot id is a nonzero number.
unfoldable pub get : ℕ → M (Option Bytes)
get id = do
  (h, used) ← inspect validate
  if ltb h.slots id then pure none else inspect (λ p. stored p (id - 1))

-- `NonZeroU16::new(index as u16 + 1)` with the tuple, if the slot is live.
unfoldable pub add_row : ℕ → Option Bytes → List (ℕ × Bytes) → List (ℕ × Bytes)
add_row index none rest = rest
add_row index (some bytes) rest = (index % 2 ^ 16 + 1, bytes) ∷ rest

-- The rows that the iterator of `records` yields, from `index` on; the first number counts the rest.
unfoldable pub rows_from : ℕ → ℕ → M (List (ℕ × Bytes))
rows_from zero index = pure []
rows_from (suc n) index = do
  row ← inspect (λ p. stored p index)
  rest ← rows_from n (suc index)
  pure (add_row index row rest)

unfoldable pub records : ℕ → M (List (ℕ × Bytes))
records limit = do
  (h, used) ← inspect validate
  if ltb h.slots limit then lift (err (corrupt scan_limit)) else rows_from limit 0

unfoldable pub delete : ℕ → M Bool
delete id = do
  (h, used) ← inspect validate
  let index = id - 1
  if ltb h.slots id then pure false else do
    (offset, len) ← inspect (λ p. slot p index)
    if len == 0
        then pure false
        else do result ← inspect (λ p. compact p h (some (index, none))); assign result; pure true

unfoldable pub replace : ℕ → Bytes → M Bool
replace id tuple = do
  lift (check_tuple tuple)
  (h, used) ← inspect validate
  let index = id - 1
  if ltb h.slots id then pure false else do
    (offset, old_len) ← inspect (λ p. slot p index)
    let needed = header_size + h.slots * slot_size + used - old_len + length tuple
    if old_len == 0 || ltb page_size needed then pure false else do
      result ← inspect (λ p. compact p h (some (index, some tuple)))
      assign result
      pure true
