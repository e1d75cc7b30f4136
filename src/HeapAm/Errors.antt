-- ===== src/HeapAm/Errors.antt =====
-- `HeapError` (crates/heapam/src/lib.rs); each message of `Corrupt` is a constructor.
use chili_db.Prelude.{ℕ}
use chili_db.Ctid.{Ctid}
use chili_db.Storage.Pool.{BufferError}

pub data Corruption : Type 0 where
  page_magic flags_or_reserved free_space_bounds slot_bounds overlapping_slots : Corruption
  scan_limit other_heap chain_changed no_room_on_new_page scan_page_disappeared directory_shrank :
      Corruption

pub data HeapError : Type 0 where
  corrupt : Corruption → HeapError
  invalid_tuple_size : ℕ → ℕ → HeapError
  buffer : BufferError → HeapError
  invalid_ctid : Ctid → HeapError
  no_space poisoned : HeapError
