-- ===== src/Storage/Pool.antt =====
-- crates/storage/src/buffer.rs: the buffer pool, over a page store and a replacement strategy.
-- Each method is one step: the pool is a value, and a pin is the index and page of a `PinnedBuffer`.
pub mod PageTable
pub mod Ops
pub mod Cached
pub mod Frames
pub mod Installing
pub mod Victims
pub mod Flushing
pub mod Replacing
pub mod Pinning
pub mod Loading
pub mod Creating
pub mod Holding
pub mod Flush
pub mod FlushAll
pub mod Syncing
pub mod Opening
mod Tests
use chili_db.Prelude.{
  ℕ, zero, suc, ◌+◌, ◌-◌, ◌%◌, ◌^◌, Bool, true, false, not, ◌&&◌, ◌||◌, List, [], ◌∷◌, Option, none,
  some, Result, ok, err, panic, ltb, leb, ◌==◌, if◌then◌else◌, length, get_elem?, set, guard,
  assert, ◌>>◌,
}
use chili_db.Prelude.Methods.{Method}
use chili_db.Bytes.{Page, zeros}
use chili_db.Storage.Store.{IoError, PageStore}
use chili_db.Storage.Clock
use chili_db.Storage.Clock.{Clock}
use chili_db.Storage.Pool.PageTable.{Table}

pub data BufferError : Type 0 where
  invalid_capacity all_pinned poisoned pin_overflow : BufferError
  invalid_victim : ℕ → BufferError
  io : IoError → BufferError

-- A frame: its `AlignedPage` and its `BufferDesc`, where `u64::MAX` is no tag. The last field is
-- the poison flag of the content lock.
pub record Frame : Type 0 where
  pub bytes : Page
  pub tag : Option ℕ
  pub pins : ℕ
  pub dirty : Bool
  pub is_poisoned : Bool

abbrev pub unused : Frame
unused = record { bytes = zeros; tag = none; pins = 0; dirty = false; is_poisoned = false }

-- `VictimStrategy`: a call may panic.
pub record VictimStrategy (K : Type 0) : Type 0 where
  pub access : ℕ → Method K ⊥ (Unit {0})
  pub load : ℕ → Method K ⊥ (Unit {0})
  pub victim : (ℕ → Bool) → Method K ⊥ (Option ℕ)

-- `BufferPool`; `is_poisoned` is the flag of the metadata mutex.
pub record Pool (S K : Type 0) : Type 0 where
  pub store : S
  pub frames : List Frame
  pub pages : Table
  pub strategy : K
  pub is_poisoned : Bool

-- `PinnedBuffer`
pub record Pin : Type 0 where
  pub index : ℕ
  pub page : ℕ

abbrev pub fresh_frames : ℕ → List Frame
fresh_frames zero = []
fresh_frames (suc n) = unused ∷ fresh_frames n

-- Up to 2^32 frames and descriptors lie within `isize::MAX` bytes, so `Layout::array` accepts them.
unfoldable pub validate_capacity : ℕ → Result BufferError (Unit {0})
validate_capacity capacity =
    guard (not (capacity == 0 || not (ltb (capacity - 1) (2 ^ 32)))) invalid_capacity

unfoldable pub with_strategy : {S K : Type 0} → ℕ → S → K → Result BufferError (Pool S K)
with_strategy {S} {K} capacity store strategy =
    let pool : Pool S K = record {
      store = store;
      frames = fresh_frames capacity;
      pages = [];
      strategy = strategy;
      is_poisoned = false;
    } in
    validate_capacity capacity >> ok pool

abbrev pub with_clock : {S : Type 0} → ℕ → S → Result ⊥ Clock → Result BufferError (Pool S Clock)
with_clock capacity store (ok clock) = with_strategy capacity store clock
with_clock capacity store (err e) = panic
with_clock capacity store panic = panic

-- `BufferPool::new`
unfoldable pub new : {S : Type 0} → ℕ → S → Result BufferError (Pool S Clock)
new capacity store = validate_capacity capacity >> with_clock capacity store (Clock.new capacity)
