-- ===== src/Storage/BufferModel.antt =====
-- crates/storage/src/models/buffer_pool.rs: the protocol of an asynchronous buffer pool, as a state
-- machine: frames, backends, the page table, and the last step's event.
pub mod Step
pub mod Actions
pub mod Invariant
pub mod Entries
pub mod Patch
pub mod Turn
pub mod Settle
pub mod Landing
pub mod Enabled
pub mod Seeking
pub mod Publishing
pub mod Finishing
pub mod Keeps
pub mod Offered
pub mod Listing
pub mod Reach
pub mod Checks
pub mod Walks
pub mod Pins
pub mod Mapping
pub mod Owning
pub mod Reporting
pub mod Safe
pub mod Progress
mod Traces
pub mod Moves
pub mod Reserving
pub mod Accessing
use chili_db.Prelude.{
  ◌<◌, ◌≡◌, ltb, ◌&&◌, if◌then◌else◌, arith, ℕ, zero, suc, ◌+◌, Bool, true, false, List, [], ◌∷◌,
  Option, none, some,
}

pub data Frame : Type 0 where
  free : Frame
  reserved : (target_page_id owner_backend_id : ℕ) → Frame
  flushing : (old_page_id target_page_id owner_backend_id : ℕ) → Frame
  loading : (page_id : ℕ) (io_started : Bool) → Frame
  ready : (page_id pin_count : ℕ) (dirty : Bool) → Frame

-- A worker. The flag is `retry_after_load_failure`.
pub data Backend : Type 0 where
  idle : Backend
  request : (page_id : ℕ) (retry : Bool) → Backend
  miss : (page_id : ℕ) (retry : Bool) → Backend
  reserved : (frame_id page_id : ℕ) (retry : Bool) → Backend
  waiting : (frame_id page_id : ℕ) (retry : Bool) → Backend
  pinned : (frame_id page_id : ℕ) → Backend
  reading : (frame_id page_id : ℕ) → Backend
  writing : (frame_id page_id : ℕ) → Backend

pub record PinnedPage : Type 0 where
  pub frame_id : ℕ
  pub page_id : ℕ

-- `Backend::pin`
abbrev pub pin : Backend → Option PinnedPage
pin (pinned f p) = some (record { frame_id = f; page_id = p })
pin (reading f p) = some (record { frame_id = f; page_id = p })
pin (writing f p) = some (record { frame_id = f; page_id = p })
pin idle = none
pin (request p r) = none
pin (miss p r) = none
pin (Backend.reserved f p r) = none
pin (waiting f p r) = none

-- `Event::None` is `no_event`.
pub data Event : Type 0 where
  no_event : Event
  race_released : (frame_id : ℕ) → Event
  load_failed : (frame_id page_id : ℕ) → Event
  retry_succeeded : Event
  flush_failed : (frame_id page_id : ℕ) → Event

pub record State : Type 0 where
  pub frames : List Frame
  pub backends : List Backend
  pub page_table : List (Option ℕ)
  pub event : Event

pub data Action : Type 0 where
  request : (backend_id page_id : ℕ) → Action
  lookup : (backend_id : ℕ) → Action
  reserve : (backend_id frame_id : ℕ) → Action
  publish : (backend_id : ℕ) → Action
  submit : (frame_id : ℕ) → Action
  load_done : (frame_id : ℕ) (success : Bool) → Action
  flush_done : (frame_id : ℕ) (success : Bool) → Action
  cancel : (backend_id : ℕ) → Action
  read : (backend_id : ℕ) → Action
  write : (backend_id : ℕ) → Action
  end_access : (backend_id : ℕ) → Action
  unpin : (backend_id : ℕ) → Action

-- `State::published`
abbrev pub published : Frame → Option ℕ
published (ready p c d) = some p
published (loading p io) = some p
published (flushing old t o) = some old
published free = none
published (Frame.reserved t o) = none

module _ {ℓ} {A : Type ℓ} where
  abbrev pub replicate : ℕ → A → List A
  replicate zero a = []
  replicate (suc n) a = a ∷ replicate n a

-- `BufferModel` and its bounds, which `new` asserts to be positive.
pub record BufferModel : Type 0 where
  pub frame_count : ℕ
  pub page_count : ℕ
  pub backend_count : ℕ

-- `BufferModel::new`; `none` is a failed assertion.
unfoldable pub new : ℕ → ℕ → ℕ → Option BufferModel
new frames pages backends =
    if ltb 0 frames && ltb 0 pages && ltb 0 backends
    then some (record { frame_count = frames; page_count = pages; backend_count = backends })
    else none

-- What `new` asserts.
pub record IsModel (m : BufferModel) : Type 0 where
  pub some_frame : 0 < m.frame_count
  pub some_page : 0 < m.page_count
  pub some_backend : 0 < m.backend_count

pub new-IsModel : (f p b : ℕ) {m : BufferModel} → new f p b ≡ some m → IsModel m
unfolding new
new-IsModel f p b h = ground arith

-- `init_states` has this one state.
abbrev pub init : BufferModel → State
init m = record {
  frames = replicate m.frame_count free;
  backends = replicate m.backend_count idle;
  page_table = replicate m.page_count none;
  event = no_event;
}
