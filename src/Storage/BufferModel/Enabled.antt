-- ===== src/Storage/BufferModel/Enabled.antt =====
-- When a step is offered, and what its event reports.
use chili_db.Prelude.{ℕ, ◌<◌, ◌≡◌, ◌≢◌, Bool, true, false, none, some, get_elem?}
use chili_db.Storage.BufferModel.{
  Frame, free, flushing, loading, ready, Backend, idle, miss, waiting, pinned, reading, writing,
  Event, no_event, race_released, load_failed, retry_succeeded, flush_failed, State, Action,
}
use chili_db.Storage.BufferModel.Actions.{is_writing, is_accessing}
use chili_db.Storage.BufferModel.Step.{Next, panicked, ignored, to}
use chili_db.Storage.BufferModel.Invariant.{Inv}

abbrev pub Seeks : Backend → Type 0
Seeks (Backend.request p r) = Unit
Seeks (miss p r) = Unit
Seeks idle = ⊥
Seeks (Backend.reserved f p r) = ⊥
Seeks (waiting f p r) = ⊥
Seeks (pinned f p) = ⊥
Seeks (reading f p) = ⊥
Seeks (writing f p) = ⊥

abbrev pub Victim : Frame → Type 0
Victim free = Unit
Victim (ready q c d) = c ≡ 0
Victim (Frame.reserved t o) = ⊥
Victim (flushing q t o) = ⊥
Victim (loading q io) = ⊥

abbrev pub Accesses : Backend → Type 0
Accesses (reading f p) = Unit
Accesses (writing f p) = Unit
Accesses idle = ⊥
Accesses (Backend.request p r) = ⊥
Accesses (miss p r) = ⊥
Accesses (Backend.reserved f p r) = ⊥
Accesses (waiting f p r) = ⊥
Accesses (pinned f p) = ⊥

-- The condition under which an action is offered, for a table of `n` pages.
abbrev pub Enabled : ℕ → State → Action → Type 0
Enabled n s (Action.request b p) = (get_elem? s.backends b ≡ some idle) × (p < n)
Enabled n s (Action.lookup b) = (k : Backend) × (get_elem? s.backends b ≡ some k) × Seeks k
Enabled n s (Action.reserve b f) =
    (p : ℕ) × (r : Bool) × (x : Frame) × (get_elem? s.backends b ≡ some (miss p r))
    × (get_elem? s.frames f ≡ some x)
    × Victim x
Enabled n s (Action.publish b) =
    (f : ℕ) × (p : ℕ) × (r : Bool) × (t : ℕ) × (o : ℕ) × (get_elem? s.backends b
      ≡ some (Backend.reserved f p r))
    × (get_elem? s.frames f ≡ some (Frame.reserved t o))
Enabled n s (Action.submit f) = (p : ℕ) × (get_elem? s.frames f ≡ some (loading p false))
Enabled n s (Action.load_done f ok) = (p : ℕ) × (get_elem? s.frames f ≡ some (loading p true))
Enabled n s (Action.flush_done f ok) =
    (q : ℕ) × (t : ℕ) × (o : ℕ) × (get_elem? s.frames f ≡ some (flushing q t o))
Enabled n s (Action.cancel b) =
    (f : ℕ) × (p : ℕ) × (r : Bool) × (get_elem? s.backends b ≡ some (waiting f p r))
Enabled n s (Action.read b) =
    (f : ℕ) × (p : ℕ) × (get_elem? s.backends b ≡ some (pinned f p))
    × ((c : ℕ) (k : Backend) → get_elem? s.backends c ≡ some k → is_writing f k ≡ false)
Enabled n s (Action.write b) =
    (f : ℕ) × (p : ℕ) × (get_elem? s.backends b ≡ some (pinned f p))
    × ((c : ℕ) (k : Backend) → get_elem? s.backends c ≡ some k → is_accessing f k ≡ false)
Enabled n s (Action.end_access b) = (k : Backend) × (get_elem? s.backends b ≡ some k) × Accesses k
Enabled n s (Action.unpin b) = (f : ℕ) × (p : ℕ) × (get_elem? s.backends b ≡ some (pinned f p))

-- What is so when the event is reported.
abbrev pub Reported : Event → State → Type 0
Reported no_event s = Unit
Reported retry_succeeded s = Unit
Reported (race_released f) s =
    (get_elem? s.frames f ≡ some free) × ((p : ℕ) → get_elem? s.page_table p ≢ some (some f))
Reported (load_failed f p) s =
    (get_elem? s.frames f ≡ some free)
    × (get_elem? s.page_table p ≡ some none)
    × ((b q : ℕ) (r : Bool) → get_elem? s.backends b ≢ some (waiting f q r))
Reported (flush_failed f p) s =
    (get_elem? s.frames f ≡ some (ready p 0 true)) × (get_elem? s.page_table p ≡ some (some f))

pub record Sound (n : ℕ) (s : State) : Type 0 where
  pub inv : Inv n s
  pub reported : Reported s.event s

-- The step is taken, and leaves a sound state.
abbrev pub Taken : ℕ → Next → Type 0
Taken n panicked = ⊥
Taken n ignored = ⊥
Taken n (to s) = Sound n s
