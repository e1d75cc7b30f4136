-- ===== src/Storage/BufferModel/Step.antt =====
-- crates/storage/src/models/buffer_pool.rs: `State::join` and `BufferModel::next_state`.
use chili_db.Prelude.{
  ℕ, zero, suc, ◌+◌, ◌==◌, Bool, true, false, List, [], ◌∷◌, Option, none, some, get_elem?, set,
  if◌then◌else◌,
}
use chili_db.Storage.BufferModel.{
  Frame, free, flushing, loading, ready, Backend, idle, miss, waiting, pinned, reading, writing,
  PinnedPage, pin, Event, no_event, race_released, load_failed, retry_succeeded, flush_failed,
  State, Action,
}

-- `panicked` is an index out of range or a count below 0; `ignored` is the source's `None`.
pub data Next : Type 0 where
  panicked ignored : Next
  to : State → Next

abbrev pub set_frame : ℕ → Frame → State → State
set_frame f x s = record s { frames = set s.frames f x }

abbrev pub set_backend : ℕ → Backend → State → State
set_backend b k s = record s { backends = set s.backends b k }

abbrev pub set_page : ℕ → Option ℕ → State → State
set_page p v s = record s { page_table = set s.page_table p v }

abbrev pub set_event : Event → State → State
set_event e s = record s { event = e }

-- A write by index panics where a read does.
abbrev pub in_bounds {ℓ} : {A : Type ℓ} → Option A → Next → Next
in_bounds none n = panicked
in_bounds (some a) n = n

-- `State::join`, by the frame that it finds.
abbrev pub join_frame : State → (b f p : ℕ) → Bool → Option Frame → Next
join_frame s b f p r none = panicked
join_frame s b f p r (some (ready q c d)) =
    to (set_backend b (pinned f p) (set_frame f (ready q (c + 1) d) s))
join_frame s b f p r (some (loading q io)) = to (set_backend b (waiting f p r) s)
join_frame s b f p r (some free) = to (set_backend b (Backend.request p r) s)
join_frame s b f p r (some (Frame.reserved t o)) = to (set_backend b (Backend.request p r) s)
join_frame s b f p r (some (flushing q t o)) = to (set_backend b (Backend.request p r) s)

abbrev pub join : State → (b f p : ℕ) → Bool → Next
join s b f p r = join_frame s b f p r (get_elem? s.frames f)

abbrev pub lookup_page : State → (b p : ℕ) → Bool → Option (Option ℕ) → Next
lookup_page s b p r none = panicked
lookup_page s b p r (some none) = to (set_backend b (miss p r) s)
lookup_page s b p r (some (some f)) = join s b f p r

abbrev pub lookup_as : State → ℕ → Option Backend → Next
lookup_as s b none = panicked
lookup_as s b (some (Backend.request p r)) = lookup_page s b p r (get_elem? s.page_table p)
lookup_as s b (some (miss p r)) = lookup_page s b p r (get_elem? s.page_table p)
lookup_as s b (some idle) = ignored
lookup_as s b (some (Backend.reserved f p r)) = ignored
lookup_as s b (some (waiting f p r)) = ignored
lookup_as s b (some (pinned f p)) = ignored
lookup_as s b (some (reading f p)) = ignored
lookup_as s b (some (writing f p)) = ignored

-- The victim's frame, and then the backend.
abbrev pub reserve_ready : State → (b f p : ℕ) → Bool → (q c : ℕ) → Bool → Next
reserve_ready s b f p r q zero true =
    to (set_backend b (Backend.reserved f p r) (set_frame f (flushing q p b) s))
reserve_ready s b f p r q zero false = in_bounds (get_elem? s.page_table q) (
    to (
      set_backend b (Backend.reserved f p r)
        (set_frame f (Frame.reserved p b) (set_page q none s))))
reserve_ready s b f p r q (suc c) d = ignored

abbrev pub reserve_frame : State → (b f p : ℕ) → Bool → Option Frame → Next
reserve_frame s b f p r none = panicked
reserve_frame s b f p r (some (ready q c d)) = reserve_ready s b f p r q c d
reserve_frame s b f p r (some free) =
    to (set_backend b (Backend.reserved f p r) (set_frame f (Frame.reserved p b) s))
reserve_frame s b f p r (some (Frame.reserved t o)) = ignored
reserve_frame s b f p r (some (flushing q t o)) = ignored
reserve_frame s b f p r (some (loading q io)) = ignored

abbrev pub reserve_as : State → (b f : ℕ) → Option Backend → Next
reserve_as s b f none = panicked
reserve_as s b f (some (miss p r)) = reserve_frame s b f p r (get_elem? s.frames f)
reserve_as s b f (some idle) = ignored
reserve_as s b f (some (Backend.request p r)) = ignored
reserve_as s b f (some (Backend.reserved g p r)) = ignored
reserve_as s b f (some (waiting g p r)) = ignored
reserve_as s b f (some (pinned g p)) = ignored
reserve_as s b f (some (reading g p)) = ignored
reserve_as s b f (some (writing g p)) = ignored

-- The event is written after the rest, on the state that `join` leaves.
abbrev pub with_event : Event → Next → Next
with_event e panicked = panicked
with_event e ignored = ignored
with_event e (to s) = to (set_event e s)

abbrev pub publish_page : State → (b f p : ℕ) → Bool → Option (Option ℕ) → Next
publish_page s b f p r none = panicked
publish_page s b f p r (some (some winner)) =
    in_bounds (get_elem? s.frames f)
      (with_event (race_released f) (join (set_frame f free s) b winner p r))
publish_page s b f p r (some none) =
    in_bounds (get_elem? s.frames f)
      (to (set_backend b (waiting f p r) (set_frame f (loading p false) (set_page p (some f) s))))

abbrev pub publish_as : State → ℕ → Option Backend → Next
publish_as s b none = panicked
publish_as s b (some (Backend.reserved f p r)) = publish_page s b f p r (get_elem? s.page_table p)
publish_as s b (some idle) = ignored
publish_as s b (some (Backend.request p r)) = ignored
publish_as s b (some (miss p r)) = ignored
publish_as s b (some (waiting f p r)) = ignored
publish_as s b (some (pinned f p)) = ignored
publish_as s b (some (reading f p)) = ignored
publish_as s b (some (writing f p)) = ignored

abbrev pub submit_frame : State → ℕ → Option Frame → Next
submit_frame s f none = panicked
submit_frame s f (some (loading p false)) = to (set_frame f (loading p true) s)
submit_frame s f (some (loading p true)) = ignored
submit_frame s f (some free) = ignored
submit_frame s f (some (Frame.reserved t o)) = ignored
submit_frame s f (some (flushing q t o)) = ignored
submit_frame s f (some (ready q c d)) = ignored

-- What the end of a load at frame `f` makes of one backend.
abbrev pub settle : ℕ → Bool → Backend → Backend
settle f true (waiting g p r) = if g == f then pinned f p else waiting g p r
settle f false (waiting g p r) = if g == f then Backend.request p true else waiting g p r
settle f ok idle = idle
settle f ok (Backend.request p r) = Backend.request p r
settle f ok (miss p r) = miss p r
settle f ok (Backend.reserved g p r) = Backend.reserved g p r
settle f ok (pinned g p) = pinned g p
settle f ok (reading g p) = reading g p
settle f ok (writing g p) = writing g p

-- 1 for a waiter at the frame, which the loop counts as a pin.
abbrev pub joins : ℕ → Backend → ℕ
joins f (waiting g p r) = if g == f then 1 else 0
joins f idle = 0
joins f (Backend.request p r) = 0
joins f (miss p r) = 0
joins f (Backend.reserved g p r) = 0
joins f (pinned g p) = 0
joins f (reading g p) = 0
joins f (writing g p) = 0

abbrev pub retried : ℕ → Backend → Event → Event
retried f (waiting g p true) e = if g == f then retry_succeeded else e
retried f (waiting g p false) e = e
retried f idle e = e
retried f (Backend.request p r) e = e
retried f (miss p r) e = e
retried f (Backend.reserved g p r) e = e
retried f (pinned g p) e = e
retried f (reading g p) e = e
retried f (writing g p) e = e

-- The loop over the backends: the list that it leaves, `pin_count` and the event.
abbrev pub settle_all : ℕ → Bool → List Backend → List Backend
settle_all f ok [] = []
settle_all f ok (k ∷ ks) = settle f ok k ∷ settle_all f ok ks

unfoldable pub joined : ℕ → List Backend → ℕ
joined f [] = 0
joined f (k ∷ ks) = joins f k + joined f ks

unfoldable pub retry_event : ℕ → List Backend → Event → Event
retry_event f [] e = e
retry_event f (k ∷ ks) e = retry_event f ks (retried f k e)

abbrev pub load_end : State → (f p : ℕ) → Bool → Next
load_end s f p true = to (
    set_event (retry_event f s.backends no_event) (record s {
      frames = set s.frames f (ready p (joined f s.backends) false);
      backends = settle_all f true s.backends;
    }))
load_end s f p false = in_bounds (get_elem? s.page_table p) (
    to (record {
      frames = set s.frames f free;
      backends = settle_all f false s.backends;
      page_table = set s.page_table p none;
      event = load_failed f p;
    }))

abbrev pub load_frame : State → ℕ → Bool → Option Frame → Next
load_frame s f ok none = panicked
load_frame s f ok (some (loading p true)) = load_end s f p ok
load_frame s f ok (some (loading p false)) = ignored
load_frame s f ok (some free) = ignored
load_frame s f ok (some (Frame.reserved t o)) = ignored
load_frame s f ok (some (flushing q t o)) = ignored
load_frame s f ok (some (ready q c d)) = ignored

-- A failed write-back gives the page back and sends the owner away.
abbrev pub flush_retry : State → (f q t o : ℕ) → Option Backend → Next
flush_retry s f q t o none = panicked
flush_retry s f q t o (some (Backend.reserved g p r)) = to (
    set_event (flush_failed f q)
      (set_backend o (Backend.request t r) (set_frame f (ready q 0 true) s)))
flush_retry s f q t o (some idle) = ignored
flush_retry s f q t o (some (Backend.request p r)) = ignored
flush_retry s f q t o (some (miss p r)) = ignored
flush_retry s f q t o (some (waiting g p r)) = ignored
flush_retry s f q t o (some (pinned g p)) = ignored
flush_retry s f q t o (some (reading g p)) = ignored
flush_retry s f q t o (some (writing g p)) = ignored

abbrev pub flush_end : State → (f q t o : ℕ) → Bool → Next
flush_end s f q t o true =
    in_bounds (get_elem? s.page_table q) (to (set_frame f (Frame.reserved t o) (set_page q none s)))
flush_end s f q t o false = flush_retry s f q t o (get_elem? s.backends o)

abbrev pub flush_frame : State → ℕ → Bool → Option Frame → Next
flush_frame s f ok none = panicked
flush_frame s f ok (some (flushing q t o)) = flush_end s f q t o ok
flush_frame s f ok (some free) = ignored
flush_frame s f ok (some (Frame.reserved t o)) = ignored
flush_frame s f ok (some (loading q io)) = ignored
flush_frame s f ok (some (ready q c d)) = ignored

abbrev pub read_as : State → ℕ → Option Backend → Next
read_as s b none = panicked
read_as s b (some (pinned f p)) = to (set_backend b (reading f p) s)
read_as s b (some idle) = ignored
read_as s b (some (Backend.request p r)) = ignored
read_as s b (some (miss p r)) = ignored
read_as s b (some (Backend.reserved g p r)) = ignored
read_as s b (some (waiting g p r)) = ignored
read_as s b (some (reading g p)) = ignored
read_as s b (some (writing g p)) = ignored

abbrev pub soil : Frame → Frame
soil (ready q c d) = ready q c true
soil free = free
soil (Frame.reserved t o) = Frame.reserved t o
soil (flushing q t o) = flushing q t o
soil (loading q io) = loading q io

abbrev pub write_frame : State → (b f p : ℕ) → Option Frame → Next
write_frame s b f p none = panicked
write_frame s b f p (some x) = to (set_backend b (writing f p) (set_frame f (soil x) s))

abbrev pub write_as : State → ℕ → Option Backend → Next
write_as s b none = panicked
write_as s b (some (pinned f p)) = write_frame s b f p (get_elem? s.frames f)
write_as s b (some idle) = ignored
write_as s b (some (Backend.request p r)) = ignored
write_as s b (some (miss p r)) = ignored
write_as s b (some (Backend.reserved g p r)) = ignored
write_as s b (some (waiting g p r)) = ignored
write_as s b (some (reading g p)) = ignored
write_as s b (some (writing g p)) = ignored

abbrev pub end_pin : State → ℕ → Option PinnedPage → Next
end_pin s b none = ignored
end_pin s b (some k) = to (set_backend b (pinned k.frame_id k.page_id) s)

abbrev pub end_as : State → ℕ → Option Backend → Next
end_as s b none = panicked
end_as s b (some k) = end_pin s b (pin k)

-- `*pin_count -= 1` panics at 0.
abbrev pub unpin_frame : State → (b f : ℕ) → Option Frame → Next
unpin_frame s b f none = panicked
unpin_frame s b f (some (ready q zero d)) = panicked
unpin_frame s b f (some (ready q (suc c) d)) = to (set_backend b idle (set_frame f (ready q c d) s))
unpin_frame s b f (some free) = to (set_backend b idle s)
unpin_frame s b f (some (Frame.reserved t o)) = to (set_backend b idle s)
unpin_frame s b f (some (flushing q t o)) = to (set_backend b idle s)
unpin_frame s b f (some (loading q io)) = to (set_backend b idle s)

abbrev pub unpin_as : State → ℕ → Option Backend → Next
unpin_as s b none = panicked
unpin_as s b (some (pinned f p)) = unpin_frame s b f (get_elem? s.frames f)
unpin_as s b (some idle) = ignored
unpin_as s b (some (Backend.request p r)) = ignored
unpin_as s b (some (miss p r)) = ignored
unpin_as s b (some (Backend.reserved g p r)) = ignored
unpin_as s b (some (waiting g p r)) = ignored
unpin_as s b (some (reading g p)) = ignored
unpin_as s b (some (writing g p)) = ignored

-- The body of `next_state`, once the event is cleared.
abbrev pub act : State → Action → Next
act s (Action.request b p) =
    in_bounds (get_elem? s.backends b) (to (set_backend b (Backend.request p false) s))
act s (Action.lookup b) = lookup_as s b (get_elem? s.backends b)
act s (Action.reserve b f) = reserve_as s b f (get_elem? s.backends b)
act s (Action.publish b) = publish_as s b (get_elem? s.backends b)
act s (Action.submit f) = submit_frame s f (get_elem? s.frames f)
act s (Action.load_done f ok) = load_frame s f ok (get_elem? s.frames f)
act s (Action.flush_done f ok) = flush_frame s f ok (get_elem? s.frames f)
act s (Action.cancel b) = in_bounds (get_elem? s.backends b) (to (set_backend b idle s))
act s (Action.read b) = read_as s b (get_elem? s.backends b)
act s (Action.write b) = write_as s b (get_elem? s.backends b)
act s (Action.end_access b) = end_as s b (get_elem? s.backends b)
act s (Action.unpin b) = unpin_as s b (get_elem? s.backends b)

unfoldable pub next_state : State → Action → Next
next_state s a = act (set_event no_event s) a
