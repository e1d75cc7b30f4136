-- ===== src/Storage/BufferModel/Checks.antt =====
-- crates/storage/src/models/buffer_pool.rs: `properties`, the conditions that are checked `always`.
use chili_db.Prelude.{
  ℕ, suc, ◌==◌, Bool, true, false, not, ◌&&◌, ◌||◌, List, [], ◌∷◌, Option, none, some, ltb,
  get_elem?, take,
}
use chili_db.Storage.BufferModel.{
  Frame, free, flushing, loading, ready, Backend, idle, miss, waiting, pinned, reading, writing,
  PinnedPage, pin, published, Event, no_event, race_released, load_failed, retry_succeeded,
  flush_failed, State,
}
use chili_db.Storage.BufferModel.Actions.{any, is_accessing}
use chili_db.Storage.BufferModel.Invariant.{pins_of}

-- `enumerate().all` from index `i`. A look-up out of range fails the check.
unfoldable pub all_at {ℓ} : {A : Type ℓ} → (ℕ → A → Bool) → ℕ → List A → Bool
all_at test i [] = true
all_at test i (x ∷ xs) = test i x && all_at test (suc i) xs

-- `enumerate().any`
unfoldable pub any_at {ℓ} : {A : Type ℓ} → (ℕ → A → Bool) → ℕ → List A → Bool
any_at test i [] = false
any_at test i (x ∷ xs) = test i x || any_at test (suc i) xs

abbrev pub is_ready : PinnedPage → Option Frame → Bool
is_ready k (some (ready q c d)) = q == k.page_id && ltb 0 c
is_ready k (some free) = false
is_ready k (some (Frame.reserved t o)) = false
is_ready k (some (flushing q t o)) = false
is_ready k (some (loading q io)) = false
is_ready k none = false

abbrev pub pin_is_ready : State → Option PinnedPage → Bool
pin_is_ready s none = true
pin_is_ready s (some k) = is_ready k (get_elem? s.frames k.frame_id)

-- "access requires ready matching pinned frame"
unfoldable pub access_ready : State → Bool
access_ready s = all_at (λ b k. pin_is_ready s (pin k)) 0 s.backends

abbrev pub is_page : ℕ → Option ℕ → Bool
is_page p none = false
is_page p (some q) = q == p

abbrev pub is_first : List Frame → Option ℕ → Bool
is_first before none = true
is_first before (some p) = not (any (λ x. is_page p (published x)) before)

-- "unique published page independent of map"
unfoldable pub unique_published : State → Bool
unique_published s = all_at (λ f x. is_first (take f s.frames) (published x)) 0 s.frames

abbrev pub is_entry : ℕ → Option (Option ℕ) → Bool
is_entry f none = false
is_entry f (some slot) = is_page f slot

abbrev pub has_entry : State → ℕ → Option ℕ → Bool
has_entry s f none = true
has_entry s f (some p) = is_entry f (get_elem? s.page_table p)

abbrev pub publishes : ℕ → Option Frame → Bool
publishes p none = false
publishes p (some x) = is_page p (published x)

abbrev pub has_frame : State → ℕ → Option ℕ → Bool
has_frame s p none = true
has_frame s p (some f) = publishes p (get_elem? s.frames f)

-- "mapping bijection"
unfoldable pub mapping_bijection : State → Bool
mapping_bijection s =
    all_at (λ f x. has_entry s f (published x)) 0 s.frames
    && all_at (λ p slot. has_frame s p slot) 0 s.page_table

abbrev pub counts : Frame → ℕ → Bool
counts (ready q c d) n = c == n
counts free n = n == 0
counts (Frame.reserved t o) n = n == 0
counts (flushing q t o) n = n == 0
counts (loading q io) n = n == 0

-- "pin accounting and no pinned eviction"
unfoldable pub pin_accounting : State → Bool
pin_accounting s = all_at (λ f x. counts x (pins_of f s.backends)) 0 s.frames

abbrev pub is_kept : ℕ → ℕ → Option Frame → Bool
is_kept b p (some (Frame.reserved t o)) = o == b && t == p
is_kept b p (some (flushing q t o)) = o == b && t == p
is_kept b p (some free) = false
is_kept b p (some (loading q io)) = false
is_kept b p (some (ready q c d)) = false
is_kept b p none = false

abbrev pub is_loading : ℕ → Option Frame → Bool
is_loading p (some (loading q io)) = q == p
is_loading p (some free) = false
is_loading p (some (Frame.reserved t o)) = false
is_loading p (some (flushing q t o)) = false
is_loading p (some (ready q c d)) = false
is_loading p none = false

abbrev pub has_its_frame : State → ℕ → Backend → Bool
has_its_frame s b (Backend.reserved f p r) = is_kept b p (get_elem? s.frames f)
has_its_frame s b (waiting f p r) = is_loading p (get_elem? s.frames f)
has_its_frame s b idle = true
has_its_frame s b (Backend.request p r) = true
has_its_frame s b (miss p r) = true
has_its_frame s b (pinned f p) = true
has_its_frame s b (reading f p) = true
has_its_frame s b (writing f p) = true

abbrev pub is_reserving : ℕ → ℕ → Option Backend → Bool
is_reserving f t (some (Backend.reserved g p r)) = g == f && p == t
is_reserving f t (some idle) = false
is_reserving f t (some (Backend.request p r)) = false
is_reserving f t (some (miss p r)) = false
is_reserving f t (some (waiting g p r)) = false
is_reserving f t (some (pinned g p)) = false
is_reserving f t (some (reading g p)) = false
is_reserving f t (some (writing g p)) = false
is_reserving f t none = false

abbrev pub has_its_owner : State → ℕ → Frame → Bool
has_its_owner s f (Frame.reserved t o) = is_reserving f t (get_elem? s.backends o)
has_its_owner s f (flushing q t o) = is_reserving f t (get_elem? s.backends o)
has_its_owner s f free = true
has_its_owner s f (loading q io) = true
has_its_owner s f (ready q c d) = true

-- "reservation and waiter ownership"
unfoldable pub ownership : State → Bool
ownership s = all_at (has_its_frame s) 0 s.backends && all_at (has_its_owner s) 0 s.frames

abbrev pub writes_alone : State → ℕ → Backend → Bool
writes_alone s b (writing f p) = not (any_at (λ c k. not (b == c) && is_accessing f k) 0 s.backends)
writes_alone s b idle = true
writes_alone s b (Backend.request p r) = true
writes_alone s b (miss p r) = true
writes_alone s b (Backend.reserved f p r) = true
writes_alone s b (waiting f p r) = true
writes_alone s b (pinned f p) = true
writes_alone s b (reading f p) = true

-- "writer exclusivity"
unfoldable pub writer_exclusivity : State → Bool
writer_exclusivity s = all_at (writes_alone s) 0 s.backends

abbrev pub is_free_frame : Option Frame → Bool
is_free_frame (some free) = true
is_free_frame (some (Frame.reserved t o)) = false
is_free_frame (some (flushing q t o)) = false
is_free_frame (some (loading q io)) = false
is_free_frame (some (ready q c d)) = false
is_free_frame none = false

abbrev pub is_vacant : Option (Option ℕ) → Bool
is_vacant (some none) = true
is_vacant (some (some f)) = false
is_vacant none = false

abbrev pub is_waiting : ℕ → Backend → Bool
is_waiting f (waiting g p r) = g == f
is_waiting f idle = false
is_waiting f (Backend.request p r) = false
is_waiting f (miss p r) = false
is_waiting f (Backend.reserved g p r) = false
is_waiting f (pinned g p) = false
is_waiting f (reading g p) = false
is_waiting f (writing g p) = false

abbrev pub load_failure : State → Event → Bool
load_failure s (load_failed f p) =
    is_free_frame (get_elem? s.frames f)
    && is_vacant (get_elem? s.page_table p)
    && not (any (is_waiting f) s.backends)
load_failure s no_event = true
load_failure s (race_released f) = true
load_failure s retry_succeeded = true
load_failure s (flush_failed f p) = true

-- "failed load immediately reusable and waiters notified"
unfoldable pub failed_load_reusable : State → Bool
failed_load_reusable s = load_failure s s.event

abbrev pub is_dirty_page : ℕ → Option Frame → Bool
is_dirty_page p (some (ready q c true)) = q == p && c == 0
is_dirty_page p (some (ready q c false)) = false
is_dirty_page p (some free) = false
is_dirty_page p (some (Frame.reserved t o)) = false
is_dirty_page p (some (flushing q t o)) = false
is_dirty_page p (some (loading q io)) = false
is_dirty_page p none = false

abbrev pub flush_failure : State → Event → Bool
flush_failure s (flush_failed f p) =
    is_dirty_page p (get_elem? s.frames f) && is_entry f (get_elem? s.page_table p)
flush_failure s no_event = true
flush_failure s (race_released f) = true
flush_failure s (load_failed f p) = true
flush_failure s retry_succeeded = true

-- "failed writeback retains dirty old page"
unfoldable pub failed_writeback_retains : State → Bool
failed_writeback_retains s = flush_failure s s.event

abbrev pub race_loss : State → Event → Bool
race_loss s (race_released f) =
    is_free_frame (get_elem? s.frames f) && not (any (is_page f) s.page_table)
race_loss s no_event = true
race_loss s (load_failed f p) = true
race_loss s retry_succeeded = true
race_loss s (flush_failed f p) = true

-- "publication loser releases extra frame"
unfoldable pub loser_releases : State → Bool
loser_releases s = race_loss s s.event

-- The conditions that are to hold `sometimes`.
abbrev pub is_retried : Event → Bool
is_retried retry_succeeded = true
is_retried no_event = false
is_retried (race_released f) = false
is_retried (load_failed f p) = false
is_retried (flush_failed f p) = false

-- "load failure then successful retry"
unfoldable pub load_retried : State → Bool
load_retried s = is_retried s.event

abbrev pub is_abandoned : State → ℕ → Frame → Bool
is_abandoned s f (loading p true) = not (any (is_waiting f) s.backends)
is_abandoned s f (loading p false) = false
is_abandoned s f free = false
is_abandoned s f (Frame.reserved t o) = false
is_abandoned s f (flushing q t o) = false
is_abandoned s f (ready q c d) = false

-- "cancelled waiters leave IO owned loading frame"
unfoldable pub waiters_cancelled : State → Bool
unfolding any any_at
waiters_cancelled s = any_at (is_abandoned s) 0 s.frames

abbrev pub is_flush_failure : Event → Bool
is_flush_failure (flush_failed f p) = true
is_flush_failure no_event = false
is_flush_failure (race_released f) = false
is_flush_failure (load_failed f p) = false
is_flush_failure retry_succeeded = false

-- "dirty writeback failure"
unfoldable pub writeback_failed : State → Bool
writeback_failed s = is_flush_failure s.event

abbrev pub waits_after : List Backend → ℕ → Backend → Bool
waits_after ks b (waiting f p r) = any (is_waiting f) (take b ks)
waits_after ks b idle = false
waits_after ks b (Backend.request p r) = false
waits_after ks b (miss p r) = false
waits_after ks b (Backend.reserved f p r) = false
waits_after ks b (pinned f p) = false
waits_after ks b (reading f p) = false
waits_after ks b (writing f p) = false

-- "duplicate waiters join one load"
unfoldable pub waiters_joined : State → Bool
unfolding any any_at
waiters_joined s = any_at (waits_after s.backends) 0 s.backends

abbrev pub is_race_loss : Event → Bool
is_race_loss (race_released f) = true
is_race_loss no_event = false
is_race_loss (load_failed f p) = false
is_race_loss retry_succeeded = false
is_race_loss (flush_failed f p) = false

-- "miss publication race loser release"
unfoldable pub race_lost : State → Bool
race_lost s = is_race_loss s.event
