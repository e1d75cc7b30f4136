-- ===== src/Storage/BufferModel/Actions.antt =====
-- crates/storage/src/models/buffer_pool.rs: `BufferModel::actions`, the steps that are offered.
use chili_db.Prelude.{
  ℕ, zero, suc, ◌==◌, Bool, true, false, List, [], ◌∷◌, ◌++◌, Option, none, some, get_elem?,
  if◌then◌else◌, ◌||◌,
}
use chili_db.Storage.BufferModel.{
  Frame, free, flushing, loading, ready, Backend, idle, miss, waiting, pinned, reading, writing,
  BufferModel, State, Action,
}

-- `None` is an index out of range.
abbrev pub join_lists {ℓ} : {A : Type ℓ} → Option (List A) → Option (List A) → Option (List A)
join_lists none ys = none
join_lists (some xs) none = none
join_lists (some xs) (some ys) = some (xs ++ ys)

-- `for (i, x) in xs.iter().enumerate()`, from index `i`, over what each round pushes.
unfoldable pub each {ℓ κ} :
    {A : Type ℓ} {B : Type κ} → (ℕ → A → Option (List B)) → ℕ → List A → Option (List B)
each push i [] = some []
each push i (x ∷ xs) = join_lists (push i x) (each push (suc i) xs)

-- `iter().any`
unfoldable pub any {ℓ} : {A : Type ℓ} → (A → Bool) → List A → Bool
any test [] = false
any test (x ∷ xs) = test x || any test xs

abbrev pub is_writing : ℕ → Backend → Bool
is_writing f (writing g p) = g == f
is_writing f (reading g p) = false
is_writing f (pinned g p) = false
is_writing f (waiting g p r) = false
is_writing f (Backend.reserved g p r) = false
is_writing f (miss p r) = false
is_writing f (Backend.request p r) = false
is_writing f idle = false

abbrev pub is_accessing : ℕ → Backend → Bool
is_accessing f (writing g p) = g == f
is_accessing f (reading g p) = g == f
is_accessing f (pinned g p) = false
is_accessing f (waiting g p r) = false
is_accessing f (Backend.reserved g p r) = false
is_accessing f (miss p r) = false
is_accessing f (Backend.request p r) = false
is_accessing f idle = false

-- One action for each page, from page `p` on.
unfoldable pub requests : ℕ → ℕ → ℕ → List Action
requests b p zero = []
requests b p (suc n) = Action.request b p ∷ requests b (suc p) n

abbrev pub found : Option Frame → Option (Option Frame)
found none = none
found (some x) = some (some x)

-- `page_table[page_id].map(|frame_id| frames[frame_id])`, and then `matches!`.
abbrev pub looked_up : State → Option (Option ℕ) → Option (Option Frame)
looked_up s none = none
looked_up s (some none) = some none
looked_up s (some (some f)) = found (get_elem? s.frames f)

abbrev pub request_lookup : ℕ → Option (Option Frame) → Option (List Action)
request_lookup b none = none
request_lookup b (some (some (flushing q t o))) = some []
request_lookup b (some none) = some (Action.lookup b ∷ [])
request_lookup b (some (some free)) = some (Action.lookup b ∷ [])
request_lookup b (some (some (Frame.reserved t o))) = some (Action.lookup b ∷ [])
request_lookup b (some (some (loading q io))) = some (Action.lookup b ∷ [])
request_lookup b (some (some (ready q c d))) = some (Action.lookup b ∷ [])

abbrev pub miss_lookup : ℕ → Option (Option Frame) → Option (List Action)
miss_lookup b none = none
miss_lookup b (some (some (ready q c d))) = some (Action.lookup b ∷ [])
miss_lookup b (some (some (loading q io))) = some (Action.lookup b ∷ [])
miss_lookup b (some none) = some []
miss_lookup b (some (some free)) = some []
miss_lookup b (some (some (Frame.reserved t o))) = some []
miss_lookup b (some (some (flushing q t o))) = some []

abbrev pub victim_action : ℕ → ℕ → Frame → Option (List Action)
victim_action b f free = some (Action.reserve b f ∷ [])
victim_action b f (ready q zero d) = some (Action.reserve b f ∷ [])
victim_action b f (ready q (suc c) d) = some []
victim_action b f (Frame.reserved t o) = some []
victim_action b f (flushing q t o) = some []
victim_action b f (loading q io) = some []

abbrev pub publish_action : ℕ → Option Frame → Option (List Action)
publish_action b none = none
publish_action b (some (Frame.reserved t o)) = some (Action.publish b ∷ [])
publish_action b (some free) = some []
publish_action b (some (flushing q t o)) = some []
publish_action b (some (loading q io)) = some []
publish_action b (some (ready q c d)) = some []

abbrev pub backend_actions : BufferModel → State → ℕ → Backend → Option (List Action)
backend_actions m s b idle = some (requests b 0 m.page_count)
backend_actions m s b (Backend.request p r) =
    request_lookup b (looked_up s (get_elem? s.page_table p))
backend_actions m s b (miss p r) =
    join_lists (miss_lookup b (looked_up s (get_elem? s.page_table p)))
      (each (victim_action b) 0 s.frames)
backend_actions m s b (Backend.reserved f p r) = publish_action b (get_elem? s.frames f)
backend_actions m s b (waiting f p r) = some (Action.cancel b ∷ [])
backend_actions m s b (pinned f p) = some (
    Action.unpin b
    ∷ ((if any (is_writing f) s.backends then [] else Action.read b ∷ [])
        ++ (if any (is_accessing f) s.backends then [] else Action.write b ∷ [])))
backend_actions m s b (reading f p) = some (Action.end_access b ∷ [])
backend_actions m s b (writing f p) = some (Action.end_access b ∷ [])

abbrev pub frame_actions : ℕ → Frame → Option (List Action)
frame_actions f (loading p false) = some (Action.submit f ∷ [])
frame_actions f (loading p true) = some (Action.load_done f true ∷ Action.load_done f false ∷ [])
frame_actions f (flushing q t o) = some (Action.flush_done f true ∷ Action.flush_done f false ∷ [])
frame_actions f free = some []
frame_actions f (Frame.reserved t o) = some []
frame_actions f (ready q c d) = some []

unfoldable pub actions : BufferModel → State → Option (List Action)
unfolding each any requests
actions m s = join_lists (each (backend_actions m s) 0 s.backends) (each frame_actions 0 s.frames)
