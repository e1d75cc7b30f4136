-- ===== src/Storage/BufferModel/Listing.antt =====
-- No index is out of range while the actions are listed.
use chili_db.Prelude.{
  ℕ, zero, suc, ◌+◌, ◌<◌, ◌≡◌, refl, sym, ap, ◌∙◌, subst, true, false, List, [], ◌∷◌, ◌++◌, Option,
  none, some, if◌then◌else◌, get_elem?, get_elem?-lt, arith,
}
use chili_db.Storage.BufferModel.{
  Frame, free, flushing, loading, ready, Backend, idle, miss, waiting, pinned, reading, writing,
  BufferModel, State, Action,
}
use chili_db.Storage.BufferModel.Actions.{
  any, is_writing, is_accessing, requests, looked_up, request_lookup, miss_lookup, victim_action,
  publish_action, backend_actions, frame_actions, actions,
}
use chili_db.Storage.BufferModel.Invariant.{Inv}
use chili_db.Storage.BufferModel.Offered.{each_total}

module _ (m : BufferModel) (s : State) (v : Inv m.page_count s) where
  pub looked_up_total :
      (p : ℕ)
      → p < m.page_count
      → (x : Option Frame) × (looked_up s (get_elem? s.page_table p) ≡ some x)
  looked_up_total p small =
      let (slot, h) = get_elem?-lt s.page_table p (subst (λ i. p < i) (sym v.pages) small) in
      let (x, e) = of slot h in (x, rw h e)
    where
      of :
          (slot : Option ℕ)
          → get_elem? s.page_table p ≡ some slot
          → (x : Option Frame) × (looked_up s (some slot) ≡ some x)
      of none h = (none, refl)
      of (some f) h = let (x, here, is) = v.mapped p f h in (some x, rw here refl)

  request_lookup_total :
      (b : ℕ) (x : Option Frame) → (out : List Action) × (request_lookup b (some x) ≡ some out)
  request_lookup_total b none = (Action.lookup b ∷ [], refl)
  request_lookup_total b (some free) = (Action.lookup b ∷ [], refl)
  request_lookup_total b (some (Frame.reserved t o)) = (Action.lookup b ∷ [], refl)
  request_lookup_total b (some (flushing q t o)) = ([], refl)
  request_lookup_total b (some (loading q io)) = (Action.lookup b ∷ [], refl)
  request_lookup_total b (some (ready q c d)) = (Action.lookup b ∷ [], refl)

  miss_lookup_total :
      (b : ℕ) (x : Option Frame) → (out : List Action) × (miss_lookup b (some x) ≡ some out)
  miss_lookup_total b none = ([], refl)
  miss_lookup_total b (some free) = ([], refl)
  miss_lookup_total b (some (Frame.reserved t o)) = ([], refl)
  miss_lookup_total b (some (flushing q t o)) = ([], refl)
  miss_lookup_total b (some (loading q io)) = (Action.lookup b ∷ [], refl)
  miss_lookup_total b (some (ready q c d)) = (Action.lookup b ∷ [], refl)

  victim_action_total :
      (b f : ℕ) (x : Frame) → (out : List Action) × (victim_action b f x ≡ some out)
  victim_action_total b f free = (Action.reserve b f ∷ [], refl)
  victim_action_total b f (ready q zero d) = (Action.reserve b f ∷ [], refl)
  victim_action_total b f (ready q (suc c) d) = ([], refl)
  victim_action_total b f (Frame.reserved t o) = ([], refl)
  victim_action_total b f (flushing q t o) = ([], refl)
  victim_action_total b f (loading q io) = ([], refl)

  publish_action_total :
      (b : ℕ) (x : Frame) → (out : List Action) × (publish_action b (some x) ≡ some out)
  publish_action_total b (Frame.reserved t o) = (Action.publish b ∷ [], refl)
  publish_action_total b free = ([], refl)
  publish_action_total b (flushing q t o) = ([], refl)
  publish_action_total b (loading q io) = ([], refl)
  publish_action_total b (ready q c d) = ([], refl)

  frame_actions_total : (f : ℕ) (x : Frame) → (out : List Action) × (frame_actions f x ≡ some out)
  frame_actions_total f (loading p false) = (Action.submit f ∷ [], refl)
  frame_actions_total f (loading p true) =
      (Action.load_done f true ∷ Action.load_done f false ∷ [], refl)
  frame_actions_total f (flushing q t o) =
      (Action.flush_done f true ∷ Action.flush_done f false ∷ [], refl)
  frame_actions_total f free = ([], refl)
  frame_actions_total f (Frame.reserved t o) = ([], refl)
  frame_actions_total f (ready q c d) = ([], refl)

  pub backend_actions_total :
      (b : ℕ) (k : Backend)
      → get_elem? s.backends b ≡ some k
      → (out : List Action) × (backend_actions m s b k ≡ some out)
  backend_actions_total b idle at = (requests b 0 m.page_count, refl)
  backend_actions_total b (Backend.request p r) at =
      let (x, e) = looked_up_total p (v.known b (Backend.request p r) at) in
      let (out, h) = request_lookup_total b x in (out, rw e h)
  backend_actions_total b (miss p r) at =
      let (x, e) = looked_up_total p (v.known b (miss p r) at) in
      let (first, h) = miss_lookup_total b x in
      let (rest, t) =
        each_total (victim_action b) 0 s.frames (λ f y here. victim_action_total b (0 + f) y) in
      (first ++ rest, rw (e, h, t) refl)
  backend_actions_total b (Backend.reserved f p r) at =
      let (x, here, fits) = v.seated b f (Backend.reserved f p r) at refl in
      let (out, h) = publish_action_total b x in (out, rw here h)
  backend_actions_total b (waiting f p r) at = (Action.cancel b ∷ [], refl)
  backend_actions_total b (pinned f p) at = (
    Action.unpin b
        ∷ ((if any (is_writing f) s.backends then [] else Action.read b ∷ [])
            ++ (if any (is_accessing f) s.backends then [] else Action.write b ∷ [])),
    refl,
  )
  backend_actions_total b (reading f p) at = (Action.end_access b ∷ [], refl)
  backend_actions_total b (writing f p) at = (Action.end_access b ∷ [], refl)

  pub actions_total : (out : List Action) × (actions m s ≡ some out)
  unfolding actions
  actions_total =
      let (first, h) = each_total (backend_actions m s) 0 s.backends (λ b k at.
        backend_actions_total (0 + b) k (ap (get_elem? s.backends) (omega arith) ∙ at)) in
      let (rest, t) =
        each_total frame_actions 0 s.frames (λ f x here. frame_actions_total (0 + f) x) in
      (first ++ rest, rw (h, t) refl)
