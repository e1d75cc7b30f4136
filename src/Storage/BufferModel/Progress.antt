-- ===== src/Storage/BufferModel/Progress.antt =====
-- Some backend or some I/O can always go on.
use chili_db.Prelude.{
  ℕ, zero, suc, ◌+◌, ◌<◌, ◌==◌, ◌≡◌, inl, inr, refl, sym, subst, Bool, true, false, List, [], ◌∷◌,
  ◌++◌, Option, none, some, get_elem?, get_elem?-lt, arith, Bool-cases,
}
use chili_db.Storage.BufferModel.{
  Frame, free, flushing, loading, ready, Backend, idle, miss, waiting, pinned, reading, writing,
  BufferModel, IsModel, State, Action,
}
use chili_db.Storage.BufferModel.Actions.{
  join_lists, each, requests, looked_up, request_lookup, miss_lookup, victim_action, publish_action,
  backend_actions, frame_actions, actions,
}
use chili_db.Storage.BufferModel.Step.{to, next_state}
use chili_db.Storage.BufferModel.Invariant.{Owned, pins_at, pins_of, Inv}
use chili_db.Storage.BufferModel.Offered.{In, In-left, In-right, Within}
use chili_db.Storage.BufferModel.Listing.{backend_actions_total}
use chili_db.Storage.BufferModel.Reach.{Reach, start, step, Reach-Sound, actions-next_state}

module _ {A : Type 0} where
  left_Within :
      (a : A) (p q : Option (List A)) (out : List A)
      → join_lists p q ≡ some out
      → Within a p
      → In a out
  left_Within a none q out e h = absurd h
  left_Within a (some xs) none out e h = cc
  left_Within a (some xs) (some ys) out e h =
      let same : xs ++ ys ≡ out = cc in subst (In a) same (In-left a xs ys h)

  right_Within :
      (a : A) (p q : Option (List A)) (out : List A)
      → join_lists p q ≡ some out
      → Within a q
      → In a out
  right_Within a none q out e h = cc
  right_Within a (some xs) none out e h = absurd h
  right_Within a (some xs) (some ys) out e h =
      let same : xs ++ ys ≡ out = cc in subst (In a) same (In-right a xs ys h)

  -- The rest of a list that can be made can be made.
  right_made :
      (p q : Option (List A)) (out : List A)
      → join_lists p q ≡ some out
      → (ys : List A) × (q ≡ some ys)
  right_made none q out e = cc
  right_made (some xs) none out e = cc
  right_made (some xs) (some ys) out e = (ys, refl)

  left_made :
      (p q : Option (List A)) (out : List A)
      → join_lists p q ≡ some out
      → (xs : List A) × (p ≡ some xs)
  left_made none q out e = cc
  left_made (some xs) none out e = cc
  left_made (some xs) (some ys) out e = (xs, refl)

  In-Within : (a : A) (p : Option (List A)) (xs : List A) → p ≡ some xs → In a xs → Within a p
  In-Within a p xs e h = subst (Within a) (sym e) h

module _ {A B : Type 0} (push : ℕ → A → Option (List B)) where
  -- What a round pushes is on the list.
  each-In :
      (b : B) (i : ℕ) (xs : List A) (out : List B) (k : ℕ) (x : A)
      → each push i xs ≡ some out
      → get_elem? xs k ≡ some x
      → Within b (push (i + k) x)
      → In b out
  unfolding each
  each-In b i [] out k x e at h = cc
  each-In b i (y ∷ xs) out zero x e at h =
      let same : x ≡ y = cc in
      let here : Within b (push i y) =
        subst (λ z. Within b (push i z)) same (subst (λ j. Within b (push j x)) (omega arith) h) in
      left_Within b (push i y) (each push (suc i) xs) out e here
  each-In b i (y ∷ xs) out (suc k) x e at h =
      let (rest, made) = right_made (push i y) (each push (suc i) xs) out e in
      let later : In b rest =
        each-In b (suc i) xs rest k x made at (subst (λ j. Within b (push j x)) (omega arith) h) in
      right_Within b (push i y) (each push (suc i) xs) out e
        (In-Within b (each push (suc i) xs) rest made later)

-- A positive count has a backend that is counted.
pinned_somewhere :
    (f : ℕ) (ks : List Backend)
    → 0 < pins_of f ks
    → (b : ℕ) × (k : Backend) × (get_elem? ks b ≡ some k) × (pins_at f k ≡ 1)
unfolding pins_of
pinned_somewhere f [] h = absurd (omega arith)
pinned_somewhere f (k ∷ ks) h = elim (Bool-cases (pins_at f k == 1)) [
  | inl eq ↦ (0, k, refl, ground arith)
  | inr ne ↦
      let (b, j, at, one) =
        pinned_somewhere f ks (rest (pins_at f k) (pins_of f ks) ne (few k) h) in
      (suc b, j, at, one)
]
  where
    few : (j : Backend) → pins_at f j < 2
    few j = ground arith

    rest : (c n : ℕ) → (c == 1) ≡ false → c < 2 → 0 < c + n → 0 < n
    rest c n ne small h' = ground arith

module _ (m : BufferModel) (s : State) (v : Inv m.page_count s) (out : List Action)
    (listed : actions m s ≡ some out) where
  -- An action that a backend, or a frame, puts on the list.
  from_backend :
      (b : ℕ) (k : Backend) (a : Action)
      → get_elem? s.backends b ≡ some k
      → Within a (backend_actions m s b k)
      → In a out
  unfolding actions
  from_backend b k a at h =
      let (first, made) =
        left_made (each (backend_actions m s) 0 s.backends) (each frame_actions 0 s.frames) out
          listed in
      left_Within a (each (backend_actions m s) 0 s.backends) (each frame_actions 0 s.frames) out
        listed
        (In-Within a (each (backend_actions m s) 0 s.backends) first made (
          each-In (backend_actions m s) a 0 s.backends first b k made at
            (subst (λ i. Within a (backend_actions m s i k)) (omega arith) h)))

  from_frame :
      (f : ℕ) (x : Frame) (a : Action)
      → get_elem? s.frames f ≡ some x
      → Within a (frame_actions f x)
      → In a out
  unfolding actions
  from_frame f x a here h =
      let (rest, made) =
        right_made (each (backend_actions m s) 0 s.backends) (each frame_actions 0 s.frames) out
          listed in
      right_Within a (each (backend_actions m s) 0 s.backends) (each frame_actions 0 s.frames) out
        listed
        (In-Within a (each frame_actions 0 s.frames) rest made (
          each-In frame_actions a 0 s.frames rest f x made here
            (subst (λ i. Within a (frame_actions i x)) (omega arith) h)))

  flushing_goes_on :
      (f q t o : ℕ)
      → get_elem? s.frames f ≡ some (flushing q t o)
      → In (Action.flush_done f true) out
  flushing_goes_on f q t o here =
      from_frame f (flushing q t o) (Action.flush_done f true) here (inl refl)

  loading_goes_on :
      (f p : ℕ) (io : Bool) → get_elem? s.frames f ≡ some (loading p io) → (a : Action) × In a out
  loading_goes_on f p false here =
      (Action.submit f, from_frame f (loading p false) (Action.submit f) here (inl refl))
  loading_goes_on f p true here = (
    Action.load_done f true,
    from_frame f (loading p true) (Action.load_done f true) here (inl refl),
  )

  -- The owner of a frame that is reserved publishes it.
  reserved_goes_on :
      (f t o : ℕ) → get_elem? s.frames f ≡ some (Frame.reserved t o) → In (Action.publish o) out
  reserved_goes_on f t o here =
      let (r, at) = v.owned f (Frame.reserved t o) here in
      let within : Within (Action.publish o) (publish_action o (get_elem? s.frames f)) =
        subst (λ i. Within (Action.publish o) (publish_action o i)) (sym here) (inl refl) in
      from_backend o (Backend.reserved f t r) (Action.publish o) at within

  -- A backend that has a pin gives it back, or ends its access.
  pinned_goes_on :
      (f b : ℕ) (k : Backend)
      → get_elem? s.backends b ≡ some k
      → pins_at f k ≡ 1
      → (a : Action) × In a out
  pinned_goes_on f b (pinned g p) at one =
      (Action.unpin b, from_backend b (pinned g p) (Action.unpin b) at (inl refl))
  pinned_goes_on f b (reading g p) at one =
      (Action.end_access b, from_backend b (reading g p) (Action.end_access b) at (inl refl))
  pinned_goes_on f b (writing g p) at one =
      (Action.end_access b, from_backend b (writing g p) (Action.end_access b) at (inl refl))
  pinned_goes_on f b idle at one = absurd (omega arith)
  pinned_goes_on f b (Backend.request p r) at one = absurd (omega arith)
  pinned_goes_on f b (miss p r) at one = absurd (omega arith)
  pinned_goes_on f b (Backend.reserved g p r) at one = absurd (omega arith)
  pinned_goes_on f b (waiting g p r) at one = absurd (omega arith)

  -- A frame that is neither free nor unused is being worked on, or somebody pins it.
  victim_goes_on :
      (b p f : ℕ) (r : Bool)
      → get_elem? s.backends b ≡ some (miss p r)
      → (x : Frame) → get_elem? s.frames f ≡ some x
      → (a : Action) × In a out
  victim_goes_on b p f r at x here = of x here
    where
      takes :
          (y : Frame)
          → get_elem? s.frames f ≡ some y
          → Within (Action.reserve b f) (victim_action b f y)
          → In (Action.reserve b f) out
      takes y h within =
          let (mine, built) = backend_made in
          from_backend b (miss p r) (Action.reserve b f) at (
            subst (Within (Action.reserve b f)) (sym built) (
              right_Within (Action.reserve b f)
                (miss_lookup b (looked_up s (get_elem? s.page_table p)))
                (each (victim_action b) 0 s.frames) mine built (victims_made y h within)))
        where
          backend_made : (l : List Action) × (backend_actions m s b (miss p r) ≡ some l)
          backend_made = backend_actions_total m s v b (miss p r) at

          victims_made :
              (z : Frame)
              → get_elem? s.frames f ≡ some z
              → Within (Action.reserve b f) (victim_action b f z)
              → Within (Action.reserve b f) (each (victim_action b) 0 s.frames)
          victims_made z h' within' =
              let (mine, built) = backend_made in
              let (l, made) =
                right_made (miss_lookup b (looked_up s (get_elem? s.page_table p)))
                  (each (victim_action b) 0 s.frames) mine built in
              In-Within (Action.reserve b f) (each (victim_action b) 0 s.frames) l made (
                each-In (victim_action b) (Action.reserve b f) 0 s.frames l f z made h' (
                  subst (λ i. Within (Action.reserve b f) (victim_action b i z)) (same_index f)
                    within''))
            where
              within'' : Within (Action.reserve b f) (victim_action b f z)
              within'' = within'

              same_index : (i : ℕ) → i ≡ 0 + i
              same_index i = omega arith

      of : (y : Frame) → get_elem? s.frames f ≡ some y → (a : Action) × In a out
      of free h = (Action.reserve b f, takes free h (inl refl))
      of (ready q zero d) h = (Action.reserve b f, takes (ready q zero d) h (inl refl))
      of (ready q (suc c) d) h =
          let (c', k, at', one) =
            pinned_somewhere f s.backends (omega (arith, v.counted f (ready q (suc c) d) h)) in
          pinned_goes_on f c' k at' one
      of (Frame.reserved t o) h = (Action.publish o, reserved_goes_on f t o h)
      of (flushing q t o) h = (Action.flush_done f true, flushing_goes_on f q t o h)
      of (loading q io) h = loading_goes_on f q io h

  -- A request looks its page up, unless the page's frame is being flushed.
  request_goes_on :
      (b p : ℕ) (r : Bool)
      → get_elem? s.backends b ≡ some (Backend.request p r)
      → (a : Action) × In a out
  request_goes_on b p r at =
      let (slot, h) =
        get_elem?-lt s.page_table p
          (subst (λ i. p < i) (sym v.pages) (v.known b (Backend.request p r) at)) in
      of slot h
    where
      asks :
          Within (Action.lookup b) (request_lookup b (looked_up s (get_elem? s.page_table p)))
          → (a : Action) × In a out
      asks within =
          (Action.lookup b, from_backend b (Backend.request p r) (Action.lookup b) at within)

      found_frame :
          (f : ℕ) (x : Frame)
          → get_elem? s.page_table p ≡ some (some f)
          → get_elem? s.frames f ≡ some x
          → (a : Action) × In a out
      found_frame f (flushing q t o) h here =
          (Action.flush_done f true, flushing_goes_on f q t o here)
      found_frame f free h here = asks (rw (h, looked_up, here) (inl refl))
      found_frame f (Frame.reserved t o) h here = asks (rw (h, looked_up, here) (inl refl))
      found_frame f (loading q io) h here = asks (rw (h, looked_up, here) (inl refl))
      found_frame f (ready q c d) h here = asks (rw (h, looked_up, here) (inl refl))

      of : (slot : Option ℕ) → get_elem? s.page_table p ≡ some slot → (a : Action) × In a out
      of none h = asks (rw (h, looked_up) (inl refl))
      of (some f) h = let (x, here, is) = v.mapped p f h in found_frame f x h here

  reserved_backend_goes_on :
      (b f p : ℕ) (x : Frame)
      → get_elem? s.frames f ≡ some x
      → Owned b p x
      → (a : Action) × In a out
  reserved_backend_goes_on b f p (Frame.reserved t o) here owns =
      (Action.publish o, reserved_goes_on f t o here)
  reserved_backend_goes_on b f p (flushing q t o) here owns =
      (Action.flush_done f true, flushing_goes_on f q t o here)
  reserved_backend_goes_on b f p free here owns = absurd owns
  reserved_backend_goes_on b f p (loading q io) here owns = absurd owns
  reserved_backend_goes_on b f p (ready q c d) here owns = absurd owns

  requests_first : (b n : ℕ) → 0 < n → In (Action.request b 0) (requests b 0 n)
  unfolding requests
  requests_first b zero h = absurd (omega arith)
  requests_first b (suc n) h = inl refl

  backend_goes_on :
      IsModel m → (b : ℕ) (k : Backend) → get_elem? s.backends b ≡ some k → (a : Action) × In a out
  backend_goes_on model b idle at = (
    Action.request b 0,
    from_backend b idle (Action.request b 0) at (requests_first b m.page_count model.some_page),
  )
  backend_goes_on model b (Backend.request p r) at = request_goes_on b p r at
  backend_goes_on model b (miss p r) at =
      let (x, here) = get_elem?-lt s.frames 0 v.some_frame in victim_goes_on b p 0 r at x here
  backend_goes_on model b (Backend.reserved f p r) at =
      let (x, here, owns) = v.seated b f (Backend.reserved f p r) at refl in
      reserved_backend_goes_on b f p x here owns
  backend_goes_on model b (waiting f p r) at =
      (Action.cancel b, from_backend b (waiting f p r) (Action.cancel b) at (inl refl))
  backend_goes_on model b (pinned f p) at = pinned_goes_on f b (pinned f p) at (ground arith)
  backend_goes_on model b (reading f p) at = pinned_goes_on f b (reading f p) at (ground arith)
  backend_goes_on model b (writing f p) at = pinned_goes_on f b (writing f p) at (ground arith)

Reach-IsModel : {m : BufferModel} {s : State} → Reach m s → IsModel m
Reach-IsModel (start h e) = h
Reach-IsModel (step a r offered e) = Reach-IsModel r

-- The protocol does not deadlock: in every reached state some action is offered, and `next_state`
-- takes it to a reached state.
pub progress-Reach :
    (m : BufferModel) {s : State}
    → Reach m s
    → (a : Action) × (t : State) × Within a (actions m s) × (next_state s a ≡ to t) × Reach m t
progress-Reach m {s} r =
    let v : Inv m.page_count s = (Reach-Sound r).inv in
    let (out, listed, taken) = actions-next_state m r in
    let (k, at) = get_elem?-lt s.backends 0 v.some_backend in
    let (a, on) = backend_goes_on m s v out listed (Reach-IsModel r) 0 k at in
    let (t, e, reached) = taken a on in (a, t, In-Within a (actions m s) out listed on, e, reached)
