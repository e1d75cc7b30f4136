-- ===== src/Storage/BufferModel/Offered.antt =====
-- The actions on the offered list, and when each of them is on it.
use chili_db.Prelude.{
  ℕ, zero, suc, ◌+◌, ◌<◌, ◌≡◌, ◌⊎◌, inl, inr, refl, sym, ap, ◌∙◌, subst, Bool, true, false, List,
  [], ◌∷◌, ◌++◌, Option, none, some, if◌then◌else◌, get_elem?, arith, Bool-cases,
}
use chili_db.Storage.BufferModel.{
  Frame, free, flushing, loading, ready, Backend, idle, miss, waiting, pinned, reading, writing,
  BufferModel, State, Action,
}
use chili_db.Storage.BufferModel.Actions.{
  join_lists, each, any, is_writing, is_accessing, requests, looked_up, request_lookup, miss_lookup,
  victim_action, publish_action, backend_actions, frame_actions, actions,
}
use chili_db.Storage.BufferModel.Enabled.{Victim, Enabled}

module _ {A : Type 0} where
  abbrev pub In : A → List A → Type 0
  In a [] = ⊥
  In a (x ∷ xs) = (a ≡ x) ⊎ In a xs

  In-append : (a : A) (xs ys : List A) → In a (xs ++ ys) → In a xs ⊎ In a ys
  In-append a [] ys h = inr h
  In-append a (x ∷ xs) ys (inl e) = inl (inl e)
  In-append a (x ∷ xs) ys (inr h) = elim (In-append a xs ys h) [
    | inl left ↦ inl (inr left)
    | inr right ↦ inr right
  ]

  pub In-left : (a : A) (xs ys : List A) → In a xs → In a (xs ++ ys)
  In-left a [] ys h = absurd h
  In-left a (x ∷ xs) ys (inl e) = inl e
  In-left a (x ∷ xs) ys (inr h) = inr (In-left a xs ys h)

  pub In-right : (a : A) (xs ys : List A) → In a ys → In a (xs ++ ys)
  In-right a [] ys h = h
  In-right a (x ∷ xs) ys h = inr (In-right a xs ys h)

  -- The element is on a list that there is.
  abbrev pub Within : A → Option (List A) → Type 0
  Within a none = ⊥
  Within a (some xs) = In a xs

  pub Within-join_lists :
      (a : A) (p q : Option (List A)) → Within a (join_lists p q) → Within a p ⊎ Within a q
  Within-join_lists a none q h = absurd h
  Within-join_lists a (some xs) none h = absurd h
  Within-join_lists a (some xs) (some ys) h = In-append a xs ys h

  any-false :
      (test : A → Bool) (xs : List A) (c : ℕ) (x : A)
      → any test xs ≡ false
      → get_elem? xs c ≡ some x
      → test x ≡ false
  unfolding any
  any-false test [] c x h at = cc
  any-false test (y ∷ xs) zero x h at = let same : y ≡ x = cc in rw (← same) (ground arith)
  any-false test (y ∷ xs) (suc c) x h at = any-false test xs c x (ground arith) at

module _ {A B : Type 0} (push : ℕ → A → Option (List B)) where
  -- An element that the loop pushes is pushed in one of its rounds.
  pub Within-each :
      (b : B) (i : ℕ) (xs : List A)
      → Within b (each push i xs)
      → (k : ℕ) × (x : A) × (get_elem? xs k ≡ some x) × Within b (push (i + k) x)
  unfolding each
  Within-each b i [] h = absurd h
  Within-each b i (x ∷ xs) h = elim (Within-join_lists b (push i x) (each push (suc i) xs) h) [
    | inl here ↦ (0, x, refl, subst (λ j. Within b (push j x)) (omega arith) here)
    | inr later ↦
        let (k, y, at, within) = Within-each b (suc i) xs later in
        (suc k, y, at, subst (λ j. Within b (push j y)) (omega arith) within)
  ]

  -- If no round panics, the loop does not.
  pub each_total :
      (i : ℕ) (xs : List A)
      → ((k : ℕ) (x : A) → get_elem? xs k ≡ some x → (ys : List B) × (push (i + k) x ≡ some ys))
      → (out : List B) × (each push i xs ≡ some out)
  unfolding each
  each_total i [] rounds = ([], refl)
  each_total i (x ∷ xs) rounds =
      let (ys, h) = rounds 0 x refl in
      let (rest, t) = each_total (suc i) xs (λ k y at.
        let (zs, e) = rounds (suc k) y at in (zs, ap (λ j. push j y) (omega arith) ∙ e)) in
      (ys ++ rest, rw (t, ap (λ j. push j x) (shift i) ∙ h) refl)
    where
      shift : (j : ℕ) → j ≡ j + 0
      shift j = omega arith

requests-In :
    (a : Action) (b p n : ℕ)
    → In a (requests b p n)
    → (q : ℕ) × (a ≡ Action.request b q) × (q < p + n)
unfolding requests
requests-In a b p zero h = absurd h
requests-In a b p (suc n) (inl e) = (p, e, omega arith)
requests-In a b p (suc n) (inr h) =
    let (q, e, small) = requests-In a b (suc p) n h in (q, e, omega arith)

-- The tests of one backend and of one frame.
request_lookup-In :
    (a : Action) (b : ℕ) (x : Option (Option Frame))
    → Within a (request_lookup b x)
    → a ≡ Action.lookup b
request_lookup-In a b x h = ground arith

miss_lookup-In :
    (a : Action) (b : ℕ) (x : Option (Option Frame))
    → Within a (miss_lookup b x)
    → a ≡ Action.lookup b
miss_lookup-In a b x h = ground arith

victim_action-In :
    (a : Action) (b f : ℕ) (x : Frame)
    → Within a (victim_action b f x)
    → (a ≡ Action.reserve b f) × Victim x
victim_action-In a b f free h = (ground arith, tt)
victim_action-In a b f (ready q zero d) h = (ground arith, refl)
victim_action-In a b f (ready q (suc c) d) h = absurd h
victim_action-In a b f (Frame.reserved t o) h = absurd h
victim_action-In a b f (flushing q t o) h = absurd h
victim_action-In a b f (loading q io) h = absurd h

publish_action-In :
    (a : Action) (b : ℕ) (x : Option Frame)
    → Within a (publish_action b x)
    → (a ≡ Action.publish b) × (t : ℕ) × (o : ℕ) × (x ≡ some (Frame.reserved t o))
publish_action-In a b none h = absurd h
publish_action-In a b (some (Frame.reserved t o)) h = (ground arith, t, o, refl)
publish_action-In a b (some free) h = absurd h
publish_action-In a b (some (flushing q t o)) h = absurd h
publish_action-In a b (some (loading q io)) h = absurd h
publish_action-In a b (some (ready q c d)) h = absurd h

module _ (m : BufferModel) (s : State) (a : Action) where
  allowed : (i : Action) → a ≡ i → Enabled m.page_count s i → Enabled m.page_count s a
  allowed i e h = subst (Enabled m.page_count s) (sym e) h

  reads :
      (b f p : ℕ)
      → get_elem? s.backends b ≡ some (pinned f p)
      → In a (
          (if any (is_writing f) s.backends then [] else Action.read b ∷ [])
          ++ (if any (is_accessing f) s.backends then [] else Action.write b ∷ []))
      → Enabled m.page_count s a
  reads b f p at h =
      elim (In-append a (if any (is_writing f) s.backends then [] else Action.read b ∷ [])
        (if any (is_accessing f) s.backends then [] else Action.write b ∷ []) h) [
          | inl left ↦ elim (Bool-cases (any (is_writing f) s.backends)) [
            | inl busy ↦ absurd (nothing (Action.read b) (any (is_writing f) s.backends) busy left)
            | inr quiet ↦
                allowed (Action.read b)
                  (only (Action.read b) (any (is_writing f) s.backends) quiet left)
                  (f, p, at, (λ c k h'. any-false (is_writing f) s.backends c k quiet h'))
          ]
          | inr right ↦ elim (Bool-cases (any (is_accessing f) s.backends)) [
            | inl busy ↦
                absurd (nothing (Action.write b) (any (is_accessing f) s.backends) busy right)
            | inr quiet ↦
                allowed (Action.write b)
                  (only (Action.write b) (any (is_accessing f) s.backends) quiet right)
                  (f, p, at, (λ c k h'. any-false (is_accessing f) s.backends c k quiet h'))
          ]
        ]
    where
      nothing : (i : Action) (t : Bool) → t ≡ true → In a (if t then [] else i ∷ []) → ⊥
      nothing i true e h' = h'
      nothing i false e h' = cc

      only : (i : Action) (t : Bool) → t ≡ false → In a (if t then [] else i ∷ []) → a ≡ i
      only i true e h' = absurd h'
      only i false e (inl h') = h'
      only i false e (inr h') = absurd h'

  backend_actions-Enabled :
      (b : ℕ) (k : Backend)
      → get_elem? s.backends b ≡ some k
      → Within a (backend_actions m s b k)
      → Enabled m.page_count s a
  backend_actions-Enabled b idle at h =
      let (q, e, small) = requests-In a b 0 m.page_count h in
      allowed (Action.request b q) e (at, omega arith)
  backend_actions-Enabled b (Backend.request p r) at h =
      allowed (Action.lookup b) (request_lookup-In a b (looked_up s (get_elem? s.page_table p)) h)
        (Backend.request p r, at, tt)
  backend_actions-Enabled b (miss p r) at h =
      elim (Within-join_lists a (miss_lookup b (looked_up s (get_elem? s.page_table p)))
        (each (victim_action b) 0 s.frames) h) [
          | inl left ↦
              allowed (Action.lookup b)
                (miss_lookup-In a b (looked_up s (get_elem? s.page_table p)) left)
                (miss p r, at, tt)
          | inr right ↦
              let (f, x, here, within) = Within-each (victim_action b) a 0 s.frames right in
              let (e, victim) = victim_action-In a b (0 + f) x within in
              allowed (Action.reserve b (0 + f)) e
                (p, r, x, at, ap (get_elem? s.frames) (omega arith) ∙ here, victim)
        ]
  backend_actions-Enabled b (Backend.reserved f p r) at h =
      let (e, t, o, here) = publish_action-In a b (get_elem? s.frames f) h in
      allowed (Action.publish b) e (f, p, r, t, o, at, here)
  backend_actions-Enabled b (waiting f p r) at (inl e) = allowed (Action.cancel b) e (f, p, r, at)
  backend_actions-Enabled b (waiting f p r) at (inr h) = absurd h
  backend_actions-Enabled b (pinned f p) at (inl e) = allowed (Action.unpin b) e (f, p, at)
  backend_actions-Enabled b (pinned f p) at (inr h) = reads b f p at h
  backend_actions-Enabled b (reading f p) at (inl e) =
      allowed (Action.end_access b) e (reading f p, at, tt)
  backend_actions-Enabled b (reading f p) at (inr h) = absurd h
  backend_actions-Enabled b (writing f p) at (inl e) =
      allowed (Action.end_access b) e (writing f p, at, tt)
  backend_actions-Enabled b (writing f p) at (inr h) = absurd h

  frame_actions-Enabled :
      (f : ℕ) (x : Frame)
      → get_elem? s.frames f ≡ some x
      → Within a (frame_actions f x)
      → Enabled m.page_count s a
  frame_actions-Enabled f (loading p false) here (inl e) = allowed (Action.submit f) e (p, here)
  frame_actions-Enabled f (loading p false) here (inr h) = absurd h
  frame_actions-Enabled f (loading p true) here (inl e) =
      allowed (Action.load_done f true) e (p, here)
  frame_actions-Enabled f (loading p true) here (inr (inl e)) =
      allowed (Action.load_done f false) e (p, here)
  frame_actions-Enabled f (loading p true) here (inr (inr h)) = absurd h
  frame_actions-Enabled f (flushing q t o) here (inl e) =
      allowed (Action.flush_done f true) e (q, t, o, here)
  frame_actions-Enabled f (flushing q t o) here (inr (inl e)) =
      allowed (Action.flush_done f false) e (q, t, o, here)
  frame_actions-Enabled f (flushing q t o) here (inr (inr h)) = absurd h
  frame_actions-Enabled f free here h = absurd h
  frame_actions-Enabled f (Frame.reserved t o) here h = absurd h
  frame_actions-Enabled f (ready q c d) here h = absurd h

  pub actions-Enabled : Within a (actions m s) → Enabled m.page_count s a
  unfolding actions
  actions-Enabled h =
      elim (Within-join_lists a (each (backend_actions m s) 0 s.backends)
        (each frame_actions 0 s.frames) h) [
          | inl left ↦
              let (b, k, at, within) = Within-each (backend_actions m s) a 0 s.backends left in
              backend_actions-Enabled (0 + b) k (ap (get_elem? s.backends) (omega arith) ∙ at)
                within
          | inr right ↦
              let (f, x, here, within) = Within-each frame_actions a 0 s.frames right in
              frame_actions-Enabled (0 + f) x (ap (get_elem? s.frames) (omega arith) ∙ here) within
        ]
