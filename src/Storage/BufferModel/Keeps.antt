-- ===== src/Storage/BufferModel/Keeps.antt =====
-- Every action that is offered is taken, and leaves a sound state.
use chili_db.Prelude.{
  ℕ, zero, suc, ◌<◌, ◌≤◌, ◌==◌, ◌≡◌, refl, sym, ap, ◌∙◌, subst, Bool, false, List, [], ◌∷◌, none,
  some, get_elem?, arith,
}
use chili_db.Storage.BufferModel.{
  Frame, free, flushing, loading, ready, Backend, idle, miss, waiting, pinned, reading, writing,
  no_event, State, Action,
}
use chili_db.Storage.BufferModel.Actions.{is_writing, is_accessing}
use chili_db.Storage.BufferModel.Step.{
  to, set_frame, set_backend, set_event, in_bounds, lookup_as, reserve_frame, reserve_as,
  publish_as, submit_frame, load_frame, flush_frame, read_as, write_frame, write_as, end_as,
  unpin_frame, unpin_as, act, next_state, soil,
}
use chili_db.Storage.BufferModel.Invariant.{frame_of, InRange, Owned, Shows, pins_of, pins_at, Inv}
use chili_db.Storage.BufferModel.Enabled.{Accesses, Enabled, Taken}
use chili_db.Storage.BufferModel.Moves.{Loose, Loose-Inv, unpin-Inv}
use chili_db.Storage.BufferModel.Accessing.{submit-Inv, soil-Inv, read-Inv, end-Inv, write-Inv}
use chili_db.Storage.BufferModel.Seeking.{Reported-calm}
use chili_db.Storage.BufferModel.Publishing.{publish_as-Taken, event-Inv}
use chili_db.Storage.BufferModel.Finishing.{load_end-Taken, flush_end-Taken}
use chili_db.Storage.BufferModel.Seeking.{lookup_as-Taken, reserve_frame-Taken}

pub pins_at-le-pins_of :
    (f : ℕ) (ks : List Backend) (b : ℕ) (k : Backend)
    → get_elem? ks b ≡ some k
    → pins_at f k ≤ pins_of f ks
unfolding pins_of
pins_at-le-pins_of f [] b k h = cc
pins_at-le-pins_of f (j ∷ ks) zero k h = let same : j ≡ k = cc in rw (← same) (omega arith)
pins_at-le-pins_of f (j ∷ ks) (suc b) k h = omega (arith, pins_at-le-pins_of f ks b k h)

module _ (n : ℕ) (s : State) (v : Inv n s) (calm : s.event ≡ no_event) where
  -- A pinned frame is ready, and counts the pin.
  ready_at :
      (b f p : ℕ)
      → get_elem? s.backends b ≡ some (pinned f p)
      → (c : ℕ) × (d : Bool) × (get_elem? s.frames f ≡ some (ready p (suc c) d))
  ready_at b f p at =
      let (x, here, shows) = v.seated b f (pinned f p) at refl in ready_frame x here shows
    where
      counted : (c : ℕ) (d : Bool) (q : ℕ) → get_elem? s.frames f ≡ some (ready q c d) → 0 < c
      counted c d q here =
          let few : pins_at f (pinned f p) ≤ pins_of f s.backends =
            pins_at-le-pins_of f s.backends b (pinned f p) at in
          ground (arith, v.counted f (ready q c d) here)

      ready_frame :
          (x : Frame)
          → get_elem? s.frames f ≡ some x
          → Shows p x
          → (c : ℕ) × (d : Bool) × (get_elem? s.frames f ≡ some (ready p (suc c) d))
      ready_frame (ready q zero d) here same = absurd (omega (arith, counted zero d q here))
      ready_frame (ready q (suc c) d) here same =
          (c, d, here ∙ ap (λ i. some (ready i (suc c) d)) same)
      ready_frame free here h = absurd h
      ready_frame (Frame.reserved t o) here h = absurd h
      ready_frame (flushing q t o) here h = absurd h
      ready_frame (loading q io) here h = absurd h

  unpin-Taken :
      (b f p : ℕ)
      → get_elem? s.backends b ≡ some (pinned f p)
      → Taken n (unpin_frame s b f (get_elem? s.frames f))
  unpin-Taken b f p at =
      let (c, d, here) = ready_at b f p at in
      subst (λ i. Taken n (unpin_frame s b f i)) (sym here)
        (record {
          inv = unpin-Inv n s s.event v b f p c d at here;
          reported = Reported-calm n s v calm _;
        })

  read-Taken :
      (b f p : ℕ)
      → get_elem? s.backends b ≡ some (pinned f p)
      → ((c : ℕ) (k : Backend) → get_elem? s.backends c ≡ some k → is_writing f k ≡ false)
      → Taken n (read_as s b (some (pinned f p)))
  read-Taken b f p at none_writes = record {
    inv = read-Inv n s s.event v b f p at (λ c q h.
        let clash : (f == f) ≡ false = none_writes c (writing f q) h in absurd (ground arith));
    reported = Reported-calm n s v calm _;
  }

  write-Taken :
      (b f p : ℕ)
      → get_elem? s.backends b ≡ some (pinned f p)
      → ((c : ℕ) (k : Backend) → get_elem? s.backends c ≡ some k → is_accessing f k ≡ false)
      → Taken n (write_frame s b f p (get_elem? s.frames f))
  write-Taken b f p at none_accesses =
      let (x, here, shows) = v.seated b f (pinned f p) at refl in
      let soiled : Inv n (set_frame f (soil x) s) = soil-Inv n s s.event v f x here in
      subst (λ i. Taken n (write_frame s b f p i)) (sym here)
        (record {
          inv = write-Inv n (set_frame f (soil x) s) s.event soiled b f p at none_accesses;
          reported = Reported-calm n s v calm _;
        })

  end-Taken :
      (b : ℕ) (k : Backend)
      → get_elem? s.backends b ≡ some k
      → Accesses k
      → Taken n (end_as s b (some k))
  end-Taken b (reading f p) at h = record {
    inv =
        end-Inv n s s.event v b f p (reading f p) at (λ g is. ground arith) refl
          (λ c x shows. shows) (λ g t r e. cc) (λ g. refl);
    reported = Reported-calm n s v calm _;
  }
  end-Taken b (writing f p) at h = record {
    inv =
        end-Inv n s s.event v b f p (writing f p) at (λ g is. ground arith) refl
          (λ c x shows. shows) (λ g t r e. cc) (λ g. refl);
    reported = Reported-calm n s v calm _;
  }
  end-Taken b idle at h = absurd h
  end-Taken b (Backend.request p r) at h = absurd h
  end-Taken b (miss p r) at h = absurd h
  end-Taken b (Backend.reserved f p r) at h = absurd h
  end-Taken b (waiting f p r) at h = absurd h
  end-Taken b (pinned f p) at h = absurd h

  Loose-Taken :
      (b : ℕ) (k k' : Backend)
      → get_elem? s.backends b ≡ some k
      → Loose k
      → Loose k'
      → InRange n k'
      → frame_of k' ≡ none
      → Taken n (in_bounds (get_elem? s.backends b) (to (set_backend b k' s)))
  Loose-Taken b k k' at was is range of =
      subst (λ i. Taken n (in_bounds i (to (set_backend b k' s)))) (sym at)
        (record {
          inv = Loose-Inv n s s.event v b k k' at was is range (λ f h. cc);
          reported = Reported-calm n s v calm _;
        })

  publish-Taken :
      (b f p : ℕ) (r : Bool) (t o : ℕ)
      → get_elem? s.backends b ≡ some (Backend.reserved f p r)
      → get_elem? s.frames f ≡ some (Frame.reserved t o)
      → Taken n (publish_as s b (some (Backend.reserved f p r)))
  publish-Taken b f p r t o at here =
      let (x, here', fits) = v.seated b f (Backend.reserved f p r) at refl in
      let same : x ≡ Frame.reserved t o = cc in
      let (is, owns) = subst (Owned b p) same fits in
      let named : Frame.reserved t o ≡ Frame.reserved p b =
        ap (λ i. Frame.reserved i o) is ∙ ap (λ i. Frame.reserved p i) owns in
      publish_as-Taken n s v calm b f p r at (here ∙ ap (λ i. some i) named)

  act-Taken : (a : Action) → Enabled n s a → Taken n (act s a)
  act-Taken (Action.request b p) (at, small) =
      Loose-Taken b idle (Backend.request p false) at tt tt small refl
  act-Taken (Action.lookup b) (k, at, h) =
      subst (λ i. Taken n (lookup_as s b i)) (sym at) (lookup_as-Taken n s v calm b k at h)
  act-Taken (Action.reserve b f) (p, r, x, at, here, h) =
      subst (λ i. Taken n (reserve_as s b f i)) (sym at)
        (subst (λ i. Taken n (reserve_frame s b f p r i)) (sym here)
          (reserve_frame-Taken n s v calm b f p r at x here h))
  act-Taken (Action.publish b) (f, p, r, t, o, at, here) =
      subst (λ i. Taken n (publish_as s b i)) (sym at) (publish-Taken b f p r t o at here)
  act-Taken (Action.submit f) (p, here) =
      subst (λ i. Taken n (submit_frame s f i)) (sym here)
        (record { inv = submit-Inv n s s.event v f p here; reported = Reported-calm n s v calm _ })
  act-Taken (Action.load_done f ok) (p, here) =
      subst (λ i. Taken n (load_frame s f ok i)) (sym here) (load_end-Taken n s v calm f p here ok)
  act-Taken (Action.flush_done f ok) (q, t, o, here) =
      subst (λ i. Taken n (flush_frame s f ok i)) (sym here)
        (flush_end-Taken n s v calm f q t o here ok)
  act-Taken (Action.cancel b) (f, p, r, at) = Loose-Taken b (waiting f p r) idle at tt tt tt refl
  act-Taken (Action.read b) (f, p, at, h) =
      subst (λ i. Taken n (read_as s b i)) (sym at) (read-Taken b f p at h)
  act-Taken (Action.write b) (f, p, at, h) =
      subst (λ i. Taken n (write_as s b i)) (sym at) (write-Taken b f p at h)
  act-Taken (Action.end_access b) (k, at, h) =
      subst (λ i. Taken n (end_as s b i)) (sym at) (end-Taken b k at h)
  act-Taken (Action.unpin b) (f, p, at) =
      subst (λ i. Taken n (unpin_as s b i)) (sym at) (unpin-Taken b f p at)

pub next_state-Taken :
    (n : ℕ) (s : State) (a : Action) → Inv n s → Enabled n s a → Taken n (next_state s a)
unfolding next_state
next_state-Taken n s a v h =
    act-Taken n (set_event no_event s) (event-Inv n s no_event v) refl a (still a h)
  where
    -- What an action waits for does not concern the event.
    still : (i : Action) → Enabled n s i → Enabled n (set_event no_event s) i
    still (Action.request b p) e = e
    still (Action.lookup b) e = e
    still (Action.reserve b f) e = e
    still (Action.publish b) e = e
    still (Action.submit f) e = e
    still (Action.load_done f ok) e = e
    still (Action.flush_done f ok) e = e
    still (Action.cancel b) e = e
    still (Action.read b) e = e
    still (Action.write b) e = e
    still (Action.end_access b) e = e
    still (Action.unpin b) e = e
