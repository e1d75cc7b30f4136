-- ===== src/Storage/BufferModel/Seeking.antt =====
-- `lookup` and `reserve`, at the backend that they are offered for.
use chili_db.Prelude.{
  ℕ, zero, suc, ◌+◌, ◌<◌, ◌≡◌, refl, sym, ap, ◌∙◌, subst, Bool, true, false, Option, none, some,
  get_elem?, get_elem?-lt, get_elem?-eq-some, arith,
}
use chili_db.Storage.BufferModel.{
  Frame, free, flushing, loading, ready, Backend, idle, miss, waiting, pinned, reading, writing,
  no_event, State, published,
}
use chili_db.Storage.BufferModel.Step.{
  to, set_frame, set_backend, set_page, in_bounds, join_frame, join, lookup_page, lookup_as,
  reserve_ready, reserve_frame,
}
use chili_db.Storage.BufferModel.Invariant.{Inv}
use chili_db.Storage.BufferModel.Enabled.{Seeks, Victim, Reported, Taken}
use chili_db.Storage.BufferModel.Moves.{Loose, Loose-Inv, pin-Inv}
use chili_db.Storage.BufferModel.Reserving.{reserve_dirty-Inv, reserve_clean-Inv, reserve_free-Inv}

module _ (n : ℕ) (s : State) (v : Inv n s) (calm : s.event ≡ no_event) where
  pub Reported-calm : (t : State) → Reported s.event t
  Reported-calm t = subst (λ e. Reported e t) (sym calm) tt

  -- A backend that seeks page `p` joins frame `f`.
  join_frame-Taken :
      (b f p : ℕ) (r : Bool) (k : Backend)
      → get_elem? s.backends b ≡ some k
      → Loose k
      → p < n
      → (x : Frame) → get_elem? s.frames f ≡ some x
      → published x ≡ some p
      → Taken n (join_frame s b f p r (some x))
  join_frame-Taken b f p r k at was small (ready q c d) here is =
      let same : q ≡ p = cc in
      let named : ready q c d ≡ ready p c d = ap (λ i. ready i c d) same in
      record {
        inv =
            subst (λ i. Inv n (set_backend b (pinned f p) (set_frame f (ready i (c + 1) d) s)))
              (sym same) (pin-Inv n s s.event v b f p c d k at was (here ∙ ap (λ i. some i) named));
        reported = Reported-calm _;
      }
  join_frame-Taken b f p r k at was small (loading q io) here is = record {
    inv = Loose-Inv n s s.event v b k (waiting f p r) at was tt small (λ g of.
        let same : f ≡ g = cc in (loading q io, ap (get_elem? s.frames) (sym same) ∙ here, cc));
    reported = Reported-calm _;
  }
  join_frame-Taken b f p r k at was small (flushing q t o) here is = record {
    inv = Loose-Inv n s s.event v b k (Backend.request p r) at was tt small (λ g of. cc);
    reported = Reported-calm _;
  }
  join_frame-Taken b f p r k at was small free here is = cc
  join_frame-Taken b f p r k at was small (Frame.reserved t o) here is = cc

  pub join-Taken :
      (b f p : ℕ) (r : Bool) (k : Backend)
      → get_elem? s.backends b ≡ some k
      → Loose k
      → get_elem? s.page_table p ≡ some (some f)
      → Taken n (join s b f p r)
  join-Taken b f p r k at was lists =
      let (x, here, is) = v.mapped p f lists in
      let small : p < n = subst (λ i. p < i) v.pages (get_elem?-eq-some s.page_table p lists) in
      subst (λ i. Taken n (join_frame s b f p r i)) (sym here)
        (join_frame-Taken b f p r k at was small x here is)

  lookup_page-Taken :
      (b p : ℕ) (r : Bool) (k : Backend)
      → get_elem? s.backends b ≡ some k
      → Loose k
      → p < n
      → (slot : Option ℕ) → get_elem? s.page_table p ≡ some slot
      → Taken n (lookup_page s b p r (some slot))
  lookup_page-Taken b p r k at was small none h = record {
    inv = Loose-Inv n s s.event v b k (miss p r) at was tt small (λ g of. cc);
    reported = Reported-calm _;
  }
  lookup_page-Taken b p r k at was small (some f) h = join-Taken b f p r k at was h

  table_slot : (p : ℕ) → p < n → (slot : Option ℕ) × (get_elem? s.page_table p ≡ some slot)
  table_slot p h = get_elem?-lt s.page_table p (subst (λ i. p < i) (sym v.pages) h)

  looked-Taken :
      (b p : ℕ) (r : Bool) (k : Backend)
      → get_elem? s.backends b ≡ some k
      → Loose k
      → p < n
      → Taken n (lookup_page s b p r (get_elem? s.page_table p))
  looked-Taken b p r k at was small =
      let (slot, h) = table_slot p small in
      subst (λ i. Taken n (lookup_page s b p r i)) (sym h)
        (lookup_page-Taken b p r k at was small slot h)

  pub lookup_as-Taken :
      (b : ℕ) (k : Backend)
      → get_elem? s.backends b ≡ some k
      → Seeks k
      → Taken n (lookup_as s b (some k))
  lookup_as-Taken b (Backend.request p r) at h =
      looked-Taken b p r (Backend.request p r) at tt (v.known b (Backend.request p r) at)
  lookup_as-Taken b (miss p r) at h = looked-Taken b p r (miss p r) at tt (v.known b (miss p r) at)
  lookup_as-Taken b idle at h = absurd h
  lookup_as-Taken b (Backend.reserved f p r) at h = absurd h
  lookup_as-Taken b (waiting f p r) at h = absurd h
  lookup_as-Taken b (pinned f p) at h = absurd h
  lookup_as-Taken b (reading f p) at h = absurd h
  lookup_as-Taken b (writing f p) at h = absurd h

  reserve_ready-Taken :
      (b f p : ℕ) (r : Bool)
      → get_elem? s.backends b ≡ some (miss p r)
      → (q c : ℕ) (d : Bool) → get_elem? s.frames f ≡ some (ready q c d)
      → c ≡ 0
      → Taken n (reserve_ready s b f p r q c d)
  reserve_ready-Taken b f p r at q zero true here e = record {
    inv = reserve_dirty-Inv n s s.event v b f p r at q here;
    reported = Reported-calm _;
  }
  reserve_ready-Taken b f p r at q zero false here e =
      subst
        (λ i. Taken n (
          in_bounds i (
            to (
              set_backend b (Backend.reserved f p r)
                (set_frame f (Frame.reserved p b) (set_page q none s))))))
        (sym (v.listed f q (ready q 0 false) here refl))
        (record {
          inv = reserve_clean-Inv n s s.event v b f p r at q here;
          reported = Reported-calm _;
        })
  reserve_ready-Taken b f p r at q (suc c) d here e = absurd (omega arith)

  pub reserve_frame-Taken :
      (b f p : ℕ) (r : Bool)
      → get_elem? s.backends b ≡ some (miss p r)
      → (x : Frame) → get_elem? s.frames f ≡ some x
      → Victim x
      → Taken n (reserve_frame s b f p r (some x))
  reserve_frame-Taken b f p r at free here h = record {
    inv = reserve_free-Inv n s s.event v b f p r at here;
    reported = Reported-calm _;
  }
  reserve_frame-Taken b f p r at (ready q c d) here h = reserve_ready-Taken b f p r at q c d here h
  reserve_frame-Taken b f p r at (Frame.reserved t o) here h = absurd h
  reserve_frame-Taken b f p r at (flushing q t o) here h = absurd h
  reserve_frame-Taken b f p r at (loading q io) here h = absurd h
