-- ===== src/Storage/BufferModel/Publishing.antt =====
-- `publish`: the page is listed, or the backend that lost the race joins the winner.
use chili_db.Prelude.{
  ℕ, ◌+◌, ◌<◌, ◌≡◌, ◌≢◌, refl, sym, ap, ◌∙◌, subst, Bool, false, Option, none, some, length,
  get_elem?, get_elem?-lt, get_elem?-set_self, get_elem?-set_ne, get_elem?-eq-some, set,
}
use chili_db.Storage.BufferModel.{
  Frame, free, flushing, loading, ready, Backend, waiting, pinned, Event, no_event, race_released,
  State, published,
}
use chili_db.Storage.BufferModel.Step.{
  Next, panicked, ignored, to, set_frame, set_backend, set_page, set_event, in_bounds, join_frame,
  join, with_event, publish_page,
}
use chili_db.Storage.BufferModel.Invariant.{Inv}
use chili_db.Storage.BufferModel.Enabled.{Taken}
use chili_db.Storage.BufferModel.Patch.{set-set}
use chili_db.Storage.BufferModel.Reserving.{publish-Inv, release-Inv}
use chili_db.Storage.BufferModel.Seeking.{Reported-calm, join-Taken}

-- `join` overwrites the backend, whatever it was.
join-set_backend :
    (s : State) (b f p : ℕ) (r : Bool) (k : Backend) (x : Option Frame)
    → join_frame (set_backend b k s) b f p r x ≡ join_frame s b f p r x
join-set_backend s b f p r k none = refl
join-set_backend s b f p r k (some (ready q c d)) =
    ap
      (λ ks. to (record {
        frames = set s.frames f (ready q (c + 1) d);
        backends = ks;
        page_table = s.page_table;
        event = s.event;
      }))
      (set-set s.backends b k (pinned f p))
join-set_backend s b f p r k (some (loading q io)) =
    ap (λ ks. to (record s { backends = ks })) (set-set s.backends b k (waiting f p r))
join-set_backend s b f p r k (some free) =
    ap (λ ks. to (record s { backends = ks })) (set-set s.backends b k (Backend.request p r))
join-set_backend s b f p r k (some (Frame.reserved t o)) =
    ap (λ ks. to (record s { backends = ks })) (set-set s.backends b k (Backend.request p r))
join-set_backend s b f p r k (some (flushing q t o)) =
    ap (λ ks. to (record s { backends = ks })) (set-set s.backends b k (Backend.request p r))

-- Frame `f` and the page table are as they were.
abbrev Leaves : State → ℕ → Next → Type 0
Leaves s f panicked = Unit
Leaves s f ignored = Unit
Leaves s f (to t) = (get_elem? t.frames f ≡ get_elem? s.frames f) × (t.page_table ≡ s.page_table)

join-Leaves :
    (s : State) (b f p g : ℕ) (r : Bool) (x : Option Frame)
    → f ≢ g
    → Leaves s g (join_frame s b f p r x)
join-Leaves s b f p g r none ne = tt
join-Leaves s b f p g r (some (ready q c d)) ne =
    (get_elem?-set_ne s.frames f g (ready q (c + 1) d) ne, refl)
join-Leaves s b f p g r (some (loading q io)) ne = (refl, refl)
join-Leaves s b f p g r (some free) ne = (refl, refl)
join-Leaves s b f p g r (some (Frame.reserved t o)) ne = (refl, refl)
join-Leaves s b f p g r (some (flushing q t o)) ne = (refl, refl)

pub event-Inv : (n : ℕ) (s : State) (e : Event) → Inv n s → Inv n (set_event e s)
event-Inv n s e v = record {
  pages = v.pages;
  some_frame = v.some_frame;
  some_backend = v.some_backend;
  known = v.known;
  seated = v.seated;
  owned = v.owned;
  listed = v.listed;
  mapped = v.mapped;
  counted = v.counted;
  alone = v.alone;
}

-- The released frame is free and listed nowhere, so the event says what is so.
race-Taken :
    (n : ℕ) (s : State) (f : ℕ) (r : Next)
    → get_elem? s.frames f ≡ some free
    → ((p : ℕ) → get_elem? s.page_table p ≢ some (some f))
    → Leaves s f r
    → Taken n r
    → Taken n (with_event (race_released f) r)
race-Taken n s f panicked here unlisted leaves h = h
race-Taken n s f ignored here unlisted leaves h = h
race-Taken n s f (to t) here unlisted (same, table) h = record {
  inv = event-Inv n t (race_released f) h.inv;
  reported = (same ∙ here, (λ p e. unlisted p (ap (λ l. get_elem? l p) (sym table) ∙ e)));
}

module _ (n : ℕ) (s : State) (v : Inv n s) (calm : s.event ≡ no_event) (b f p : ℕ) (r : Bool)
    (at : get_elem? s.backends b ≡ some (Backend.reserved f p r))
    (here : get_elem? s.frames f ≡ some (Frame.reserved p b)) where
  -- A reserved frame is not in the table.
  unlisted : (q : ℕ) → get_elem? s.page_table q ≢ some (some f)
  unlisted q h =
      let (x, at', is) = v.mapped q f h in
      let same : x ≡ Frame.reserved p b = cc in
      let bad : published (Frame.reserved p b) ≡ some q = ap published (sym same) ∙ is in cc

  lost :
      (winner : ℕ)
      → get_elem? s.page_table p ≡ some (some winner)
      → Taken n (with_event (race_released f) (join (set_frame f free s) b winner p r))
  lost winner lists =
      let after : State = set_backend b (Backend.request p r) (set_frame f free s) in
      let valid : Inv n after = release-Inv n s s.event v b f p r at here in
      let self : get_elem? after.backends b ≡ some (Backend.request p r) =
        get_elem?-set_self s.backends b (Backend.request p r) (get_elem?-eq-some s.backends b at) in
      let joined : Taken n (join after b winner p r) =
        join-Taken n after valid calm b winner p r (Backend.request p r) self tt lists in
      let ne : winner ≢ f = (λ same. unlisted p (lists ∙ ap (λ i. some (some i)) same)) in
      let was_free : get_elem? (set s.frames f free) f ≡ some free =
        get_elem?-set_self s.frames f free (get_elem?-eq-some s.frames f here) in
      race-Taken n (set_frame f free s) f (join (set_frame f free s) b winner p r) was_free unlisted
        (join-Leaves (set_frame f free s) b winner p f r (get_elem? (set s.frames f free) winner)
          ne)
        (subst (Taken n)
          (join-set_backend (set_frame f free s) b winner p r (Backend.request p r)
            (get_elem? (set s.frames f free) winner))
          joined)

  publish_page-Taken :
      (slot : Option ℕ)
      → get_elem? s.page_table p ≡ some slot
      → Taken n (publish_page s b f p r (some slot))
  publish_page-Taken (some winner) h =
      subst
        (λ i.
          Taken n
            (in_bounds i (with_event (race_released f) (join (set_frame f free s) b winner p r))))
        (sym here) (lost winner h)
  publish_page-Taken none h =
      subst
        (λ i. Taken n (
          in_bounds i (
            to (
              set_backend b (waiting f p r)
                (set_frame f (loading p false) (set_page p (some f) s))))))
        (sym here)
        (record {
          inv = publish-Inv n s s.event v b f p r at here h;
          reported = Reported-calm n s v calm _;
        })

  pub publish_as-Taken : Taken n (publish_page s b f p r (get_elem? s.page_table p))
  publish_as-Taken =
      let small : p < length s.page_table =
        subst (λ i. p < i) (sym v.pages) (v.known b (Backend.reserved f p r) at) in
      let (slot, h) = get_elem?-lt s.page_table p small in
      subst (λ i. Taken n (publish_page s b f p r i)) (sym h) (publish_page-Taken slot h)
