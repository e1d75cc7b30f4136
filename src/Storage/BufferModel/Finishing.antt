-- ===== src/Storage/BufferModel/Finishing.antt =====
-- The end of an I/O operation: a load for its waiters, a write-back for its owner.
use chili_db.Prelude.{
  ℕ, ◌==◌, ◌≡◌, ◌≢◌, inl, inr, refl, sym, subst, Bool, true, false, List, [], ◌∷◌, none, some,
  get_elem?, get_elem?-set_self, get_elem?-eq-some, set, arith, Bool-cases,
}
use chili_db.Storage.BufferModel.{
  Frame, free, flushing, loading, ready, Backend, idle, miss, waiting, pinned, reading, writing,
  Event, no_event, race_released, load_failed, retry_succeeded, flush_failed, State,
}
use chili_db.Storage.BufferModel.Step.{
  to, set_frame, set_page, in_bounds, settle, settle_all, retried, retry_event, load_end,
  flush_retry, flush_end,
}
use chili_db.Storage.BufferModel.Invariant.{Inv}
use chili_db.Storage.BufferModel.Enabled.{Reported, Taken}
use chili_db.Storage.BufferModel.Reserving.{flush_failed-Inv, flushed-Inv}
use chili_db.Storage.BufferModel.Accessing.{loaded-Inv, load_failed-Inv}
use chili_db.Storage.BufferModel.Seeking.{Reported-calm}
use chili_db.Storage.BufferModel.Settle.{settle_all-get}

-- What the loop over the waiters reports concerns no frame.
abbrev Harmless : Event → Type 0
Harmless no_event = Unit
Harmless retry_succeeded = Unit
Harmless (race_released f) = ⊥
Harmless (load_failed f p) = ⊥
Harmless (flush_failed f p) = ⊥

retried-Harmless : (f : ℕ) (k : Backend) (e : Event) → Harmless e → Harmless (retried f k e)
retried-Harmless f (waiting g p true) e h = elim (Bool-cases (g == f)) [
  | inl eq ↦ rw eq tt
  | inr ne ↦ rw ne h
]
retried-Harmless f (waiting g p false) e h = h
retried-Harmless f idle e h = h
retried-Harmless f (Backend.request p r) e h = h
retried-Harmless f (miss p r) e h = h
retried-Harmless f (Backend.reserved g p r) e h = h
retried-Harmless f (pinned g p) e h = h
retried-Harmless f (reading g p) e h = h
retried-Harmless f (writing g p) e h = h

retry_event-Harmless :
    (f : ℕ) (ks : List Backend) (e : Event) → Harmless e → Harmless (retry_event f ks e)
unfolding retry_event
retry_event-Harmless f [] e h = h
retry_event-Harmless f (k ∷ ks) e h =
    retry_event-Harmless f ks (retried f k e) (retried-Harmless f k e h)

Harmless-Reported : (e : Event) (s : State) → Harmless e → Reported e s
Harmless-Reported no_event s h = tt
Harmless-Reported retry_succeeded s h = tt
Harmless-Reported (race_released f) s h = absurd h
Harmless-Reported (load_failed f p) s h = absurd h
Harmless-Reported (flush_failed f p) s h = absurd h

-- No waiter of the frame is left.
settle-no_waiter : (f q : ℕ) (r : Bool) (k : Backend) → waiting f q r ≢ settle f false k
settle-no_waiter f q r k e = ground arith

module _ (n : ℕ) (s : State) (v : Inv n s) (calm : s.event ≡ no_event) where
  module _ (f p : ℕ) (here : get_elem? s.frames f ≡ some (loading p true)) where
    lists : get_elem? s.page_table p ≡ some (some f)
    lists = v.listed f p (loading p true) here refl

    pub load_end-Taken : (ok : Bool) → Taken n (load_end s f p ok)
    load_end-Taken true = record {
      inv = loaded-Inv n s (retry_event f s.backends no_event) v f p here;
      reported =
          Harmless-Reported (retry_event f s.backends no_event) _
            (retry_event-Harmless f s.backends no_event tt);
    }
    load_end-Taken false =
        subst
          (λ i. Taken n (
            in_bounds i (
              to (record {
                frames = set s.frames f free;
                backends = settle_all f false s.backends;
                page_table = set s.page_table p none;
                event = load_failed f p;
              }))))
          (sym lists)
          (record {
            inv = load_failed-Inv n s (load_failed f p) v f p here;
            reported = (
              get_elem?-set_self s.frames f free (get_elem?-eq-some s.frames f here),
              get_elem?-set_self s.page_table p none (get_elem?-eq-some s.page_table p lists),
              (λ b q r h.
                  let (k, at, is) = settle_all-get f false s.backends b (waiting f q r) h in
                  settle-no_waiter f q r k is),
            );
          })

  module _ (f q t o : ℕ) (here : get_elem? s.frames f ≡ some (flushing q t o)) where
    flush_retry-Taken :
        (r : Bool)
        → get_elem? s.backends o ≡ some (Backend.reserved f t r)
        → Taken n (flush_retry s f q t o (some (Backend.reserved f t r)))
    flush_retry-Taken r at =
        let lists : get_elem? s.page_table q ≡ some (some f) =
          v.listed f q (flushing q t o) here refl in
        record {
          inv = flush_failed-Inv n s (flush_failed f q) v o f t r at q here;
          reported = (
            get_elem?-set_self s.frames f (ready q 0 true) (get_elem?-eq-some s.frames f here),
            lists,
          );
        }

    pub flush_end-Taken : (ok : Bool) → Taken n (flush_end s f q t o ok)
    flush_end-Taken true =
        let (r, at) = v.owned f (flushing q t o) here in
        subst
          (λ i. Taken n (in_bounds i (to (set_frame f (Frame.reserved t o) (set_page q none s)))))
          (sym (v.listed f q (flushing q t o) here refl))
          (record {
            inv = flushed-Inv n s s.event v o f t r at q here;
            reported = Reported-calm n s v calm _;
          })
    flush_end-Taken false =
        let (r, at) = v.owned f (flushing q t o) here in
        subst (λ i. Taken n (flush_retry s f q t o i)) (sym at) (flush_retry-Taken r at)
