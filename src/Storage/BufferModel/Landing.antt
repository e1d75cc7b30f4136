-- ===== src/Storage/BufferModel/Landing.antt =====
-- The end of a load keeps the invariant, whatever becomes of the frame.
use chili_db.Prelude.{
  ℕ, ◌==◌, ◌≡◌, ◌≢◌, inl, inr, sym, ap, ◌∙◌, subst, Bool, true, List, Option, some, get_elem?, set,
  arith, set-cases, get_elem?-set_self, get_elem?-set_ne, get_elem?-eq-some, length-set, Bool-cases,
}
use chili_db.Storage.BufferModel.{
  Frame, free, flushing, loading, ready, Backend, writing, published, Event, State,
}
use chili_db.Storage.BufferModel.Actions.{is_accessing}
use chili_db.Storage.BufferModel.Step.{settle, settle_all}
use chili_db.Storage.BufferModel.Entries.{Entries}
use chili_db.Storage.BufferModel.Invariant.{
  frame_of, InRange, Fits, HasOwner, pin_count, pins_of, Inv,
}
use chili_db.Storage.BufferModel.Settle.{
  length-settle_all, settle_all-get, get_elem?-settle_all, settle-InRange, is_accessing-settle,
  settle-writing, settle-ne, frame_of-settle,
}

pub record Landing (n : ℕ) (s : State) (f p : ℕ) (ok : Bool) (x' : Frame) (table : List (Option ℕ))
    : Type 0 where
  pub at_frame : get_elem? s.frames f ≡ some (loading p true)
  pub fits :
      (c : ℕ) (k : Backend)
      → Fits c k (loading p true)
      → frame_of (settle f ok k) ≡ some f
      → Fits c (settle f ok k) x'
  pub owner : HasOwner (settle_all f ok s.backends) f x'
  pub entries : Entries n s f x' table
  pub pins : pin_count x' ≡ pins_of f (settle_all f ok s.backends)
  pub elsewhere : (g : ℕ) → g ≢ f → pins_of g (settle_all f ok s.backends) ≡ pins_of g s.backends

module _ (n : ℕ) (s : State) (f p : ℕ) (ok : Bool) (x' : Frame) (table : List (Option ℕ))
    (e : Event) (v : Inv n s) (m : Landing n s f p ok x' table) where
  frame_self : get_elem? (set s.frames f x') f ≡ some x'
  frame_self = get_elem?-set_self s.frames f x' (get_elem?-eq-some s.frames f m.at_frame)

  known : (c : ℕ) (j : Backend) → get_elem? (settle_all f ok s.backends) c ≡ some j → InRange n j
  known c j h =
      let (k, at, is) = settle_all-get f ok s.backends c j h in
      subst (InRange n) (sym is) (settle-InRange f ok n k (v.known c k at))

  seat_of :
      (c g : ℕ) (k : Backend)
      → get_elem? s.backends c ≡ some k
      → frame_of (settle f ok k) ≡ some g
      → (y : Frame) × (get_elem? (set s.frames f x') g ≡ some y) × Fits c (settle f ok k) y
  seat_of c g k at of =
      let (y, here, fits) = v.seated c g k at (frame_of-settle f ok g k of) in
      elim (Bool-cases (g == f)) [
        | inl eq ↦
            let same : g ≡ f = ground arith in
            let was : y ≡ loading p true = cc (m.at_frame) in
            (
              x',
              ap (get_elem? (set s.frames f x')) same ∙ frame_self,
              m.fits c k (subst (Fits c k) was fits) (of ∙ ap (λ i. some i) same),
            )
        | inr other ↦
            let ne : g ≢ f = ground arith in
            (
              y,
              get_elem?-set_ne s.frames f g x' (λ q. ne (sym q)) ∙ here,
              subst (λ i. Fits c i y) (sym (settle-ne f ok g k of ne)) fits,
            )
      ]

  seated :
      (c g : ℕ) (j : Backend)
      → get_elem? (settle_all f ok s.backends) c ≡ some j
      → frame_of j ≡ some g
      → (y : Frame) × (get_elem? (set s.frames f x') g ≡ some y) × Fits c j y
  seated c g j h of =
      let (k, at, is) = settle_all-get f ok s.backends c j h in
      let (y, here, fits) = seat_of c g k at (ap frame_of (sym is) ∙ of) in
      (y, here, subst (λ i. Fits c i y) (sym is) fits)

  owned_old :
      (g : ℕ) (y : Frame) → HasOwner s.backends g y → HasOwner (settle_all f ok s.backends) g y
  owned_old g free h = tt
  owned_old g (Frame.reserved t o) (r, h) =
      (r, get_elem?-settle_all f ok s.backends o (Backend.reserved g t r) h)
  owned_old g (flushing q t o) (r, h) =
      (r, get_elem?-settle_all f ok s.backends o (Backend.reserved g t r) h)
  owned_old g (loading q io) h = tt
  owned_old g (ready q c d) h = tt

  alone :
      (c d g q : ℕ) (j : Backend)
      → get_elem? (settle_all f ok s.backends) c ≡ some (writing g q)
      → get_elem? (settle_all f ok s.backends) d ≡ some j
      → is_accessing g j ≡ true
      → c ≡ d
  alone c d g q j h i acc =
      let (k, at, is) = settle_all-get f ok s.backends c (writing g q) h in
      let (l, at', is') = settle_all-get f ok s.backends d j i in
      v.alone c d g q l (at ∙ ap (λ z. some z) (settle-writing f ok g q k is)) at'
        (sym (is_accessing-settle f ok g l) ∙ ap (is_accessing g) (sym is') ∙ acc)

  pub landing-Inv : Inv n (record {
    frames = set s.frames f x';
    backends = settle_all f ok s.backends;
    page_table = table;
    event = e;
  })
  landing-Inv = record {
    pages = m.entries.sized;
    some_frame = rw (length-set s.frames f x') v.some_frame;
    some_backend = rw (length-settle_all f ok s.backends) v.some_backend;
    known = known;
    seated = seated;
    owned = λ g y h. elim (set-cases s.frames f g x' y h) [
      | inl (at, same) ↦
          subst (λ i. HasOwner (settle_all f ok s.backends) i y) (sym at)
            (subst (HasOwner (settle_all f ok s.backends) f) (sym same) m.owner)
      | inr (ne, old) ↦ owned_old g y (v.owned g y old)
    ];
    listed = λ g q y h is. elim (set-cases s.frames f g x' y h) [
      | inl (at, same) ↦
          m.entries.entry q (ap published (sym same) ∙ is) ∙ ap (λ i. some (some i)) (sym at)
      | inr (ne, old) ↦ m.entries.keep q g ne (v.listed g q y old is)
    ];
    mapped = λ q g h. elim (m.entries.back q g h) [
      | inl (ne, old) ↦
          let (y, at, is) = v.mapped q g old in
          (y, get_elem?-set_ne s.frames f g x' (λ i. ne (sym i)) ∙ at, is)
      | inr (same, is) ↦ (x', ap (get_elem? (set s.frames f x')) same ∙ frame_self, is)
    ];
    counted = λ g y h. elim (set-cases s.frames f g x' y h) [
      | inl (at, same) ↦
          ap pin_count same ∙ m.pins ∙ ap (λ i. pins_of i (settle_all f ok s.backends)) (sym at)
      | inr (ne, old) ↦ v.counted g y old ∙ sym (m.elsewhere g ne)
    ];
    alone = alone;
  }
