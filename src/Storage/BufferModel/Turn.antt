-- ===== src/Storage/BufferModel/Turn.antt =====
-- A step that changes one backend alone, or one frame alone.
use chili_db.Prelude.{
  ℕ, ◌==◌, ◌≡◌, ◌≢◌, inl, inr, refl, sym, ap, ◌∙◌, subst, Bool, true, some, get_elem?, set, arith,
  set-cases, get_elem?-set_self, get_elem?-set_ne, get_elem?-eq-some, Bool-cases, length-set,
}
use chili_db.Storage.BufferModel.{
  Frame, free, flushing, loading, ready, Backend, writing, published, Event, State,
}
use chili_db.Storage.BufferModel.Actions.{is_accessing}
use chili_db.Storage.BufferModel.Invariant.{
  frame_of, InRange, Fits, HasOwner, pin_count, pins_at, pins_of, Inv,
}
use chili_db.Storage.BufferModel.Patch.{pins_of-set}

pub record Turn (n : ℕ) (s : State) (b : ℕ) (k k' : Backend) : Type 0 where
  pub at_backend : get_elem? s.backends b ≡ some k
  pub range : InRange n k'
  pub seat :
      (f : ℕ) → frame_of k' ≡ some f → (x : Frame) × (get_elem? s.frames f ≡ some x) × Fits b k' x
  pub unreserved : (f t : ℕ) (r : Bool) → k ≢ Backend.reserved f t r
  pub pins : (f : ℕ) → pins_at f k ≡ pins_at f k'
  pub writes :
      (f p c : ℕ) (j : Backend)
      → k' ≡ writing f p
      → get_elem? s.backends c ≡ some j
      → is_accessing f j ≡ true
      → c ≡ b
  pub accesses :
      (f p c : ℕ) → is_accessing f k' ≡ true → get_elem? s.backends c ≡ some (writing f p) → c ≡ b

module _ (n : ℕ) (s : State) (b : ℕ) (k k' : Backend) (e : Event) (v : Inv n s)
    (m : Turn n s b k k') where
  known : (c : ℕ) (j : Backend) → get_elem? (set s.backends b k') c ≡ some j → InRange n j
  known c j h = elim (set-cases s.backends b c k' j h) [
    | inl (at, same) ↦ subst (InRange n) (sym same) m.range
    | inr (ne, old) ↦ v.known c j old
  ]

  seated :
      (c f : ℕ) (j : Backend)
      → get_elem? (set s.backends b k') c ≡ some j
      → frame_of j ≡ some f
      → (x : Frame) × (get_elem? s.frames f ≡ some x) × Fits c j x
  seated c f j h of = elim (set-cases s.backends b c k' j h) [
    | inl (at, same) ↦
        let (x, here, fits) = m.seat f (ap frame_of (sym same) ∙ of) in
        (x, here, subst (λ i. Fits i j x) (sym at) (subst (λ i. Fits b i x) (sym same) fits))
    | inr (ne, old) ↦ v.seated c f j old of
  ]

  reservation :
      (f t o : ℕ) (r : Bool)
      → get_elem? s.backends o ≡ some (Backend.reserved f t r)
      → get_elem? (set s.backends b k') o ≡ some (Backend.reserved f t r)
  reservation f t o r h = elim (Bool-cases (o == b)) [
    | inl eq ↦
        let same : o ≡ b = ground arith in
        let was : k ≡ Backend.reserved f t r = cc (m.at_backend) in absurd (m.unreserved f t r was)
    | inr other ↦ get_elem?-set_ne s.backends b o k' (ground arith) ∙ h
  ]

  owned : (f : ℕ) (x : Frame) → HasOwner s.backends f x → HasOwner (set s.backends b k') f x
  owned f free h = tt
  owned f (Frame.reserved t o) (r, h) = (r, reservation f t o r h)
  owned f (flushing q t o) (r, h) = (r, reservation f t o r h)
  owned f (loading q io) h = tt
  owned f (ready q c d) h = tt

  alone :
      (c d f p : ℕ) (j : Backend)
      → get_elem? (set s.backends b k') c ≡ some (writing f p)
      → get_elem? (set s.backends b k') d ≡ some j
      → is_accessing f j ≡ true
      → c ≡ d
  alone c d f p j h i acc = elim (set-cases s.backends b c k' (writing f p) h) [
    | inl (at, same) ↦ elim (set-cases s.backends b d k' j i) [
      | inl (at', same') ↦ at ∙ sym at'
      | inr (ne, old) ↦ at ∙ sym (m.writes f p d j (sym same) old acc)
    ]
    | inr (ne, old) ↦ elim (set-cases s.backends b d k' j i) [
      | inl (at', same') ↦ m.accesses f p c (ap (is_accessing f) (sym same') ∙ acc) old ∙ sym at'
      | inr (ne', old') ↦ v.alone c d f p j old old' acc
    ]
  ]

  pub turn-Inv : Inv n (record {
    frames = s.frames;
    backends = set s.backends b k';
    page_table = s.page_table;
    event = e;
  })
  turn-Inv = record {
    pages = v.pages;
    some_frame = v.some_frame;
    some_backend = rw (length-set s.backends b k') v.some_backend;
    known = known;
    seated = seated;
    owned = λ f x h. owned f x (v.owned f x h);
    listed = v.listed;
    mapped = v.mapped;
    counted = λ f x h.
        omega (arith, pins_of-set f s.backends b k k' m.at_backend, m.pins f, v.counted f x h);
    alone = alone;
  }

-- A frame changes in what no other part refers to.
pub record Touch (s : State) (f : ℕ) (x x' : Frame) : Type 0 where
  pub at_frame : get_elem? s.frames f ≡ some x
  pub fits : (c : ℕ) (j : Backend) → Fits c j x → Fits c j x'
  pub owner : HasOwner s.backends f x'
  pub page : published x' ≡ published x
  pub pins : pin_count x' ≡ pin_count x

module _ (n : ℕ) (s : State) (f : ℕ) (x x' : Frame) (e : Event) (v : Inv n s)
    (m : Touch s f x x') where
  frame_self : get_elem? (set s.frames f x') f ≡ some x'
  frame_self = get_elem?-set_self s.frames f x' (get_elem?-eq-some s.frames f m.at_frame)

  -- Every frame is still there, with the page and the users it had.
  still :
      (g : ℕ) (y : Frame)
      → get_elem? s.frames g ≡ some y
      → (z : Frame) × (get_elem? (set s.frames f x') g ≡ some z)
        × (published z ≡ published y)
        × ((c : ℕ) (j : Backend) → Fits c j y → Fits c j z)
  still g y h = elim (Bool-cases (g == f)) [
    | inl eq ↦
        let same : g ≡ f = ground arith in
        let was : x ≡ y = cc (m.at_frame) in
        (
          x',
          ap (get_elem? (set s.frames f x')) same ∙ frame_self,
          m.page ∙ ap published was,
          (λ c j fits. m.fits c j (subst (Fits c j) (sym was) fits)),
        )
    | inr ne ↦ (y, get_elem?-set_ne s.frames f g x' (ground arith) ∙ h, refl, (λ c j fits. fits))
  ]

  pub touch-Inv : Inv n (record {
    frames = set s.frames f x';
    backends = s.backends;
    page_table = s.page_table;
    event = e;
  })
  touch-Inv = record {
    pages = v.pages;
    some_frame = rw (length-set s.frames f x') v.some_frame;
    some_backend = v.some_backend;
    known = v.known;
    seated = λ c g j h of.
        let (y, at, fits) = v.seated c g j h of in
        let (z, at', page, fits') = still g y at in (z, at', fits' c j fits);
    owned = λ g y h. elim (set-cases s.frames f g x' y h) [
      | inl (at, same) ↦
          subst (λ i. HasOwner s.backends i y) (sym at)
            (subst (HasOwner s.backends f) (sym same) m.owner)
      | inr (ne, old) ↦ v.owned g y old
    ];
    listed = λ g p y h is. elim (set-cases s.frames f g x' y h) [
      | inl (at, same) ↦
          v.listed f p x m.at_frame (sym m.page ∙ ap published (sym same) ∙ is)
          ∙ ap (λ i. some (some i)) (sym at)
      | inr (ne, old) ↦ v.listed g p y old is
    ];
    mapped = λ p g h.
        let (y, at, is) = v.mapped p g h in
        let (z, at', page, fits') = still g y at in (z, at', page ∙ is);
    counted = λ g y h. elim (set-cases s.frames f g x' y h) [
      | inl (at, same) ↦
          ap pin_count same
          ∙ m.pins
          ∙ v.counted f x m.at_frame
          ∙ ap (λ i. pins_of i s.backends) (sym at)
      | inr (ne, old) ↦ v.counted g y old
    ];
    alone = v.alone;
  }
