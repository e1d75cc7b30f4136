-- ===== src/Storage/BufferModel/Patch.antt =====
-- One frame, one backend and the page table change in one step: what of the invariant is left to
-- show.
use chili_db.Prelude.{
  ℕ, zero, suc, ◌+◌, ◌==◌, ◌≡◌, ◌≢◌, inl, inr, refl, sym, ap, ◌∙◌, subst, Bool, true, false, List,
  [], ◌∷◌, Option, some, get_elem?, set, arith, set-cases, get_elem?-set_self, get_elem?-set_ne,
  get_elem?-eq-some, Bool-cases, length-set,
}
use chili_db.Storage.BufferModel.{
  Frame, free, flushing, loading, ready, Backend, idle, miss, waiting, pinned, reading, writing,
  published, Event, State,
}
use chili_db.Storage.BufferModel.Actions.{is_accessing}
use chili_db.Storage.BufferModel.Entries.{Entries}
use chili_db.Storage.BufferModel.Invariant.{
  frame_of, InRange, Fits, HasOwner, pin_count, pins_at, pins_of, Inv,
}

-- If the backend has a reservation, it is of this frame.
abbrev pub ReservedAt : ℕ → Backend → Type 0
ReservedAt f (Backend.reserved g p r) = g ≡ f
ReservedAt f idle = Unit
ReservedAt f (Backend.request p r) = Unit
ReservedAt f (miss p r) = Unit
ReservedAt f (waiting g p r) = Unit
ReservedAt f (pinned g p) = Unit
ReservedAt f (reading g p) = Unit
ReservedAt f (writing g p) = Unit

-- The reservation of the new frame is the new backend's.
abbrev pub Reserves : ℕ → ℕ → ℕ → Backend → Type 0
Reserves f t o k = (r : Bool) × (k ≡ Backend.reserved f t r)

abbrev pub OwnedBy : ℕ → ℕ → Frame → Backend → Type 0
OwnedBy f b (Frame.reserved t o) k = (o ≡ b) × Reserves f t o k
OwnedBy f b (flushing q t o) k = (o ≡ b) × Reserves f t o k
OwnedBy f b free k = Unit
OwnedBy f b (loading q io) k = Unit
OwnedBy f b (ready q c d) k = Unit

pub set-same {ℓ} :
    {A : Type ℓ} (xs : List A) (i : ℕ) (a : A) → get_elem? xs i ≡ some a → set xs i a ≡ xs
set-same [] i a h = refl
set-same (x ∷ xs) zero a h = let e : a ≡ x = cc in ap (λ y. y ∷ xs) e
set-same (x ∷ xs) (suc i) a h = ap (◌∷◌ x) (set-same xs i a h)

pub set-set {ℓ} : {A : Type ℓ} (xs : List A) (i : ℕ) (a b : A) → set (set xs i a) i b ≡ set xs i b
set-set [] i a b = refl
set-set (x ∷ xs) zero a b = refl
set-set (x ∷ xs) (suc i) a b = ap (◌∷◌ x) (set-set xs i a b)

pub pins_of-set :
    (f : ℕ) (ks : List Backend) (b : ℕ) (k k' : Backend)
    → get_elem? ks b ≡ some k
    → pins_of f (set ks b k') + pins_at f k ≡ pins_of f ks + pins_at f k'
unfolding pins_of
pins_of-set f [] b k k' h = cc
pins_of-set f (j ∷ ks) zero k k' h = let e : j ≡ k = cc in rw e (omega arith)
pins_of-set f (j ∷ ks) (suc b) k k' h = omega (arith, pins_of-set f ks b k k' h)

pub record Patch (n : ℕ) (s : State) (f b : ℕ) (x x' : Frame) (k k' : Backend)
    (table : List (Option ℕ)) : Type 0 where
  pub at_frame : get_elem? s.frames f ≡ some x
  pub at_backend : get_elem? s.backends b ≡ some k
  pub range : InRange n k'
  pub seat : (g : ℕ) → frame_of k' ≡ some g → (g ≡ f) × Fits b k' x'
  pub others :
      (c : ℕ) (j : Backend)
      → c ≢ b
      → get_elem? s.backends c ≡ some j
      → frame_of j ≡ some f
      → Fits c j x
      → Fits c j x'
  pub owner : OwnedBy f b x' k'
  pub holder : ReservedAt f k
  pub entries : Entries n s f x' table
  pub pins : pin_count x' + pins_at f k ≡ pin_count x + pins_at f k'
  pub elsewhere : (g : ℕ) → g ≢ f → pins_at g k ≡ pins_at g k'
  pub apart : (g : ℕ) → is_accessing g k' ≡ false

module _ (n : ℕ) (s : State) (f b : ℕ) (x x' : Frame) (k k' : Backend) (table : List (Option ℕ))
    (e : Event) (v : Inv n s) (m : Patch n s f b x x' k k' table) where
  patched : State
  patched = record {
    frames = set s.frames f x';
    backends = set s.backends b k';
    page_table = table;
    event = e;
  }

  frame_self : get_elem? (set s.frames f x') f ≡ some x'
  frame_self = get_elem?-set_self s.frames f x' (get_elem?-eq-some s.frames f m.at_frame)

  backend_self : get_elem? (set s.backends b k') b ≡ some k'
  backend_self = get_elem?-set_self s.backends b k' (get_elem?-eq-some s.backends b m.at_backend)

  frame_old :
      (g : ℕ) (y : Frame)
      → g ≢ f
      → get_elem? s.frames g ≡ some y
      → get_elem? (set s.frames f x') g ≡ some y
  frame_old g y ne h = get_elem?-set_ne s.frames f g x' (λ q. ne (sym q)) ∙ h

  known : (c : ℕ) (j : Backend) → get_elem? (set s.backends b k') c ≡ some j → InRange n j
  known c j h = elim (set-cases s.backends b c k' j h) [
    | inl (at, same) ↦ subst (InRange n) (sym same) m.range
    | inr (ne, old) ↦ v.known c j old
  ]

  seated_old :
      (c g : ℕ) (j : Backend)
      → c ≢ b
      → get_elem? s.backends c ≡ some j
      → frame_of j ≡ some g
      → (y : Frame) × (get_elem? (set s.frames f x') g ≡ some y) × Fits c j y
  seated_old c g j ne old of =
      let (y, at, fits) = v.seated c g j old of in
      elim (Bool-cases (g == f)) [
        | inl eq ↦
            let same : g ≡ f = ground arith in
            let was : x ≡ y = cc (m.at_frame) in
            (
              x',
              ap (get_elem? (set s.frames f x')) same ∙ frame_self,
              m.others c j ne old (of ∙ ap (λ i. some i) same) (subst (Fits c j) (sym was) fits),
            )
        | inr other ↦ (y, frame_old g y (ground arith) at, fits)
      ]

  seated :
      (c g : ℕ) (j : Backend)
      → get_elem? (set s.backends b k') c ≡ some j
      → frame_of j ≡ some g
      → (y : Frame) × (get_elem? (set s.frames f x') g ≡ some y) × Fits c j y
  seated c g j h of = elim (set-cases s.backends b c k' j h) [
    | inl (at, same) ↦
        let (here, fits) = m.seat g (ap frame_of (sym same) ∙ of) in
        (
          x',
          ap (get_elem? (set s.frames f x')) here ∙ frame_self,
          subst (λ i. Fits i j x') (sym at) (subst (λ i. Fits b i x') (sym same) fits),
        )
    | inr (ne, old) ↦ seated_old c g j ne old of
  ]

  -- A reservation of another frame stays: its backend is not the one that changes.
  reservation :
      (g t o : ℕ) (r : Bool)
      → g ≢ f
      → get_elem? s.backends o ≡ some (Backend.reserved g t r)
      → get_elem? (set s.backends b k') o ≡ some (Backend.reserved g t r)
  reservation g t o r ne h = elim (Bool-cases (o == b)) [
    | inl eq ↦
        let same : o ≡ b = ground arith in
        let was : k ≡ Backend.reserved g t r = cc (m.at_backend) in
        absurd (ne (subst (ReservedAt f) was m.holder))
    | inr other ↦ get_elem?-set_ne s.backends b o k' (ground arith) ∙ h
  ]

  owned_old :
      (g : ℕ) (y : Frame) → g ≢ f → HasOwner s.backends g y → HasOwner (set s.backends b k') g y
  owned_old g free ne h = tt
  owned_old g (Frame.reserved t o) ne (r, h) = (r, reservation g t o r ne h)
  owned_old g (flushing q t o) ne (r, h) = (r, reservation g t o r ne h)
  owned_old g (loading q io) ne h = tt
  owned_old g (ready q c d) ne h = tt

  owner_at :
      (t o : ℕ)
      → (o ≡ b) × Reserves f t o k'
      → (r : Bool) × (get_elem? (set s.backends b k') o ≡ some (Backend.reserved f t r))
  owner_at t o (same, (r, is)) =
      (r, ap (get_elem? (set s.backends b k')) same ∙ backend_self ∙ ap (λ i. some i) is)

  owned_new : (y : Frame) → OwnedBy f b y k' → HasOwner (set s.backends b k') f y
  owned_new free h = tt
  owned_new (Frame.reserved t o) h = owner_at t o h
  owned_new (flushing q t o) h = owner_at t o h
  owned_new (loading q io) h = tt
  owned_new (ready q c d) h = tt

  owned :
      (g : ℕ) (y : Frame)
      → get_elem? (set s.frames f x') g ≡ some y
      → HasOwner (set s.backends b k') g y
  owned g y h = elim (set-cases s.frames f g x' y h) [
    | inl (at, same) ↦
        subst (λ i. HasOwner (set s.backends b k') i y) (sym at)
          (subst (HasOwner (set s.backends b k') f) (sym same) (owned_new x' m.owner))
    | inr (ne, old) ↦ owned_old g y ne (v.owned g y old)
  ]

  listed :
      (g p : ℕ) (y : Frame)
      → get_elem? (set s.frames f x') g ≡ some y
      → published y ≡ some p
      → get_elem? table p ≡ some (some g)
  listed g p y h e = elim (set-cases s.frames f g x' y h) [
    | inl (at, same) ↦
        m.entries.entry p (ap published (sym same) ∙ e) ∙ ap (λ i. some (some i)) (sym at)
    | inr (ne, old) ↦ m.entries.keep p g ne (v.listed g p y old e)
  ]

  mapped :
      (p g : ℕ)
      → get_elem? table p ≡ some (some g)
      → (y : Frame) × (get_elem? (set s.frames f x') g ≡ some y) × (published y ≡ some p)
  mapped p g h = elim (m.entries.back p g h) [
    | inl (ne, old) ↦ let (y, at, is) = v.mapped p g old in (y, frame_old g y ne at, is)
    | inr (same, is) ↦ (x', ap (get_elem? (set s.frames f x')) same ∙ frame_self, is)
  ]

  counted :
      (g : ℕ) (y : Frame)
      → get_elem? (set s.frames f x') g ≡ some y
      → pin_count y ≡ pins_of g (set s.backends b k')
  counted g y h = elim (set-cases s.frames f g x' y h) [
    | inl (at, same) ↦
        let here : pin_count x' ≡ pins_of f (set s.backends b k') =
          omega (
            arith,
            pins_of-set f s.backends b k k' m.at_backend,
            m.pins,
            v.counted f x m.at_frame,
          ) in
        ap pin_count same ∙ here ∙ ap (λ i. pins_of i (set s.backends b k')) (sym at)
    | inr (ne, old) ↦
        omega
          (arith, pins_of-set g s.backends b k k' m.at_backend, m.elsewhere g ne, v.counted g y old)
  ]

  alone :
      (c d g p : ℕ) (j : Backend)
      → get_elem? (set s.backends b k') c ≡ some (writing g p)
      → get_elem? (set s.backends b k') d ≡ some j
      → is_accessing g j ≡ true
      → c ≡ d
  alone c d g p j h i acc = elim (set-cases s.backends b c k' (writing g p) h) [
    | inl (at, same) ↦ absurd (idle_here g p same)
    | inr (ne, old) ↦ elim (set-cases s.backends b d k' j i) [
      | inl (at, same) ↦ absurd (apart_here g j same acc)
      | inr (ne', old') ↦ v.alone c d g p j old old' acc
    ]
  ]
    where
      idle_here : (g p : ℕ) → writing g p ≡ k' → ⊥
      idle_here g p same =
          let acc : (g == g) ≡ false = ap (is_accessing g) same ∙ m.apart g in ground arith

      apart_here : (g : ℕ) (j : Backend) → j ≡ k' → is_accessing g j ≡ true → ⊥
      apart_here g j same acc = cc (ap (is_accessing g) same, m.apart g)

  pub patch-Inv : Inv n (record {
    frames = set s.frames f x';
    backends = set s.backends b k';
    page_table = table;
    event = e;
  })
  patch-Inv = record {
    pages = m.entries.sized;
    some_frame = rw (length-set s.frames f x') v.some_frame;
    some_backend = rw (length-set s.backends b k') v.some_backend;
    known = known;
    seated = seated;
    owned = owned;
    listed = listed;
    mapped = mapped;
    counted = counted;
    alone = alone;
  }
