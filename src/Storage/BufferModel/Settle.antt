-- ===== src/Storage/BufferModel/Settle.antt =====
-- The end of a load: every waiter of the frame goes on, whether the page came or not.
use chili_db.Prelude.{
  ℕ, zero, suc, ◌+◌, ◌==◌, ◌≡◌, ◌≢◌, inl, inr, refl, ap, Bool, true, false, List, [], ◌∷◌, some,
  get_elem?, length, arith, Bool-cases,
}
use chili_db.Storage.BufferModel.{
  loading, ready, Backend, idle, miss, waiting, pinned, reading, writing,
}
use chili_db.Storage.BufferModel.Actions.{is_accessing}
use chili_db.Storage.BufferModel.Step.{settle, settle_all, joins, joined}
use chili_db.Storage.BufferModel.Invariant.{frame_of, InRange, Fits, pins_at, pins_of}

module _ (f : ℕ) (ok : Bool) where
  pub length-settle_all : (ks : List Backend) → length (settle_all f ok ks) ≡ length ks
  length-settle_all [] = refl
  length-settle_all (k ∷ ks) = ap suc (length-settle_all ks)

  pub settle_all-get :
      (ks : List Backend) (c : ℕ) (j : Backend)
      → get_elem? (settle_all f ok ks) c ≡ some j
      → (k : Backend) × (get_elem? ks c ≡ some k) × (j ≡ settle f ok k)
  settle_all-get [] c j h = cc
  settle_all-get (k ∷ ks) zero j h = (k, refl, cc)
  settle_all-get (k ∷ ks) (suc c) j h = settle_all-get ks c j h

  pub get_elem?-settle_all :
      (ks : List Backend) (c : ℕ) (k : Backend)
      → get_elem? ks c ≡ some k
      → get_elem? (settle_all f ok ks) c ≡ some (settle f ok k)
  get_elem?-settle_all [] c k h = cc
  get_elem?-settle_all (i ∷ ks) zero k h = let e : i ≡ k = cc in ap (λ j. some (settle f ok j)) e
  get_elem?-settle_all (i ∷ ks) (suc c) k h = get_elem?-settle_all ks c k h

  pub settle-InRange : (n : ℕ) (k : Backend) → InRange n k → InRange n (settle f ok k)
  settle-InRange n k h = settled ok k h
    where
      settled : (t : Bool) (j : Backend) → InRange n j → InRange n (settle f t j)
      settled true (waiting g p r) i = elim (Bool-cases (g == f)) [
        | inl e ↦ rw e tt
        | inr e ↦ rw e i
      ]
      settled false (waiting g p r) i = elim (Bool-cases (g == f)) [
        | inl e ↦ rw e i
        | inr e ↦ rw e i
      ]
      settled t idle i = tt
      settled t (Backend.request p r) i = i
      settled t (miss p r) i = i
      settled t (Backend.reserved g p r) i = i
      settled t (pinned g p) i = tt
      settled t (reading g p) i = tt
      settled t (writing g p) i = tt

  pub is_accessing-settle :
      (g : ℕ) (k : Backend) → is_accessing g (settle f ok k) ≡ is_accessing g k
  is_accessing-settle g k = ground arith

  pub settle-writing : (g p : ℕ) (k : Backend) → writing g p ≡ settle f ok k → k ≡ writing g p
  settle-writing g p k h = ground arith

  -- Who sits elsewhere afterwards sat there before, and has not changed.
  pub settle-ne :
      (g : ℕ) (k : Backend) → frame_of (settle f ok k) ≡ some g → g ≢ f → settle f ok k ≡ k
  settle-ne g k h ne = ground arith

  pub frame_of-settle :
      (g : ℕ) (k : Backend) → frame_of (settle f ok k) ≡ some g → frame_of k ≡ some g
  frame_of-settle g k h = ground arith

-- A user of the loading frame is a waiter.
pub Fits-settle :
    (f c p n : ℕ) (k : Backend) (io : Bool)
    → Fits c k (loading p io)
    → frame_of (settle f true k) ≡ some f
    → Fits c (settle f true k) (ready p n false)
Fits-settle f c p n (waiting g q r) io fits h = elim (Bool-cases (g == f)) [
  | inl e ↦ rw e fits
  | inr e ↦ absurd (ground arith)
]
Fits-settle f c p n idle io fits h = cc
Fits-settle f c p n (Backend.request q r) io fits h = cc
Fits-settle f c p n (miss q r) io fits h = cc
Fits-settle f c p n (Backend.reserved g q r) io fits h = absurd fits
Fits-settle f c p n (pinned g q) io fits h = absurd fits
Fits-settle f c p n (reading g q) io fits h = absurd fits
Fits-settle f c p n (writing g q) io fits h = absurd fits

pub Fits-failed :
    (f c p : ℕ) (k : Backend) (io : Bool)
    → Fits c k (loading p io)
    → frame_of (settle f false k) ≢ some f
Fits-failed f c p (waiting g q r) io fits h = elim (Bool-cases (g == f)) [
  | inl e ↦ ground arith
  | inr e ↦ ground arith
]
Fits-failed f c p idle io fits h = cc
Fits-failed f c p (Backend.request q r) io fits h = cc
Fits-failed f c p (miss q r) io fits h = cc
Fits-failed f c p (Backend.reserved g q r) io fits h = absurd fits
Fits-failed f c p (pinned g q) io fits h = absurd fits
Fits-failed f c p (reading g q) io fits h = absurd fits
Fits-failed f c p (writing g q) io fits h = absurd fits

-- What the loop counts is what it pins.
pins_at-settle : (f : ℕ) (k : Backend) → pins_at f (settle f true k) ≡ pins_at f k + joins f k
pins_at-settle f k = ground arith

pins_at-settle_ne : (f g : ℕ) (k : Backend) → g ≢ f → pins_at g (settle f true k) ≡ pins_at g k
pins_at-settle_ne f g k ne = ground arith

pins_at-failed : (f g : ℕ) (k : Backend) → pins_at g (settle f false k) ≡ pins_at g k
pins_at-failed f g k = ground arith

pub pins_of-settle_all :
    (f : ℕ) (ks : List Backend) → pins_of f (settle_all f true ks) ≡ pins_of f ks + joined f ks
unfolding pins_of joined
pins_of-settle_all f [] = omega arith
pins_of-settle_all f (k ∷ ks) = omega (arith, pins_at-settle f k, pins_of-settle_all f ks)

pub pins_of-settle_ne :
    (f g : ℕ) (ks : List Backend) → g ≢ f → pins_of g (settle_all f true ks) ≡ pins_of g ks
unfolding pins_of
pins_of-settle_ne f g [] ne = refl
pins_of-settle_ne f g (k ∷ ks) ne =
    omega (arith, pins_at-settle_ne f g k ne, pins_of-settle_ne f g ks ne)

pub pins_of-failed :
    (f g : ℕ) (ks : List Backend) → pins_of g (settle_all f false ks) ≡ pins_of g ks
unfolding pins_of
pins_of-failed f g [] = refl
pins_of-failed f g (k ∷ ks) = omega (arith, pins_at-failed f g k, pins_of-failed f g ks)
