-- ===== src/Storage/BufferModel/Invariant.antt =====
-- What links frames, backends and the page table of the protocol, and the state it starts in.
use chili_db.Prelude.{
  ℕ, zero, suc, ◌+◌, ◌<◌, ◌==◌, ◌≡◌, refl, sym, ap, subst, Bool, true, List, [], ◌∷◌, Option, none,
  some, if◌then◌else◌, length, get_elem?, arith,
}
use chili_db.Storage.BufferModel.{
  Frame, free, flushing, loading, ready, Backend, idle, miss, waiting, pinned, reading, writing,
  PinnedPage, pin, published, BufferModel, IsModel, State, replicate, init,
}
use chili_db.Storage.BufferModel.Actions.{is_accessing}

abbrev pub frame_of : Backend → Option ℕ
frame_of (Backend.reserved f p r) = some f
frame_of (waiting f p r) = some f
frame_of (pinned f p) = some f
frame_of (reading f p) = some f
frame_of (writing f p) = some f
frame_of idle = none
frame_of (Backend.request p r) = none
frame_of (miss p r) = none

-- The pages that a backend will look up are pages of the table.
abbrev pub InRange : ℕ → Backend → Type 0
InRange n (Backend.request p r) = p < n
InRange n (miss p r) = p < n
InRange n (Backend.reserved f p r) = p < n
InRange n (waiting f p r) = p < n
InRange n (pinned f p) = Unit
InRange n (reading f p) = Unit
InRange n (writing f p) = Unit
InRange n idle = Unit

-- The frame is kept for the backend and its page.
abbrev pub Owned : ℕ → ℕ → Frame → Type 0
Owned b p (Frame.reserved t o) = (t ≡ p) × (o ≡ b)
Owned b p (flushing q t o) = (t ≡ p) × (o ≡ b)
Owned b p free = ⊥
Owned b p (loading q io) = ⊥
Owned b p (ready q c d) = ⊥

abbrev pub Loads : ℕ → Frame → Type 0
Loads p (loading q io) = q ≡ p
Loads p free = ⊥
Loads p (Frame.reserved t o) = ⊥
Loads p (flushing q t o) = ⊥
Loads p (ready q c d) = ⊥

abbrev pub Shows : ℕ → Frame → Type 0
Shows p (ready q c d) = q ≡ p
Shows p free = ⊥
Shows p (Frame.reserved t o) = ⊥
Shows p (flushing q t o) = ⊥
Shows p (loading q io) = ⊥

-- What a backend needs of its frame.
abbrev pub Fits : ℕ → Backend → Frame → Type 0
Fits b (Backend.reserved f p r) x = Owned b p x
Fits b (waiting f p r) x = Loads p x
Fits b (pinned f p) x = Shows p x
Fits b (reading f p) x = Shows p x
Fits b (writing f p) x = Shows p x
Fits b idle x = Unit
Fits b (Backend.request p r) x = Unit
Fits b (miss p r) x = Unit

abbrev pub HasOwner : List Backend → ℕ → Frame → Type 0
HasOwner ks f (Frame.reserved t o) = (r : Bool) × (get_elem? ks o ≡ some (Backend.reserved f t r))
HasOwner ks f (flushing q t o) = (r : Bool) × (get_elem? ks o ≡ some (Backend.reserved f t r))
HasOwner ks f free = Unit
HasOwner ks f (loading q io) = Unit
HasOwner ks f (ready q c d) = Unit

abbrev pub pin_count : Frame → ℕ
pin_count (ready q c d) = c
pin_count free = 0
pin_count (Frame.reserved t o) = 0
pin_count (flushing q t o) = 0
pin_count (loading q io) = 0

abbrev pub pins_here : ℕ → Option PinnedPage → ℕ
pins_here f none = 0
pins_here f (some k) = if f == k.frame_id then 1 else 0

abbrev pub pins_at : ℕ → Backend → ℕ
pins_at f k = pins_here f (pin k)

unfoldable pub pins_of : ℕ → List Backend → ℕ
pins_of f [] = 0
pins_of f (k ∷ ks) = pins_at f k + pins_of f ks

pub record Inv (n : ℕ) (s : State) : Type 0 where
  pub pages : length s.page_table ≡ n
  pub some_frame : 0 < length s.frames
  pub some_backend : 0 < length s.backends
  pub known : (b : ℕ) (k : Backend) → get_elem? s.backends b ≡ some k → InRange n k
  pub seated :
      (b f : ℕ) (k : Backend)
      → get_elem? s.backends b ≡ some k
      → frame_of k ≡ some f
      → (x : Frame) × (get_elem? s.frames f ≡ some x) × Fits b k x
  pub owned : (f : ℕ) (x : Frame) → get_elem? s.frames f ≡ some x → HasOwner s.backends f x
  pub listed :
      (f p : ℕ) (x : Frame)
      → get_elem? s.frames f ≡ some x
      → published x ≡ some p
      → get_elem? s.page_table p ≡ some (some f)
  pub mapped :
      (p f : ℕ)
      → get_elem? s.page_table p ≡ some (some f)
      → (x : Frame) × (get_elem? s.frames f ≡ some x) × (published x ≡ some p)
  pub counted :
      (f : ℕ) (x : Frame) → get_elem? s.frames f ≡ some x → pin_count x ≡ pins_of f s.backends
  pub alone :
      (b c f p : ℕ) (k : Backend)
      → get_elem? s.backends b ≡ some (writing f p)
      → get_elem? s.backends c ≡ some k
      → is_accessing f k ≡ true
      → b ≡ c

pub length-replicate {ℓ} : {A : Type ℓ} (n : ℕ) (a : A) → length (replicate n a) ≡ n
length-replicate zero a = refl
length-replicate (suc n) a = ap suc (length-replicate n a)

pub get_elem?-replicate {ℓ} :
    {A : Type ℓ} (n i : ℕ) (a x : A) → get_elem? (replicate n a) i ≡ some x → x ≡ a
get_elem?-replicate zero i a x h = cc
get_elem?-replicate (suc n) zero a x h = cc
get_elem?-replicate (suc n) (suc i) a x h = get_elem?-replicate n i a x h

pub pins_of-idle : (f n : ℕ) → pins_of f (replicate n idle) ≡ 0
unfolding pins_of
pins_of-idle f zero = refl
pins_of-idle f (suc n) = omega (arith, pins_of-idle f n)

pub init-Inv : (m : BufferModel) → IsModel m → Inv m.page_count (init m)
init-Inv m h = record {
  pages = length-replicate m.page_count none;
  some_frame = rw (length-replicate m.frame_count free) h.some_frame;
  some_backend = rw (length-replicate m.backend_count idle) h.some_backend;
  known = λ b k h. subst (InRange m.page_count) (sym (get_elem?-replicate _ b idle k h)) tt;
  seated = λ b f k h e.
      let same : k ≡ idle = get_elem?-replicate _ b idle k h in absurd (none-seated f k same e);
  owned = λ f x h. subst (HasOwner _ f) (sym (get_elem?-replicate _ f free x h)) tt;
  listed = λ f p x h e.
      let same : x ≡ free = get_elem?-replicate _ f free x h in absurd (none-listed p x same e);
  mapped = λ p f h.
      let same : some f ≡ none = get_elem?-replicate _ p none (some f) h in
      absurd (none-some f same);
  counted = λ f x h.
      let same : x ≡ free = get_elem?-replicate _ f free x h in
      rw (pins_of-idle f m.backend_count) (subst (λ y. pin_count y ≡ 0) (sym same) refl);
  alone = λ b c f p k h j e.
      let same : writing f p ≡ idle = get_elem?-replicate _ b idle (writing f p) h in
      absurd (not-writing f p same);
}
  where
    none-seated : (f : ℕ) (k : Backend) → k ≡ idle → frame_of k ≡ some f → ⊥
    none-seated f k same e = ground arith

    none-listed : (p : ℕ) (x : Frame) → x ≡ free → published x ≡ some p → ⊥
    none-listed p x same e = ground arith

    none-some : (f : ℕ) → some f ≡ none → ⊥
    none-some f e = cc

    not-writing : (f p : ℕ) → writing f p ≡ idle → ⊥
    not-writing f p e = cc
