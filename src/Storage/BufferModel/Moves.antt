-- ===== src/Storage/BufferModel/Moves.antt =====
-- The steps that move one backend, or pin and unpin a frame, keep the invariant.
use chili_db.Prelude.{
  ℕ, suc, ◌+◌, ◌≡◌, ◌≢◌, refl, sym, ◌∙◌, Bool, false, some, get_elem?, set, arith,
}
use chili_db.Storage.BufferModel.{
  Frame, ready, Backend, idle, miss, waiting, pinned, reading, writing, Event, State,
}
use chili_db.Storage.BufferModel.Actions.{is_accessing}
use chili_db.Storage.BufferModel.Invariant.{frame_of, InRange, Fits, pins_at, Inv}
use chili_db.Storage.BufferModel.Entries.{same-Entries}
use chili_db.Storage.BufferModel.Patch.{ReservedAt, patch-Inv}
use chili_db.Storage.BufferModel.Turn.{turn-Inv}

-- A backend that looks for its page, and a frame that may be taken.
abbrev pub Loose : Backend → Type 0
Loose idle = Unit
Loose (Backend.request p r) = Unit
Loose (miss p r) = Unit
Loose (Backend.reserved f p r) = ⊥
Loose (waiting f p r) = Unit
Loose (pinned f p) = ⊥
Loose (reading f p) = ⊥
Loose (writing f p) = ⊥

Loose-unreserved : (k : Backend) → Loose k → (f t : ℕ) (r : Bool) → k ≢ Backend.reserved f t r
Loose-unreserved k h f t r e = ground arith

Loose-pins : (k : Backend) → Loose k → (f : ℕ) → pins_at f k ≡ 0
Loose-pins k h f = ground arith

Loose-apart : (k : Backend) → Loose k → (f : ℕ) → is_accessing f k ≡ false
Loose-apart k h f = ground arith

Loose-writing : (k : Backend) → Loose k → (f p : ℕ) → k ≢ writing f p
Loose-writing k h f p e = ground arith

Loose-ReservedAt : (k : Backend) → Loose k → (f : ℕ) → ReservedAt f k
Loose-ReservedAt idle h f = tt
Loose-ReservedAt (Backend.request p r) h f = tt
Loose-ReservedAt (miss p r) h f = tt
Loose-ReservedAt (waiting g p r) h f = tt
Loose-ReservedAt (Backend.reserved g p r) h f = absurd h
Loose-ReservedAt (pinned g p) h f = absurd h
Loose-ReservedAt (reading g p) h f = absurd h
Loose-ReservedAt (writing g p) h f = absurd h

-- Counts and the dirty bit do not matter to the users of a frame.
pub Fits-ready :
    (i : ℕ) (j : Backend) (p c c' : ℕ) (d d' : Bool)
    → Fits i j (ready p c d)
    → Fits i j (ready p c' d')
Fits-ready i idle p c c' d d' h = tt
Fits-ready i (Backend.request q r) p c c' d d' h = tt
Fits-ready i (miss q r) p c c' d d' h = tt
Fits-ready i (Backend.reserved g q r) p c c' d d' h = h
Fits-ready i (waiting g q r) p c c' d d' h = h
Fits-ready i (pinned g q) p c c' d d' h = h
Fits-ready i (reading g q) p c c' d d' h = h
Fits-ready i (writing g q) p c c' d d' h = h

module _ (n : ℕ) (s : State) (e : Event) (v : Inv n s) where
  -- One backend looks elsewhere.
  pub Loose-Inv :
      (b : ℕ) (k k' : Backend)
      → get_elem? s.backends b ≡ some k
      → Loose k
      → Loose k'
      → InRange n k'
      → ((f : ℕ)
          → frame_of k' ≡ some f
          → (x : Frame) × (get_elem? s.frames f ≡ some x) × Fits b k' x)
      → Inv n (record {
        frames = s.frames;
        backends = set s.backends b k';
        page_table = s.page_table;
        event = e;
      })
  Loose-Inv b k k' at was is range seat = turn-Inv n s b k k' e v (record {
    at_backend = at;
    range = range;
    seat = seat;
    unreserved = Loose-unreserved k was;
    pins = λ f. Loose-pins k was f ∙ sym (Loose-pins k' is f);
    writes = λ f p c j w h acc. absurd (Loose-writing k' is f p w);
    accesses = λ f p c acc h. cc (acc, Loose-apart k' is f);
  })

  -- `join` at a ready frame.
  pub pin-Inv :
      (b f p c : ℕ) (d : Bool) (k : Backend)
      → get_elem? s.backends b ≡ some k
      → Loose k
      → get_elem? s.frames f ≡ some (ready p c d)
      → Inv n (record {
        frames = set s.frames f (ready p (c + 1) d);
        backends = set s.backends b (pinned f p);
        page_table = s.page_table;
        event = e;
      })
  pin-Inv b f p c d k at was here =
      patch-Inv n s f b (ready p c d) (ready p (c + 1) d) k (pinned f p) s.page_table e v (record {
        at_frame = here;
        at_backend = at;
        range = tt;
        seat = λ g is. (ground arith, refl);
        others = λ i j ne old of fits. Fits-ready i j p c (c + 1) d d fits;
        owner = tt;
        holder = Loose-ReservedAt k was f;
        entries = same-Entries n s f (ready p c d) (ready p (c + 1) d) v here refl;
        pins = ground (arith, Loose-pins k was f);
        elsewhere = λ g ne. ground (arith, Loose-pins k was g);
        apart = λ g. refl;
      })

  -- `unpin`
  pub unpin-Inv :
      (b f p c : ℕ) (d : Bool)
      → get_elem? s.backends b ≡ some (pinned f p)
      → get_elem? s.frames f ≡ some (ready p (suc c) d)
      → Inv n (record {
        frames = set s.frames f (ready p c d);
        backends = set s.backends b idle;
        page_table = s.page_table;
        event = e;
      })
  unpin-Inv b f p c d at here =
      patch-Inv n s f b (ready p (suc c) d) (ready p c d) (pinned f p) idle s.page_table e v
        (record {
          at_frame = here;
          at_backend = at;
          range = tt;
          seat = λ g is. cc;
          others = λ i j ne old of fits. Fits-ready i j p (suc c) c d d fits;
          owner = tt;
          holder = tt;
          entries = same-Entries n s f (ready p (suc c) d) (ready p c d) v here refl;
          pins = ground arith;
          elsewhere = λ g ne. ground arith;
          apart = λ g. refl;
        })
