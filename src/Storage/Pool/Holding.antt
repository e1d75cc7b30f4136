-- ===== src/Storage/Pool/Holding.antt =====
-- The methods of `PinnedBuffer` on a resident page: what a client sees of them.
use chili_db.Prelude.{
  ℕ, ◌+◌, ◌%◌, ◌^◌, ◌<◌, ◌≡◌, refl, sym, ap, ◌∙◌, subst, true, not, Option, some, ltb, get_elem?,
  set, ◌-◌, assert, lt→ltb, arith, guard,
}
use chili_db.Prelude.Methods.{Method, Ensures, resume, guard-Ensures, lift, ◌>>=◌, ◌>>◌}
use chili_db.Bytes.{Page}
use chili_db.Storage.Store.{PageStore}
use chili_db.Storage.Pool.{BufferError, Frame, VictimStrategy, Pool, Pin, poisoned}
use chili_db.Storage.Pool.PageTable.{lookup}
use chili_db.Storage.Pool.Ops.{check, put, read, write, written, drop_pin, frame, or_panic}
use chili_db.Storage.Pool.Cached.{
  pins_of, pins_at, bytes_at, view, shown, Clean, IsPool, Moves, Still, Still-refl, update,
  update-same, update-old, Moves-same,
}
use chili_db.Storage.Pool.Frames.{set-Moves}
use chili_db.Storage.Pool.Victims.{check-Ensures, frame-Ensures}

module _ {S K : Type 0} (contents : S → ℕ → Option Page) (IsStrategy : ℕ → K → Type 0)
    (store : PageStore S) (policy : VictimStrategy K) (p : Pool S K)
    (v : IsPool contents IsStrategy p) (held : Pin)
    (here : lookup held.page p.pages ≡ some held.index) where
  -- The frame of the pin.
  abbrev pub its_frame : Frame
  its_frame = let (f, at, tag, clean) = v.mapped held.page held.index here in f

  pub its_frame-at : get_elem? p.frames held.index ≡ some its_frame
  its_frame-at = let (f, at, tag, clean) = v.mapped held.page held.index here in at

  pub its_tag : its_frame.tag ≡ some held.page
  its_tag = let (f, at, tag, clean) = v.mapped held.page held.index here in tag

  pub its-Clean : Clean contents p.store held.page its_frame
  its-Clean = let (f, at, tag, clean) = v.mapped held.page held.index here in clean

  pub view-its_bytes : view contents p held.page ≡ some its_frame.bytes
  view-its_bytes = ap (shown contents p.store p.frames held.page) here ∙ ap bytes_at its_frame-at

  module _ {A : Type 0} where
    pub latched :
        (Q : A → Pool S K → Type 0) (F : Pool S K → Type 0)
        (m : Frame → Method (Pool S K) BufferError A)
        → F p
        → Ensures Q F (m its_frame p)
        → Ensures Q F (
            (frame held.index >>= λ f.
            lift (guard (not f.is_poisoned) poisoned) >> (check held.index >> m f))
              p)
    latched Q F m unchanged h =
        frame-Ensures contents IsStrategy store policy Q F p held.index its_frame its_frame-at
          unchanged (λ f. lift (guard (not f.is_poisoned) poisoned) >> (check held.index >> m f))
          (guard-Ensures Q F (not its_frame.is_poisoned) poisoned (check held.index >> m its_frame)
            p unchanged
            (λ e.
              check-Ensures contents IsStrategy store policy Q F p held.index its_frame its_frame-at
                unchanged (m its_frame) h))

    -- The answer of `read`: the callback's, on the bytes that are seen.
    abbrev pub HasRead : (Page → A) → A → Pool S K → Type 0
    HasRead f a p' =
        (bytes : Page) × (view contents p held.page ≡ some bytes) × (a ≡ f bytes) × (p' ≡ p)

    -- On a pool that meets its invariant, `read` on a pin of a resident page hands the callback
    -- the bytes of the page as a client sees it, answers what the callback does, and changes
    -- nothing, also when it fails. The callback does not panic.
    pub read-HasRead :
        (f : Page → A) → Ensures (HasRead f) (λ p'. p' ≡ p) (read held (λ bytes. some (f bytes)) p)
    unfolding read
    read-HasRead f =
        latched (HasRead f) (λ p'. p' ≡ p) (λ g. lift (or_panic (some (f g.bytes)))) refl
          (its_frame.bytes, view-its_bytes, refl, refl)

    -- The answer of `write`: the page is what the callback makes of the bytes that are seen.
    abbrev pub HasWritten : (Page → Page × A) → A → Pool S K → Type 0
    HasWritten f a p' =
        (bytes : Page) × (view contents p held.page ≡ some bytes)
        × (a ≡ (f bytes).1)
        × Moves contents IsStrategy (update (view contents p) held.page (some (f bytes).0))
            (pins_of p) p p'

    -- On a pool that meets its invariant, a successful `write` on a pin of a resident page makes
    -- the page what the callback makes of the bytes that a client sees, and leaves the other pages
    -- and the pin counts as they were. If it fails, nothing has changed. The callback does not
    -- panic.
    pub write-HasWritten :
        (f : Page → Page × A)
        → Ensures
            (HasWritten f)
            (Still contents IsStrategy p)
            (write held (λ bytes. ((f bytes).0, some (f bytes).1)) p)
    unfolding write
    write-HasWritten f =
        let f' : Frame = record its_frame { dirty = true; bytes = (f its_frame.bytes).0 } in
        let clean : Clean contents p.store held.page f' = ((λ e. cc), its-Clean.1) in
        let same_pins : (j : ℕ) → update (pins_of p) held.index its_frame.pins j ≡ pins_of p j =
          update-old (pins_of p) held.index its_frame.pins (sym (ap pins_at its_frame-at)) in
        let m =
          set-Moves contents IsStrategy p held.index held.page its_frame f' v here its_frame-at
            its_tag clean (v.counts held.index its_frame its_frame-at) in
        latched (HasWritten f) (Still contents IsStrategy p)
          (λ g. written held.index g ((f g.bytes).0, some (f g.bytes).1))
          (Still-refl contents IsStrategy p v)
          (
            its_frame.bytes,
            view-its_bytes,
            refl,
            Moves-same contents IsStrategy _
                (update (view contents p) held.page (some (f its_frame.bytes).0)) _ (pins_of p) p _
                (λ id. refl) same_pins m,
          )

  -- The answer of `drop`: one pin less, and nothing else.
  pub record Dropped (p' : Pool S K) : Type 0 where
    pub moves :
        Moves contents IsStrategy
          (view contents p)
          (update (pins_of p) held.index (pins_of p held.index - 1))
          p
          p'
    pub same_store : p'.store ≡ p.store

  -- On a pool that meets its invariant, dropping a pin of a resident page with a pin count above
  -- zero takes one from that count, does not wrap, and changes neither the store nor what a client
  -- sees.
  pub drop_pin-Dropped :
      0 < pins_of p held.index → Ensures (λ u. Dropped) (λ p'. ⊥) (drop_pin held p)
  unfolding drop_pin
  drop_pin-Dropped some_pin =
      let few = v.counts held.index its_frame its_frame-at in
      let count = ap pins_at its_frame-at in
      let f' : Frame = record its_frame { pins = (its_frame.pins + (2 ^ 32 - 1)) % 2 ^ 32 } in
      let less : f'.pins ≡ pins_of p held.index - 1 = omega arith in
      let m =
        set-Moves contents IsStrategy p held.index held.page its_frame f' v here its_frame-at
          its_tag its-Clean (omega arith) in
      let m' : Moves contents IsStrategy (view contents p)
          (update (pins_of p) held.index (pins_of p held.index - 1)) p
          (record p { frames = set p.frames held.index f' }) =
        Moves-same contents IsStrategy _ _ _ _ p _
          (update-old (view contents p) held.page (some its_frame.bytes) (sym view-its_bytes))
          (update-same (pins_of p) (pins_of p) held.index f'.pins (pins_of p held.index - 1)
            (λ j. refl) less)
          m in
      subst
        (λ o.
          Ensures (λ u. Dropped) (λ p'. ⊥)
            (resume
              (λ f.
                put held.index (record f { pins = (f.pins + (2 ^ 32 - 1)) % 2 ^ 32 })
                >> lift (assert (ltb 0 f.pins)))
              (p, or_panic o)))
        (sym its_frame-at)
        (rw (lt→ltb 0 its_frame.pins (omega arith)) (record { moves = m'; same_store = refl }))
