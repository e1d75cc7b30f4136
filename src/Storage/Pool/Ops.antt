-- ===== src/Storage/Pool/Ops.antt =====
-- The methods of `BufferPool` and `PinnedBuffer` (crates/storage/src/buffer.rs).
use chili_db.Prelude.{
  ℕ, ◌+◌, ◌-◌, ◌%◌, ◌^◌, Bool, true, false, not, ◌||◌, List, [], ◌∷◌, Option, none, some, Result,
  ok, err, panic, ltb, ◌==◌, if◌then◌else◌, length, get_elem?, set, guard, assert,
}
use chili_db.Prelude.Methods.{Method, pure, inspect, lift, resume, ◌>>=◌, ◌>>◌}
use chili_db.Bytes.{Page, zeros}
use chili_db.Storage.Store.{IoError, PageStore}
use chili_db.Storage.Pool.PageTable.{Table, lookup, remove, insert, keys, sorted}
use chili_db.Storage.Pool.{
  BufferError, all_pinned, poisoned, pin_overflow, invalid_victim, io, Frame, VictimStrategy, Pool,
  Pin,
}

-- `is_some_and(|desc| desc.pins.load(..) == 0)`
abbrev pub is_free : Option Frame → Bool
is_free none = false
is_free (some f) = f.pins == 0

abbrev pub can_evict : List Frame → ℕ → Bool
can_evict frames buffer = is_free (get_elem? frames buffer)

-- `&self.buffer_desc_array[index]`, an answer that a callback may fail to give
abbrev pub or_panic : {A : Type 0} → Option A → Result BufferError A
or_panic none = panic
or_panic (some a) = ok a

abbrev pub as_io : {A : Type 0} → Result IoError A → Result BufferError A
as_io (ok a) = ok a
as_io (err e) = err (io e)
as_io panic = panic

abbrev pub never : {A : Type 0} → Result ⊥ A → Result BufferError A
never (ok a) = ok a
never (err e) = panic
never panic = panic

-- The mapping without what the frame held.
abbrev pub kept : Option ℕ → Table → Table
kept none pages = pages
kept (some old) pages = remove old pages

-- A frame that held no page is the first one that is not in use.
abbrev pub is_next : Option ℕ → ℕ → Table → Bool
is_next none index pages = index == length pages
is_next (some old) index pages = true

module _ {S K : Type 0} where
  -- Calls on the store and on the strategy. A panic of theirs ends the run: the poison flags that
  -- unwinding sets are modelled for the callback of `write` alone.
  abbrev pub on_store : {A : Type 0} → Method S IoError A → Method (Pool S K) BufferError A
  on_store call p = let (s, r) = call p.store in (record p { store = s }, as_io r)

  abbrev pub on_strategy : {A : Type 0} → Method K ⊥ A → Method (Pool S K) BufferError A
  on_strategy call p = let (k, r) = call p.strategy in (record p { strategy = k }, never r)

  -- `self.state()?`
  abbrev pub lock_state : Method (Pool S K) BufferError (Unit {0})
  lock_state = inspect (λ p. guard (not p.is_poisoned) poisoned)

  abbrev pub frame : ℕ → Method (Pool S K) BufferError Frame
  frame index = inspect (λ p. or_panic (get_elem? p.frames index))

  abbrev pub put : ℕ → Frame → Method (Pool S K) BufferError (Unit {0})
  put index f p = (record p { frames = set p.frames index f }, ok tt)

  unfoldable pub check : ℕ → Method (Pool S K) BufferError (Unit {0})
  check index = do
    f ← frame index
    inspect (λ p. guard (not (p.is_poisoned || f.is_poisoned)) poisoned)

  -- `debug_assert_eq!(index, self.pages.len())`, and the two writes.
  unfoldable pub install : ℕ → ℕ → Frame → Method (Pool S K) BufferError (Unit {0})
  install index page f = do
    inspect (λ p. assert (is_next f.tag index p.pages))
    λ p. (
      record p {
        frames = set p.frames index (record f { tag = some page });
        pages = insert page index (kept f.tag p.pages);
      },
      ok tt,
    )

  -- The reading and the writing callback; one that panics answers `none`.
  unfoldable pub read : {A : Type 0} → Pin → (Page → Option A) → Method (Pool S K) BufferError A
  read pin callback = do
    f ← frame pin.index
    lift (guard (not f.is_poisoned) poisoned)
    check pin.index
    lift (or_panic (callback f.bytes))

  abbrev pub written : {A : Type 0} → ℕ → Frame → Page × Option A → Method (Pool S K) BufferError A
  written index f (bytes, some a) = do put index (record f { dirty = true; bytes = bytes }); pure a
  written index f (bytes, none) = do
    put index (record f { dirty = true; bytes = bytes; is_poisoned = true })
    lift panic

  unfoldable pub write :
      {A : Type 0} → Pin → (Page → Page × Option A) → Method (Pool S K) BufferError A
  write pin callback = do
    f ← frame pin.index
    lift (guard (not f.is_poisoned) poisoned)
    check pin.index
    written pin.index f (callback f.bytes)

  -- The count wraps at 32 bits; `debug_assert!(old > 0)`.
  unfoldable pub drop_pin : Pin → Method (Pool S K) BufferError (Unit {0})
  drop_pin pin = do
    f ← frame pin.index
    put pin.index (record f { pins = (f.pins + (2 ^ 32 - 1)) % 2 ^ 32 })
    lift (assert (ltb 0 f.pins))

  module _ (store : PageStore S) (policy : VictimStrategy K) where
    abbrev pub chosen : List Frame → Option ℕ → Result BufferError ℕ
    chosen frames none = err all_pinned
    chosen frames (some buffer) =
        if can_evict frames buffer then ok buffer else err (invalid_victim buffer)

    unfoldable pub victim : Method (Pool S K) BufferError ℕ
    victim p =
        let evicted =
          resume (λ choice. lift (chosen p.frames choice))
            (on_strategy (policy.victim (can_evict p.frames)) p) in
        if ltb (length p.pages) (length p.frames) then (p, ok (length p.pages)) else evicted

    -- `BufferId::new(index as u32)`
    abbrev pub pinned_buffer : ℕ → ℕ → Pin
    pinned_buffer index page = record { index = index % 2 ^ 32; page = page }

    abbrev pub accessed : Bool → Pin → Method (Pool S K) BufferError (Option Pin)
    accessed false pin = pure (some pin)
    accessed true pin = do on_strategy (policy.access pin.index); pure (some pin)

    abbrev pub pin_at : Bool → ℕ → ℕ → Method (Pool S K) BufferError (Option Pin)
    pin_at record_access page index = do
      f ← frame index
      lift (guard (ltb (f.pins + 1) (2 ^ 32)) pin_overflow)
      put index (record f { pins = f.pins + 1 })
      accessed record_access (pinned_buffer index page)

    abbrev pub pin_found : Bool → ℕ → Option ℕ → Method (Pool S K) BufferError (Option Pin)
    pin_found record_access page none = pure none
    pin_found record_access page (some index) = pin_at record_access page index

    unfoldable pub resident_pin : Bool → ℕ → Method (Pool S K) BufferError (Option Pin)
    resident_pin record_access page p = pin_found record_access page (lookup page p.pages) p

    unfoldable pub loaded_pin : ℕ → ℕ → Method (Pool S K) BufferError Pin
    loaded_pin index page = do
      on_strategy (policy.load (index % 2 ^ 32))
      pure (pinned_buffer index page)

    unfoldable pub with_victim :
        {A : Type 0}
        → ℕ
        → (Frame → Method (Pool S K) BufferError A)
        → Method (Pool S K) BufferError A
    with_victim index replace = do
      f ← frame index
      lift (assert (f.pins == 0))
      lift (guard (not f.is_poisoned) poisoned)
      check index
      replace f

    -- `if desc.dirty && let Some(page) = desc.page_id()`
    abbrev pub written_if : Option ℕ → Bool → Page → Method (Pool S K) BufferError (Unit {0})
    written_if (some page) true bytes = on_store (store.write_page page bytes)
    written_if (some page) false bytes = pure tt
    written_if none dirty bytes = pure tt

    unfoldable pub flush_victim : Frame → Method (Pool S K) BufferError (Unit {0})
    flush_victim f = written_if f.tag f.dirty f.bytes

    -- The stores to the frame, in the order of the code: its bytes, its tag, `dirty` and `pins`.
    abbrev pub publish : ℕ → ℕ → Page → Frame → Method (Pool S K) BufferError (Unit {0})
    publish index page bytes f =
        install index page (record f { bytes = bytes; dirty = false; pins = 1 })

    unfoldable pub load_page : ℕ → Method (Pool S K) BufferError Pin
    load_page page = do
      index ← victim
      check index
      incoming ← on_store (store.read_page page)
      with_victim index (λ f. flush_victim f >> publish index page incoming f)
      loaded_pin index page

    abbrev pub or_load : ℕ → Option Pin → Method (Pool S K) BufferError Pin
    or_load page (some held) = pure held
    or_load page none = load_page page

    unfoldable pub pin : ℕ → Method (Pool S K) BufferError Pin
    pin page = do lock_state; resident ← resident_pin true page; or_load page resident

    unfoldable pub new_page : Method (Pool S K) BufferError Pin
    new_page = do
      lock_state
      index ← victim
      check index
      page ← with_victim index (λ f.
          flush_victim f
          >> (do page ← on_store store.allocate_page; publish index page zeros f; pure page))
      loaded_pin index page

    -- The read latch is held to the end, and the pin is dropped on every path.
    abbrev pub clean_frame : Pin → Frame → Bool → Method (Pool S K) BufferError (Unit {0})
    clean_frame held f false = pure tt
    clean_frame held f true = do
      on_store (store.write_page held.page f.bytes)
      put held.index (record f { dirty = false })

    unfoldable pub write_back : Pin → Method (Pool S K) BufferError (Unit {0})
    write_back held = do
      f ← frame held.index
      lift (guard (not f.is_poisoned) poisoned)
      check held.index
      clean_frame held f f.dirty

    abbrev pub unpinned :
        {A : Type 0} → Pin → Pool S K × Result BufferError A → Pool S K × Result BufferError A
    unpinned held (p, r) = resume (λ _. lift r) (drop_pin held p)

    abbrev pub flushed : Option Pin → Method (Pool S K) BufferError Bool
    flushed none p = pure false p
    flushed (some held) p = unpinned held ((write_back held >> pure true) p)

    unfoldable pub flush_page : ℕ → Method (Pool S K) BufferError Bool
    flush_page page = do lock_state; resident ← resident_pin false page; flushed resident

    unfoldable pub flush_each : List ℕ → Method (Pool S K) BufferError (Unit {0})
    flush_each [] = pure tt
    flush_each (page ∷ pages) = do flushed ← flush_page page; flush_each pages

    unfoldable pub flush_all : Method (Pool S K) BufferError (Unit {0})
    flush_all = do
      lock_state
      pages ← inspect (λ p. ok (sorted (keys p.pages)))
      flush_each pages
      on_store store.sync
