-- ===== src/HeapAm/Heap.antt =====
-- crates/heapam/src/heap.rs: a heap of linked pages behind a buffer pool, and its scans.
pub mod Checks
pub mod Scan
mod Tests
use chili_db.Prelude.{
  ℕ, zero, suc, ◌+◌, ◌-◌, Bool, true, false, not, ◌||◌, List, [], ◌∷◌, ◌++◌, Option, none, some,
  Result, ok, err, panic, ltb, ◌==◌, if◌then◌else◌, length, get_elem?, guard,
}
use chili_db.HeapAm.Heap.Checks.{checked_header, validate_tuple}
use chili_db.Prelude.Methods.{Method, pure, inspect, lift, assign, resume, ◌>>=◌, ◌>>◌}
use chili_db.Bytes.{Bytes, Page}
use chili_db.Ctid.{Ctid}
use chili_db.HeapAm.Errors.{
  HeapError, corrupt, other_heap, chain_changed, no_room_on_new_page, scan_page_disappeared,
  directory_shrank, buffer, invalid_ctid, no_space, poisoned, invalid_tuple_size,
}
use chili_db.HeapAm.Page.{Header, validate, initialize, max_tuple_size}
use chili_db.HeapAm.Page.Ops
use chili_db.Storage.Store.{PageStore}
use chili_db.Storage.Pool.{BufferError, Pool, Pin, VictimStrategy}
use chili_db.Storage.Pool.PageTable
use chili_db.Storage.Pool.PageTable.{Table, lookup}
use chili_db.Storage.Pool.Ops.{read, write, drop_pin, pin, new_page}

-- `HeapTable` with its `State`, and the pool that it shares; `is_poisoned` is the flag of its mutex.
-- A panic in a callback ends the run, and is not recorded in that flag.
pub record HeapTable (S K : Type 0) : Type 0 where
  pub pool : Pool S K
  pub head : ℕ
  pub pages : List ℕ
  pub indices : Table
  pub is_poisoned : Bool

abbrev from_pool : {A : Type 0} → Result BufferError A → Result HeapError A
from_pool (ok a) = ok a
from_pool (err e) = err (buffer e)
from_pool panic = panic

-- A callback of a pin: it may fail, and its panic is the pin's.
abbrev outcome : {A : Type 0} → Result HeapError A → Option (Result HeapError A)
outcome (ok a) = some (ok a)
outcome (err e) = some (err e)
outcome panic = none

abbrev callback : {A : Type 0} → Method Page HeapError A → Page → Page × Option (Result HeapError A)
callback f page = let (page', r) = f page in (page', outcome r)

module _ {S K : Type 0} where
  abbrev on_pool :
      {A : Type 0} → Method (Pool S K) BufferError A → Method (HeapTable S K) HeapError A
  on_pool call h = let (p, r) = call h.pool in (record h { pool = p }, from_pool r)

  -- `pin.write(..)??` and `pin.read(..)??`, and the pin dropped at the end of its scope.
  abbrev write_pinned :
      {A : Type 0} → Pin → Method Page HeapError A → Method (HeapTable S K) HeapError A
  write_pinned held f = do r ← on_pool (write held (callback f)); lift r

  abbrev pub read_pinned :
      {A : Type 0} → Pin → (Page → Result HeapError A) → Method (HeapTable S K) HeapError A
  read_pinned held f = do r ← on_pool (read held (λ page. outcome (f page))); lift r

  abbrev and_dropped :
      {A : Type 0} → Pin → HeapTable S K × Result HeapError A → HeapTable S K × Result HeapError A
  and_dropped held (h, r) = resume (λ _. lift r) (on_pool (drop_pin held) h)

  abbrev pub lock_state : Method (HeapTable S K) HeapError (Unit {0})
  lock_state = inspect (λ h. guard (not h.is_poisoned) poisoned)

  module _ (store : PageStore S) (policy : VictimStrategy K) where
    abbrev pub with_pinned :
        {A : Type 0}
        → ℕ
        → (Pin → Method (HeapTable S K) HeapError A)
        → Method (HeapTable S K) HeapError A
    with_pinned id body = do
      held ← on_pool (pin store policy id)
      (λ h. and_dropped held (body held h))

    abbrev with_new_page :
        {A : Type 0}
        → (Pin → Method (HeapTable S K) HeapError A)
        → Method (HeapTable S K) HeapError A
    with_new_page body = do
      held ← on_pool (new_page store policy)
      (λ h. and_dropped held (body held h))

    -- `self.checked_header(page, index, &state)` inside a callback.
    abbrev pub header_of : HeapTable S K → ℕ → Page → Result HeapError Header
    header_of h index page = checked_header h.head h.pages index page

    -- `state.indices.get(..)`, or this error
    abbrev pub or_error : HeapError → Option ℕ → Result HeapError ℕ
    or_error e none = err e
    or_error e (some index) = ok index

    abbrev index_of : Ctid → HeapTable S K → Result HeapError ℕ
    index_of ctid h = or_error (invalid_ctid ctid) (lookup ctid.page_id h.indices)

    unfoldable pub get : Ctid → Method (HeapTable S K) HeapError (Option Bytes)
    get ctid = do
      lock_state
      index ← inspect (index_of ctid)
      with_pinned ctid.page_id (λ held h.
          read_pinned held
            (λ page.
              let (page', r) =
                (do header ← inspect (header_of h index); Ops.get ctid.slot_id) page in
              r)
            h)

    unfoldable pub delete : Ctid → Method (HeapTable S K) HeapError Bool
    delete ctid = do
      lock_state
      index ← inspect (index_of ctid)
      with_pinned ctid.page_id (λ held h.
          write_pinned held (do header ← inspect (header_of h index); Ops.delete ctid.slot_id) h)

    abbrev replaced : Bool → Method Page HeapError Bool
    replaced true = pure true
    replaced false = lift (err no_space)

    abbrev if_live : Option Bytes → Method Page HeapError Bool → Method Page HeapError Bool
    if_live none change = pure false
    if_live (some bytes) change = change

    unfoldable pub replace : Ctid → Bytes → Method (HeapTable S K) HeapError Bool
    replace ctid bytes = do
      lift (validate_tuple bytes)
      lock_state
      index ← inspect (index_of ctid)
      with_pinned ctid.page_id (λ held h.
          write_pinned held
            (do
              header ← inspect (header_of h index)
              old ← Ops.get ctid.slot_id
              if_live old (Ops.replace ctid.slot_id bytes >>= replaced))
            h)

    -- The callbacks of `insert` on a new page and on the old tail.
    abbrev or_no_room : Option ℕ → Method Page HeapError ℕ
    or_no_room none = lift (err (corrupt no_room_on_new_page))
    or_no_room (some slot_id) = pure slot_id

    abbrev initialized : ℕ → Method Page HeapError (Unit {0})
    initialized owner = do p ← inspect (λ page. initialize page owner); assign p

    abbrev link_page : ℕ → ℕ → Bytes → Method (HeapTable S K) HeapError Ctid
    link_page index tail bytes = do
      (page, slot_id) ← with_new_page (λ held h.
          (do
            slot_id ← write_pinned held (initialized h.head >> (Ops.insert bytes >>= or_no_room))
            pure (held.page, slot_id))
            h)
      with_pinned tail (λ held h.
          write_pinned held (do header ← inspect (header_of h index); Ops.set_next (some page)) h)
      (λ h. (
        record h {
          pages = h.pages ++ page ∷ [];
          indices = PageTable.insert page (length h.pages) h.indices;
        },
        ok tt,
      ))
      pure (record { page_id = page; slot_id = slot_id })

    abbrev appended : ℕ → ℕ → Bytes → Option ℕ → Method (HeapTable S K) HeapError Ctid
    appended index tail bytes (some slot_id) = pure (record { page_id = tail; slot_id = slot_id })
    appended index tail bytes none = link_page index tail bytes

    -- The list of pages is never empty; an index outside it is a panic.
    abbrev page_at : List ℕ → ℕ → Result HeapError ℕ
    page_at [] index = panic
    page_at (page ∷ pages) zero = ok page
    page_at (page ∷ pages) (suc index) = page_at pages index

    unfoldable pub insert : Bytes → Method (HeapTable S K) HeapError Ctid
    insert bytes = do
      lift (validate_tuple bytes)
      lock_state
      index ← inspect (λ h. if length h.pages == 0 then panic else ok (length h.pages - 1))
      tail ← inspect (λ h. page_at h.pages index)
      slot ← with_pinned tail (λ held h.
          write_pinned held (do header ← inspect (header_of h index); Ops.insert bytes) h)
      appended index tail bytes slot

    -- `create`: if it fails there is no table, and of the state only the pool has a meaning.
    unfoldable pub create : Pool S K → HeapTable S K × Result HeapError ℕ
    create buffers =
        (do
          head ←
              with_new_page
                (λ held h. (do write_pinned held (initialized held.page); pure held.page) h)
          (λ h. (record h { head = head; pages = head ∷ []; indices = (head, 0) ∷ [] }, ok head)))
          (record { pool = buffers; head = 0; pages = []; indices = []; is_poisoned = false })
