-- ===== src/HeapAm/Heap/Scan.antt =====
-- `HeapTable::scan` and the iterator `HeapScan` of crates/heapam/src/heap.rs.
use chili_db.Prelude.{
  ℕ, zero, suc, ◌+◌, ◌-◌, Bool, true, false, List, [], ◌∷◌, Option, none, some, Result, ok, err,
  panic, ltb, if◌then◌else◌, length, get_elem?,
}
use chili_db.Prelude.Methods.{Method, pure, inspect, lift, ◌>>=◌, ◌>>◌}
use chili_db.Bytes.{Bytes, Page}
use chili_db.Ctid.{Ctid}
use chili_db.HeapAm.Errors.{HeapError, corrupt, scan_page_disappeared, directory_shrank}
use chili_db.HeapAm.Page.Ops.{records}
use chili_db.HeapAm.Heap.{HeapTable, with_pinned, read_pinned, lock_state, header_of, or_error}
use chili_db.Storage.Store.{PageStore}
use chili_db.Storage.Pool.{VictimStrategy}
use chili_db.Storage.Pool.PageTable.{lookup}

abbrev pub Row : Type 0
Row = Ctid × Bytes

pub record HeapScan : Type 0 where
  pub pages : List (ℕ × ℕ)
  pub index : ℕ
  pub rows : List Row
  pub failed : Bool

abbrev rows_of : ℕ → List (ℕ × Bytes) → List Row
rows_of id [] = []
rows_of id ((slot_id, bytes) ∷ rest) =
    (record { page_id = id; slot_id = slot_id }, bytes) ∷ rows_of id rest

module _ {S K : Type 0} (store : PageStore S) (policy : VictimStrategy K) where
  -- The loop over `state.pages.iter().enumerate()`.
  unfoldable pub bounds_from : ℕ → List ℕ → Method (HeapTable S K) HeapError (List (ℕ × ℕ))
  bounds_from index [] = pure []
  bounds_from index (id ∷ ids) = do
    header ←
        with_pinned store policy id (λ held h. read_pinned held (header_of store policy h index) h)
    rest ← bounds_from (suc index) ids
    pure ((id, header.slots) ∷ rest)

  unfoldable pub scan : Method (HeapTable S K) HeapError HeapScan
  scan = do
    lock_state
    ids ← inspect (λ h. ok h.pages)
    pages ← bounds_from 0 ids
    pure (record { pages = pages; index = 0; rows = []; failed = false })

  -- The callback of `read_scan_page`.
  abbrev scanned : HeapTable S K → ℕ → ℕ → ℕ → Method Page HeapError (List Row)
  scanned h index id slots = do
    header ← inspect (header_of store policy h index)
    if ltb header.slots slots
        then lift (err (corrupt directory_shrank))
        else (do rows ← records slots; pure (rows_of id rows))

  unfoldable pub read_scan_page : ℕ → ℕ → Method (HeapTable S K) HeapError (List Row)
  read_scan_page id slots = do
    lock_state
    index ←
        inspect (λ h. or_error store policy (corrupt scan_page_disappeared) (lookup id h.indices))
    with_pinned store policy id
        (λ held h. read_pinned held (λ page. let (page', r) = scanned h index id slots page in r) h)

  -- The heap, the scan and the item: none at the end, a row, an error or a panic.
  abbrev Step : Type 0
  Step = HeapTable S K × HeapScan × Option (Result HeapError Row)

  abbrev read_or_failed :
      (HeapTable S K → HeapScan → Step)
      → HeapScan
      → HeapTable S K × Result HeapError (List Row)
      → Step
  read_or_failed next it (h, ok rows) = next h (record it { rows = rows })
  read_or_failed next it (h, err e) = (h, record it { failed = true }, some (err e))
  read_or_failed next it (h, panic) = (h, it, some panic)

  abbrev from_page :
      (HeapTable S K → HeapScan → Step) → HeapTable S K → HeapScan → Option (ℕ × ℕ) → Step
  from_page next h it none = (h, it, none)
  from_page next h it (some (id, slots)) =
      let it' : HeapScan = record it { index = it.index + 1 } in
      read_or_failed next it' (read_scan_page id slots h)

  abbrev row_or : (HeapScan → Step) → HeapTable S K → HeapScan → List Row → Step
  row_or otherwise h it [] = otherwise it
  row_or otherwise h it (row ∷ rows) = (h, record it { rows = rows }, some (ok row))

  -- The loop of `next`; the number counts the pages left, after which the index is out of range.
  unfoldable pub next_from : ℕ → HeapTable S K → HeapScan → Step
  next_from zero h it = row_or (λ it. (h, it, none)) h it it.rows
  next_from (suc n) h it =
      row_or (λ it. from_page (λ h' it'. next_from n h' it') h it (get_elem? it.pages it.index)) h
        it it.rows

  unfoldable pub next : HeapTable S K → HeapScan → Step
  next h it =
      let found = next_from (length it.pages - it.index) h it in
      if it.failed then (h, it, none) else found
