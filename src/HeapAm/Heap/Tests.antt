-- ===== src/HeapAm/Heap/Tests.antt =====
-- Runs of the heap over a pool of one frame.
use chili_db.Prelude.{◌≡◌, refl, false, [], ◌∷◌, none, some, ok, err}
use chili_db.Prelude.Loops.{for_range}
use chili_db.Bytes.{write_slice, read_slice, overwrite}
use chili_db.HeapAm.Errors.{invalid_tuple_size}
use chili_db.HeapAm.Page.{
  put_u16, put_slot, slot, occupy, claim, validate_slot, validate, check_tuple, stored, tuple_for,
  place, compact_slot, compact_base, compact, initialize,
}
use chili_db.HeapAm.Page.Ops
use chili_db.HeapAm.Heap.{HeapTable, create, insert, get}
use chili_db.HeapAm.Heap.Scan.{HeapScan, scan, bounds_from, read_scan_page, next, next_from}
use chili_db.HeapAm.Heap.Checks.{checked_header, validate_tuple}
use chili_db.Storage.Clock.{Clock, access, load}
use chili_db.Storage.Store.Memory.{Pages, memory_store, allocate_page}
use chili_db.Storage.Pool.{Pool, unused}
use chili_db.Storage.Pool.PageTable
use chili_db.Storage.Pool.PageTable.{lookup, remove}
use chili_db.Storage.Pool.Ops as PoolOps
use chili_db.Storage.Pool.Opening.{clock_strategy}

abbrev empty_pool : Pool Pages Clock
empty_pool = record {
  store = [];
  frames = unused ∷ [];
  pages = [];
  strategy = record { referenced = false ∷ []; hand = 0 };
  is_poisoned = false;
}

abbrev table : HeapTable Pages Clock
table = (create memory_store clock_strategy empty_pool).0

oversized : (insert memory_store clock_strategy [] table).1 ≡ err (invalid_tuple_size 0 8164)
unfolding insert validate_tuple
oversized = refl

-- The first tuple gets slot 1 of page 0, and is read back through the pool.
reads_back :
    let (h, r) = insert memory_store clock_strategy (7 ∷ 8 ∷ []) table in
    (r ≡ ok (record { page_id = 0; slot_id = 1 }))
    × ((get memory_store clock_strategy (record { page_id = 0; slot_id = 1 }) h).1
        ≡ ok (some (7 ∷ 8 ∷ [])))
unfolding create insert get checked_header validate_tuple for_range write_slice overwrite read_slice
    put_u16 put_slot slot occupy claim validate_slot validate check_tuple stored tuple_for place
    compact_slot compact_base compact initialize Ops.insert Ops.get lookup remove PageTable.insert
    PoolOps.victim PoolOps.install PoolOps.read PoolOps.write PoolOps.drop_pin PoolOps.resident_pin
    PoolOps.loaded_pin PoolOps.with_victim PoolOps.flush_victim PoolOps.load_page PoolOps.pin
    PoolOps.new_page PoolOps.check access load allocate_page
reads_back = (refl, refl)

-- A scan yields the one row, and then ends.
scans :
    let (h, r) = insert memory_store clock_strategy (7 ∷ []) table in
    let it : HeapScan = record { pages = (0, 1) ∷ []; index = 0; rows = []; failed = false } in
    ((scan memory_store clock_strategy h).1 ≡ ok it)
    × (let (h', it', row) = next memory_store clock_strategy h it in
        let (h'', it'', after) = next memory_store clock_strategy h' it' in
        (row ≡ some (ok (record { page_id = 0; slot_id = 1 }, 7 ∷ []))) × (after ≡ none))
unfolding create insert get checked_header validate_tuple for_range write_slice overwrite read_slice
    put_u16 put_slot slot occupy claim validate_slot validate check_tuple stored tuple_for place
    compact_slot compact_base compact initialize Ops.insert Ops.get lookup remove PageTable.insert
    PoolOps.victim PoolOps.install PoolOps.read PoolOps.write PoolOps.drop_pin PoolOps.resident_pin
    PoolOps.loaded_pin PoolOps.with_victim PoolOps.flush_victim PoolOps.load_page PoolOps.pin
    PoolOps.new_page PoolOps.check access load allocate_page Ops.records Ops.rows_from Ops.add_row
    scan bounds_from read_scan_page next next_from
scans = (refl, (refl, refl))
