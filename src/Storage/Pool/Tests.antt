-- ===== src/Storage/Pool/Tests.antt =====
-- Runs of the buffer pool, and its theorems at a pool of one frame over two pages.
use chili_db.Prelude.{
  ℕ, ◌≡◌, refl, Bool, subst, true, false, [], ◌∷◌, none, some, ok, get_elem?, arith,
}
use chili_db.Prelude.Methods.{Ensures}
use chili_db.Bytes.{Page, zeros}
use chili_db.Storage.Clock.{Clock, access, load, sweep, victim}
use chili_db.Storage.Store.Memory.{
  Pages, memory_store, memory_store-Contract, read_page, write_page,
}
use chili_db.Storage.Pool.{Pool, Pin, with_strategy, validate_capacity}
use chili_db.Storage.Pool.PageTable.{lookup, insert, remove}
use chili_db.Storage.Pool.Ops.{
  check, install, read, write, drop_pin, resident_pin, loaded_pin, with_victim, flush_victim,
  load_page, pin, new_page, write_back, flush_page, flush_each, flush_all,
}
use chili_db.Storage.Pool.Ops
use chili_db.Storage.Pool.Cached.{IsPool, Still}
use chili_db.Storage.Pool.Opening.{
  clock_strategy, IsClockOf, clock_strategy-Policy, Opened, with_strategy-Opened,
}
use chili_db.Storage.Pool.Loading.{Pinned, pin-Pinned}
use chili_db.Storage.Pool.Creating.{Answer, new_page-Fresh}
use chili_db.Storage.Pool.Holding.{
  HasRead, HasWritten, Dropped, read-HasRead, write-HasWritten, drop_pin-Dropped,
}
use chili_db.Storage.Pool.FlushAll.{HasFlushed, flush_page-HasFlushed}
use chili_db.Storage.Pool.Syncing.{Durable, flush_all-Durable}

abbrev sevens : Page
sevens i = 7

abbrev eights : Page
eights i = 8

abbrev stored_pages : Pages
stored_pages = sevens ∷ zeros ∷ []

abbrev one_frame : Clock
one_frame = record { referenced = false ∷ []; hand = 0 }

abbrev used_frame : Clock
used_frame = record { referenced = true ∷ []; hand = 0 }

abbrev empty_pool : Pool Pages Clock
empty_pool = record {
  store = stored_pages;
  frames = record { bytes = zeros; tag = none; pins = 0; dirty = false; is_poisoned = false } ∷ [];
  pages = [];
  strategy = one_frame;
  is_poisoned = false;
}

with_strategy-Opened_example :
    Opened get_elem? IsClockOf 1 stored_pages (with_strategy 1 stored_pages one_frame)
with_strategy-Opened_example =
    with_strategy-Opened get_elem? IsClockOf 1 stored_pages one_frame
      (record { ids = omega arith; hand = omega arith }, refl)

empty_pool-IsPool : IsPool get_elem? IsClockOf empty_pool
unfolding with_strategy validate_capacity
empty_pool-IsPool =
    let (v, seen, n, lower, upper) =
      with_strategy-Opened get_elem? IsClockOf 1 stored_pages one_frame
        (record { ids = omega arith; hand = omega arith }, refl) in
    v

abbrev pool_of : Page → ℕ → Bool → Clock → Pool Pages Clock
pool_of bytes pins dirty clock = record {
  store = stored_pages;
  frames =
      record { bytes = bytes; tag = some 0; pins = pins; dirty = dirty; is_poisoned = false } ∷ [];
  pages = (0, 0) ∷ [];
  strategy = clock;
  is_poisoned = false;
}

abbrev held : Pin
held = record { index = 0; page = 0 }

-- Page 0 is loaded, written through its pin, and let go: the frame stays dirty.
abbrev loaded : Pool Pages Clock
loaded = pool_of sevens 1 false used_frame

abbrev rewritten : Pool Pages Clock
rewritten = pool_of eights 1 true used_frame

abbrev released : Pool Pages Clock
released = pool_of eights 0 true used_frame

abbrev to_eights : Page → Page × ℕ
to_eights bytes = (eights, bytes 0)

pin_loads : pin memory_store clock_strategy 0 empty_pool ≡ (loaded, ok held)
unfolding pin resident_pin load_page Ops.victim check with_victim flush_victim install loaded_pin
    lookup insert remove read_page load access
pin_loads = refl

loaded-Pinned :
    Pinned get_elem? IsClockOf memory_store clock_strategy memory_store-Contract
      clock_strategy-Policy empty_pool empty_pool-IsPool 0 held loaded
loaded-Pinned =
    subst
      (Ensures
        (Pinned get_elem? IsClockOf memory_store clock_strategy memory_store-Contract
          clock_strategy-Policy empty_pool empty_pool-IsPool 0)
        (Still get_elem? IsClockOf empty_pool))
      pin_loads
      (pin-Pinned get_elem? IsClockOf memory_store clock_strategy memory_store-Contract
        clock_strategy-Policy empty_pool empty_pool-IsPool 0)

loaded-IsPool : IsPool get_elem? IsClockOf loaded
loaded-IsPool = loaded-Pinned.pins.moves.valid

write_runs :
    write held (λ bytes. ((to_eights bytes).0, some (to_eights bytes).1)) loaded ≡ (rewritten, ok 7)
unfolding write check
write_runs = refl

write-HasWritten_example :
    Ensures
      (HasWritten get_elem? IsClockOf memory_store clock_strategy loaded loaded-IsPool held
        loaded-Pinned.pins.found to_eights)
      (Still get_elem? IsClockOf loaded)
      (write held (λ bytes. ((to_eights bytes).0, some (to_eights bytes).1)) loaded)
write-HasWritten_example =
    write-HasWritten get_elem? IsClockOf memory_store clock_strategy loaded loaded-IsPool held
      loaded-Pinned.pins.found to_eights

rewritten-IsPool : IsPool get_elem? IsClockOf rewritten
rewritten-IsPool =
    let (bytes, seen, e, m) =
      subst
        (Ensures
          (HasWritten get_elem? IsClockOf memory_store clock_strategy loaded loaded-IsPool held
            loaded-Pinned.pins.found to_eights)
          (Still get_elem? IsClockOf loaded))
        write_runs
        (write-HasWritten get_elem? IsClockOf memory_store clock_strategy loaded loaded-IsPool held
          loaded-Pinned.pins.found to_eights) in
    m.valid

resident : lookup 0 rewritten.pages ≡ some 0
unfolding lookup
resident = refl

read-HasRead_example :
    Ensures
      (HasRead get_elem? IsClockOf memory_store clock_strategy rewritten rewritten-IsPool held
        resident
        (λ bytes. bytes 5))
      (λ p. p ≡ rewritten)
      (read held (λ bytes. some (bytes 5)) rewritten)
read-HasRead_example =
    read-HasRead get_elem? IsClockOf memory_store clock_strategy rewritten rewritten-IsPool held
      resident (λ bytes. bytes 5)

drop_runs : drop_pin held rewritten ≡ (released, ok tt)
unfolding drop_pin
drop_runs = refl

drop_pin-Dropped_example :
    Ensures
      (λ u.
        Dropped get_elem? IsClockOf memory_store clock_strategy rewritten rewritten-IsPool held
          resident)
      (λ p. ⊥)
      (drop_pin held rewritten)
drop_pin-Dropped_example =
    drop_pin-Dropped get_elem? IsClockOf memory_store clock_strategy rewritten rewritten-IsPool held
      resident (omega arith)

released-IsPool : IsPool get_elem? IsClockOf released
released-IsPool =
    let dropped =
      subst
        (Ensures
          (λ u.
            Dropped get_elem? IsClockOf memory_store clock_strategy rewritten rewritten-IsPool held
              resident)
          (λ p. ⊥))
        drop_runs
        (drop_pin-Dropped get_elem? IsClockOf memory_store clock_strategy rewritten rewritten-IsPool
          held resident (omega arith)) in
    dropped.moves.valid

-- The dirty page 0 makes room for page 1, and is in the store.
dirty_page_is_written_back :
    let (p, r) = pin memory_store clock_strategy 1 released in get_elem? p.store 0 ≡ some eights
unfolding pin resident_pin load_page Ops.victim victim sweep check with_victim flush_victim install
    loaded_pin lookup insert remove read_page write_page load access
dirty_page_is_written_back = refl

pin-Pinned_example :
    Ensures
      (Pinned get_elem? IsClockOf memory_store clock_strategy memory_store-Contract
        clock_strategy-Policy released released-IsPool 1)
      (Still get_elem? IsClockOf released)
      (pin memory_store clock_strategy 1 released)
pin-Pinned_example =
    pin-Pinned get_elem? IsClockOf memory_store clock_strategy memory_store-Contract
      clock_strategy-Policy released released-IsPool 1

new_page-Fresh_example :
    Ensures
      (Answer get_elem? IsClockOf memory_store clock_strategy memory_store-Contract
        clock_strategy-Policy released released-IsPool)
      (Still get_elem? IsClockOf released)
      (new_page memory_store clock_strategy released)
new_page-Fresh_example =
    new_page-Fresh get_elem? IsClockOf memory_store clock_strategy memory_store-Contract
      clock_strategy-Policy released released-IsPool

flush_page-HasFlushed_example :
    Ensures
      (HasFlushed get_elem? IsClockOf memory_store clock_strategy memory_store-Contract
        clock_strategy-Policy released released-IsPool 0)
      (Still get_elem? IsClockOf released)
      (flush_page memory_store clock_strategy 0 released)
flush_page-HasFlushed_example =
    flush_page-HasFlushed get_elem? IsClockOf memory_store clock_strategy memory_store-Contract
      clock_strategy-Policy released released-IsPool 0

flush_all-Durable_example :
    Ensures
      (λ u.
        Durable get_elem? IsClockOf memory_store clock_strategy memory_store-Contract
          clock_strategy-Policy released)
      (Still get_elem? IsClockOf released)
      (flush_all memory_store clock_strategy released)
flush_all-Durable_example =
    flush_all-Durable get_elem? IsClockOf memory_store clock_strategy memory_store-Contract
      clock_strategy-Policy released released-IsPool
