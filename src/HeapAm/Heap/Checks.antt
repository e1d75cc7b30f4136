-- ===== src/HeapAm/Heap/Checks.antt =====
-- The checks of crates/heapam/src/heap.rs on a page and on a tuple.
use chili_db.Prelude.{
  ℕ, ◌+◌, Bool, true, false, not, ◌||◌, List, Option, none, some, Result, ok, ltb, ◌==◌, length,
  get_elem?, guard, ◌>>=◌, ◌>>◌,
}
use chili_db.Bytes.{Bytes, Page}
use chili_db.HeapAm.Errors.{HeapError, corrupt, other_heap, chain_changed, invalid_tuple_size}
use chili_db.HeapAm.Page.{Header, validate, max_tuple_size}

abbrev same_page : Option ℕ → Option ℕ → Bool
same_page none none = true
same_page (some a) (some b) = a == b
same_page a b = false

unfoldable pub checked_header : ℕ → List ℕ → ℕ → Page → Result HeapError Header
checked_header head pages index page = do
  (header, used) ← validate page
  guard (header.owner == head) (corrupt other_heap)
  guard (same_page header.next (get_elem? pages (index + 1))) (corrupt chain_changed)
  ok header

unfoldable pub validate_tuple : Bytes → Result HeapError (Unit {0})
validate_tuple bytes =
    guard (not (length bytes == 0 || ltb max_tuple_size (length bytes)))
      (invalid_tuple_size (length bytes) max_tuple_size)
