-- ===== src/HeapAm/Page/View.antt =====
-- What a heap page promises: an owner, a successor and a growing list of slots, each with a tuple
-- or deleted. Slot ids are positions from 1 on, and only the space taken bounds the list.
use chili_db.Prelude.{
  ℕ, zero, suc, ◌+◌, ◌-◌, ◌*◌, Bool, true, false, ◌||◌, Option, none, some, List, [], ◌∷◌, ◌++◌,
  ltb, ◌==◌, if◌then◌else◌, length, get_or, set, Result, ok, err,
}
use chili_db.Bytes.{Bytes, page_size}
use chili_db.HeapAm.Errors.{HeapError, corrupt, invalid_tuple_size, scan_limit}
use chili_db.HeapAm.Page.{Header, max_tuple_size, header_size, slot_size}
use chili_db.HeapAm.Page.Directory.{size}

pub record View : Type 0 where
  pub owner : ℕ
  pub next : Option ℕ
  pub slots : List (Option Bytes)

abbrev pub total : List (Option Bytes) → ℕ
total [] = 0
total (x ∷ xs) = size x + total xs

abbrev pub header_of : View → Header
header_of v = record { owner = v.owner; next = v.next; slots = length v.slots }

-- The bytes taken by the header, `n` directory entries and the tuples.
abbrev pub taken : ℕ → List (Option Bytes) → ℕ
taken n xs = header_size + n * slot_size + total xs

abbrev pub slot_of : View → ℕ → Option Bytes
slot_of v id = get_or v.slots (id - 1) none

abbrev pub bad_size : Bytes → Bool
bad_size tuple = length tuple == 0 || ltb max_tuple_size (length tuple)

abbrev pub size_error : Bytes → HeapError
size_error tuple = invalid_tuple_size (length tuple) max_tuple_size

abbrev pub empty : ℕ → View
empty owner = record { owner = owner; next = none; slots = [] }

abbrev pub insert : Bytes → View → View × Result HeapError (Option ℕ)
insert tuple v =
    if bad_size tuple
    then (v, err (size_error tuple))
    else if ltb page_size (taken (length v.slots + 1) v.slots + length tuple)
    then (v, ok none)
    else (record v { slots = v.slots ++ some tuple ∷ [] }, ok (some (length v.slots + 1)))

abbrev pub get : ℕ → View → View × Result HeapError (Option Bytes)
get id v = (v, ok (if ltb (length v.slots) id then none else slot_of v id))

abbrev pub delete : ℕ → View → View × Result HeapError Bool
delete id v =
    if ltb (length v.slots) id || size (slot_of v id) == 0
    then (v, ok false)
    else (record v { slots = set v.slots (id - 1) none }, ok true)

abbrev pub replace : ℕ → Bytes → View → View × Result HeapError Bool
replace id tuple v =
    if bad_size tuple
    then (v, err (size_error tuple))
    else if ltb (length v.slots) id || size (slot_of v id) == 0
    then (v, ok false)
    else if ltb page_size (taken (length v.slots) v.slots - size (slot_of v id) + length tuple)
    then (v, ok false)
    else (record v { slots = set v.slots (id - 1) (some tuple) }, ok true)

abbrev pub set_next : Option ℕ → View → View × Result HeapError (Unit {0})
set_next next v = (record v { next = next }, ok tt)

-- The live slots among the first `limit`, each with its id; `index` slots stand before `xs`.
abbrev pub live_rows : ℕ → ℕ → List (Option Bytes) → List (ℕ × Bytes)
live_rows zero index xs = []
live_rows (suc n) index [] = []
live_rows (suc n) index (none ∷ xs) = live_rows n (suc index) xs
live_rows (suc n) index (some tuple ∷ xs) = (suc index, tuple) ∷ live_rows n (suc index) xs

abbrev pub records : ℕ → View → View × Result HeapError (List (ℕ × Bytes))
records limit v = (
  v,
  (if ltb (length v.slots) limit then err (corrupt scan_limit) else ok (live_rows limit 0 v.slots)),
)
