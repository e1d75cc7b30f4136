-- ===== src/HeapAm/Page/Tests.antt =====
-- Runs of the page operations, and the theorems at concrete pages.
use chili_db.Prelude.{ℕ, ◌≡◌, refl, Option, none, some, true, List, [], ◌∷◌, ok, err, arith}
use chili_db.Prelude.Loops.{for_range}
use chili_db.Prelude.Methods.{◌>>=◌, ◌>>◌}
use chili_db.Bytes.{Bytes, Page, zeros, write_slice, read_slice, overwrite}
use chili_db.HeapAm.Errors.{corrupt, page_magic}
use chili_db.HeapAm.Page.{
  Header, initialize, put_u16, put_slot, slot, occupy, claim, validate_slot, validate, check_tuple,
  stored, tuple_for, place, compact_slot, compact_base, compact,
}
use chili_db.HeapAm.Page.Directory.{IsValid}
use chili_db.HeapAm.Page.Validity.{validate-IsValid}
use chili_db.HeapAm.Page.View
use chili_db.HeapAm.Page.View.{View}
use chili_db.HeapAm.Page.Holds.{Holds}
use chili_db.HeapAm.Page.Deciding.{Decided, validate-Decided}
use chili_db.HeapAm.Page.Inserting.{insert_refines}
use chili_db.HeapAm.Page.Changing.{delete_refines, replace_refines}
use chili_db.HeapAm.Page.Reading.{get_refines, records_refines, initialize_refines}
use chili_db.HeapAm.Page.Linking.{set_next_refines}
use chili_db.HeapAm.Page.Session.{
  Call, inserts, gets, deletes, scans, replaces, links, run, view_run, run_refines,
}
use chili_db.HeapAm.Page.Ops.{
  M, set_next, insert, get, delete, replace, records, rows_from, add_row,
}

start : M (Unit {0})
start p = elim (initialize p 7) [ ok q ↦ (q, ok tt) | _ ↦ (p, ok tt) ]

insert_twice : M (Option Bytes)
unfolding start
insert_twice = do start; _ ← insert (1 ∷ 2 ∷ []); _ ← insert (3 ∷ []); get 1

insert_twice_reads : (insert_twice zeros).1 ≡ ok (some (1 ∷ 2 ∷ []))
unfolding insert_twice insert get validate initialize put_u16 put_slot slot occupy claim
    validate_slot check_tuple stored tuple_for place compact_slot compact_base compact for_range
    write_slice read_slice overwrite
insert_twice_reads = refl

delete_keeps_ids : M (List (ℕ × Bytes))
unfolding start
delete_keeps_ids = do
  start
  _ ← insert (1 ∷ 2 ∷ [])
  _ ← insert (3 ∷ [])
  _ ← delete 1
  _ ← insert (4 ∷ [])
  records 3

delete_keeps_ids_rows : (delete_keeps_ids zeros).1 ≡ ok ((2, 3 ∷ []) ∷ (3, 4 ∷ []) ∷ [])
unfolding delete_keeps_ids insert delete records rows_from add_row validate initialize put_u16
    put_slot slot occupy claim validate_slot check_tuple stored tuple_for place compact_slot
    compact_base compact for_range write_slice read_slice overwrite
delete_keeps_ids_rows = refl

blank_page_refused : validate zeros ≡ err (corrupt page_magic)
unfolding validate
blank_page_refused = refl

fresh : (r : Page) × (initialize zeros 7 ≡ ok r) × Holds r (View.empty 7)
fresh = initialize_refines zeros 7 (omega arith)

initialize_refines_example : (r : Page) × (initialize zeros 7 ≡ ok r) × Holds r (View.empty 7)
initialize_refines_example = initialize_refines zeros 7 (omega arith)

abbrev one_tuple : View
one_tuple = record { owner = 7; next = none; slots = some (1 ∷ 2 ∷ []) ∷ [] }

page₁ : Page
page₁ = (insert (1 ∷ 2 ∷ []) fresh.0).0

page₁-Holds : Holds page₁ one_tuple
unfolding page₁
page₁-Holds = (insert_refines fresh.0 (View.empty 7) (1 ∷ 2 ∷ []) fresh.2).1

insert_refines_example :
    ((insert (3 ∷ []) page₁).1 ≡ ok (some 2))
    × Holds
        (insert (3 ∷ []) page₁).0
        (record one_tuple { slots = some (1 ∷ 2 ∷ []) ∷ some (3 ∷ []) ∷ [] })
insert_refines_example = insert_refines page₁ one_tuple (3 ∷ []) page₁-Holds

replace_refines_example :
    ((replace 1 (9 ∷ []) page₁).1 ≡ ok true)
    × Holds (replace 1 (9 ∷ []) page₁).0 (record one_tuple { slots = some (9 ∷ []) ∷ [] })
replace_refines_example = replace_refines page₁ one_tuple 1 (9 ∷ []) (omega arith) page₁-Holds

delete_refines_example :
    ((delete 1 page₁).1 ≡ ok true)
    × Holds (delete 1 page₁).0 (record one_tuple { slots = none ∷ [] })
delete_refines_example = delete_refines page₁ one_tuple 1 (omega arith) page₁-Holds

get_refines_example : get 1 page₁ ≡ (page₁, ok (some (1 ∷ 2 ∷ [])))
get_refines_example = get_refines page₁ one_tuple 1 (omega arith) page₁-Holds

records_refines_example : records 1 page₁ ≡ (page₁, ok ((1, 1 ∷ 2 ∷ []) ∷ []))
records_refines_example = records_refines page₁ one_tuple 1 page₁-Holds

set_next_refines_example :
    ((set_next (some 5) page₁).1 ≡ ok tt)
    × Holds (set_next (some 5) page₁).0 (record one_tuple { next = some 5 })
set_next_refines_example =
    set_next_refines page₁ one_tuple (some 5) (λ n e. ground arith) page₁-Holds

abbrev script : List Call
script = inserts (3 ∷ []) ∷ deletes 1 ∷ gets 1 ∷ replaces 2 (8 ∷ 8 ∷ []) ∷ links none ∷ scans 2 ∷ []

run_refines_example : run script page₁ ≡ view_run script one_tuple
run_refines_example =
    run_refines script page₁ one_tuple
      (tt, (omega arith, (omega arith, (omega arith, (λ n e. cc, (tt, tt)))))) page₁-Holds

-- A page written by hand: one slot, `{5}` at the end of the page.
abbrev raw_page : Page
raw_page =
    overwrite
      (overwrite
        (overwrite (overwrite zeros 0 (67 ∷ 72 ∷ 73 ∷ 76 ∷ 73 ∷ 72 ∷ 80 ∷ 49 ∷ [])) 8 (7 ∷ [])) 20
        (1 ∷ 0 ∷ 255 ∷ 31 ∷ 255 ∷ 31 ∷ 1 ∷ 0 ∷ []))
      8191 (5 ∷ [])

abbrev raw_header : Header
raw_header = record { owner = 7; next = none; slots = 1 }

raw_page_accepted : validate raw_page ≡ ok (raw_header, 1)
unfolding validate validate_slot slot claim occupy for_range overwrite
raw_page_accepted = refl

validate-IsValid_example : IsValid raw_page raw_header 1
validate-IsValid_example = validate-IsValid raw_page raw_header 1 raw_page_accepted

validate-Decided_example : Decided raw_page (validate raw_page)
validate-Decided_example = validate-Decided raw_page
