-- ===== src/Storage/Store/Memory.antt =====
-- `MemoryPageStore` of crates/storage/src/store.rs.
use chili_db.Prelude.{
  ℕ, refl, sym, ap, subst, List, [], ◌∷◌, ◌++◌, Option, none, some, Result, ok, err, ltb, arith,
  if◌then◌else◌, length, get_elem?, set, Bool-cases, Option-cases, inl, inr, get_elem?-ge,
  get_elem?-append_last, get_elem?-append_ne, get_elem?-set_self, get_elem?-set_ne,
  get_elem?-eq-some,
}
use chili_db.Prelude.Methods.{Method}
use chili_db.Bytes.{Page, zeros}
use chili_db.Storage.Store.{
  IoError, unallocated, id_space_exhausted, PageStore, page_ids, Contract, Allocated, ReadBack,
  Written,
}

-- `Vec<Box<Page>>`
abbrev pub Pages : Type 0
Pages = List Page

unfoldable pub allocate_page : Method Pages IoError ℕ
allocate_page pages =
    let id = length pages in
    if ltb id page_ids then (pages ++ zeros ∷ [], ok id) else (pages, err id_space_exhausted)

unfoldable pub read_page : ℕ → Method Pages IoError Page
read_page id pages = elim (get_elem? pages id) [
  | none ↦ (pages, err (unallocated id))
  | some page ↦ (pages, ok page)
]

unfoldable pub write_page : ℕ → Page → Method Pages IoError (Unit {0})
write_page id bytes pages = elim (get_elem? pages id) [
  | none ↦ (pages, err (unallocated id))
  | some page ↦ (set pages id bytes, ok tt)
]

unfoldable pub sync : Method Pages IoError (Unit {0})
sync pages = (pages, ok tt)

abbrev pub memory_store : PageStore Pages
memory_store = record {
  allocate_page = allocate_page;
  read_page = read_page;
  write_page = write_page;
  sync = sync;
}

allocate_page-Allocated : (s : Pages) → Allocated get_elem? s (allocate_page s)
unfolding allocate_page
allocate_page-Allocated s = elim (Bool-cases (ltb (length s) page_ids)) [
  | inl h ↦ rw h (
    get_elem?-ge s (length s) (omega arith),
    get_elem?-append_last s zeros,
    (λ q ne. get_elem?-append_ne s zeros q ne),
    ground arith,
  )
  | inr h ↦ rw h (λ q. refl)
]

read_page-ReadBack : (id : ℕ) (s : Pages) → ReadBack get_elem? id s (read_page id s)
unfolding read_page
read_page-ReadBack id s =
    let answer : Option Page → Pages × Result IoError Page =
      λ o. elim o [ none ↦ (s, err (unallocated id)) | some page ↦ (s, ok page) ] in
    elim (Option-cases (get_elem? s id)) [
      | inl h ↦ subst (ReadBack get_elem? id s) (ap answer (sym h)) (λ q. refl)
      | inr (page, h) ↦ subst (ReadBack get_elem? id s) (ap answer (sym h)) (h, λ q. refl)
    ]

write_page-Written :
    (id : ℕ) (bytes : Page) (s : Pages) → Written get_elem? id bytes s (write_page id bytes s)
unfolding write_page
write_page-Written id bytes s =
    let answer : Option Page → Pages × Result IoError (Unit {0}) =
      λ o. elim o [ none ↦ (s, err (unallocated id)) | some page ↦ (set s id bytes, ok tt) ] in
    elim (Option-cases (get_elem? s id)) [
      | inl h ↦ subst (Written get_elem? id bytes s) (ap answer (sym h)) ((λ e. e), (λ q ne. refl))
      | inr (page, h) ↦ subst (Written get_elem? id bytes s) (ap answer (sym h)) (
        get_elem?-set_self s id bytes (get_elem?-eq-some s id h),
        (λ e. cc),
        (λ q ne. get_elem?-set_ne s id q bytes (λ e. ne (sym e))),
      )
    ]

pub memory_store-Contract : Contract get_elem? memory_store
unfolding sync
memory_store-Contract = record {
  allocates = allocate_page-Allocated;
  reads = read_page-ReadBack;
  writes = write_page-Written;
  syncs = λ s q. refl;
}
