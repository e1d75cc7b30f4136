-- ===== src/Storage/Store/Files.antt =====
-- `FilePageStore` of crates/storage/src/store.rs, over a file of the operating system.
mod Tests
use chili_db.Prelude.{
  ℕ, ◌+◌, ◌*◌, ◌/◌, ◌%◌, ◌^◌, ◌≤◌, ◌<◌, ◌≡◌, refl, ◌∙◌, Bool, ltb, leb, ◌==◌, guard, arith,
}
use chili_db.Prelude.Methods.{
  Method, pure, lift, Ensures, resume-Ensures, guard-Ensures, ◌>>=◌, ◌>>◌,
}
use chili_db.Bytes.{Page, page_size}
use chili_db.Storage.Store.{
  IoError, unallocated, id_space_exhausted, unaligned, too_many_pages, offset_overflow,
  length_overflow, PageStore, page_ids,
}

-- What the code calls of `std::fs::File`; a seek and the transfer after it are one call.
pub record FileOps (F : Type 0) : Type 0 where
  pub metadata_len : Method F IoError ℕ
  pub set_len : ℕ → Method F IoError (Unit {0})
  pub read_exact : ℕ → Method F IoError Page
  pub write_all : ℕ → Page → Method F IoError (Unit {0})
  pub sync_all : Method F IoError (Unit {0})

-- `metadata` answers the length and changes nothing; `set_len` sets it if it succeeds.
pub record FileLaws {F : Type 0} (file : FileOps F) (len : F → ℕ) : Type 0 where
  pub measures :
      (f : F)
      → Ensures
          (λ n f'. (n ≡ len f) × (len f' ≡ len f))
          (λ f'. len f' ≡ len f)
          (file.metadata_len f)
  pub extends : (n : ℕ) (f : F) → Ensures (λ u f'. len f' ≡ n) (λ f'. Unit {0}) (file.set_len n f)

module _ {F : Type 0} (file : FileOps F) where
  unfoldable pub page_count : Method F IoError ℕ
  page_count = do
    length ← file.metadata_len
    lift (guard (length % page_size == 0) unaligned)
    lift (guard (leb (length / page_size) page_ids) too_many_pages)
    pure (length / page_size)

  -- `checked_mul` on a u64
  unfoldable pub page_offset : ℕ → Method F IoError ℕ
  page_offset id = do
    count ← page_count
    lift (guard (ltb id count) (unallocated id))
    lift (guard (ltb (id * page_size) (2 ^ 64)) offset_overflow)
    pure (id * page_size)

  unfoldable pub allocate_page : Method F IoError ℕ
  allocate_page = do
    count ← page_count
    lift (guard (ltb count page_ids) id_space_exhausted)
    lift (guard (ltb ((count + 1) * page_size) (2 ^ 64)) length_overflow)
    file.set_len ((count + 1) * page_size)
    pure count

  unfoldable pub read_page : ℕ → Method F IoError Page
  read_page id = do offset ← page_offset id; file.read_exact offset

  unfoldable pub write_page : ℕ → Page → Method F IoError (Unit {0})
  write_page id bytes = do offset ← page_offset id; file.write_all offset bytes

  abbrev pub file_store : PageStore F
  file_store = record {
    allocate_page = allocate_page;
    read_page = read_page;
    write_page = write_page;
    sync = file.sync_all;
  }

  module _ (len : F → ℕ) (law : FileLaws file len) (f : F) where
    abbrev Counted : ℕ → F → Type 0
    Counted n f' = (n * page_size ≡ len f) × (n ≤ page_ids) × (len f' ≡ len f)

    abbrev SameLength : F → Type 0
    SameLength f' = len f' ≡ len f

    page_count-Counted : Ensures Counted SameLength (page_count f)
    unfolding page_count
    page_count-Counted =
        resume-Ensures (λ n f'. (n ≡ len f) × (len f' ≡ len f)) SameLength Counted SameLength
          (λ n.
            lift (guard (n % page_size == 0) unaligned)
            >> (lift (guard (leb (n / page_size) page_ids) too_many_pages) >> pure (n / page_size)))
          (file.metadata_len f) (law.measures f)
          (λ n f' (at, same).
            guard-Ensures Counted SameLength (n % page_size == 0) unaligned
              (lift (guard (leb (n / page_size) page_ids) too_many_pages) >> pure (n / page_size))
              f' same
              (λ whole.
                guard-Ensures Counted SameLength (leb (n / page_size) page_ids) too_many_pages
                  (pure (n / page_size)) f' same (λ few. (ground arith, ground arith, same))))
          (λ f' same. same)

    abbrev pub InFile : ℕ → ℕ → F → Type 0
    InFile id offset f' =
        (offset ≡ id * page_size) × (offset + page_size ≤ len f) × (len f' ≡ len f)

    -- On a file that obeys the laws, the offset of a page leaves room for the page in the file, and
    -- neither an answer nor an error changes the length.
    pub page_offset-InFile : (id : ℕ) → Ensures (InFile id) SameLength (page_offset id f)
    unfolding page_offset
    page_offset-InFile id =
        resume-Ensures Counted SameLength (InFile id) SameLength
          (λ n.
            lift (guard (ltb id n) (unallocated id))
            >> (lift (guard (ltb (id * page_size) (2 ^ 64)) offset_overflow)
                >> pure (id * page_size)))
          (page_count f) page_count-Counted
          (λ n f' (at, few, same).
            guard-Ensures (InFile id) SameLength (ltb id n) (unallocated id)
              (lift (guard (ltb (id * page_size) (2 ^ 64)) offset_overflow)
                >> pure (id * page_size))
              f' same
              (λ below.
                guard-Ensures (InFile id) SameLength (ltb (id * page_size) (2 ^ 64)) offset_overflow
                  (pure (id * page_size)) f' same (λ small. (refl, ground arith, same))))
          (λ f' same. same)

    abbrev pub Grown : ℕ → F → Type 0
    Grown id f' = (id * page_size ≡ len f) × (len f' ≡ len f + page_size) × (id < page_ids)

    -- On a file that obeys the laws, a page that `allocate_page` gives out begins where the file
    -- ended, its id fits 32 bits, and the file is one page longer.
    pub allocate_page-Grown : Ensures Grown (λ f'. Unit {0}) (allocate_page f)
    unfolding allocate_page
    allocate_page-Grown =
        resume-Ensures Counted SameLength Grown (λ f'. Unit {0})
          (λ n.
            lift (guard (ltb n page_ids) id_space_exhausted)
            >> (lift (guard (ltb ((n + 1) * page_size) (2 ^ 64)) length_overflow)
                >> (file.set_len ((n + 1) * page_size) >> pure n)))
          (page_count f) page_count-Counted
          (λ n f' (at, few, same).
            guard-Ensures Grown (λ f'. Unit {0}) (ltb n page_ids) id_space_exhausted
              (lift (guard (ltb ((n + 1) * page_size) (2 ^ 64)) length_overflow)
                >> (file.set_len ((n + 1) * page_size) >> pure n))
              f' tt
              (λ below.
                guard-Ensures Grown (λ f'. Unit {0}) (ltb ((n + 1) * page_size) (2 ^ 64))
                  length_overflow (file.set_len ((n + 1) * page_size) >> pure n) f' tt
                  (λ small.
                    resume-Ensures (λ u f''. len f'' ≡ (n + 1) * page_size) (λ f''. Unit {0}) Grown
                      (λ f''. Unit {0}) (λ u. pure n) (file.set_len ((n + 1) * page_size) f')
                      (law.extends ((n + 1) * page_size) f')
                      (λ u f'' grown. (at, omega arith, ground arith)) (λ f'' e. tt))))
          (λ f' same. tt)
