-- ===== src/Storage/Store/Files/Tests.antt =====
-- Runs of the file-backed store on a file that is its length alone.
use chili_db.Prelude.{ℕ, ◌≡◌, refl, ok, err}
use chili_db.Prelude.Methods.{Ensures}
use chili_db.Bytes.{zeros}
use chili_db.Storage.Store.{unallocated, unaligned}
use chili_db.Storage.Store.Files.{
  FileOps, FileLaws, page_count, page_offset, allocate_page, InFile, Grown, page_offset-InFile,
  allocate_page-Grown,
}

abbrev lengths : FileOps ℕ
lengths = record {
  metadata_len = λ n. (n, ok n);
  set_len = λ m n. (m, ok tt);
  read_exact = λ at n. (n, ok zeros);
  write_all = λ at bytes n. (n, ok tt);
  sync_all = λ n. (n, ok tt);
}

abbrev len : ℕ → ℕ
len n = n

lengths-FileLaws : FileLaws lengths len
lengths-FileLaws = record { measures = λ n. (refl, refl); extends = λ m n. refl }

grows : allocate_page lengths 16384 ≡ (24576, ok 2)
unfolding allocate_page page_count
grows = refl

refuses_unaligned : allocate_page lengths 100 ≡ (100, err unaligned)
unfolding allocate_page page_count
refuses_unaligned = refl

refuses_unallocated : page_offset lengths 2 16384 ≡ (16384, err (unallocated 2))
unfolding page_offset page_count
refuses_unallocated = refl

page_offset-InFile_example :
    Ensures
      (InFile lengths len lengths-FileLaws 16384 1)
      (λ n. n ≡ 16384)
      (page_offset lengths 1 16384)
page_offset-InFile_example = page_offset-InFile lengths len lengths-FileLaws 16384 1

allocate_page-Grown_example :
    Ensures (Grown lengths len lengths-FileLaws 16384) (λ n. Unit {0}) (allocate_page lengths 16384)
allocate_page-Grown_example = allocate_page-Grown lengths len lengths-FileLaws 16384
