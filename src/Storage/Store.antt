-- ===== src/Storage/Store.antt =====
-- crates/storage/src/store.rs: the `PageStore` trait, its promise, and `MemoryPageStore`.
-- No operation panics while it holds the store's lock, so the lock is never poisoned.
pub mod Memory
pub mod Files
use chili_db.Prelude.{
  ℕ, zero, suc, ◌+◌, ◌^◌, ◌<◌, ◌≡◌, ◌≢◌, List, [], ◌∷◌, ◌++◌, Option, none, some, Result, ok, err,
  panic, ltb, if◌then◌else◌, length, get_elem?, set,
}
use chili_db.Prelude.Methods.{Method, Ensures}
use chili_db.Bytes.{Page, zeros}

-- The messages of store.rs, and an error of the operating system.
pub data IoError : Type 0 where
  unallocated : ℕ → IoError
  id_space_exhausted unaligned too_many_pages offset_overflow length_overflow : IoError
  system : ℕ → IoError

pub record PageStore (S : Type 0) : Type 0 where
  pub allocate_page : Method S IoError ℕ
  pub read_page : ℕ → Method S IoError Page
  pub write_page : ℕ → Page → Method S IoError (Unit {0})
  pub sync : Method S IoError (Unit {0})

abbrev pub page_ids : ℕ
page_ids = 2 ^ 32

-- What the trait promises, over the page behind each id: no operation panics. An operation that fails changes no page,
-- but for the page of a failed write, whose bytes may be anything.
module _ {S : Type 0} (contents : S → ℕ → Option Page) where
  abbrev pub Same : S → S → Type 0
  Same s s' = (q : ℕ) → contents s' q ≡ contents s q

  abbrev pub SameBut : ℕ → S → S → Type 0
  SameBut id s s' = (q : ℕ) → q ≢ id → contents s' q ≡ contents s q

  abbrev pub Allocated : S → S × Result IoError ℕ → Type 0
  Allocated s (s', ok id) =
      (contents s id ≡ none) × (contents s' id ≡ some zeros) × SameBut id s s' × (id < page_ids)
  Allocated s (s', err e) = Same s s'
  Allocated s (s', panic) = ⊥

  abbrev pub ReadBack : ℕ → S → S × Result IoError Page → Type 0
  ReadBack id s (s', ok bytes) = (contents s id ≡ some bytes) × Same s s'
  ReadBack id s (s', err e) = Same s s'
  ReadBack id s (s', panic) = ⊥

  abbrev pub Written : ℕ → Page → S → S × Result IoError (Unit {0}) → Type 0
  Written id bytes s (s', ok u) =
      (contents s' id ≡ some bytes) × (contents s id ≢ none) × SameBut id s s'
  Written id bytes s (s', err e) = (contents s' id ≡ none → contents s id ≡ none) × SameBut id s s'
  Written id bytes s (s', panic) = ⊥

  pub record Contract (store : PageStore S) : Type 0 where
    pub allocates : (s : S) → Allocated s (store.allocate_page s)
    pub reads : (id : ℕ) (s : S) → ReadBack id s (store.read_page id s)
    pub writes : (id : ℕ) (bytes : Page) (s : S) → Written id bytes s (store.write_page id bytes s)
    pub syncs : (s : S) → Ensures (λ u. Same s) (Same s) (store.sync s)
