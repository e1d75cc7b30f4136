-- ===== src/HeapAm/Page/Layout.antt =====
-- The pages that `HeapPage::validate` of crates/heapam/src/page.rs accepts, told byte by byte.
use chili_db.Prelude.{
  ℕ, zero, suc, ◌+◌, ◌*◌, ◌≤◌, ◌<◌, ◌≡◌, refl, ◌⊎◌, inl, inr, true, false, none, some, ok, err,
  arith, Bool-cases, panic, Decides,
}
use chili_db.Bytes.{Page}
use chili_db.HeapAm.Page.{Header, Occupied, R, mark, occupy}
use chili_db.HeapAm.Page.Directory.{sum_to}

-- The two numbers of a slot, and the end of the free space.
abbrev pub first : Page → ℕ → ℕ
first p i = p (24 + i * 4) + 256 * p (24 + i * 4 + 1)

abbrev pub extent : Page → ℕ → ℕ
extent p i = p (24 + i * 4 + 2) + 256 * p (24 + i * 4 + 3)

abbrev pub free_end : Page → ℕ
free_end p = p 22 + 256 * p 23

-- Byte `b` is one of the tuple of slot `i`.
abbrev pub In : Page → ℕ → ℕ → Type 0
In p i b = (first p i ≤ b) × (b < first p i + extent p i)

abbrev pub SlotFits : Page → ℕ → Type 0
SlotFits p i =
    ((first p i ≡ 0) × (extent p i ≡ 0))
    ⊎ ((0 < extent p i) × (free_end p ≤ first p i) × (first p i + extent p i ≤ 8192))

-- The first `n` slots fit, and no byte is in two of them.
pub record IsDirectory (p : Page) (n : ℕ) : Type 0 where
  pub fit : (i : ℕ) → i < n → SlotFits p i
  pub apart : (i j b : ℕ) → i < n → j < n → In p i b → In p j b → i ≡ j

abbrev pub HasMagic : Page → Type 0
HasMagic p =
    (p 0 ≡ 67)
    × (p 1 ≡ 72)
    × (p 2 ≡ 73)
    × (p 3 ≡ 76)
    × (p 4 ≡ 73)
    × (p 5 ≡ 72)
    × (p 6 ≡ 80)
    × (p 7 ≡ 49)

abbrev pub HasFlags : Page → Type 0
HasFlags p = (p 16 ≤ 1) × (p 17 ≡ 0) × (p 18 ≡ 0) × (p 19 ≡ 0)

pub record IsLayout (p : Page) (h : Header) (used : ℕ) : Type 0 where
  pub magic : HasMagic p
  pub flags : HasFlags p
  pub owner : h.owner ≡ p 8 + 256 * p 9 + 65536 * p 10 + 16777216 * p 11
  pub linked : p 16 ≡ 1 → h.next ≡ some (p 12 + 256 * p 13 + 65536 * p 14 + 16777216 * p 15)
  pub unlinked : p 16 ≡ 0 → h.next ≡ none
  pub slots : h.slots ≡ p 20 + 256 * p 21
  pub lower : 24 + h.slots * 4 ≤ free_end p
  pub upper : free_end p ≤ 8192
  pub directory : IsDirectory p h.slots
  pub total : used ≡ sum_to (extent p) h.slots

abbrev pub Refused : Page → Type 0
Refused p = (h : Header) (used : ℕ) → ¬ IsLayout p h used

-- Marking succeeds if no byte of the slot is marked, and then marks just these.
pub record Marked (len offset : ℕ) (old new : Occupied) : Type 0 where
  pub was_free : (b : ℕ) → offset ≤ b → b < offset + len → old b ≡ false
  pub now_marked : (b : ℕ) → offset ≤ b → b < offset + len → new b ≡ true
  pub kept : (b : ℕ) → (b < offset) ⊎ (offset + len ≤ b) → new b ≡ old b

abbrev pub Taken : ℕ → ℕ → Occupied → Type 0
Taken len offset old = (b : ℕ) × (offset ≤ b) × (b < offset + len) × (old b ≡ true)

pub occupy-Decides :
    (len offset : ℕ) (old : Occupied)
    → Decides (Marked len offset old) (Taken len offset old) (occupy len offset old)
unfolding occupy
occupy-Decides zero offset old = record {
  was_free = λ b h k. absurd (omega arith);
  now_marked = λ b h k. absurd (omega arith);
  kept = λ b h. refl;
}
occupy-Decides (suc len) offset old = elim (Bool-cases (old offset)) [
  | inl t ↦ rw t (offset, omega arith, omega arith, t)
  | inr f ↦ rw f (
      widen (occupy len (suc offset) (mark old offset)) f
        (occupy-Decides len (suc offset) (mark old offset)))
]
  where
    widen :
        (r : R Occupied)
        → old offset ≡ false
        → Decides
            (Marked len (suc offset) (mark old offset))
            (Taken len (suc offset) (mark old offset))
            r
        → Decides (Marked (suc len) offset old) (Taken (suc len) offset old) r
    widen (ok new) f m = record {
      was_free = λ b h k. ground (arith, f, m.was_free b);
      now_marked = λ b h k. ground (arith, m.now_marked b, m.kept b);
      kept = λ b h. ground (arith, m.kept b);
    }
    widen (err e) f (b, h, k, t) = (b, omega arith, omega arith, ground arith)
    widen panic f h = h
