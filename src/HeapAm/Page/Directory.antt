-- ===== src/HeapAm/Page/Directory.antt =====
-- The slot directory of a page as plain functions: what each slot says and holds.
use chili_db.Prelude.{
  ℕ, zero, suc, ◌+◌, ◌≤◌, ◌<◌, ◌≡◌, ◌⊎◌, Option, none, some, ◌==◌, if◌then◌else◌, length,
}
use chili_db.Bytes.{Bytes, Page, page_size, bytes_at}
use chili_db.HeapAm.Page.{Header, u16_at, slot_at, header_at}

abbrev pub offset_at : Page → ℕ → ℕ
offset_at p i = u16_at p (slot_at i)

abbrev pub len_at : Page → ℕ → ℕ
len_at p i = u16_at p (slot_at i + 2)

abbrev pub upper_at : Page → ℕ
upper_at p = u16_at p 22

-- The tuple of a slot, `none` for a deleted one.
unfoldable pub content : Page → ℕ → Option Bytes
content p i = if len_at p i == 0 then none else some (bytes_at p (offset_at p i) (len_at p i))

abbrev pub size : Option Bytes → ℕ
size none = 0
size (some tuple) = length tuple

abbrev pub sum_to : (ℕ → ℕ) → ℕ → ℕ
sum_to f zero = 0
sum_to f (suc n) = sum_to f n + f n

-- A slot is deleted, or its tuple lies between `upper` and the end of the page.
abbrev pub SlotOk : Page → ℕ → Type 0
SlotOk p i =
    ((offset_at p i ≡ 0) × (len_at p i ≡ 0))
    ⊎ ((0 < len_at p i) × (upper_at p ≤ offset_at p i) × (offset_at p i + len_at p i ≤ page_size))

pub record IsValid (p : Page) (h : Header) (used : ℕ) : Type 0 where
  pub header : h ≡ header_at p
  pub lower : slot_at h.slots ≤ upper_at p
  pub upper : upper_at p ≤ page_size
  pub slots : (i : ℕ) → i < h.slots → SlotOk p i
  pub total : used ≡ sum_to (len_at p) h.slots
  pub fits : used + upper_at p ≤ page_size
