-- ===== src/HeapAm/Page/Holds.antt =====
-- When a page holds a view.
use chili_db.Prelude.{
  ℕ, zero, suc, ◌+◌, ◌^◌, ◌≤◌, ◌<◌, ◌≡◌, refl, ◌∙◌, ap, inl, inr, true, Option, none, some, List,
  [], ◌∷◌, ok, leb, ◌==◌, length, get_or, arith, Bool-cases,
}
use chili_db.Bytes.{Bytes, Page, page_size, read_slice}
use chili_db.Bytes.Slices.{length-bytes_at}
use chili_db.HeapAm.Page.{Header, slot_at, validate, stored}
use chili_db.HeapAm.Page.Directory.{offset_at, len_at, size, sum_to, content, IsValid}
use chili_db.HeapAm.Page.Building.{sizes, IsSized}
use chili_db.HeapAm.Page.Compaction.{Packed}
use chili_db.HeapAm.Page.Accepting.{slot_lem, validate-Packed, content-Packed}
use chili_db.HeapAm.Page.View.{View, total, header_of, taken}

pub record Holds (p : Page) (v : View) : Type 0 where
  pub valid : validate p ≡ ok (header_of v, total v.slots)
  pub slots : (i : ℕ) → i < length v.slots → content p i ≡ get_or v.slots i none
  pub owner : v.owner < 2 ^ 32
  pub next : (n : ℕ) → v.next ≡ some n → n < 2 ^ 32

-- The tuples of a view as `compact` is to lay them down.
abbrev pub contents : List (Option Bytes) → ℕ → Option Bytes
contents xs i = get_or xs i none

sum_to-suc : (f : ℕ → ℕ) (n : ℕ) → sum_to f (suc n) ≡ f 0 + sum_to (λ i. f (suc i)) n
sum_to-suc f zero = omega arith
sum_to-suc f (suc n) = omega (arith, sum_to-suc f n)

pub sizes-total : (xs : List (Option Bytes)) → sizes (contents xs) (length xs) ≡ total xs
sizes-total [] = refl
sizes-total (x ∷ xs) =
    sum_to-suc (λ m. size (contents (x ∷ xs) m)) (length xs) ∙ ap (λ n. size x + n) (sizes-total xs)

pub sum_to_ext : (f g : ℕ → ℕ) (n : ℕ) → ((i : ℕ) → i < n → f i ≡ g i) → sum_to f n ≡ sum_to g n
sum_to_ext f g zero h = refl
sum_to_ext f g (suc n) h =
    omega (arith, h n (omega arith), sum_to_ext f g n (λ i a. h i (omega arith)))

pub size-content : (p : Page) (i : ℕ) → size (content p i) ≡ len_at p i
unfolding content
size-content p i = elim (Bool-cases (len_at p i == 0)) [
  | inl z ↦ rw z (ground arith)
  | inr nz ↦ rw nz (length-bytes_at p (offset_at p i) (len_at p i))
]

pub content-IsSized : (p : Page) (i : ℕ) → IsSized (content p i)
unfolding content
content-IsSized p i = elim (Bool-cases (len_at p i == 0)) [
  | inl z ↦ rw z tt
  | inr nz ↦ rw (nz, length-bytes_at p (offset_at p i) (len_at p i)) (ground arith)
]

-- On a valid page `stored` reads the content of a slot, and neither fails nor panics.
pub stored-content :
    (p : Page) (h : Header) (used i : ℕ)
    → IsValid p h used
    → i < h.slots
    → stored p i ≡ ok (content p i)
unfolding stored content read_slice
stored-content p h used i v hi =
    let read = slot_lem p i (omega (arith, v.lower, v.upper)) in
    elim (Bool-cases (len_at p i == 0)) [
      | inl z ↦ rw (read, z) refl
      | inr nz ↦
          let inside : leb (offset_at p i + len_at p i) page_size ≡ true =
            ground (arith, v.slots i hi) in
          rw (read, nz, inside) refl
    ]

pub Packed-Holds :
    (v : View) (r : Page)
    → Packed (contents v.slots) (header_of v) r
    → ((i : ℕ) → i < length v.slots → IsSized (contents v.slots i))
    → taken (length v.slots) v.slots ≤ page_size
    → v.owner < 2 ^ 32
    → ((n : ℕ) → v.next ≡ some n → n < 2 ^ 32)
    → Holds r v
Packed-Holds v r packed sized fits ho hn =
    let t = sizes-total v.slots in
    let room : slot_at (length v.slots) + sizes (contents v.slots) (length v.slots) ≤ page_size =
      omega (arith, t, fits) in
    record {
      valid = rw (← t) (validate-Packed (contents v.slots) (header_of v) r packed room ho hn);
      slots = λ i h. content-Packed (contents v.slots) (header_of v) r packed room i h (sized i h);
      owner = ho;
      next = hn;
    }
