-- ===== src/HeapAm/Page/Building.antt =====
-- The page under construction in `compact`: after some rounds, the first slots hold their contents.
use chili_db.Prelude.{
  ℕ, zero, suc, ◌+◌, ◌-◌, ◌≤◌, ◌<◌, ◌≡◌, ◌∙◌, ap, inl, inr, [], Option, none, some, ok, ◌==◌,
  if◌then◌else◌, length, get_or, arith, Bool-cases, below_suc,
}
use chili_db.Bytes.{Bytes, Page, page_size}
use chili_db.HeapAm.Page.{slot_at, place}
use chili_db.HeapAm.Page.Directory.{offset_at, len_at, size, sum_to}
use chili_db.HeapAm.Page.Placing.{placed, place_lem, placed_other, placed_tuple, placed-reads}

abbrev pub Contents : Type 0
Contents = ℕ → Option Bytes

-- The bytes that the first `i` tuples take.
abbrev pub sizes : Contents → ℕ → ℕ
sizes c = sum_to (λ m. size (c m))

abbrev pub tuple_of : Option Bytes → Bytes
tuple_of none = []
tuple_of (some tuple) = tuple

-- Tuples are laid down from the end of the page.
abbrev pub start : Contents → ℕ → ℕ
start c j = page_size - sizes c (suc j)

-- No tuple is empty, so a length of 0 marks a deleted slot.
abbrev pub IsSized : Option Bytes → Type 0
IsSized none = Unit {0}
IsSized (some tuple) = 0 < length tuple

pub record Entry (c : Contents) (r : Page) (j : ℕ) : Type 0 where
  pub len : len_at r j ≡ size (c j)
  pub offset : offset_at r j ≡ (if size (c j) == 0 then 0 else start c j)
  pub bytes :
      (k : ℕ)
      → start c j ≤ k
      → k < start c j + size (c j)
      → r k ≡ get_or (tuple_of (c j)) (k - start c j) 0

pub record Built (c : Contents) (base r : Page) (i upper : ℕ) : Type 0 where
  pub room : upper + sizes c i ≡ page_size
  pub head : (k : ℕ) → k < 20 → r k ≡ base k
  pub blank : (k : ℕ) → slot_at i ≤ k → k < upper → r k ≡ 0
  pub entry : (j : ℕ) → j < i → Entry c r j

pub sum_to_mono : (f : ℕ → ℕ) (i n : ℕ) → i ≤ n → sum_to f i ≤ sum_to f n
sum_to_mono f i zero h = let e : i ≡ 0 = omega arith in rw e (omega arith)
sum_to_mono f i (suc n) h = elim (Bool-cases (i == suc n)) [
  | inl e ↦ let e' : i ≡ suc n = ground arith in rw e' (omega arith)
  | inr ne ↦ let h' : i ≤ n = ground arith in omega (arith, sum_to_mono f i n h')
]

-- An entry depends on its directory bytes and its tuple bytes alone.
pub Entry-ext :
    (c : Contents) (r r' : Page) (j : ℕ)
    → ((k : ℕ) → slot_at j ≤ k → k < slot_at j + 4 → r' k ≡ r k)
    → ((k : ℕ) → start c j ≤ k → k < start c j + size (c j) → r' k ≡ r k)
    → Entry c r j
    → Entry c r' j
Entry-ext c r r' j same_slot same_tuple e = record {
  len = omega (
    arith,
    e.len,
    same_slot (slot_at j + 2) (omega arith) (omega arith),
    same_slot (slot_at j + 2 + 1) (omega arith) (omega arith),
  );
  offset = omega (
    arith,
    e.offset,
    same_slot (slot_at j) (omega arith) (omega arith),
    same_slot (slot_at j + 1) (omega arith) (omega arith),
  );
  bytes = λ k a b. same_tuple k a b ∙ e.bytes k a b;
}

module _ (c : Contents) (base r : Page) (i upper : ℕ) (b : Built c base r i upper)
    (fits : slot_at (suc i) + sizes c (suc i) ≤ page_size) where
  blank-Entry : c i ≡ none → Entry c r i
  blank-Entry e =
      let none_size : size (c i) ≡ 0 = ap size e in
      let free : slot_at (suc i) ≤ upper = omega (arith, b.room, none_size) in
      record {
        len = omega (
          arith,
          none_size,
          b.blank (slot_at i + 2) (omega arith) (omega arith),
          b.blank (slot_at i + 2 + 1) (omega arith) (omega arith),
        );
        offset = ground (
          arith,
          none_size,
          b.blank (slot_at i) (omega arith) (omega arith),
          b.blank (slot_at i + 1) (omega arith) (omega arith),
        );
        bytes = λ k a d. absurd (omega (arith, none_size));
      }

  pub skipped : c i ≡ none → Built c base r (suc i) upper
  skipped e =
      let none_size : size (c i) ≡ 0 = ap size e in
      record {
        room = omega (arith, b.room, none_size);
        head = b.head;
        blank = λ k a d. b.blank k (omega arith) d;
        entry = below_suc (Entry c r) i b.entry (blank-Entry e);
      }

  module _ (tuple : Bytes) (e : c i ≡ some tuple) (pos : 0 < length tuple) where
    abbrev pub placed_at : ℕ
    placed_at = upper - length tuple

    tuple_size : size (c i) ≡ length tuple
    tuple_size = ap size e

    at-eq-start : placed_at ≡ start c i
    at-eq-start = omega (arith, b.room, tuple_size)

    above : slot_at (suc i) ≤ placed_at
    above = omega (arith, b.room, tuple_size)

    room_left : placed_at + length tuple ≡ upper
    room_left = omega (arith, b.room, tuple_size)

    new-Entry : Entry c (placed r i placed_at tuple) i
    new-Entry =
        let (ho, hl) =
          placed-reads r i placed_at tuple (omega (arith, room_left, b.room))
            (omega (arith, room_left, b.room)) in
        record {
          len = omega (arith, hl, tuple_size);
          offset = ground (arith, ho, tuple_size, at-eq-start);
          bytes = λ k x y.
              placed_tuple r i placed_at tuple k (omega (arith, above)) (omega (arith, at-eq-start))
                (omega (arith, at-eq-start, tuple_size))
              ∙ cc (at-eq-start, ap tuple_of e);
        }

    old-Entry : (j : ℕ) → j < i → Entry c (placed r i placed_at tuple) j
    old-Entry j h =
        Entry-ext c r _ j
          (λ k x y. placed_other r i placed_at tuple k (omega arith) (omega (arith, above)))
          (λ k x y.
            let later : upper ≤ k =
              omega (arith, b.room, sum_to_mono (λ m. size (c m)) (suc j) i h) in
            placed_other r i placed_at tuple k (inr (omega (arith, above, room_left)))
              (inr (omega (arith, room_left))))
          (b.entry j h)

    pub laid_down :
        (place i (some tuple) (r, upper) ≡ ok (placed r i placed_at tuple, placed_at))
        × Built c base (placed r i placed_at tuple) (suc i) placed_at
        × ((k : ℕ) → k < 24 → placed r i placed_at tuple k ≡ r k)
    laid_down = (
      place_lem i tuple r upper (omega (arith, b.room)) (omega (arith, above, room_left)),
      record {
        room = omega (arith, b.room, room_left, tuple_size);
        head = λ k h.
            placed_other r i placed_at tuple k (omega arith) (omega (arith, above)) ∙ b.head k h;
        blank = λ k x y.
            placed_other r i placed_at tuple k (inr (omega arith)) (inl y)
            ∙ b.blank k (omega arith) (omega (arith, room_left));
        entry = below_suc (Entry c (placed r i placed_at tuple)) i old-Entry new-Entry;
      },
      λ k h. placed_other r i placed_at tuple k (inl (omega arith)) (inl (omega (arith, above))),
    )
