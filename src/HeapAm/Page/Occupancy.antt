-- ===== src/HeapAm/Page/Occupancy.antt =====
-- The bytes that `validate` marks: each slot marks as many as its length says, all of them new.
use chili_db.Prelude.{
  ℕ, zero, suc, ◌+◌, ◌≤◌, ◌<◌, ◌≡◌, refl, inl, inr, Bool, true, false, ok, arith, Bool-cases,
}
use chili_db.HeapAm.Page.{Occupied, mark, occupy}

abbrev one : Bool → ℕ
one true = 1
one false = 0

-- How many of the `n` bytes from `at` on are marked.
pub count : Occupied → ℕ → ℕ → ℕ
count occupied zero at = 0
count occupied (suc n) at = one (occupied at) + count occupied n (suc at)

pub count-le : (occupied : Occupied) (n at : ℕ) → count occupied n at ≤ n
unfolding count
count-le occupied zero at = omega arith
count-le occupied (suc n) at = ground (arith, count-le occupied n (suc at))

pub count_none : (n at : ℕ) → count (λ _. false) n at ≡ 0
unfolding count
count_none zero at = refl
count_none (suc n) at = ground (arith, count_none n (suc at))

count-mark_below :
    (occupied : Occupied) (n at i : ℕ) → i < at → count (mark occupied i) n at ≡ count occupied n at
unfolding count
count-mark_below occupied zero at i h = refl
count-mark_below occupied (suc n) at i h =
    ground (arith, count-mark_below occupied n (suc at) i (omega arith))

count-mark :
    (occupied : Occupied) (n at i : ℕ)
    → occupied i ≡ false
    → at ≤ i
    → i < at + n
    → count (mark occupied i) n at ≡ suc (count occupied n at)
unfolding count
count-mark occupied zero at i e h k = absurd (omega arith)
count-mark occupied (suc n) at i e h k =
    ground (arith, count-mark occupied n (suc at) i, count-mark_below occupied n (suc at) i)

pub count-occupy :
    (len offset : ℕ) (occupied occupied' : Occupied) (n at : ℕ)
    → occupy len offset occupied ≡ ok occupied'
    → at ≤ offset
    → offset + len ≤ at + n
    → count occupied' n at ≡ count occupied n at + len
unfolding occupy
count-occupy zero offset occupied occupied' n at e h k =
    let e' : occupied ≡ occupied' = cc in rw e' (omega arith)
count-occupy (suc len) offset occupied occupied' n at e h k = elim (Bool-cases (occupied offset)) [
  | inl t ↦ absurd (cc (e, t))
  | inr f ↦ omega (
    arith,
    count-mark occupied n at offset f h (omega arith),
    count-occupy len (suc offset) (mark occupied offset) occupied' n at (rw f at e) (omega arith)
        (omega arith),
  )
]

-- Marking succeeds where nothing is marked yet, and marks nothing below the slot.
pub occupy_free :
    (len offset : ℕ) (occupied : Occupied)
    → ((i : ℕ) → offset ≤ i → i < offset + len → occupied i ≡ false)
    → (occupied' : Occupied) × (occupy len offset occupied ≡ ok occupied')
      × ((i : ℕ) → i < offset → occupied' i ≡ occupied i)
unfolding occupy
occupy_free zero offset occupied free = (occupied, refl, λ i h. refl)
occupy_free (suc len) offset occupied free =
    let f : occupied offset ≡ false = free offset (omega arith) (omega arith) in
    let (o, e, keep) =
      occupy_free len (suc offset) (mark occupied offset) (λ i a b. still_free i a b) in
    (o, rw f e, λ i h. keep_below o keep i h)
  where
    still_free : (i : ℕ) → suc offset ≤ i → i < suc offset + len → mark occupied offset i ≡ false
    still_free i a b = ground (arith, free i)

    keep_below :
        (o : Occupied)
        → ((i : ℕ) → i < suc offset → o i ≡ mark occupied offset i)
        → (i : ℕ) → i < offset
        → o i ≡ occupied i
    keep_below o keep i h = ground (arith, keep i)
