-- ===== src/Bytes/Slices.antt =====
-- What a slice written into a page reads back as, inside it and beside it.
use chili_db.Prelude.{
  ℕ, zero, suc, ◌+◌, ◌-◌, ◌≤◌, ◌<◌, ◌≡◌, refl, ap, ap₂, ◌⊎◌, [], ◌∷◌, length, get_or, arith,
}
use chili_db.Bytes.{Bytes, Page, bytes_at, overwrite}

pub overwrite_in :
    (p : Page) (at : ℕ) (bs : Bytes) (i : ℕ)
    → at ≤ i
    → i < at + length bs
    → overwrite p at bs i ≡ get_or bs (i - at) 0
unfolding overwrite
overwrite_in p at bs i h k = ground arith

pub overwrite_out :
    (p : Page) (at : ℕ) (bs : Bytes) (i : ℕ)
    → (i < at) ⊎ (at + length bs ≤ i)
    → overwrite p at bs i ≡ p i
unfolding overwrite
overwrite_out p at bs i h = ground arith

pub length-bytes_at : (p : Page) (at n : ℕ) → length (bytes_at p at n) ≡ n
length-bytes_at p at zero = refl
length-bytes_at p at (suc n) = ap suc (length-bytes_at p (suc at) n)

-- A slice depends on its own bytes alone.
pub bytes_at_ext :
    (p q : Page) (at n : ℕ)
    → ((i : ℕ) → at ≤ i → i < at + n → p i ≡ q i)
    → bytes_at p at n ≡ bytes_at q at n
bytes_at_ext p q at zero h = refl
bytes_at_ext p q at (suc n) h =
    ap₂ ◌∷◌ (h at (omega arith) (omega arith))
      (bytes_at_ext p q (suc at) n (λ i a b. h i (omega arith) (omega arith)))

-- A slice that holds given bytes reads as them.
pub bytes_at_of :
    (p : Page) (at : ℕ) (bs : Bytes)
    → ((i : ℕ) → at ≤ i → i < at + length bs → p i ≡ get_or bs (i - at) 0)
    → bytes_at p at (length bs) ≡ bs
bytes_at_of p at [] h = refl
bytes_at_of p at (b ∷ bs) h = ap₂ ◌∷◌ (ground (arith, h at)) (bytes_at_of p (suc at) bs tail)
  where
    tail : (i : ℕ) → suc at ≤ i → i < suc at + length bs → p i ≡ get_or bs (i - suc at) 0
    tail i a c =
        let e : i - at ≡ suc (i - suc at) = omega arith in rw (h i (omega arith) (omega arith), e)
