-- ===== src/Bytes.antt =====
-- Byte strings and pages (crates/storage/src/lib.rs), and the little-endian numbers in them.
-- A page is the byte at each index; a slice that leaves the page is a panic.
pub mod Slices
pub mod Words
use chili_db.Prelude.{
  ℕ, zero, suc, ◌+◌, ◌-◌, ◌*◌, ◌/◌, ◌%◌, ◌≤◌, ◌<◌, ◌≡◌, Bool, true, false, ◌&&◌, List, [], ◌∷◌, ltb,
  leb, ◌==◌, if◌then◌else◌, length, get_or, Result, ok, panic, ◌>>=◌, ◌>>◌, assert,
}

abbrev pub Bytes : Type 0
Bytes = List ℕ

abbrev pub bytes_eq : Bytes → Bytes → Bool
bytes_eq [] [] = true
bytes_eq (x ∷ xs) [] = false
bytes_eq [] (y ∷ ys) = false
bytes_eq (x ∷ xs) (y ∷ ys) = x == y && bytes_eq xs ys

abbrev pub page_size : ℕ
page_size = 8192

-- `[u8; PAGE_SIZE]`
abbrev pub Page : Type 0
Page = ℕ → ℕ

abbrev pub IsByte : ℕ → Type 0
IsByte b = b < 256

abbrev pub zeros : Page
zeros i = 0

-- The bytes of a page as they are read and written, before the range check.
abbrev pub bytes_at : Page → ℕ → ℕ → Bytes
bytes_at p at zero = []
bytes_at p at (suc n) = p at ∷ bytes_at p (suc at) n

unfoldable pub overwrite : Page → ℕ → Bytes → Page
overwrite p at bs i = if leb at i && ltb i (at + length bs) then get_or bs (i - at) 0 else p i

-- `&page[at..at + len]`
unfoldable pub read_slice {ℓ} : {E : Type ℓ} → Page → ℕ → ℕ → Result E Bytes
read_slice p at len = do assert (leb (at + len) page_size); ok (bytes_at p at len)

-- `page[at..at + bytes.len()].copy_from_slice(bytes)`
unfoldable pub write_slice {ℓ} : {E : Type ℓ} → Page → ℕ → Bytes → Result E Page
write_slice p at bs = do assert (leb (at + length bs) page_size); ok (overwrite p at bs)

-- `to_le_bytes` of a u16 and of a u32
abbrev pub u16_bytes : ℕ → Bytes
u16_bytes n = n % 256 ∷ n / 256 % 256 ∷ []

abbrev pub u32_bytes : ℕ → Bytes
u32_bytes n = n % 256 ∷ n / 256 % 256 ∷ n / 65536 % 256 ∷ n / 16777216 % 256 ∷ []

-- `from_le_bytes`
abbrev pub u16_of : ℕ → ℕ → ℕ
u16_of a b = a + 256 * b

abbrev pub u32_of : ℕ → ℕ → ℕ → ℕ → ℕ
u32_of a b c d = a + 256 * b + 65536 * c + 16777216 * d
