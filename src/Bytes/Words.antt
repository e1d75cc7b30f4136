-- ===== src/Bytes/Words.antt =====
-- Little-endian numbers, written and read.
use chili_db.Prelude.{[], ◌∷◌, refl, ℕ, ◌/◌, ◌%◌, ◌^◌, ◌<◌, ◌≡◌, arith}
use chili_db.Bytes.{u32_bytes, u16_of, u32_of, IsByte}

pub u16_of-bytes : (n : ℕ) → n < 2 ^ 16 → u16_of (n % 256) (n / 256 % 256) ≡ n
u16_of-bytes n h = omega arith

pub u32_of-bytes :
    (n : ℕ)
    → n < 2 ^ 32
    → u32_of (n % 256) (n / 256 % 256) (n / 65536 % 256) (n / 16777216 % 256) ≡ n
u32_of-bytes n h = omega arith

pub u32_of-lt : (a b c d : ℕ) → IsByte a → IsByte b → IsByte c → IsByte d → u32_of a b c d < 2 ^ 32
u32_of-lt a b c d ha hb hc hd = omega arith

pub u32_bytes-of :
    (a b c d : ℕ)
    → IsByte a
    → IsByte b
    → IsByte c
    → IsByte d
    → u32_bytes (u32_of a b c d) ≡ a ∷ b ∷ c ∷ d ∷ []
u32_bytes-of a b c d ha hb hc hd =
    let n = u32_of a b c d in
    let low : n % 256 ≡ a = omega arith in
    let second : n / 256 % 256 ≡ b = omega arith in
    let third : n / 65536 % 256 ≡ c = omega arith in
    let high : n / 16777216 % 256 ≡ d = omega arith in rw (low, second, third, high) refl
