-- ===== src/Catalog/Utf8.antt =====
-- Which byte strings `String::from_utf8` accepts: the well-formed sequences of the Unicode standard.
use chili_db.Prelude.{ℕ, zero, suc, Bool, true, false, ◌&&◌, [], ◌∷◌, leb, if◌then◌else◌}
use chili_db.Bytes.{Bytes}

abbrev within : ℕ → ℕ → ℕ → Bool
within lo hi b = leb lo b && leb b hi

-- What may follow a lead byte: the range of the next byte, and how many of 80..BF come after it.
pub data Tail : Type 0 where
  none_left bad : Tail
  next_in : ℕ → ℕ → ℕ → Tail

tail_of : ℕ → Tail
tail_of b =
    if leb b 0x7f
    then none_left
    else if within 0xc2 0xdf b
    then next_in 0x80 0xbf 0
    else if within 0xe0 0xe0 b
    then next_in 0xa0 0xbf 1
    else if within 0xed 0xed b
    then next_in 0x80 0x9f 1
    else if within 0xe1 0xef b
    then next_in 0x80 0xbf 1
    else if within 0xf0 0xf0 b
    then next_in 0x90 0xbf 2
    else if within 0xf1 0xf3 b
    then next_in 0x80 0xbf 2
    else if within 0xf4 0xf4 b
    then next_in 0x80 0x8f 2
    else bad

-- Scanning with what the last lead byte still wants.
scan : Tail → Bytes → Bool
unfolding tail_of
scan none_left [] = true
scan none_left (b ∷ bs) = scan (tail_of b) bs
scan bad bs = false
scan (next_in lo hi n) [] = false
scan (next_in lo hi n) (b ∷ bs) = within lo hi b && scan (continue n) bs
  where
    continue : ℕ → Tail
    continue zero = none_left
    continue (suc k) = next_in 0x80 0xbf k

unfoldable pub is_utf8 : Bytes → Bool
unfolding scan
is_utf8 = scan none_left
