-- ===== src/Ctid.antt =====
-- crates/common/src/lib.rs: the address of a tuple version, and its six-byte encoding.
mod Tests
use chili_db.Prelude.{
  ℕ, ◌+◌, ◌/◌, ◌%◌, ◌^◌, ◌≤◌, ◌<◌, ◌≡◌, ◌↔◌, Option, none, some, ◌==◌, if◌then◌else◌, arith,
}
use chili_db.Bytes.{IsByte, u16_of, u32_of}

-- `slot_id` is a `NonZeroU16`.
pub record Ctid : Type 0 where
  pub page_id : ℕ
  pub slot_id : ℕ

-- `[u8; 6]`
abbrev pub Encoded : Type 0
Encoded = ℕ × ℕ × ℕ × ℕ × ℕ × ℕ

unfoldable pub new : ℕ → ℕ → Option Ctid
new page_id slot_id =
    if slot_id == 0 then none else some (record { page_id = page_id; slot_id = slot_id })

unfoldable pub to_le_bytes : Ctid → Encoded
to_le_bytes c = (
  c.page_id % 256,
  c.page_id / 256 % 256,
  c.page_id / 65536 % 256,
  c.page_id / 16777216 % 256,
  c.slot_id % 256,
  c.slot_id / 256 % 256,
)

unfoldable pub from_le_bytes : Encoded → Option Ctid
unfolding new
from_le_bytes b = new (u32_of b.0 b.1 b.2 b.3) (u16_of b.4 b.5)

pub record IsCtid (c : Ctid) : Type 0 where
  pub page : c.page_id < 2 ^ 32
  pub slot : c.slot_id < 2 ^ 16
  pub nonzero : 0 < c.slot_id

abbrev pub IsEncoded : Encoded → Type 0
IsEncoded b = IsByte b.0 × IsByte b.1 × IsByte b.2 × IsByte b.3 × IsByte b.4 × IsByte b.5

-- Every address whose page and slot have their widths decodes from its own encoding.
pub from_le_bytes-to_le_bytes : (c : Ctid) → IsCtid c → from_le_bytes (to_le_bytes c) ≡ some c
unfolding from_le_bytes to_le_bytes
from_le_bytes-to_le_bytes c v = ground arith

-- What six bytes decode to is an address of the right widths, and encodes to the same six bytes.
pub to_le_bytes-from_le_bytes :
    (b : Encoded) (c : Ctid)
    → IsEncoded b
    → from_le_bytes b ≡ some c
    → IsCtid c × (to_le_bytes c ≡ b)
unfolding from_le_bytes to_le_bytes
to_le_bytes-from_le_bytes b c v e = ground arith
