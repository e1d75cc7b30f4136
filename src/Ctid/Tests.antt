-- ===== src/Ctid/Tests.antt =====
-- Runs of the encoding of addresses.
use chili_db.Prelude.{◌≡◌, refl, some, none, arith}
use chili_db.Ctid.{
  Ctid, new, from_le_bytes, to_le_bytes, IsCtid, from_le_bytes-to_le_bytes,
  to_le_bytes-from_le_bytes,
}

abbrev sample : Ctid
sample = record { page_id = 0x12345678; slot_id = 0x9abc }

encoding_is_little_endian : to_le_bytes sample ≡ (0x78, 0x56, 0x34, 0x12, 0xbc, 0x9a)
unfolding to_le_bytes
encoding_is_little_endian = refl

slot_zero_is_invalid : new 42 0 ≡ none
unfolding new
slot_zero_is_invalid = refl

from_le_bytes-to_le_bytes_example : from_le_bytes (to_le_bytes sample) ≡ some sample
from_le_bytes-to_le_bytes_example = from_le_bytes-to_le_bytes sample (omega arith)

to_le_bytes-from_le_bytes_example :
    IsCtid sample × (to_le_bytes sample ≡ (0x78, 0x56, 0x34, 0x12, 0xbc, 0x9a))
unfolding from_le_bytes
to_le_bytes-from_le_bytes_example =
    to_le_bytes-from_le_bytes (0x78, 0x56, 0x34, 0x12, 0xbc, 0x9a) sample (omega arith) refl
