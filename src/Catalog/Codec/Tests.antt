-- ===== src/Catalog/Codec/Tests.antt =====
-- Table metadata encoded and decoded.
use chili_db.Prelude.{◌≡◌, refl, false, [], ◌∷◌, ◌++◌, some, ok, err, arith}
use chili_db.Bytes.{Bytes}
use chili_db.Binder.Types.{varchar, primary_key}
use chili_db.Catalog.Utf8.{is_utf8}
use chili_db.Catalog.Codec
use chili_db.Catalog.Codec.{
  Metadata, check_columns, check_indices, check_constraints, type_bytes, put_columns, put_indices,
  put_constraints, encode, table_tag, truncated, repeated_index,
}
use chili_db.Catalog.Codec.Decode.{decode}
use chili_db.Catalog.Codec.Canonical.{encode-decode}
use chili_db.Prelude.{All, Yields, if◌then◌else◌, ltb, length}
use chili_db.Bytes.{IsByte}
use chili_db.HeapAm.Page.{max_tuple_size}
use chili_db.Catalog.Codec.{record_too_large}
use chili_db.Catalog.Codec.RoundTrip.{IsMetadata, decode-encode}

abbrev one_column : Metadata
one_column = record {
  schema = record {
    name = 116 ∷ [];
    columns = record { name = 120 ∷ []; data_type = varchar (some 9); nullable = false } ∷ [];
  };
  head = 3;
  constraints = primary_key (0 ∷ []) ∷ [];
}

abbrev its_bytes : Bytes
its_bytes =
    table_tag
    ++ (3 ∷ 0 ∷ 0 ∷ 0 ∷ 1 ∷ 0 ∷ 0 ∷ 0 ∷ 116 ∷ 1 ∷ 0 ∷ 0 ∷ 0 ∷ 1 ∷ 0 ∷ 0 ∷ 0 ∷ 120 ∷ 0 ∷ 9 ∷ 9 ∷ 0
        ∷ 0 ∷ 0 ∷ 1 ∷ 0 ∷ 0 ∷ 0 ∷ 1 ∷ 1 ∷ 0 ∷ 0 ∷ 0 ∷ 0 ∷ 0 ∷ 0 ∷ 0 ∷ [])

its_bytes-IsByte : All IsByte its_bytes
its_bytes-IsByte = ground arith

encodes : encode one_column ≡ ok its_bytes
unfolding encode Codec.validate check_columns check_indices check_constraints Codec.number
    Codec.string type_bytes put_columns put_indices put_constraints
encodes = refl

repeats :
    Codec.validate (record one_column { constraints = primary_key (0 ∷ 0 ∷ []) ∷ [] })
    ≡ err repeated_index
unfolding Codec.validate check_columns check_indices check_constraints
repeats = refl

one_column-IsMetadata : IsMetadata one_column
unfolding is_utf8
one_column-IsMetadata = record {
  head = omega arith;
  name = refl;
  columns = ((refl, (omega arith, omega arith)), tt);
}

decode-encode_example : decode its_bytes ≡ ok one_column
decode-encode_example = decode-encode one_column its_bytes one_column-IsMetadata encodes

encode-decode_example :
    Yields
      (λ m.
        IsMetadata m
        × (encode m ≡ (
            if ltb max_tuple_size (length its_bytes) then err record_too_large else ok its_bytes)))
      (decode its_bytes)
encode-decode_example = encode-decode its_bytes its_bytes-IsByte
