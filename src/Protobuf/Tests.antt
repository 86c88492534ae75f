-- ===== src/Protobuf/Tests.antt =====
-- A message of the sensors core, encoded and read back.
use y700_linux.Prelude.{ℕ, ◌≡◌, refl, none, some, List, [], ◌∷◌, arith}
use y700_linux.Protobuf.{
  varint, varint_from, read_varint, le_bytes, pack, number, fixed32, bytes, Field, encode_value,
  encode, read_value, read_field, decode_fuel, decode,
}
use y700_linux.Protobuf.RoundTrip.{decode-encode_message}

abbrev message : List Field
message =
    record { field = 1; value = number 300 }
    ∷ record { field = 2; value = bytes (7 ∷ 8 ∷ []) }
    ∷ record { field = 3; value = fixed32 258 }
    ∷ []

abbrev encoded : List ℕ
encoded = 8 ∷ 172 ∷ 2 ∷ 18 ∷ 2 ∷ 7 ∷ 8 ∷ 29 ∷ 2 ∷ 1 ∷ 0 ∷ 0 ∷ []

message-encode : encode message ≡ some encoded
unfolding encode encode_value varint varint_from pack le_bytes
message-encode = refl

decode-encode_message_example : decode encoded ≡ some message
decode-encode_message_example = decode-encode_message message encoded (omega arith) message-encode

-- A varint that is cut off, and an unknown wire type.
broken : (decode (8 ∷ 172 ∷ []) ≡ none) × (decode (11 ∷ []) ≡ none)
unfolding decode decode_fuel read_field read_varint read_value
broken = (refl, refl)
