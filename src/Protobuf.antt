-- ===== src/Protobuf.antt =====
-- The messages of the sensors core, design/nextboot-impl/pb.py: varint, the fields and decode.
--
-- Bytes are numbers below 256. `none` is an exception: IndexError at a varint that is cut off,
-- struct.error at a number that does not fit or is cut off, ValueError at an unknown wire type. The
-- position in the buffer stands as what follows it. A 64-bit varint has at most 10 groups of 7 bits,
-- and each field of a message has at least a byte, which is the fuel of `decode`.
pub mod Numbers
pub mod RoundTrip
mod Tests
use y700_linux.Prelude.{
  ℕ, zero, suc, ◌+◌, ◌*◌, ◌/◌, ◌%◌, ◌^◌, Bool, true, false, Option, none, some, List, [], ◌∷◌, ◌++◌,
  ◌==◌, ltb, length, take, drop, if◌then◌else◌,
}

-- The loop of varint: seven bits to a byte, the lowest first.
unfoldable pub varint_from : ℕ → ℕ → List ℕ
varint_from zero n = []
varint_from (suc k) n =
    let rest = varint_from k (n / 128) in
    if n / 128 == 0 then n % 128 ∷ [] else (n % 128 + 128) ∷ rest

unfoldable pub varint : ℕ → List ℕ
varint n = varint_from 10 (n % 2 ^ 64)

abbrev pub add_group : ℕ → Option (ℕ × List ℕ) → Option (ℕ × List ℕ)
add_group c none = none
add_group c (some (n, rest)) = some (c + 128 * n, rest)

-- _rv: the number and what follows it.
unfoldable pub read_varint : List ℕ → Option (ℕ × List ℕ)
read_varint [] = none
read_varint (c ∷ cs) =
    let rest = read_varint cs in if ltb c 128 then some (c, cs) else add_group (c % 128) rest

-- struct.pack of a little-endian number of k bytes, and its unpack_from.
unfoldable pub le_bytes : ℕ → ℕ → List ℕ
le_bytes zero n = []
le_bytes (suc k) n = n % 256 ∷ le_bytes k (n / 256)

abbrev pub room : ℕ → ℕ
room zero = 1
room (suc k) = 256 * room k

unfoldable pub pack : ℕ → ℕ → Option (List ℕ)
pack k n = if ltb n (room k) then some (le_bytes k n) else none

abbrev pub add_byte : ℕ → Option (ℕ × List ℕ) → Option (ℕ × List ℕ)
add_byte c none = none
add_byte c (some (n, rest)) = some (c + 256 * n, rest)

unfoldable pub unpack : ℕ → List ℕ → Option (ℕ × List ℕ)
unpack zero bs = some (0, bs)
unpack (suc k) [] = none
unpack (suc k) (b ∷ bs) = add_byte b (unpack k bs)

pub data Value : Type 0 where
  number : ℕ → Value
  fixed64 : ℕ → Value
  fixed32 : ℕ → Value
  bytes : List ℕ → Value

pub record Field : Type 0 where
  pub field : ℕ
  pub value : Value

-- key(field, wt)
abbrev pub key : ℕ → ℕ → List ℕ
key f wt = varint (8 * f + wt)

abbrev pub prepend : List ℕ → Option (List ℕ) → Option (List ℕ)
prepend a none = none
prepend a (some b) = some (a ++ b)

-- f_varint, f_fixed64, f_fixed32 and f_bytes.
unfoldable pub encode_value : ℕ → Value → Option (List ℕ)
encode_value f (number v) = some (key f 0 ++ varint v)
encode_value f (fixed64 v) = prepend (key f 1) (pack 8 v)
encode_value f (fixed32 v) = prepend (key f 5) (pack 4 v)
encode_value f (bytes b) = some (key f 2 ++ varint (length b) ++ b)

abbrev pub join_both : Option (List ℕ) → Option (List ℕ) → Option (List ℕ)
join_both none b = none
join_both (some a) b = prepend a b

-- A message is its fields one after another.
unfoldable pub encode : List Field → Option (List ℕ)
encode [] = some []
encode (f ∷ fs) = join_both (encode_value f.field f.value) (encode fs)

abbrev pub as_value : (ℕ → Value) → Option (ℕ × List ℕ) → Option (Value × List ℕ)
as_value make none = none
as_value make (some (n, rest)) = some (make n, rest)

-- A slice stops at the end of the buffer.
abbrev pub as_bytes : Option (ℕ × List ℕ) → Option (Value × List ℕ)
as_bytes none = none
as_bytes (some (n, rest)) = some (bytes (take n rest), drop n rest)

-- The branches of decode by the wire type.
unfoldable pub read_value : ℕ → List ℕ → Option (Value × List ℕ)
read_value wt bs =
    if wt == 0
    then as_value number (read_varint bs)
    else if wt == 1
    then as_value fixed64 (unpack 8 bs)
    else if wt == 5
    then as_value fixed32 (unpack 4 bs)
    else if wt == 2
    then as_bytes (read_varint bs)
    else none

abbrev pub with_key : ℕ → Option (Value × List ℕ) → Option (Field × List ℕ)
with_key k none = none
with_key k (some (v, rest)) = some (record { field = k / 8; value = v }, rest)

abbrev pub behind_key : Option (ℕ × List ℕ) → Option (Field × List ℕ)
behind_key none = none
behind_key (some (k, rest)) = with_key k (read_value (k % 8) rest)

-- One turn of the loop of decode.
unfoldable pub read_field : List ℕ → Option (Field × List ℕ)
read_field bs = behind_key (read_varint bs)

abbrev pub add_field : Field → Option (List Field) → Option (List Field)
add_field f none = none
add_field f (some fs) = some (f ∷ fs)

abbrev pub and_decode :
    Option (Field × List ℕ) → (List ℕ → Option (List Field)) → Option (List Field)
and_decode none next = none
and_decode (some (f, rest)) next = add_field f (next rest)

unfoldable pub decode_fuel : ℕ → List ℕ → Option (List Field)
decode_fuel fuel [] = some []
decode_fuel zero (b ∷ bs) = none
decode_fuel (suc fuel) (b ∷ bs) = and_decode (read_field (b ∷ bs)) (decode_fuel fuel)

unfoldable pub decode : List ℕ → Option (List Field)
decode bs = decode_fuel (length bs) bs
