-- ===== src/Protobuf/RoundTrip.antt =====
-- decode of pb.py reads back the fields of a message.
use y700_linux.Prelude.{
  ℕ, zero, suc, ◌+◌, ◌*◌, ◌%◌, ◌^◌, ◌<◌, ◌≤◌, ◌≡◌, ◌∙◌, ap, sym, subst, refl, Option, none, some,
  List, [], ◌∷◌, ◌++◌, ltb, ltb→lt, length, length-append, drop-append, take-append, All, arith,
  Bool-cases, inl, inr,
}
use mathlib.Core.Option.{some-injective}
use mathlib.Core.List.{append_assoc, append-nil}
use y700_linux.Protobuf.{
  varint, read_varint, le_bytes, room, pack, unpack, Value, number, fixed64, fixed32, bytes, Field,
  key, prepend, encode_value, join_both, encode, as_value, as_bytes, read_value, read_field,
  add_field, and_decode, decode_fuel, decode,
}
use y700_linux.Protobuf.Numbers.{read_varint-varint, unpack-le_bytes}

-- The field number and the values that are written as varints fit in 64 bits.
abbrev pub FitsValue : Value → Type 0
FitsValue (number v) = v < 2 ^ 64
FitsValue (fixed64 v) = Unit
FitsValue (fixed32 v) = Unit
FitsValue (bytes b) = length b < 2 ^ 64

abbrev pub Fits : Field → Type 0
Fits f = (f.field < 2 ^ 61) × FitsValue f.value

prepend-some :
    (a : List ℕ) (o : Option (List ℕ)) (c : List ℕ)
    → prepend a o ≡ some c
    → (b : List ℕ) × (o ≡ some b) × (a ++ b ≡ c)
prepend-some a none c h = cc
prepend-some a (some b) c h = (b, refl, some-injective _ _ h)

pack-some : (k n : ℕ) (b : List ℕ) → pack k n ≡ some b → (n < room k) × (le_bytes k n ≡ b)
unfolding pack
pack-some k n b h = elim (Bool-cases (ltb n (room k))) [
  | inl e ↦ (ltb→lt n (room k) e, some-injective _ _ (rw e at h))
  | inr e ↦ absurd (none-ne (rw e at h))
]
  where
    none-ne : none ≡ some b → ⊥
    none-ne e = cc

-- Behind the key of a field, the value is read at its wire type.
read_field-key :
    (f wt : ℕ) (v : Value) (bs rest : List ℕ)
    → f < 2 ^ 61
    → wt < 8
    → read_value wt bs ≡ some (v, rest)
    → read_field (key f wt ++ bs) ≡ some (record { field = f; value = v }, rest)
unfolding read_field
read_field-key f wt v bs rest h w e =
    rw (read_varint-varint (8 * f + wt) bs (omega arith), low, e)
      (ap (λ (d : ℕ). some (record { field = d; value = v }, rest)) (omega arith))
  where
    low : (8 * f + wt) % 8 ≡ wt
    low = omega arith

packed_lem :
    (f wt k n : ℕ) (make : ℕ → Value) (a rest : List ℕ)
    → f < 2 ^ 61
    → wt < 8
    → ((bs : List ℕ) → read_value wt bs ≡ as_value make (unpack k bs))
    → prepend (key f wt) (pack k n) ≡ some a
    → read_field (a ++ rest) ≡ some (record { field = f; value = make n }, rest)
packed_lem f wt k n make a rest h w reads e =
    let (b, p, q) = prepend-some (key f wt) (pack k n) a e in
    let (fits, r) = pack-some k n b p in
    let value : read_value wt (b ++ rest) ≡ some (make n, rest) =
      reads (b ++ rest)
      ∙ ap (as_value make)
          (ap (λ (t : List ℕ). unpack k (t ++ rest)) (sym r) ∙ unpack-le_bytes k n rest fits) in
    ap read_field (ap (λ (t : List ℕ). t ++ rest) (sym q) ∙ append_assoc (key f wt) b rest)
    ∙ read_field-key f wt (make n) (b ++ rest) rest h w value

read_field-encode_value :
    (f : ℕ) (v : Value) (a rest : List ℕ)
    → f < 2 ^ 61
    → FitsValue v
    → encode_value f v ≡ some a
    → read_field (a ++ rest) ≡ some (record { field = f; value = v }, rest)
unfolding encode_value read_value
read_field-encode_value f (number n) a rest h fits e =
    ap read_field (
      ap (λ (t : List ℕ). t ++ rest) (sym (some-injective _ _ e))
      ∙ append_assoc (key f 0) (varint n) rest)
    ∙ read_field-key f 0 (number n) (varint n ++ rest) rest h (omega arith)
        (ap (as_value number) (read_varint-varint n rest fits))
read_field-encode_value f (fixed64 n) a rest h fits e =
    packed_lem f 1 8 n fixed64 a rest h (omega arith) (λ bs. refl) e
read_field-encode_value f (fixed32 n) a rest h fits e =
    packed_lem f 5 4 n fixed32 a rest h (omega arith) (λ bs. refl) e
read_field-encode_value f (bytes b) a rest h fits e =
    ap read_field (
      ap (λ (t : List ℕ). t ++ rest) (sym (some-injective _ _ e))
      ∙ append_assoc (key f 2 ++ varint (length b)) b rest
      ∙ append_assoc (key f 2) (varint (length b)) (b ++ rest))
    ∙ read_field-key f 2 (bytes b) (varint (length b) ++ (b ++ rest)) rest h (omega arith) (
        ap as_bytes (read_varint-varint (length b) (b ++ rest) fits)
        ∙ rw (take-append b rest, drop-append b rest) refl)

read_nothing : (f : Field) (rest : List ℕ) → read_field [] ≡ some (f, rest) → ⊥
unfolding read_field read_varint
read_nothing f rest e = cc

decode_empty : (n : ℕ) → decode_fuel n [] ≡ some []
unfolding decode_fuel
decode_empty zero = refl
decode_empty (suc n) = refl

-- A field that is read takes a turn of the loop.
decode_step :
    (fuel : ℕ) (bs rest : List ℕ) (f : Field)
    → read_field bs ≡ some (f, rest)
    → decode_fuel (suc fuel) bs ≡ add_field f (decode_fuel fuel rest)
unfolding decode_fuel
decode_step fuel [] rest f e = absurd (read_nothing f rest e)
decode_step fuel (b ∷ bs) rest f e =
    ap (λ (o : Option (Field × List ℕ)). and_decode o (decode_fuel fuel)) e

not_empty : (a : List ℕ) (f : Field) (rest : List ℕ) → read_field a ≡ some (f, rest) → 1 ≤ length a
not_empty [] f rest e = absurd (read_nothing f rest e)
not_empty (b ∷ bs) f rest e = omega arith

join_both-some :
    (o p : Option (List ℕ)) (c : List ℕ)
    → join_both o p ≡ some c
    → (a : List ℕ) × (b : List ℕ) × (o ≡ some a) × (p ≡ some b) × (a ++ b ≡ c)
join_both-some none p c h = cc
join_both-some (some a) p c h = let (b, q, r) = prepend-some a p c h in (a, b, refl, q, r)

decode_fuel_lem :
    (fs : List Field) (bs : List ℕ) (fuel : ℕ)
    → All Fits fs
    → encode fs ≡ some bs
    → length bs ≤ fuel
    → decode_fuel fuel bs ≡ some fs
unfolding encode
decode_fuel_lem [] bs fuel fits e h =
    subst (λ (t : List ℕ). decode_fuel fuel t ≡ some []) (some-injective _ _ e) (decode_empty fuel)
decode_fuel_lem (f ∷ fs) bs fuel fits e h =
    let (a, b, one, others, whole) =
      join_both-some (encode_value f.field f.value) (encode fs) bs e in
    go (λ c m. decode_fuel_lem fs c m fits.1) a b one others whole fuel h
  where
    go :
        ((c : List ℕ) (m : ℕ) → encode fs ≡ some c → length c ≤ m → decode_fuel m c ≡ some fs)
        → (a b : List ℕ) → encode_value f.field f.value ≡ some a
        → encode fs ≡ some b
        → a ++ b ≡ bs
        → (n : ℕ) → length bs ≤ n
        → decode_fuel n bs ≡ some (f ∷ fs)
    go ih a b one others whole n h =
        subst (λ (t : List ℕ). decode_fuel n t ≡ some (f ∷ fs)) whole
          (turn n (
            omega (
              arith,
              ap length whole,
              length-append a b,
              not_empty a f [] (ap read_field (sym (append-nil a)) ∙ read []),
            )))
      where
        read : (rest : List ℕ) → read_field (a ++ rest) ≡ some (f, rest)
        read rest = read_field-encode_value f.field f.value a rest fits.0.0 fits.0.1 one

        turn : (m : ℕ) → length b + 1 ≤ m → decode_fuel m (a ++ b) ≡ some (f ∷ fs)
        turn zero k = absurd (omega arith)
        turn (suc m) k =
            decode_step m (a ++ b) b f (read b) ∙ ap (add_field f) (ih b m others (omega arith))

-- Whenever a message can be encoded, decode reads back its fields, in their order; the field numbers
-- are below 2 ^ 61, and the varints and the lengths below 2 ^ 64.
pub decode-encode_message :
    (fs : List Field) (bs : List ℕ) → All Fits fs → encode fs ≡ some bs → decode bs ≡ some fs
unfolding decode
decode-encode_message fs bs fits e = decode_fuel_lem fs bs (length bs) fits e (omega arith)
