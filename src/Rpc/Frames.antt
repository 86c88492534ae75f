-- ===== src/Rpc/Frames.antt =====
-- The buffers of a FastRPC call as hexrpcd.py packs them: decode_inbufs, encode_outbufs, get_rest, and
-- the padding of the answer in Server.run. Bytes are numbers below 256; `none` is struct.error.
pub mod RoundTrip
mod Tests
use y700_linux.Prelude.{
  ℕ, zero, suc, ◌+◌, ◌-◌, ◌*◌, ◌/◌, ◌%◌, ◌^◌, Bool, true, false, Option, none, some, List, [], ◌∷◌,
  ◌++◌, ◌==◌, ltb, length, take, drop, replicate, if◌then◌else◌,
}

-- struct.unpack_from('<I', data, off), on what stands at `off`.
unfoldable pub unpack32 : List ℕ → Option ℕ
unpack32 (a ∷ b ∷ c ∷ d ∷ rest) = some (a + 256 * b + 65536 * c + 16777216 * d)
unpack32 _ = none

-- The four bytes of struct.pack('<I', n).
unfoldable pub le32 : ℕ → List ℕ
le32 n = n % 256 ∷ n / 256 % 256 ∷ n / 65536 % 256 ∷ n / 16777216 % 256 ∷ []

unfoldable pub pack32 : ℕ → Option (List ℕ)
pack32 n = if ltb n (2 ^ 32) then some (le32 n) else none

-- (8 - off % 8) % 8
abbrev pub padding : ℕ → ℕ
padding off = (8 - off % 8) % 8

-- Where the bytes of a buffer start, behind its size: only a buffer that is not empty is aligned.
abbrev pub body_at : ℕ → ℕ → ℕ
body_at size off = if size == 0 then off else off + padding off

abbrev pub cons_some : List ℕ → Option (List (List ℕ)) → Option (List (List ℕ))
cons_some b none = none
cons_some b (some bs) = some (b ∷ bs)

-- The loop of decode_inbufs from `off`; Python's slice stops at the end of the data.
unfoldable pub decode_from : List ℕ → ℕ → ℕ → Option (List (List ℕ))
decode_from bytes zero off = some []
decode_from bytes (suc n) off = elim (unpack32 (drop off bytes)) [
  | none ↦ none
  | some size ↦
      cons_some (take size (drop (body_at size (off + 4)) bytes))
        (decode_from bytes n (body_at size (off + 4) + size))
]

unfoldable pub decode_inbufs : List ℕ → ℕ → Option (List (List ℕ))
decode_inbufs bytes n = decode_from bytes n 0

-- out_ += padding and the buffer, if it is not empty.
abbrev pub add_body : List ℕ → List ℕ → List ℕ
add_body out [] = out
add_body out (b ∷ bs) = out ++ (replicate (padding (length out)) 0 ++ b ∷ bs)

abbrev pub with_size : Option (List ℕ) → (List ℕ → Option (List ℕ)) → Option (List ℕ)
with_size none next = none
with_size (some s) next = next s

-- The loop of encode_outbufs, from what `out_` holds.
unfoldable pub encode_from : List ℕ → List (List ℕ) → Option (List ℕ)
encode_from out [] = some out
encode_from out (b ∷ bs) = with_size (pack32 (length b)) λ s. encode_from (add_body (out ++ s) b) bs

unfoldable pub encode_outbufs : List (List ℕ) → Option (List ℕ)
encode_outbufs bufs = encode_from [] bufs

-- (bufs + [b''] * nout)[:nout]
unfoldable pub fit : ℕ → List (List ℕ) → List (List ℕ)
fit nout bufs = take nout (bufs ++ replicate nout [])

-- get_rest on the reply of the device: the size that it reports and the bytes that it sends.
-- `none` is the RuntimeError.
unfoldable pub get_rest : List ℕ → ℕ → ℕ → List ℕ → Option (List ℕ)
get_rest head inlen req rest =
    if req == inlen - length head then some (head ++ take req rest) else none
