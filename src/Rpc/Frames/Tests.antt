-- ===== src/Rpc/Frames/Tests.antt =====
-- Buffers of a call, packed and read back.
use y700_linux.Prelude.{ℕ, ◌≡◌, refl, none, some, List, [], ◌∷◌}
use y700_linux.Rpc.Frames.{
  unpack32, pack32, le32, decode_from, decode_inbufs, encode_from, encode_outbufs,
}
use y700_linux.Rpc.Frames.RoundTrip.{decode-encode}

abbrev buffers : List (List ℕ)
buffers = (1 ∷ 2 ∷ 3 ∷ []) ∷ [] ∷ (9 ∷ []) ∷ []

abbrev packed : List ℕ
packed =
    3 ∷ 0 ∷ 0 ∷ 0 ∷ 0 ∷ 0 ∷ 0 ∷ 0 ∷ 1 ∷ 2 ∷ 3 ∷ 0 ∷ 0 ∷ 0 ∷ 0 ∷ 1 ∷ 0 ∷ 0 ∷ 0 ∷ 0 ∷ 0 ∷ 0 ∷ 0 ∷ 0
    ∷ 9 ∷ []

buffers_pack : encode_outbufs buffers ≡ some packed
unfolding encode_outbufs encode_from pack32 le32
buffers_pack = refl

decode-encode_example : decode_inbufs packed 3 ≡ some buffers
decode-encode_example = decode-encode buffers packed buffers_pack

-- A size field that is cut off.
short_frame : decode_inbufs (1 ∷ 0 ∷ 0 ∷ []) 1 ≡ none
unfolding decode_inbufs decode_from unpack32
short_frame = refl
