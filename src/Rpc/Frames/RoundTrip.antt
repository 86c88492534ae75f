-- ===== src/Rpc/Frames/RoundTrip.antt =====
-- decode_inbufs reads back what encode_outbufs writes.
use y700_linux.Prelude.{
  ℕ, suc, ◌+◌, ◌^◌, ◌<◌, ◌≡◌, ◌∙◌, ap, sym, subst, refl, Bool-cases, inl, inr, Option, none, some,
  List, [], ◌∷◌, ◌++◌, ltb, ltb→lt, length, take, drop, replicate, length-append, length-replicate,
  arith,
}
use mathlib.Core.Option.{some-injective}
use mathlib.Core.List.{append_assoc, append-nil}
use y700_linux.Rpc.Frames.{
  unpack32, le32, pack32, padding, body_at, cons_some, decode_from, decode_inbufs, add_body,
  with_size, encode_from, encode_outbufs,
}

pub unpack32-le32 : (n : ℕ) (rest : List ℕ) → n < 2 ^ 32 → unpack32 (le32 n ++ rest) ≡ some n
unfolding unpack32 le32
unpack32-le32 n rest h = ap some (omega arith)

drop-append : (k t : List ℕ) → drop (length k) (k ++ t) ≡ t
drop-append [] t = refl
drop-append (a ∷ k) t = drop-append k t

take-append : (b rest : List ℕ) → take (length b) (b ++ rest) ≡ b
take-append [] rest = refl
take-append (x ∷ b) rest = ap (λ r. x ∷ r) (take-append b rest)

with_size-some :
    (o : Option (List ℕ)) (f : List ℕ → Option (List ℕ)) (x : List ℕ)
    → with_size o f ≡ some x
    → (s : List ℕ) × (o ≡ some s) × (f s ≡ some x)
with_size-some none f x h = cc
with_size-some (some s) f x h = (s, refl, h)

pack32-some : (n : ℕ) (s : List ℕ) → pack32 n ≡ some s → (n < 2 ^ 32) × (le32 n ≡ s)
unfolding pack32
pack32-some n s h = elim (Bool-cases (ltb n (2 ^ 32))) [
  | inl e ↦ (ltb→lt n (2 ^ 32) e, some-injective _ _ (rw e at h))
  | inr e ↦ absurd (none-ne-some (rw e at h))
]
  where
    none-ne-some : none ≡ some s → ⊥
    none-ne-some e = cc

encode_step :
    (out b : List ℕ) (bs : List (List ℕ)) (bytes : List ℕ)
    → encode_from out (b ∷ bs) ≡ some bytes
    → (length b < 2 ^ 32) × (encode_from (add_body (out ++ le32 (length b)) b) bs ≡ some bytes)
unfolding encode_from
encode_step out b bs bytes h =
    let (s, packed, next) = with_size-some (pack32 (length b)) _ bytes h in
    let (short, e) = pack32-some (length b) s packed in
    (short, subst (λ t. encode_from (add_body (out ++ t) b) bs ≡ some bytes) (sym e) next)

body_at-suc : (n off : ℕ) → body_at (suc n) off ≡ off + padding off
body_at-suc n off = ground arith

length-le32 : (n : ℕ) → length (le32 n) ≡ 4
unfolding le32
length-le32 n = refl

-- The padding that add_body writes, if any.
add_body_lem :
    (out b : List ℕ)
    → (pad : List ℕ) × (add_body out b ≡ (out ++ pad) ++ b)
      × (body_at (length b) (length out) ≡ length (out ++ pad))
add_body_lem out [] =
    ([], sym (append-nil (out ++ []) ∙ append-nil out), ap length (sym (append-nil out)))
add_body_lem out (c ∷ cs) = (
  replicate (padding (length out)) 0,
  sym (append_assoc out _ (c ∷ cs)),
  sym (
      length-append out _
      ∙ ap (λ (n : ℕ). length out + n) (length-replicate (padding (length out)) 0)
      ∙ sym (body_at-suc (length cs) (length out))),
)

-- What encode_from adds to `out`.
encode_from-extends :
    (bufs : List (List ℕ)) (out bytes : List ℕ)
    → encode_from out bufs ≡ some bytes
    → (s : List ℕ) × (bytes ≡ out ++ s)
unfolding encode_from
encode_from-extends [] out bytes h = ([], sym (append-nil out ∙ some-injective _ _ h))
encode_from-extends (b ∷ bs) out bytes h =
    let (_, next) = encode_step out b bs bytes h in
    let (pad, body, _) = add_body_lem (out ++ le32 (length b)) b in
    let (s, e) = encode_from-extends bs (add_body (out ++ le32 (length b)) b) bytes next in
    (
      le32 (length b) ++ (pad ++ (b ++ s)),
      e ∙ rw (body, append_assoc, append_assoc, append_assoc) refl,
    )

decode_step :
    (bytes : List ℕ) (n off size : ℕ)
    → unpack32 (drop off bytes) ≡ some size
    → decode_from bytes (suc n) off
      ≡ cons_some
          (take size (drop (body_at size (off + 4)) bytes))
          (decode_from bytes n (body_at size (off + 4) + size))
unfolding decode_from
decode_step bytes n off size h = rw (h, decode_from) refl

decode-encode_from :
    (bufs : List (List ℕ)) (out bytes : List ℕ)
    → encode_from out bufs ≡ some bytes
    → decode_from bytes (length bufs) (length out) ≡ some bufs
decode-encode_from [] out bytes h = unfold decode_from in refl
decode-encode_from (b ∷ bs) out bytes h =
    let (short, next) = encode_step out b bs bytes h in
    let (pad, body, at) = add_body_lem (out ++ le32 (length b)) b in
    let (s, e) = encode_from-extends bs (add_body (out ++ le32 (length b)) b) bytes next in
    let whole : bytes ≡ ((out ++ le32 (length b)) ++ pad) ++ (b ++ s) =
      e ∙ rw body (append_assoc _ b s) in
    let size : unpack32 (drop (length out) bytes) ≡ some (length b) =
      rw (whole, append_assoc, append_assoc, drop-append)
        (unpack32-le32 (length b) (pad ++ (b ++ s)) short) in
    let start : body_at (length b) (length out + 4) ≡ length ((out ++ le32 (length b)) ++ pad) =
      ap (body_at (length b)) (
        sym (
          length-append out (le32 (length b))
          ∙ ap (λ (k : ℕ). length out + k) (length-le32 (length b))))
      ∙ at in
    let here : take (length b) (drop (length ((out ++ le32 (length b)) ++ pad)) bytes) ≡ b =
      rw (whole, drop-append) (take-append b s) in
    let onward : length ((out ++ le32 (length b)) ++ pad) + length b
        ≡ length (add_body (out ++ le32 (length b)) b) =
      rw (body, length-append ((out ++ le32 (length b)) ++ pad) b) refl in
    decode_step bytes (length bs) (length out) (length b) size
    ∙ rw
        (
          start,
          here,
          onward,
          decode-encode_from bs (add_body (out ++ le32 (length b)) b) bytes next,
        )
        refl

-- Whenever encode_outbufs packs some buffers, decode_inbufs reads the same buffers from the bytes.
pub decode-encode :
    (bufs : List (List ℕ)) (bytes : List ℕ)
    → encode_outbufs bufs ≡ some bytes
    → decode_inbufs bytes (length bufs) ≡ some bufs
unfolding encode_outbufs decode_inbufs
decode-encode bufs bytes h = decode-encode_from bufs [] bytes h
