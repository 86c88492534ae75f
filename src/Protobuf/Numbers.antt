-- ===== src/Protobuf/Numbers.antt =====
-- The numbers of pb.py are read back: varints and fixed numbers.
use y700_linux.Prelude.{
  ℕ, zero, suc, ◌+◌, ◌*◌, ◌/◌, ◌%◌, ◌^◌, ◌<◌, ◌≡◌, ◌∙◌, ap, some, List, ◌∷◌, ◌++◌, ◌==◌, ltb, arith,
  Bool-cases, inl, inr,
}
use y700_linux.Protobuf.{varint_from, varint, read_varint, le_bytes, room, add_byte, unpack}

-- What k groups of 7 bits can hold.
abbrev pub groups : ℕ → ℕ
groups zero = 1
groups (suc k) = 128 * groups k

read_last : (c : ℕ) (rest : List ℕ) → c < 128 → read_varint (c ∷ rest) ≡ some (c, rest)
unfolding read_varint
read_last c rest h = ground arith

read_more :
    (c n : ℕ) (bs rest : List ℕ)
    → read_varint bs ≡ some (n, rest)
    → c < 128
    → read_varint ((c + 128) ∷ bs) ≡ some (c + 128 * n, rest)
unfolding read_varint
read_more c n bs rest e h = elim (Bool-cases (ltb (c + 128) 128)) [
  | inl bad ↦ absurd (ground arith)
  | inr good ↦ rw (good, e) (ap (λ (d : ℕ). some (d + 128 * n, rest)) (omega arith))
]

pub read_varint-varint_from :
    (k v : ℕ) (rest : List ℕ)
    → v < groups (suc k)
    → read_varint (varint_from (suc k) v ++ rest) ≡ some (v, rest)
unfolding varint_from
read_varint-varint_from zero v rest h = elim (Bool-cases (v / 128 == 0)) [
  | inl e ↦
      rw e (read_last (v % 128) rest (omega arith) ∙ ap (λ (d : ℕ). some (d, rest)) (omega arith))
  | inr e ↦ absurd (ground arith)
]
read_varint-varint_from (suc k) v rest h = elim (Bool-cases (v / 128 == 0)) [
  | inl e ↦
      rw e (read_last (v % 128) rest (omega arith) ∙ ap (λ (d : ℕ). some (d, rest)) (ground arith))
  | inr e ↦ rw e (
      read_more (v % 128) (v / 128) _ rest (read_varint-varint_from k (v / 128) rest (omega arith))
        (omega arith)
      ∙ ap (λ (d : ℕ). some (d, rest)) (omega arith))
]

pub read_varint-varint :
    (v : ℕ) (rest : List ℕ) → v < 2 ^ 64 → read_varint (varint v ++ rest) ≡ some (v, rest)
unfolding varint
read_varint-varint v rest h =
    read_varint-varint_from 9 (v % 2 ^ 64) rest (omega arith)
    ∙ ap (λ (d : ℕ). some (d, rest)) (omega arith)

pub unpack-le_bytes :
    (k n : ℕ) (rest : List ℕ) → n < room k → unpack k (le_bytes k n ++ rest) ≡ some (n, rest)
unfolding unpack le_bytes
unpack-le_bytes zero n rest h = ap (λ (d : ℕ). some (d, rest)) (omega arith)
unpack-le_bytes (suc k) n rest h =
    ap (add_byte (n % 256)) (unpack-le_bytes k (n / 256) rest (omega arith))
    ∙ ap (λ (d : ℕ). some (d, rest)) (omega arith)
