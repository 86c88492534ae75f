-- ===== src/Floats/Fixed.antt =====
-- Numbers in thousandths, cut at 0, have the laws of the interface: it can be met.
use y700_linux.Prelude.{ℕ, ◌+◌, ◌-◌, ◌*◌, ◌/◌, ◌≤◌, ◌≡◌, true, leb, arith}
use y700_linux.Prelude.Int.{pos_part}
use y700_linux.Floats.{Floats}

pub mul_le : (n b : ℕ) → leb b 1000 ≡ true → leb (b * (n * 1000) / 1000) (n * 1000) ≡ true
mul_le n b h = ground (arith, le n b (ground arith))
  where
    le : (n b : ℕ) → b ≤ 1000 → b * n ≤ 1000 * n
    le n b h = grind arith

abbrev pub thousandths : Floats
thousandths = record {
  F = ℕ;
  of_ℕ = λ n. n * 1000;
  of_ℤ = λ n. pos_part n * 1000;
  literal = λ n d. n * 1000 / d;
  add = λ a b. a + b;
  sub = λ a b. a - b;
  mul = λ a b. a * b / 1000;
  div = λ a b. a * 1000 / b;
  le = leb;
  trunc = λ a. a / 1000;
  round = λ a. (a + 500) / 1000;
  le_total = λ a b h. ground arith;
  literal_nonneg = λ n d. ground arith;
  of_nonneg = λ n e. ground arith;
  sub_nonneg = λ a b h. ground arith;
  add_nonneg = λ a b h k. ground arith;
  mul_nonneg = λ a b h k. ground arith;
  mul_le_int = λ n b e h k. mul_le n b k;
  trunc_sub_le = λ n y e h. omega arith;
  round_add_ge = λ n y e h. omega arith;
  round_add_le = λ n k y e h. ground arith;
}
