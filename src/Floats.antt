-- ===== src/Floats.antt =====
-- The floating point numbers that thermald.py and touchproxy.py compute with: an interface, since
-- IEEE arithmetic is not under design/. Its laws are the documented signs and bounds of correctly
-- rounded operations: no operation leaves the sign or the range that its exact result has, as long
-- as the ends of the range are representable. Laws on a natural number ask that it is converted exactly,
-- which doubles do up to 2 ^ 53. F holds the numbers that are not NaN.
pub mod Fixed
use y700_linux.Prelude.Int.{ℤ}
use y700_linux.Prelude.{arith, ℕ, ◌+◌, ◌-◌, ◌≤◌, ◌≡◌, Bool, true, false}

-- 2 ^ 53
abbrev pub exact : ℕ
exact = 9007199254740992

pub record Floats : Type 1 where
  pub F : Type 0
  pub of_ℕ : ℕ → F
  pub of_ℤ : ℤ → F
  -- The decimal literal n / d.
  pub literal : ℕ → ℕ → F
  pub add : F → F → F
  pub sub : F → F → F
  pub mul : F → F → F
  pub div : F → F → F
  -- a <= b
  pub le : F → F → Bool
  -- int(x), on results that are not negative.
  pub trunc : F → ℕ
  -- round(x), likewise.
  pub round : F → ℕ
  pub le_total : (a b : F) → le a b ≡ false → le b a ≡ true
  pub literal_nonneg : (n d : ℕ) → le (of_ℕ 0) (literal n d) ≡ true
  pub of_nonneg : (n : ℕ) → n ≤ exact → le (of_ℕ 0) (of_ℕ n) ≡ true
  pub sub_nonneg : (a b : F) → le b a ≡ true → le (of_ℕ 0) (sub a b) ≡ true
  pub add_nonneg :
      (a b : F) → le (of_ℕ 0) a ≡ true → le (of_ℕ 0) b ≡ true → le (of_ℕ 0) (add a b) ≡ true
  pub mul_nonneg :
      (a b : F) → le (of_ℕ 0) a ≡ true → le (of_ℕ 0) b ≡ true → le (of_ℕ 0) (mul a b) ≡ true
  -- A product with a factor of at most 1 does not pass the other factor.
  pub mul_le_int :
      (n : ℕ) (b : F)
      → n ≤ exact
      → le (of_ℕ 0) b ≡ true
      → le b (of_ℕ 1) ≡ true
      → le (mul b (of_ℕ n)) (of_ℕ n) ≡ true
  pub trunc_sub_le : (n : ℕ) (y : F) → n ≤ exact → le (of_ℕ 0) y ≡ true → trunc (sub (of_ℕ n) y) ≤ n
  pub round_add_ge : (n : ℕ) (y : F) → n ≤ exact → le (of_ℕ 0) y ≡ true → n ≤ round (add (of_ℕ n) y)
  pub round_add_le :
      (n k : ℕ) (y : F) → n + k ≤ exact → le y (of_ℕ k) ≡ true → round (add (of_ℕ n) y) ≤ n + k

module _ (x : Floats) where
  -- Python's min(a, b) is `b if b < a else a`, and max(a, b) is `b if b > a else a`.
  unfoldable pub fmin : x.F → x.F → x.F
  fmin a b = elim (x.le a b) [ true ↦ a | false ↦ b ]

  unfoldable pub fmax : x.F → x.F → x.F
  fmax a b = elim (x.le b a) [ true ↦ a | false ↦ b ]

  pub fmin_nonneg :
      (a b : x.F)
      → x.le (x.of_ℕ 0) a ≡ true
      → x.le (x.of_ℕ 0) b ≡ true
      → x.le (x.of_ℕ 0) (fmin a b) ≡ true
  unfolding fmin
  fmin_nonneg a b ha hb = ground arith

  pub fmin-le_left : (a b : x.F) → x.le a a ≡ true → x.le (fmin a b) a ≡ true
  unfolding fmin
  fmin-le_left a b h = ground (arith, x.le_total a b)

  pub fmax-ge_left : (a b : x.F) → x.le a a ≡ true → x.le a (fmax a b) ≡ true
  unfolding fmax
  fmax-ge_left a b h = ground (arith, x.le_total b a)
