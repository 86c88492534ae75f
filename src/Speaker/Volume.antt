-- ===== src/Speaker/Volume.antt =====
-- The gain of speakerd.py never makes a sample louder.
use y700_linux.Prelude.{
  ℕ, zero, suc, ◌-◌, ◌*◌, ◌%◌, ◌≤◌, ◌<◌, ◌≡◌, ◌⊎◌, inl, inr, arith, ltb, ◌==◌, Bool-cases,
}
use y700_linux.Speaker.{scale_sample}

-- A sample with its sign; the negative ones stand at 32768 and above.
abbrev pub IsQuieter : ℕ → ℕ → Type 0
IsQuieter u v = (u < 32768 → v ≤ u) × (32768 ≤ u → ((u ≤ v) × (v < 65536)) ⊎ (v ≡ 0))

mul_le : (m g : ℕ) → g ≤ 32768 → m * g ≤ m * 32768
mul_le zero g h = ground (arith)
mul_le (suc m) g h = ground (arith, mul_le m g h)

from_top :
    (u c : ℕ)
    → 32768 ≤ u
    → u < 65536
    → c ≤ 65536 - u
    → ((u ≤ (65536 - c) % 65536) × ((65536 - c) % 65536 < 65536)) ⊎ ((65536 - c) % 65536 ≡ 0)
from_top u c le lt h = elim (Bool-cases (c == 0)) [
  | inl e ↦ inr (ground (arith, e))
  | inr e ↦ inl (ground (arith, e, h), ground (arith))
]

-- A gain of at most 1 keeps the sign of a sample and brings it no farther from 0.
pub scale_sample-IsQuieter : (g u : ℕ) → g ≤ 32768 → u < 65536 → IsQuieter u (scale_sample g u)
unfolding scale_sample
scale_sample-IsQuieter g u hg hu = elim (Bool-cases (ltb u 32768)) [
  | inl h ↦ rw h ((λ _. ground (arith, mul_le u g hg)), (λ le. ground (arith, h, le)))
  | inr h ↦ rw h (
    (λ lt. ground (arith, h, lt)),
    (λ le. from_top u _ le hu (ground (arith, mul_le (65536 - u) g hg))),
  )
]
