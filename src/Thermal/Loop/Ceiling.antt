-- ===== src/Thermal/Loop/Ceiling.antt =====
-- The ceiling that main passes to a domain: battery_limited of thermald.py.
use y700_linux.Prelude.{
  ℕ, ◌-◌, ◌≤◌, ◌<◌, ◌≡◌, ◌≢◌, ◌⊎◌, true, false, Bool-cases, Option-cases, inl, inr, Option, none,
  some, List, [], ◌∷◌, arith,
}
use y700_linux.Prelude.Int.{ℤ, ◌≤ℤ◌}
use y700_linux.Floats.{exact, Floats, fmin_nonneg}
use y700_linux.Thermal.{
  DomainName, prime, eff, gpu, Profile, quiet, balanced, performance, limits, battery_limit,
}
use y700_linux.Thermal.Loop.{battery_limited, battery_cut, hottest, later_max}

-- Each row of PROFILES has its floor below its ceiling.
pub floor-lt-ceiling : (p : Profile) (d : DomainName) → (limits p d).floor < (limits p d).ceiling
unfolding limits
floor-lt-ceiling quiet prime = omega arith
floor-lt-ceiling quiet eff = omega arith
floor-lt-ceiling quiet gpu = omega arith
floor-lt-ceiling balanced prime = omega arith
floor-lt-ceiling balanced eff = omega arith
floor-lt-ceiling balanced gpu = omega arith
floor-lt-ceiling performance prime = omega arith
floor-lt-ceiling performance eff = omega arith
floor-lt-ceiling performance gpu = omega arith

ceiling_exact : (p : Profile) (d : DomainName) → (limits p d).ceiling ≤ exact
unfolding limits
ceiling_exact quiet prime = omega arith
ceiling_exact quiet eff = omega arith
ceiling_exact quiet gpu = omega arith
ceiling_exact balanced prime = omega arith
ceiling_exact balanced eff = omega arith
ceiling_exact balanced gpu = omega arith
ceiling_exact performance prime = omega arith
ceiling_exact performance eff = omega arith
ceiling_exact performance gpu = omega arith

module _ (x : Floats) where
  cut_nonneg :
      (batt : x.F) (limit : ℕ)
      → x.le batt (x.of_ℕ limit) ≡ false
      → x.le (x.of_ℕ 0) (battery_cut x batt limit) ≡ true
  unfolding battery_cut
  cut_nonneg batt limit h = fmin_nonneg x _ _ (x.literal_nonneg 75 100) (
      x.mul_nonneg _ _ (x.literal_nonneg 15 100)
        (x.add_nonneg _ _ (x.sub_nonneg _ _ (x.le_total _ _ h)) (x.of_nonneg 1 (omega arith))))

  -- Whatever the battery's temperature is, the ceiling of a domain stays between the floor and the
  -- ceiling of the profile's row.
  pub battery_limited_bounds :
      (p : Profile) (batt : Option x.F) (d : DomainName)
      → ((limits p d).floor ≤ battery_limited x p batt d)
        × (battery_limited x p batt d ≤ (limits p d).ceiling)
  unfolding battery_limited
  battery_limited_bounds p none d = omega (arith, floor-lt-ceiling p d)
  battery_limited_bounds p (some batt) d =
      elim (Bool-cases (x.le batt (x.of_ℕ (battery_limit p)))) [
        | inl e ↦ rw (e, battery_limited) (omega (arith, floor-lt-ceiling p d))
        | inr e ↦
            rw (e, battery_limited)
              (omega (
                arith,
                floor-lt-ceiling p d,
                x.trunc_sub_le (limits p d).ceiling _ (ceiling_exact p d) (
                    x.mul_nonneg _ _
                      (x.of_nonneg ((limits p d).ceiling - (limits p d).floor)
                        (omega (arith, ceiling_exact p d)))
                      (cut_nonneg batt (battery_limit p) e)),
              ))
      ]

-- Every reading is at most `t`.
abbrev pub AtMost : ℤ → List (Option ℤ) → Type 0
AtMost t [] = Unit
AtMost t (none ∷ rs) = AtMost t rs
AtMost t (some r ∷ rs) = (r ≤ℤ t) × AtMost t rs

AtMost-trans : (s t : ℤ) (rs : List (Option ℤ)) → s ≤ℤ t → AtMost s rs → AtMost t rs
AtMost-trans s t [] h a = tt
AtMost-trans s t (none ∷ rs) h a = AtMost-trans s t rs h a
AtMost-trans s t (some r ∷ rs) h a = (omega arith, AtMost-trans s t rs h a.1)

hottest-none : (rs : List (Option ℤ)) (t : ℤ) → hottest rs ≡ none → AtMost t rs
unfolding hottest
hottest-none [] t h = tt
hottest-none (none ∷ rs) t h = hottest-none rs t h
hottest-none (some r ∷ rs) t h = absurd (some-ne-none r (hottest rs) h)
  where
    some-ne-none : (r : ℤ) (o : Option ℤ) → later_max (some r) o ≢ none
    some-ne-none r none = λ e. cc
    some-ne-none r (some s) = λ e. cc

-- One of the readings is `t`.
abbrev pub IsReading : ℤ → List (Option ℤ) → Type 0
IsReading t [] = ⊥
IsReading t (none ∷ rs) = IsReading t rs
IsReading t (some r ∷ rs) = (r ≡ t) ⊎ IsReading t rs

-- The value that `hottest` returns is one of the readings, and no reading is above it.
pub hottest_max :
    (rs : List (Option ℤ)) (t : ℤ) → hottest rs ≡ some t → IsReading t rs × AtMost t rs
unfolding hottest
hottest_max [] t h = cc
hottest_max (none ∷ rs) t h = hottest_max rs t h
hottest_max (some r ∷ rs) t h = elim (Option-cases (hottest rs)) [
  | inl e ↦ ground (arith, hottest-none rs t e)
  | inr (s, e) ↦ ground (arith, hottest_max rs s e, AtMost-trans s r rs)
]
