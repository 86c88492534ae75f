-- ===== src/Thermal/Tests.antt =====
-- The self test of thermald.py, and instances of the theorems.
use y700_linux.Prelude.{ℕ, ◌≡◌, refl, none, some, List, [], ◌∷◌, arith}
use y700_linux.Prelude.Int.{ℤ}
use y700_linux.Thermal.{
  Domain, prime, degrees, new_domain, cap, top, bottom, update, read_profile, object, string,
  unreadable, unhashable, balanced, quiet, index,
}
use y700_linux.Thermal.Control.{IsValid, new_domain-IsValid}
use y700_linux.Thermal.Cooling.{updates, cold-reaches-top, hot-reaches-bottom}

abbrev table : List ℕ
table = 768000 ∷ 1632000 ∷ 2668800 ∷ 3129600 ∷ 3398400 ∷ 3648000 ∷ 4396800 ∷ 4608000 ∷ []

abbrev start : Domain
start = record { name = prime; steps = table; i = 7; cool = 0 }

start_lem : new_domain prime table 4608000 ≡ start
unfolding new_domain
start_lem = refl

-- The selftest of thermald.py, step by step.
abbrev warm : ℕ → Domain → Domain
warm t d = update (degrees t) 3398400 1632000 85 d

selftest_caps :
    let d1 = warm 90 start in
    let d2 = warm 90 d1 in
    let d3 = warm 99 d2 in
    let d4 = warm 84 d3 in
    let d5 = warm 70 (warm 70 d4) in
    let d6 = warm 70 d5 in
    (cap d1 ≡ some 3398400)
    × (cap d2 ≡ some 3129600)
    × (cap d3 ≡ some 1632000)
    × (cap d4 ≡ some 1632000)
    × (cap d5 ≡ some 1632000)
    × (cap d6 ≡ some 2668800)
    × (cap (warm 106 d6) ≡ some 1632000)
unfolding update cap new_domain
selftest_caps = (refl, refl, refl, refl, refl, refl, refl)

start-IsValid : IsValid start
unfolding new_domain
start-IsValid = new_domain-IsValid prime table 4608000 (omega arith)

-- A domain in its second cool round, at the floor.
abbrev resting : Domain
resting = record { name = prime; steps = table; i = 1; cool = 2 }

abbrev nine_cold : List ℤ
nine_cold =
    degrees 60 ∷ degrees 61 ∷ degrees 62 ∷ degrees 60 ∷ degrees 60 ∷ degrees 60 ∷ degrees 60 ∷ []

cold-reaches-top_example : (updates 3398400 1632000 85 nine_cold resting).i ≡ top resting 3398400
unfolding top index
cold-reaches-top_example =
    cold-reaches-top 3398400 1632000 85 nine_cold resting (omega arith) (omega arith) (omega arith)
      (omega arith) (omega arith)

abbrev hot_three : List ℤ
hot_three = degrees 90 ∷ degrees 95 ∷ degrees 86 ∷ []

hot-reaches-bottom_example :
    (updates 3398400 1632000 85 hot_three (record resting { i = 4 })).i
    ≡ bottom (record resting { i = 4 }) 3398400 1632000
unfolding bottom index
hot-reaches-bottom_example =
    hot-reaches-bottom 3398400 1632000 85 hot_three (record resting { i = 4 }) (omega arith)
      (omega arith) (omega arith)

profiles :
    (read_profile unreadable ≡ some balanced)
    × (read_profile (object (some (string "quiet"))) ≡ some quiet)
    × (read_profile (object (some (string "turbo"))) ≡ some balanced)
    × (read_profile (object (some unhashable)) ≡ none)
unfolding read_profile
profiles = (refl, refl, refl, refl)
