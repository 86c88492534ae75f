-- ===== src/Thermal/Loop/Tests.antt =====
-- Rounds of main of thermald.py on concrete inputs, and instances of the theorems.
use y700_linux.Prelude.{ℕ, ◌<◌, ◌≡◌, refl, false, Option, none, some, List, [], ◌∷◌, arith}
use y700_linux.Prelude.Int.{ℤ}
use y700_linux.Floats.{fmin}
use y700_linux.Floats.Fixed.{thousandths}
use y700_linux.Thermal.{
  index, battery_limit, performance, DomainName, prime, eff, gpu, balanced, quiet, object,
  unhashable, Profile, limits, cap, update, degrees, read_profile, unreadable,
}
use y700_linux.Thermal.Loop.{
  Machine, Round, round, sweep, run, main, battery_limited, hottest, control, set_cap, apply_cap,
}
use y700_linux.Thermal.Steps.{count_le}
use y700_linux.Thermal.Loop.Files.{IsReady, Settled}
use y700_linux.Thermal.Loop.Settle.{sweep_settles}
use y700_linux.Thermal.Loop.Exit.{main_restores}

abbrev steps : DomainName → List ℕ
steps prime = 768000 ∷ 1440000 ∷ 2668800 ∷ 3398400 ∷ 4608000 ∷ []
steps eff = 384000 ∷ 1440000 ∷ 2496000 ∷ 3628800 ∷ []
steps gpu = 160 ∷ 382 ∷ 726 ∷ 1050 ∷ 1200 ∷ []

abbrev maximum : DomainName → ℕ
maximum prime = 4608000
maximum eff = 3628800
maximum gpu = 1200

abbrev top_index : DomainName → ℕ
top_index prime = 4
top_index eff = 3
top_index gpu = 4

abbrev machine : Machine
machine = record {
  dry = false;
  original = maximum;
  last = λ n. none;
  doms = λ n. record { name = n; steps = steps n; i = top_index n; cool = 0 };
  files = maximum;
}

-- The prime cores are hot, the others in the band; the battery is two degrees over its limit.
abbrev readings : DomainName → List (Option ℤ)
readings prime = some (degrees 70) ∷ none ∷ some (degrees 99) ∷ []
readings eff = some (degrees 82) ∷ []
readings gpu = []

abbrev hot_round : Round thousandths
hot_round = record {
  document = unreadable;
  battery = some 46000;
  zones = readings;
  refused = λ n. false;
}

hot_round_runs :
    ((sweep thousandths balanced hot_round machine).0.files prime ≡ 1440000)
    × ((sweep thousandths balanced hot_round machine).0.files eff ≡ 2496000)
    × ((sweep thousandths balanced hot_round machine).0.files gpu ≡ 1200)
unfolding sweep control hottest battery_limited limits update cap set_cap fmin apply_cap index
    battery_limit
hot_round_runs = (refl, refl, refl)

low_steps : (p : Profile) (n : DomainName) → 0 < count_le (limits p n).floor (steps n)
unfolding limits
low_steps quiet prime = omega arith
low_steps quiet eff = omega arith
low_steps quiet gpu = omega arith
low_steps balanced prime = omega arith
low_steps balanced eff = omega arith
low_steps balanced gpu = omega arith
low_steps performance prime = omega arith
low_steps performance eff = omega arith
low_steps performance gpu = omega arith

machine-IsReady : IsReady machine
machine-IsReady = record {
  live = refl;
  tracks = λ n v d e. cc;
  valid = elim [ prime ↦ omega arith | eff ↦ omega arith | gpu ↦ omega arith ];
  low = low_steps;
}

sweep_settles_example : Settled balanced prime (sweep thousandths balanced hot_round machine).0
unfolding sweep control hottest battery_limited limits update cap set_cap fmin apply_cap index
    battery_limit
sweep_settles_example =
    sweep_settles thousandths balanced hot_round machine prime (degrees 99) machine-IsReady refl
      refl

-- The second round reads a thermal.json whose profile is a list, and raises.
abbrev broken_round : Round thousandths
broken_round = record hot_round { document = object (some unhashable) }

broken_round_raises : (run thousandths (hot_round ∷ broken_round ∷ []) machine).1 ≡ false
unfolding run sweep control hottest battery_limited limits update cap set_cap fmin apply_cap index
    battery_limit read_profile round
broken_round_raises = refl

main_restores_example :
    (main thousandths (hot_round ∷ broken_round ∷ []) (λ n. false) machine).files prime ≡ 4608000
main_restores_example =
    main_restores thousandths (hot_round ∷ broken_round ∷ []) (λ n. false) machine prime refl refl
