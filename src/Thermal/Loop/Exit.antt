-- ===== src/Thermal/Loop/Exit.antt =====
-- How a run of main of thermald.py ends.
use y700_linux.Prelude.{
  ℕ, ◌≡◌, if◌then◌else◌, refl, Bool, true, false, Option, none, some, List, [], ◌∷◌, arith,
}
use y700_linux.Prelude.Int.{ℤ}
use y700_linux.Floats.{Floats}
use y700_linux.Thermal.{DomainName, prime, eff, gpu, Profile, cap, read_profile}
use y700_linux.Thermal.Loop.{
  Machine, Round, set_cap, restore, chain, put, apply_cap, control, sweep, round, run, main,
  hottest,
}
use y700_linux.Thermal.Loop.Files.{stepped}

-- What a run never changes.
abbrev Frame : Machine → Machine → Type 0
Frame m m' = (m'.dry ≡ m.dry) × (m'.original ≡ m.original) × (m.dry ≡ true → m'.files ≡ m.files)

set_cap-Frame :
    (refused : Bool) (k : DomainName) (v : ℕ) (m : Machine) → Frame m (set_cap refused k v m).0
unfolding set_cap
set_cap-Frame refused k v m = ground arith

Frame-trans : (a b c : Machine) → Frame a b → Frame b c → Frame a c
Frame-trans a b c h k = ground arith

chain-Frame :
    (m : Machine) (a : Machine × Bool) (f : Machine → Machine × Bool)
    → Frame m a.0
    → ((m' : Machine) → Frame m' (f m').0)
    → Frame m (chain a f).0
chain-Frame m (m1, true) f h k = Frame-trans m m1 (f m1).0 h (k m1)
chain-Frame m (m1, false) f h k = h

module _ (x : Floats) where
  control-Frame :
      (p : Profile) (r : Round x) (k : DomainName) (o : Option ℤ) (m : Machine)
      → Frame m (control x p r k o m).0
  unfolding control apply_cap
  control-Frame p r k none m = (refl, refl, λ _. refl)
  control-Frame p r k (some t) m = go (cap (stepped x p r k t m))
    where
      m' : Machine
      m' = record m { doms = put k (stepped x p r k t m) m.doms }

      go : (c : Option ℕ) → Frame m (apply_cap c (r.refused k) k m').0
      go none = (refl, refl, λ _. refl)
      go (some v) = set_cap-Frame (r.refused k) k v m'

  round-Frame : (r : Round x) (o : Option Profile) (m : Machine) → Frame m (round x r o m).0
  unfolding round sweep
  round-Frame r none m = (refl, refl, λ _. refl)
  round-Frame r (some p) m =
      chain-Frame m _ _
        (chain-Frame m _ _ (control-Frame p r prime (hottest (r.zones prime)) m)
          (control-Frame p r eff (hottest (r.zones eff))))
        (control-Frame p r gpu (hottest (r.zones gpu)))

  run-Frame : (rs : List (Round x)) (m : Machine) → Frame m (run x rs m).0
  unfolding run
  run-Frame [] m = (refl, refl, λ _. refl)
  run-Frame (r ∷ rs) m =
      chain-Frame m _ _ (round-Frame r (read_profile r.document) m) (run-Frame rs)

restore_all :
    (refused : DomainName → Bool) (m : Machine) (n : DomainName)
    → (restore refused m).files n
      ≡ (if m.dry then m.files n else if refused n then m.files n else m.original n)
unfolding restore
restore_all refused m prime = ground arith
restore_all refused m eff = ground arith
restore_all refused m gpu = ground arith

module _ (x : Floats) (rs : List (Round x)) (refused : DomainName → Bool) (m : Machine) where
  -- However the loop ends, by the signal or by an exception in any round, each frequency file holds
  -- the original maximum afterwards, unless it is a dry run or the kernel refuses that last write.
  pub main_restores :
      (n : DomainName)
      → m.dry ≡ false
      → refused n ≡ false
      → (main x rs refused m).files n ≡ m.original n
  unfolding main
  main_restores n d h = ground (arith, run-Frame x rs m, restore_all refused (run x rs m).0 n)

  -- A dry run leaves every frequency file as it was.
  pub main_dry : (n : DomainName) → m.dry ≡ true → (main x rs refused m).files n ≡ m.files n
  unfolding main
  main_dry n d = ground (arith, run-Frame x rs m, restore_all refused (run x rs m).0 n)
