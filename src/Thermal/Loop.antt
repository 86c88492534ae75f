-- ===== src/Thermal/Loop.antt =====
-- The main loop of thermald.py: hottest, battery_limited, class Actuators and main.
--
-- A round's inputs are what it reads: thermal.json, the battery (`none` where the read raises), the
-- zone files of each domain, and whether the kernel refuses a write to a domain's frequency file. The
-- signal that ends the loop is the end of the list of rounds. Log lines, the status file and the
-- sleep are not modelled: they write nothing that the loop reads.
pub mod Ceiling
pub mod Files
pub mod Settle
pub mod Exit
mod Tests
use y700_linux.Prelude.{
  ℕ, zero, suc, ◌+◌, ◌-◌, Bool, true, false, not, ◌&&◌, Option, none, some, List, [], ◌∷◌, max,
  ◌==◌, if◌then◌else◌,
}
use y700_linux.Prelude.Int.{ℤ, ltb_ℤ}
use y700_linux.Floats.{Floats, fmin}
use y700_linux.Thermal.{
  DomainName, prime, eff, gpu, Profile, Limits, limits, battery_limit, Document, read_profile,
  Domain, cap, update,
}

-- max(vals) over the readings that do not raise.
pub later_max : Option ℤ → Option ℤ → Option ℤ
later_max none b = b
later_max (some a) none = some a
later_max (some a) (some b) = some (if ltb_ℤ a b then b else a)

unfoldable pub hottest : List (Option ℤ) → Option ℤ
unfolding later_max
hottest [] = none
hottest (r ∷ rs) = later_max r (hottest rs)

module _ (x : Floats) where
  -- The battery's part of the formula, min(0.75, 0.15 * (batt - limit + 1)).
  battery_cut : x.F → ℕ → x.F
  battery_cut batt limit =
      fmin x (x.literal 75 100)
        (x.mul (x.literal 15 100) (x.add (x.sub batt (x.of_ℕ limit)) (x.of_ℕ 1)))

  -- Every row of PROFILES has its floor below its ceiling, so `ceiling - floor` is exact on ℕ.
  unfoldable pub battery_limited : Profile → Option x.F → DomainName → ℕ
  unfolding battery_cut
  battery_limited p none d = (limits p d).ceiling
  battery_limited p (some batt) d = elim (x.le batt (x.of_ℕ (battery_limit p))) [
    | true ↦ (limits p d).ceiling
    | false ↦ max (limits p d).floor (
        x.trunc (
          x.sub (x.of_ℕ (limits p d).ceiling) (
            x.mul (x.of_ℕ ((limits p d).ceiling - (limits p d).floor))
              (battery_cut batt (battery_limit p)))))
  ]

abbrev pub same : DomainName → DomainName → Bool
same prime prime = true
same eff eff = true
same gpu gpu = true
same _ _ = false

-- f[n] = v, on a dictionary over the three domains.
abbrev pub put {ℓ} : {A : Type ℓ} → DomainName → A → (DomainName → A) → DomainName → A
put n v f m = if same n m then v else f m

-- Actuators, the domains, and `files`, what the three frequency files hold.
pub record Machine : Type 0 where
  pub dry : Bool
  pub original : DomainName → ℕ
  pub last : DomainName → Option ℕ
  pub doms : DomainName → Domain
  pub files : DomainName → ℕ

abbrev pub is_last : Option ℕ → ℕ → Bool
is_last none v = false
is_last (some w) v = w == v

-- Actuators.set; the flag is false where the write raises OSError.
unfoldable pub set_cap : Bool → DomainName → ℕ → Machine → Machine × Bool
set_cap refused n v m =
    if is_last (m.last n) v
    then (m, true)
    else if m.dry
    then (record m { last = put n (some v) m.last }, true)
    else if refused
    then (m, false)
    else (record m { last = put n (some v) m.last; files = put n v m.files }, true)

-- Actuators.restore on one domain: an OSError is dropped.
unfoldable pub restore_one : (DomainName → Bool) → DomainName → Machine → Machine
restore_one refused n m =
    if m.dry then m else if refused n then m else record m { files = put n (m.original n) m.files }

unfoldable pub restore : (DomainName → Bool) → Machine → Machine
unfolding restore_one
restore refused m = restore_one refused gpu (restore_one refused eff (restore_one refused prime m))

-- One statement after another, until one raises.
abbrev pub chain : Machine × Bool → (Machine → Machine × Bool) → Machine × Bool
chain (m, true) next = next m
chain (m, false) next = (m, false)

-- `none` is the IndexError of an empty frequency table.
unfoldable pub apply_cap : Option ℕ → Bool → DomainName → Machine → Machine × Bool
apply_cap none refused n m = (m, false)
apply_cap (some v) refused n m = set_cap refused n v m

pub record Round (x : Floats) : Type 0 where
  pub document : Document
  pub battery : Option x.F
  pub zones : DomainName → List (Option ℤ)
  pub refused : DomainName → Bool

module _ (x : Floats) where
  -- The body of `for d, dom in doms.items()` at the reading `temp`. On an empty table the code raises
  -- at `old = dom.cap`, before the update; here behind it, and nothing reads the domain any more.
  unfoldable pub control : Profile → Round x → DomainName → Option ℤ → Machine → Machine × Bool
  control p r n none m = (m, true)
  control p r n (some temp) m =
      let d =
        update temp (battery_limited x p r.battery n) (limits p n).floor (limits p n).target
          (m.doms n) in
      apply_cap (cap d) (r.refused n) n (record m { doms = put n d m.doms })

  unfoldable pub sweep : Profile → Round x → Machine → Machine × Bool
  sweep p r m =
      chain
        (chain (control p r prime (hottest (r.zones prime)) m)
          (control p r eff (hottest (r.zones eff))))
        (control p r gpu (hottest (r.zones gpu)))

  -- One turn of the loop under the profile that was read; `none` is the TypeError.
  unfoldable pub round : Round x → Option Profile → Machine → Machine × Bool
  round r none m = (m, false)
  round r (some p) m = sweep p r m

  unfoldable pub run : List (Round x) → Machine → Machine × Bool
  run [] m = (m, true)
  run (r ∷ rs) m = chain (round r (read_profile r.document) m) (run rs)

  -- `main` after the set-up: the loop, and the `finally` clause whether or not it raised.
  unfoldable pub main : List (Round x) → (DomainName → Bool) → Machine → Machine
  main rs refused m = restore refused (run rs m).0
