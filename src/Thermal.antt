-- ===== src/Thermal.antt =====
-- The step controller of design/thermal-20260920/thermald.py: class Domain, its tables, and the
-- profile that is read from thermal.json.
--
-- A temperature is the number of millidegrees that the zone file holds: `int(text) / 1000` is
-- monotone, and every threshold of the code is a whole number of degrees. Python's negative list
-- index does not occur: `self.i` is clamped to `lo`, which is at least 0.
pub mod Steps
pub mod Control
pub mod Cooling
pub mod Loop
mod Tests
use Prim.Native.String.{String}
use text.Mathlib.Text.{◌==◌ as str_eq}
use y700_linux.Prelude.{
  ℕ, zero, suc, ◌+◌, ◌-◌, ◌*◌, Bool, true, false, Option, none, some, List, [], ◌∷◌, min, max, leb,
  ltb, get_elem?, if◌then◌else◌,
}
use y700_linux.Prelude.Int.{ℤ, pos, sub_ℕ, leb_ℤ, ltb_ℤ}

-- PERIOD counts the rounds of the main loop, and RAISE_AFTER is a number of rounds.
abbrev pub raise_after : ℕ
raise_after = 3

abbrev pub cool_margin : ℕ
cool_margin = 5

abbrev pub far_above : ℕ
far_above = 8

abbrev pub emergency : ℕ
emergency = 105

-- Degrees as millidegrees.
abbrev pub degrees : ℕ → ℤ
degrees c = pos (c * 1000)

pub data DomainName : Type 0 where
  prime eff gpu : DomainName

-- A row (ceiling, floor, target) of a profile.
pub record Limits : Type 0 where
  pub ceiling : ℕ
  pub floor : ℕ
  pub target : ℕ

pub data Profile : Type 0 where
  quiet balanced performance : Profile

-- The rows of PROFILES.
unfoldable pub limits : Profile → DomainName → Limits
limits quiet prime = record { ceiling = 2668800; floor = 1497600; target = 75 }
limits quiet eff = record { ceiling = 2496000; floor = 1440000; target = 75 }
limits quiet gpu = record { ceiling = 726; floor = 382; target = 75 }
limits balanced prime = record { ceiling = 3398400; floor = 1632000; target = 85 }
limits balanced eff = record { ceiling = 3628800; floor = 1440000; target = 85 }
limits balanced gpu = record { ceiling = 1050; floor = 382; target = 85 }
limits performance prime = record { ceiling = 4608000; floor = 1632000; target = 95 }
limits performance eff = record { ceiling = 3628800; floor = 1440000; target = 95 }
limits performance gpu = record { ceiling = 1200; floor = 382; target = 92 }

unfoldable pub battery_limit : Profile → ℕ
battery_limit quiet = 40
battery_limit balanced = 44
battery_limit performance = 46

-- What reading thermal.json gives: no file, no JSON or a document with no `get` (the three caught
-- exceptions), or an object with its "profile" entry. A JSON array or object as the entry is
-- unhashable, so `p in PROFILES` raises TypeError, which nothing catches.
pub data Entry : Type 0 where
  string : String → Entry
  scalar : Entry
  unhashable : Entry

pub data Document : Type 0 where
  unreadable : Document
  object : Option Entry → Document

-- `p if p in PROFILES else DEFAULT_PROFILE` on a text.
profile_named : String → Profile
profile_named p =
    if str_eq p "quiet"
    then quiet
    else if str_eq p "balanced"
    then balanced
    else if str_eq p "performance"
    then performance
    else balanced

-- `none` is the TypeError.
unfoldable pub read_profile : Document → Option Profile
unfolding profile_named
read_profile unreadable = some balanced
read_profile (object none) = some balanced
read_profile (object (some (string p))) = some (profile_named p)
read_profile (object (some scalar)) = some balanced
read_profile (object (some unhashable)) = none

-- sorted(steps)
insert_step : ℕ → List ℕ → List ℕ
insert_step x [] = x ∷ []
insert_step x (y ∷ ys) = let rest = insert_step x ys in if leb x y then x ∷ y ∷ ys else y ∷ rest

unfoldable pub sort_steps : List ℕ → List ℕ
unfolding insert_step
sort_steps [] = []
sort_steps (x ∷ xs) = insert_step x (sort_steps xs)

-- [k for k, s in enumerate(steps) if s <= f], counting from `k`.
unfoldable pub indices_le : ℕ → List ℕ → ℕ → List ℕ
indices_le k [] f = []
indices_le k (s ∷ ss) f = let rest = indices_le (k + 1) ss f in if leb s f then k ∷ rest else rest

-- max(ks or [0])
unfoldable pub max_or_zero : List ℕ → ℕ
max_or_zero [] = 0
max_or_zero (k ∷ ks) = max k (max_or_zero ks)

unfoldable pub index : List ℕ → ℕ → ℕ
unfolding indices_le max_or_zero
index steps f = max_or_zero (indices_le 0 steps f)

pub record Domain : Type 0 where
  pub name : DomainName
  pub steps : List ℕ
  pub i : ℕ
  pub cool : ℕ

unfoldable pub new_domain : DomainName → List ℕ → ℕ → Domain
unfolding sort_steps index
new_domain n steps cap = record {
  name = n;
  steps = sort_steps steps;
  i = index (sort_steps steps) cap;
  cool = 0;
}

-- `none` is the IndexError of an empty table.
unfoldable pub cap : Domain → Option ℕ
cap d = get_elem? d.steps d.i

-- The branches of `update`: the new `i` and `cool`, before the last clamp.
unfoldable pub aim : (temp : ℤ) (target lo hi i cool : ℕ) → ℕ × ℕ
aim temp target lo hi i cool =
    if leb_ℤ (degrees emergency) temp
    then (lo, 0)
    else if ltb_ℤ (degrees target) temp
    then (max lo (i - (if ltb_ℤ (degrees (target + far_above)) temp then 2 else 1)), 0)
    else if ltb_ℤ temp (sub_ℕ (target * 1000) (cool_margin * 1000))
    then (if leb raise_after (cool + 1) then (min hi (i + 1), 0) else (i, cool + 1))
    else (i, 0)

-- `hi` and `lo` of a call.
unfoldable pub top : Domain → ℕ → ℕ
top d ceiling = index d.steps ceiling

unfoldable pub bottom : Domain → ℕ → ℕ → ℕ
bottom d ceiling floor = min (index d.steps floor) (index d.steps ceiling)

unfoldable pub update : ℤ → ℕ → ℕ → ℕ → Domain → Domain
unfolding aim top bottom
update temp ceiling floor target d =
    let hi = top d ceiling in
    let lo = bottom d ceiling floor in
    let (i', cool') = aim temp target lo hi d.i d.cool in
    record d { i = max lo (min hi i'); cool = cool' }
