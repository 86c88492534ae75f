-- ===== src/Desktop/Recovery.antt =====
-- The pure decisions at the start of desktop-service.py: bringup_ready and recovery_action.
--
-- A boot id, the name of a stage and a start time are only compared, and stand as numbers. A Python
-- set that is sorted at once is a sorted list without duplicates.
pub mod Laws
mod Tests
use y700_linux.Prelude.{
  ℕ, zero, suc, Bool, true, false, ◌&&◌, ◌||◌, not, Option, none, some, List, [], ◌∷◌, ◌++◌, ◌==◌,
  ltb, elem, if◌then◌else◌,
}

-- A step of a bring-up run: its stage, and whether its result is 'ok'.
pub record Step : Type 0 where
  pub stage : ℕ
  pub is_ok : Bool

-- bringup-<boot8>.json: the boot and the steps of each run.
pub record Doc : Type 0 where
  pub boot_id : ℕ
  pub runs : List (List Step)

ok_stages : List Step → List ℕ
ok_stages [] = []
ok_stages (s ∷ ss) = let rest = ok_stages ss in if s.is_ok then s.stage ∷ rest else rest

all_ok_stages : List (List Step) → List ℕ
unfolding ok_stages
all_ok_stages [] = []
all_ok_stages (r ∷ rs) = ok_stages r ++ all_ok_stages rs

abbrev pub all_in : List ℕ → List ℕ → Bool
all_in [] ok = true
all_in (n ∷ ns) ok = elem n ok && all_in ns ok

unfoldable pub bringup_ready : Option Doc → ℕ → List ℕ → Bool
unfolding all_ok_stages
bringup_ready none boot need = false
bringup_ready (some d) boot need =
    if d.boot_id == boot then all_in need (all_ok_stages d.runs) else false

pub record Owner : Type 0 where
  pub pid : ℕ
  pub starttime : ℕ

-- fbs.json, as far as the recovery reads it.
pub record Rec : Type 0 where
  pub boot_id : ℕ
  pub owner : Owner
  pub fbs : List ℕ

pub data Refusal : Type 0 where
  other_boot native_gone foreign_planes : Refusal

pub data Recovery : Type 0 where
  nothing : Recovery
  cleanup : List ℕ → Recovery
  restore : List ℕ → Recovery
  refuse : Refusal → Recovery

-- x put into a sorted list, once.
abbrev pub insert_set : ℕ → List ℕ → List ℕ
insert_set x [] = x ∷ []
insert_set x (y ∷ ys) =
    let rest = insert_set x ys in
    if x == y then y ∷ ys else if ltb x y then x ∷ y ∷ ys else y ∷ rest

-- sorted(f for f in rec_fbs if f in existing_fbs)
unfoldable pub leftover : List ℕ → List ℕ → List ℕ
leftover [] existing = []
leftover (f ∷ fs) existing =
    let rest = leftover fs existing in if elem f existing then insert_set f rest else rest

abbrev pub all_native : ℕ → List ℕ → Bool
all_native native [] = true
all_native native (f ∷ fs) = f == native && all_native native fs

abbrev pub all_known : ℕ → List ℕ → List ℕ → Bool
all_known native known [] = true
all_known native known (f ∷ fs) = (f == native || elem f known) && all_known native known fs

abbrev pub same_owner : Owner → Owner → Bool
same_owner a b = a.pid == b.pid && a.starttime == b.starttime

abbrev pub is_ours : Rec → ℕ → Owner → Bool
is_ours r boot owner = r.boot_id == boot && same_owner r.owner owner

unfoldable pub recovery_action : Option Rec → ℕ → Owner → List ℕ → ℕ → List ℕ → Recovery
recovery_action none boot owner planes native existing =
    if not (elem native existing)
    then refuse native_gone
    else if all_native native planes
    then nothing
    else refuse foreign_planes
recovery_action (some r) boot owner planes native existing =
    if not (is_ours r boot owner)
    then refuse other_boot
    else if not (elem native existing)
    then refuse native_gone
    else if all_native native planes
    then cleanup (leftover r.fbs existing)
    else if all_known native r.fbs planes
    then restore (leftover r.fbs existing)
    else refuse foreign_planes
