-- ===== src/Loading.antt =====
-- The loader of a stage of kernel modules, design/nextboot-impl/load-stage.py: what it reads, and the
-- checks that it makes; with bootmon.py, which watches the boot, and registry.py, which tells the
-- processes of this boot.
--
-- The files of the system are an argument, `View`: what c.read returns, without the white space around
-- it (`none` where it raises), what stands in a directory, and which path is a link. A path is a text.
-- A check is a condition with the message that need raises; `none` is a condition that raises itself.
pub mod Bundle
pub mod Radio
pub mod Audio
pub mod Preflight
pub mod LinkUp
pub mod Loads
pub mod Order
mod Tests
use Prim.Native.String.{String, len, slice, ◌++◌ as ◌<>◌}
use text.Mathlib.Text.{◌==◌ as str_eq, find?}
use y700_linux.Prelude.{
  ℕ, zero, suc, ◌-◌, Bool, true, false, not, ◌&&◌, ◌||◌, Option, none, some, List, [], ◌∷◌, ◌++◌,
  ◌==◌, map, select, any, if◌then◌else◌,
}

-- A consumer of a supplier: its name behind the first and behind the second colon of the link, and
-- whether a driver is bound to it.
pub record Consumer : Type 0 where
  pub name : String
  pub device : String
  pub is_bound : Bool

-- What a registry names of a process, and what /proc shows of one.
pub record Proc : Type 0 where
  pub pid : ℕ
  pub starttime : String
  pub cmd : List String

pub record Registry : Type 0 where
  pub boot_id : String
  pub hci : String
  -- r['pdmapper'] or r['keeper'].
  pub process : Proc

pub record View : Type 0 where
  pub read : String → Option String
  pub digest : String → Option String
  pub exists : String → Bool
  pub is_file : String → Bool
  pub is_link : String → Bool
  -- Path(p).resolve().name, and Path(p).name.
  pub target : String → String
  pub base_name : String → String
  -- The paths that match a pattern in a directory, the names of a directory, and the links of a supplier.
  pub glob : String → String → List String
  pub names : String → Option (List String)
  pub consumers : String → List Consumer
  -- Python's sorted, on texts.
  pub sorted : List String → List String
  pub bundle : String
  -- os.uname().release; the slot that /proc/bootconfig names; the devices that are mounted at /.
  pub release : String
  pub has_slot_a : Bool
  pub roots : List String
  pub build_id : String → Option String
  pub live : List String
  -- The registry of a kind, where there is one, and the process of a number.
  pub registry : String → Option Registry
  pub process : ℕ → Option Proc

-- Python's `x in xs` and `x in s` on texts.
abbrev pub within : String → List String → Bool
within a xs = any (λ x. str_eq x a) xs

abbrev pub is_some : {A : Type 0} → Option A → Bool
is_some none = false
is_some (some a) = true

abbrev pub contains : String → String → Bool
contains s t = is_some (find? s t)

abbrev pub is_empty : {A : Type 0} → List A → Bool
is_empty [] = true
is_empty (x ∷ xs) = false

abbrev pub same_texts : List String → List String → Bool
same_texts [] [] = true
same_texts (x ∷ xs) (y ∷ ys) = str_eq x y && same_texts xs ys
same_texts xs ys = false

abbrev pub Check : Type 0
Check = Option Bool × String

abbrev pub need : Bool → String → Check
need ok message = (some ok, message)

pub data Verdict : Type 0 where
  passed raised : Verdict
  stopped : String → Verdict

-- The checks in their order: the first one that does not hold ends the run.
unfoldable pub verdict : List Check → Verdict
verdict [] = passed
verdict ((none, message) ∷ cs) = raised
verdict ((some false, message) ∷ cs) = stopped message
verdict ((some true, message) ∷ cs) = verdict cs

-- Python's `and` on conditions that may raise.
abbrev pub also : Option Bool → Option Bool → Option Bool
also none c = none
also (some false) c = some false
also (some true) c = c

-- c.read(p).strip() == text
abbrev pub reads : Option String → String → Option Bool
reads none s = none
reads (some t) s = some (str_eq t s)

-- not list(p.iterdir()), and whether the names of a directory are these.
abbrev pub no_names : Option (List String) → Option Bool
no_names none = none
no_names (some xs) = some (is_empty xs)

abbrev pub names_are : View → Option (List String) → List String → Option Bool
names_are v none ys = none
names_are v (some xs) ys = some (same_texts (v.sorted xs) ys)

abbrev pub concat_map : {A : Type 0} → (A → List Check) → List A → List Check
concat_map f [] = []
concat_map f (x ∷ xs) = f x ++ concat_map f xs

abbrev pub devices : String → String
devices dev = "/sys/bus/platform/devices/" <> dev

abbrev pub driver : String → String
driver path = path <> "/driver"

abbrev pub carrier : String → String
carrier net = "/sys/class/net/" <> net <> "/carrier"

-- The check of the management link, where the manifest names one.
abbrev pub link_up : View → Option String → Check
link_up v none = need true "management link down"
link_up v (some net) = (reads (v.read (carrier net)) "1", "management link down")

abbrev pub unbound : List Consumer → List String
unbound [] = []
unbound (c ∷ cs) = if c.is_bound then unbound cs else c.name ∷ unbound cs

-- unbound_consumers: the names of the consumers that have no driver.
abbrev pub unbound_consumers : View → String → List String
unbound_consumers v sup = v.sorted (unbound (v.consumers sup))

-- What load of registry.py requires of a registry, and what it returns.
abbrev pub of_boot : Option Registry → String → List Check
of_boot none boot = need false "no registry for this boot" ∷ []
of_boot (some r) boot = need (str_eq r.boot_id boot) "registry boot mismatch" ∷ []

-- The first words of a command line.
abbrev pub starts_cmd : List String → List String → Bool
starts_cmd ws [] = true
starts_cmd [] (c ∷ cs) = false
starts_cmd (w ∷ ws) (c ∷ cs) = str_eq w c && starts_cmd ws cs

abbrev pub runs : Option Proc → Proc → List Check
runs none p = need false "registered process gone/changed" ∷ []
runs (some q) p =
    need (str_eq q.starttime p.starttime) "registered process gone/changed"
    ∷ need (starts_cmd q.cmd p.cmd) "registered process command changed"
    ∷ []

-- process_ok of registry.py, on the process of a registry that load returned.
abbrev pub process_ok : View → Option Registry → List Check
process_ok v none = []
process_ok v (some r) = runs (v.process r.process.pid) r.process

unfoldable pub registered : View → String → String → List Check
registered v boot kind = of_boot (v.registry kind) boot ++ process_ok v (v.registry kind)
