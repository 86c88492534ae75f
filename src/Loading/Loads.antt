-- ===== src/Loading/Loads.antt =====
-- load and main of design/nextboot-impl/load-stage.py, and observe of bootmon.py.
--
-- What the kernel, insmod and the monitor do is an argument, `World`, that answers from all effects
-- before. A loop that waits is the list of its turns, with the milliseconds since its start; where the
-- list ends before the loop does, the run is interrupted, which raises. The reports of a stage behind its
-- loads are one answer, whether they raise.
use Prim.Native.String.{String, ◌++◌ as ◌<>◌}
use text.Mathlib.Text.{◌==◌ as str_eq}
use y700_linux.Prelude.{
  ℕ, ◌+◌, ◌-◌, Bool, true, false, not, ◌&&◌, Option, none, some, List, [], ◌∷◌, ◌++◌, ◌==◌, max,
  ltb, leb, map, select, if◌then◌else◌,
}
use y700_linux.Loading.{View, Verdict, passed, raised, stopped}
use y700_linux.Loading.Bundle.{File, Manifest, module_name}
use y700_linux.Loading.Preflight.{preflight}

pub data Effect : Type 0 where
  saved_attempt saved_result fs_ready : Effect
  installed insmod : String → Effect

-- A turn of observe: what its tick returns, whether there are unknown tasks; `none` raises.
pub record Turn : Type 0 where
  pub now : ℕ
  pub unknown : Option Bool

-- A turn of a wait: whether its tick returns.
pub record Poll : Type 0 where
  pub elapsed : ℕ
  pub is_calm : Bool

pub record World : Type 0 where
  pub turns : List Effect → List Turn
  -- The turns while insmod runs, its exit status, and the turns until a wait is bound.
  pub polls : List Effect → List Poll
  pub returncode : List Effect → ℕ
  pub waits : List Effect → String → List Poll
  -- The turns of the calibration, with the outcome that the log shows.
  pub calibration : List Effect → List (Poll × Option Bool)
  pub is_calm : List Effect → Bool
  pub is_live : List Effect → String → Bool
  pub has_ramoops : List Effect → Bool
  pub has_same_drm : List Effect → Bool
  -- Whether a file that must not exist can be made and written, and the lock is free.
  pub makes : List Effect → String → Bool
  pub has_lock : List Effect → Bool
  pub is_bound : List Effect → String → Bool
  -- display_extra, where the stage installs it, and the reports behind the loads.
  pub extra : List Effect → Bool
  pub reports : List Effect → Bool
  -- The digest of a file of /lib/firmware, and whether it is there.
  pub firmware : List Effect → String → Option String
  pub bundled : String → Option String

pub record State : Type 0 where
  pub loaded : List String
  pub effects : List Effect

-- A step returns or raises.
abbrev pub Step : Type 0
Step = State × Bool

abbrev pub and_then : Step → (State → Step) → Step
and_then (s, true) k = k s
and_then (s, false) k = (s, false)

abbrev pub require : Bool → State → Step
require ok s = (s, ok)

abbrev pub record_effect : Effect → State → State
record_effect e s = record s { effects = e ∷ s.effects }

abbrev pub stable_at : Bool → ℕ → Option ℕ → Option ℕ
stable_at true now stable = none
stable_at false now none = some now
stable_at false now (some t) = some t

-- now - stable >= 2
abbrev pub is_stable : Option ℕ → ℕ → Bool
is_stable none now = false
is_stable (some t) now = leb 2000 (now - t)

abbrev pub on_turn : Option Bool → (Bool → Bool) → Bool
on_turn none k = false
on_turn (some unknown) k = k unknown

-- The loop of observe for `ms`, from the time since which no task was unknown.
unfoldable pub observe_by : Bool → ℕ → Option ℕ → List Turn → Bool
observe_by quiet ms stable [] = false
observe_by quiet ms stable (t ∷ ts) = on_turn t.unknown λ unknown.
    let since = stable_at unknown t.now stable in
    let rest = observe_by quiet ms since ts in
    if leb ms t.now && (if quiet then is_stable since t.now else true)
    then true
    else (if quiet && leb (max 20000 (ms + 20000)) t.now then false else rest)

abbrev pub observe : World → ℕ → State → Step
observe w ms s = (s, observe_by true ms none (w.turns s.effects))

-- A wait of less than `ms`, with a tick in each of its turns.
unfoldable pub polled : ℕ → List Poll → Bool
polled ms [] = true
polled ms (p ∷ ps) = p.is_calm && ltb p.elapsed ms && polled ms ps

-- MGMT_FLAP_S
abbrev pub flap_ms : ℕ
flap_ms = 30000

-- The check of the management link in display_extra, on when it went down, the time and whether it is
-- up: when it is down since, or `none` where it raises.
unfoldable pub flap : Option ℕ → ℕ → Bool → Option (Option ℕ)
flap since now true = some none
flap none now false = if ltb (now - now) flap_ms then some (some now) else none
flap (some t) now false = if ltb (now - t) flap_ms then some (some t) else none

-- What the manifest says of the waits: the module behind which a kind of wait is bound.
pub record Plan : Type 0 where
  pub bind_now : List String
  pub bind_after : List (String × String)
  pub has_extra : Bool
  pub is_wifi_b : Bool
  pub calibration_done : Bool
  pub firmware_install : List File

abbrev pub waits_of : String → List (String × String) → List String
waits_of name bs = map (λ b. b.0) (select (λ b. str_eq b.1 name) bs)

unfoldable pub wait_all : World → List String → State → Step
wait_all w [] s = (s, true)
wait_all w (k ∷ ks) s = and_then (require (polled 130000 (w.waits s.effects k)) s) (wait_all w ks)

abbrev pub add_loaded : String → State → State
add_loaded name s = record s { loaded = s.loaded ++ name ∷ [] }

abbrev pub ramoops_ok : World → String → State → Step
ramoops_ok w name s =
    require (if str_eq name "qcom_dynamic_ramoops" then w.has_ramoops s.effects else true) s

-- Behind the start of insmod.
unfoldable pub inserted : World → Plan → String → State → Step
inserted w p name s = and_then (require (polled 25000 (w.polls s.effects)) s) λ s.
    and_then (require (w.returncode s.effects == 0) s) λ s.
      and_then (require (w.is_calm s.effects) (add_loaded name s)) λ s.
        and_then (require (w.is_live s.effects name) s) λ s.
          and_then (observe w 3000 s)
            λ s. and_then (wait_all w (waits_of name p.bind_after) s) (ramoops_ok w name)

unfoldable pub load : World → Plan → String → State → Step
load w p file s = and_then (observe w 2000 s) λ s.
    and_then (require (w.makes s.effects (file <> ".log")) s)
      λ s. inserted w p (module_name file) (record_effect (insmod file) s)

-- The display is unchanged, where no check of each tick says so.
abbrev pub drm_ok : World → Plan → State → Step
drm_ok w p s = require (if p.has_extra then true else w.has_same_drm s.effects) s

unfoldable pub load_all : World → Plan → List String → State → Step
load_all w p [] s = (s, true)
load_all w p (f ∷ fs) s = and_then (load w p f s) λ s. and_then (drm_ok w p s) (load_all w p fs)

-- The loop of the calibration, until the log shows an outcome.
unfoldable pub calibrated : List (Poll × Option Bool) → Bool
calibrated [] = false
calibrated ((p, none) ∷ ps) = p.is_calm && ltb p.elapsed 180000 && calibrated ps
calibrated ((p, some ok) ∷ ps) = p.is_calm && ltb p.elapsed 180000 && ok

unfoldable pub calibrate : World → State → Step
calibrate w s =
    let written = record_effect fs_ready s in
    and_then (require (calibrated (w.calibration written.effects)) written) (observe w 5000)

abbrev pub calibrate_if : World → Plan → State → Step
calibrate_if w p s = if p.is_wifi_b && not p.calibration_done then calibrate w s else (s, true)

abbrev pub is_text : Option String → String → Bool
is_text none t = false
is_text (some s) t = str_eq s t

abbrev pub is_missing : Option String → Bool
is_missing none = true
is_missing (some s) = false

-- A file of the firmware is installed where it is missing, and read back.
abbrev pub install_missing : World → File → State → Step
install_missing w f s =
    and_then (require (is_text (w.bundled f.0) f.1) s)
      (λ s. (record_effect (installed f.0) s, true))

unfoldable pub install : World → File → State → Step
install w f s =
    let written =
      if is_missing (w.firmware s.effects f.0) then install_missing w f s else (s, true) in
    and_then written (λ s. require (is_text (w.firmware s.effects f.0) f.1) s)

unfoldable pub install_all : World → List File → State → Step
install_all w [] s = (s, true)
install_all w (f ∷ fs) s = and_then (install w f s) (install_all w fs)

-- The body of the try.
unfoldable pub body : World → Plan → Manifest → State → Step
body w p m s = and_then (calibrate_if w p s) λ s.
    and_then (install_all w p.firmware_install s)
      λ s. and_then (load_all w p m.load_order s) λ s. require (w.reports s.effects) s

-- The finally clause saves the result whichever way the body ends; it raises where save does, which opens
-- a file that must not exist.
abbrev pub finally : World → Step → Step
finally w (s, ok) =
    if w.makes s.effects "result.json" then (record_effect saved_result s, ok) else (s, false)

abbrev pub bound_all : World → List Effect → List String → Bool
bound_all w es [] = true
bound_all w es (k ∷ ks) = w.is_bound es k && bound_all w es ks

-- Under the lock: the waits and the baseline, then the attempt is recorded before anything is done.
unfoldable pub apply : World → Plan → Manifest → State → Step
apply w p m s = and_then (require (w.has_lock s.effects) s) λ s.
    and_then (require (bound_all w s.effects ("adci" ∷ p.bind_now)) s) λ s.
      and_then (require (if p.has_extra then w.extra s.effects else true) s) λ s.
        and_then (observe w 15000 s) λ s.
          and_then (require (w.makes s.effects "attempt.json") s)
            λ s. finally w (body w p m (record_effect saved_attempt s))

abbrev pub is_passed : Verdict → Bool
is_passed passed = true
is_passed raised = false
is_passed (stopped message) = false

abbrev pub start : State
start = record { loaded = []; effects = [] }

-- main with --check, or with --apply by a user who may be root.
unfoldable pub main : Bool → Bool → View → World → Plan → Manifest → Step
main is_apply is_root v w p m =
    and_then (require (is_passed (preflight v m)) start)
      λ s. if is_apply then and_then (require is_root s) (apply w p m) else (s, true)
