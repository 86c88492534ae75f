-- ===== src/Bringup.antt =====
-- The staged bring-up, design/nextboot-impl/bringup.py: the stages, the bundles of a stage, and main.
--
-- A bundle is a directory boot-<stage>-<16 characters>; its manifest, the mark of an attempt and the
-- status of its result are what the code reads of it. `store` lists them by their modification time.
-- The programs that main starts are an argument, `World`: the check of a bundle, the build of a new
-- one and its application, each of which may depend on what was done before it. Log lines, the
-- governor's files and the owner of the log are left out.

pub mod Turns
pub mod Store
pub mod Once
pub mod Codes
pub mod Done
mod Tests
use Prim.Native.String.{String}
use text.Mathlib.Text.{◌==◌ as str_eq}
use y700_linux.Prelude.{
  ℕ, zero, suc, Bool, true, false, not, ◌&&◌, ◌||◌, Option, none, some, List, [], ◌∷◌, ◌++◌, ◌==◌,
  leb, if◌then◌else◌, select, first, last, backwards,
}

-- The names of STAGES.
pub data Stage : Type 0 where
  pstore display owner governor gpu keeper touch adc wifi_a wifi_b wifi_connect bt_a bt_b btkeeper :
      Stage
  qrtr_smd adsp audio_c1 audio_c : Stage

abbrev pub stages : List Stage
stages =
    pstore ∷ display ∷ owner ∷ governor ∷ gpu ∷ keeper ∷ touch ∷ adc ∷ wifi_a ∷ wifi_b
    ∷ wifi_connect ∷ bt_a ∷ bt_b ∷ btkeeper ∷ qrtr_smd ∷ adsp ∷ audio_c1 ∷ audio_c ∷ []

-- names.index(stage)
unfoldable pub position : Stage → ℕ
position pstore = 0
position display = 1
position owner = 2
position governor = 3
position gpu = 4
position keeper = 5
position touch = 6
position adc = 7
position wifi_a = 8
position wifi_b = 9
position wifi_connect = 10
position bt_a = 11
position bt_b = 12
position btkeeper = 13
position qrtr_smd = 14
position adsp = 15
position audio_c1 = 16
position audio_c = 17

-- The success status of a stage; the two built-in steps have none.
unfoldable pub success : Stage → Option String
success pstore = some "STAGE_PSTORE_LOADED"
success display = some "STAGE_DISPLAY_LOADED"
success owner = some "DISPLAY_OWNER_READY_AWAITING_VISUAL_CONFIRMATION"
success governor = none
success gpu = some "STAGE_GPU_LOADED"
success keeper = some "GPU_KEEPER_READY"
success touch = some "STAGE_TOUCH_LOADED"
success adc = some "STAGE_ADC_LOADED"
success wifi_a = some "STAGE_WIFI_A_LOADED"
success wifi_b = some "STAGE_WIFI_B_LOADED"
success wifi_connect = none
success bt_a = some "STAGE_BT_A_LOADED"
success bt_b = some "STAGE_BT_B_LOADED"
success btkeeper = some "BT_KEEPER_READY"
success qrtr_smd = some "STAGE_QRTR_SMD_LOADED"
success adsp = some "ADSP_RUNNING_OBSERVED"
success audio_c1 = some "STAGE_AUDIO_C1_LOADED"
success audio_c = some "STAGE_AUDIO_C_LOADED"

-- manifest.json: its boot and its stage.
pub record Manifest : Type 0 where
  pub boot : ℕ
  pub stage : Stage

-- A directory with a name of the right length; `status` is that of a readable result.json.
pub record Bundle : Type 0 where
  pub stage : Stage
  pub id : ℕ
  pub manifest : Option Manifest
  pub is_attempted : Bool
  pub status : Option String

abbrev pub same_stage : Stage → Stage → Bool
same_stage a b = position a == position b

abbrev pub fits : Stage → ℕ → Option Manifest → Bool
fits st boot none = false
fits st boot (some m) = m.boot == boot && same_stage m.stage st

-- The test of `bundles`.
abbrev pub is_of : Stage → ℕ → Bundle → Bool
is_of st boot b = same_stage b.stage st && fits st boot b.manifest

abbrev pub bundles : Stage → ℕ → List Bundle → List Bundle
bundles st boot store = select (is_of st boot) store

abbrev pub is_success : Option String → Option String → Bool
is_success none status = false
is_success (some good) none = false
is_success (some good) (some s) = str_eq s good

-- (result(d) or {}).get('status') in ok
abbrev pub is_ok : Stage → Bundle → Bool
is_ok st b = is_success (success st) b.status

pub data Note : Type 0 where
  ok dry build_failed : Note
  rc : ℕ → Note
  skip stop_attempted check_failed failed : ℕ → Note

-- What main does to the system: a bundle that is built, and one that was applied, as it was left.
pub data Effect : Type 0 where
  built : Bundle → Effect
  applied : Bundle → Effect

pub record State : Type 0 where
  pub store : List Bundle
  pub steps : List (Stage × Note)
  -- The latest one first.
  pub effects : List Effect

-- What a runner leaves in its bundle.
pub record After : Type 0 where
  pub is_attempted : Bool
  pub status : Option String

pub record World : Type 0 where
  pub check_ok : List Effect → Bundle → Bool
  pub build : List Effect → Stage → Option Bundle
  pub apply : List Effect → Bundle → After
  pub wifi_rc : List Effect → ℕ

pub record Options : Type 0 where
  pub boot : ℕ
  -- bringup.disable exists, and the user is root.
  pub is_disabled : Bool
  pub is_root : Bool
  pub is_dry : Bool
  pub has_wifi : Bool
  pub upto : Stage
  pub start : Option Stage

abbrev pub from_start : Option Stage → Stage → Bool
from_start none st = true
from_start (some s) st = leb (position s) (position st)

abbrev pub in_range : Options → Stage → Bool
in_range o st = leb (position st) (position o.upto) && from_start o.start st

-- stage in todo, behind the two lines on wifi-connect
unfoldable pub is_todo : Options → Stage → Bool
is_todo o st =
    if same_stage st wifi_connect
    then in_range o st && (o.has_wifi || same_stage o.upto wifi_connect)
      || o.has_wifi && leb (position wifi_b) (position o.upto)
    else in_range o st

abbrev pub note : Stage → Note → State → State
note st n s = record s { steps = s.steps ++ (st, n) ∷ [] }

-- A stage ends with the next one, or with an exit code.
abbrev pub Outcome : Type 0
Outcome = State × Option ℕ

abbrev pub same_dir : Bundle → Bundle → Bool
same_dir a b = same_stage a.stage b.stage && a.id == b.id

abbrev pub outcome_of : After → Bundle → Bundle
outcome_of a b = record b { is_attempted = a.is_attempted; status = a.status }

-- The applied directory is the one that was changed last.
abbrev pub put : Bundle → List Bundle → List Bundle
put b store = select (λ d. not (same_dir b d)) store ++ b ∷ []

-- `--apply`, and the result that it leaves.
unfoldable pub apply_bundle : World → Stage → Bundle → State → Outcome
apply_bundle w st b s =
    let b' = outcome_of (w.apply s.effects b) b in
    let s' = record s { store = put b' s.store; effects = applied b' ∷ s.effects } in
    if is_ok st b' then (note st ok s', none) else (note st (failed b.id) s', some 6)

abbrev pub try_apply : World → Options → Stage → Bundle → State → Outcome
try_apply w o st b s = if o.is_dry then (note st dry s, none) else apply_bundle w st b s

-- A bundle that was just built is checked before it is applied.
abbrev pub after_build : World → Options → Stage → Option Bundle → State → Outcome
after_build w o st none s = (note st build_failed s, some 4)
after_build w o st (some b) s =
    let s' = record s { store = put b s.store; effects = built b ∷ s.effects } in
    if w.check_ok s'.effects b
    then try_apply w o st b s'
    else (note st (check_failed b.id) s', some 5)

-- `bundle`, the last bundle without an attempt that passes its check, or a new one.
abbrev pub with_bundle : World → Options → Stage → Option Bundle → State → Outcome
with_bundle w o st (some b) s = try_apply w o st b s
with_bundle w o st none s =
    if o.is_dry then (note st dry s, none) else after_build w o st (w.build s.effects st) s

abbrev pub is_fresh : World → List Effect → Bundle → Bool
is_fresh w h b = not b.is_attempted && w.check_ok h b

abbrev pub unless_tried : World → Options → Stage → Option Bundle → State → Outcome
unless_tried w o st (some b) s = (note st (stop_attempted b.id) s, some 3)
unless_tried w o st none s =
    with_bundle w o st (first (is_fresh w s.effects) (backwards (bundles st o.boot s.store))) s

abbrev pub unless_done : World → Options → Stage → Option Bundle → State → Outcome
unless_done w o st (some b) s = (note st (skip b.id) s, none)
unless_done w o st none s =
    unless_tried w o st (last (select (λ b. b.is_attempted) (bundles st o.boot s.store))) s

-- The body of the loop for a stage of bundles.
unfoldable pub run_bundles : World → Options → Stage → State → Outcome
run_bundles w o st s = unless_done w o st (last (select (is_ok st) (bundles st o.boot s.store))) s

-- The body of the loop for a stage in todo.
unfoldable pub run_stage : World → Options → Stage → State → Outcome
run_stage w o st s =
    if same_stage st governor
    then (note st ok s, none)
    else if same_stage st wifi_connect
    then (note st (rc (if o.is_dry then 0 else w.wifi_rc s.effects)) s, none)
    else run_bundles w o st s

abbrev pub visit : World → Options → Stage → State → Outcome
visit w o st s = if is_todo o st then run_stage w o st s else (s, none)

abbrev pub and_next : Outcome → (State → State × ℕ) → State × ℕ
and_next (s, none) next = next s
and_next (s, some code) next = (s, code)

unfoldable pub run : World → Options → List Stage → State → State × ℕ
run w o [] s = (s, 0)
run w o (st ∷ sts) s = and_next (visit w o st s) (run w o sts)

-- main behind its arguments, with the exit status: sys.exit of a message exits with 1.
unfoldable pub main : World → Options → State → State × ℕ
main w o s =
    if o.is_disabled
    then (s, 0)
    else if not o.is_root && not o.is_dry
    then (s, 1)
    else run w o stages s
