-- ===== src/Loading/Tests.antt =====
-- A run of the loader at fixed inputs: the stage bt-b with two modules.
use Prim.Native.String.{String}
use text.Mathlib.Text.{◌==◌ as str_eq}
use y700_linux.Prelude.{
  ℕ, ◌≡◌, refl, Bool, true, false, Option, none, some, List, [], ◌∷◌, if◌then◌else◌,
}
use y700_linux.Loading.{View, passed, verdict, carrier, driver, devices}
use y700_linux.Loading.Bundle.{Bt, bt_b, Manifest, module_name}
use y700_linux.Loading.Radio.{bt_b_checks}
use y700_linux.Loading.Preflight.{context, common, stage_checks, preflight}
use y700_linux.Loading.LinkUp.{stage_net, preflight_link}
use y700_linux.Loading.Loads.{
  Effect, saved_attempt, saved_result, insmod, World, Plan, observe_by, polled, wait_all, inserted,
  load, load_all, install_all, body, apply, main,
}
use y700_linux.Loading.Order.{Left, main-Left}

abbrev text_of : List (String × String) → String → Option String
text_of [] p = none
text_of ((q, s) ∷ m) p = if str_eq q p then some s else text_of m p

abbrev files : List (String × String)
files =
    ("/proc/sys/kernel/random/boot_id", "boot")
    ∷ ("/sys/class/block/mmcblk1p3/dev", "179:3")
    ∷ ("/sys/class/net/usb0/carrier", "1")
    ∷ []

abbrev view : View
view = record {
  read = text_of files;
  digest = text_of (("/b/a.ko", "d") ∷ []);
  exists = λ p. false;
  is_file = λ p. false;
  is_link = λ p. false;
  target = λ p. if str_eq p (driver (devices "uart")) then "msm_geni_serial" else "bt_power";
  base_name = λ p. p;
  glob = λ p q. [];
  names = λ p. none;
  consumers = λ s. [];
  sorted = λ xs. xs;
  bundle = "/b";
  release = "k";
  has_slot_a = true;
  roots = "179:3" ∷ [];
  build_id = λ n. some "x";
  live = "scm" ∷ [];
  registry = λ k. none;
  process = λ n. none;
}

abbrev bt : Bt
bt = record {
  hci = "hci0";
  uart = "uart";
  power = "power";
  clk_virt = "clk";
  clk_virt_others = [];
  regulators = [];
  regulators_pending_via = "rpmh";
  net = some "usb0";
}

abbrev manifest : Manifest
manifest = record {
  stage = bt_b bt;
  boot_id = "boot";
  kernel = "k";
  root = "179:3";
  files = ("a.ko", "d") ∷ [];
  load_order = "a.ko" ∷ "b-c.ko" ∷ [];
  requires_live = "scm" ∷ [];
  module_notes = ("scm", "x") ∷ [];
  module_names = "scm" ∷ [];
}

-- A system in which insmod of a module other than the first one fails, where `ok` is false.
abbrev world : Bool → World
world ok = record {
  turns = λ es.
      record { now = 0; unknown = some false } ∷ record { now = 16000; unknown = some false } ∷ [];
  polls = λ es. record { elapsed = 1000; is_calm = true } ∷ [];
  returncode = λ es. status ok es;
  waits = λ es k. [];
  calibration = λ es. [];
  is_calm = λ es. true;
  is_live = λ es n. true;
  has_ramoops = λ es. true;
  has_same_drm = λ es. true;
  makes = λ es n. true;
  has_lock = λ es. true;
  is_bound = λ es k. true;
  extra = λ es. true;
  reports = λ es. true;
  firmware = λ es n. none;
  bundled = λ n. none;
}
  where
    status : Bool → List Effect → ℕ
    status true es = 0
    status false (insmod f ∷ es) = if str_eq f "a.ko" then 0 else 1
    status false es = 0

abbrev plan : Plan
plan = record {
  bind_now = [];
  bind_after = [];
  has_extra = true;
  is_wifi_b = false;
  calibration_done = false;
  firmware_install = [];
}

preflight_passes : preflight view manifest ≡ passed
unfolding preflight common context module_name stage_checks bt_b_checks verdict
preflight_passes = refl

bt_b_net : stage_net (bt_b bt) ≡ some "usb0"
unfolding stage_net
bt_b_net = refl

preflight_link_example : text_of files (carrier "usb0") ≡ some "1"
preflight_link_example = preflight_link view manifest "usb0" preflight_passes bt_b_net

main_loads : main true true view (world true) plan manifest ≡ (
  record {
    loaded = "a" ∷ "b_c" ∷ [];
    effects = saved_result ∷ insmod "b-c.ko" ∷ insmod "a.ko" ∷ saved_attempt ∷ [];
  },
  true,
)
unfolding main apply body install_all load_all load inserted wait_all polled observe_by preflight
    common context module_name stage_checks bt_b_checks verdict
main_loads = refl

main_fails : main true true view (world false) plan manifest ≡ (
  record {
    loaded = "a" ∷ [];
    effects = saved_result ∷ insmod "b-c.ko" ∷ insmod "a.ko" ∷ saved_attempt ∷ [];
  },
  false,
)
unfolding main apply body install_all load_all load inserted wait_all polled observe_by preflight
    common context module_name stage_checks bt_b_checks verdict
main_fails = refl

main-Left_example :
    Left view
      (world false)
      plan
      manifest
      true
      true
      (main true true view (world false) plan manifest)
main-Left_example = main-Left view (world false) plan manifest true true
