-- ===== src/Bringup/Tests.antt =====
-- The staged bring-up on concrete worlds.
use mathlib.Core.Option.{some-injective}
use y700_linux.Prelude.{
  ◌≡◌, ◌≤◌, refl, subst, Bool, true, false, none, some, List, [], ◌∷◌, arith, if◌then◌else◌, not,
  All,
}
use y700_linux.Bringup.{
  same_stage, Stage, pstore, display, owner, governor, stages, position, success, Bundle, is_of, ok,
  State, World, Options, apply_bundle, run_bundles, is_todo, run_stage, run, main,
}
use y700_linux.Bringup.Turns.{has_bundles}
use y700_linux.Bringup.Once.{attempts, Builds, sessions, sessions-once}
use y700_linux.Bringup.Codes.{Ends, main-Ends}
use y700_linux.Bringup.Done.{done, main-done}

abbrev new_bundle : Stage → Bundle
new_bundle st = record {
  stage = st;
  id = 7;
  manifest = some (record { boot = 1; stage = st });
  is_attempted = false;
  status = none;
}

-- Every check and build works, and every application that `good` accepts.
abbrev world : (Stage → Bool) → World
world good = record {
  check_ok = λ h b. true;
  build = λ h st. some (new_bundle st);
  apply = λ h b. record {
    is_attempted = true;
    status = if good b.stage then success b.stage else some "FAILED";
  };
  wifi_rc = λ h. 0;
}

abbrev options : Bool → Options
options is_dry = record {
  boot = 1;
  is_disabled = false;
  is_root = true;
  is_dry = is_dry;
  has_wifi = true;
  upto = governor;
  start = none;
}

abbrev empty : State
empty = record { store = []; steps = []; effects = [] }

abbrev all_good : World
all_good = world (λ st. true)

abbrev no_display : World
no_display = world (λ st. not (same_stage st display))

builds : (good : Stage → Bool) → Builds (world good) 1
builds good h st b e = subst (λ b'. is_of st 1 b' ≡ true) (some-injective _ _ e) (ground (arith))

three_steps :
    (main all_good (options false) empty).0.steps
    ≡ ((pstore, ok) ∷ (display, ok) ∷ (owner, ok) ∷ (governor, ok) ∷ [])
unfolding main run is_todo run_stage run_bundles apply_bundle success position
three_steps = refl

stops : (main no_display (options false) empty).1 ≡ 6
unfolding main run is_todo run_stage run_bundles apply_bundle success position
stops = refl

-- Two sessions behind a failure, the second one stops at the bundle of the first.
abbrev two_runs : List (World × Options)
two_runs = (no_display, options false) ∷ (all_good, options false) ∷ []

sessions-once_example :
    attempts display (sessions two_runs (record { store = []; steps = []; effects = [] })).effects
    ≤ 1
sessions-once_example =
    sessions-once 1 two_runs [] display
      ((refl, builds (λ st. not (same_stage st display))), ((refl, builds (λ st. true)), tt))

-- One attempt, not none.
one_attempt : attempts display (sessions two_runs empty).effects ≡ 1
unfolding sessions main run is_todo run_stage run_bundles apply_bundle success position
one_attempt = refl

main-Ends_example : let r = main no_display (options false) empty in Ends r.0.steps r.1
main-Ends_example = main-Ends no_display (options false) empty refl refl

all_exit : (main all_good (options false) empty).1 ≡ 0
unfolding main run is_todo run_stage run_bundles apply_bundle success position
all_exit = refl

main-done_example :
    All
      (λ t.
        is_todo (options false) t ≡ true
        → has_bundles t ≡ true
        → done 1 t (main all_good (options false) empty).0 ≡ true)
      stages
main-done_example =
    main-done all_good (options false) empty (builds (λ st. true)) refl refl all_exit
