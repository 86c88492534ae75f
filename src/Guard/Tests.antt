-- ===== src/Guard/Tests.antt =====
-- A review of a log at fixed inputs: a reviewed panel message, and one that is not.
use Prim.Native.String.{String}
use text.Mathlib.Text.{◌==◌ as str_eq}
use y700_linux.Prelude.{true, arith, ◌≡◌, refl, none, some, List, [], ◌∷◌, All, length}
use y700_linux.Guard.{Reader, has, buildids_ok}
use y700_linux.Guard.Spans.{
  lines_before, spans_from, spmi_block_spans, hub_dup, hub_dup_spans, hung_from, hung_spans,
}
use y700_linux.Guard.Heads.{
  Templates, longest, best_of, template_head, fragment, kind_with_tail, rotated_head,
}
use y700_linux.Guard.Review.{
  State, reviewed_panel_message, spmi_ok, hung_ok, hub_ok, is_new_message, panel, faults_from,
  unexpected,
}
use y700_linux.Guard.Binding.{Task, Template, Waits, Tasks, bind_only, try_bind, check}
use y700_linux.Guard.Overdue.{checks, checks-overdue}
use y700_linux.Guard.Bounds.{Inside, block_spans-Inside}
use y700_linux.Guard.Messages.{Distinct, unexpected-Distinct}

abbrev reader : Reader
reader = record {
  payload = λ l. l;
  uptime = λ l. some 1;
  thread = λ l. some 7;
  is_fault = λ l. has l "[msm-dsi-error]";
  hung = λ l. none;
  build_ids = λ l. [];
  normal = λ l. l;
  normal_hub = λ l. l;
  normal_hung = λ l. l;
  is_last_frame = λ l. str_eq l "ret_from_fork";
  task_pid = λ l. none;
}

abbrev message : String
message = "[msm-dsi-error] unknown property"

abbrev templates : Templates
templates = record {
  spmi = record { blocks = []; max_count = 3; max_uptime = 5000000 };
  hub = none;
  waits = [];
  panel_messages = message ∷ [];
}

abbrev fresh_state : State
fresh_state = record {
  live = [];
  bound = [];
  panel_ok = [];
  exact_ok = [];
  load_module = some "msm_drm";
  insmod_tid = some 7;
  audit = [];
}

abbrev log : List String
log = hub_dup ∷ "ret_from_fork" ∷ message ∷ "[msm-dsi-error] no reply" ∷ []

message_is_reviewed : unexpected reader templates [] log fresh_state ≡ (
  record fresh_state { panel_ok = message ∷ []; audit = reviewed_panel_message message ∷ [] },
  "[msm-dsi-error] no reply" ∷ [],
)
unfolding unexpected panel is_new_message faults_from spmi_ok hung_ok hub_ok spmi_block_spans
    hub_dup_spans hung_spans hung_from spans_from lines_before template_head best_of longest
    rotated_head fragment kind_with_tail buildids_ok
message_is_reviewed = refl

hub_span : hub_dup_spans reader log ≡ (0, 1) ∷ []
unfolding hub_dup_spans spans_from lines_before
hub_span = refl

block_spans-Inside_example :
    All (Inside 80 (length log)) (spmi_block_spans log)
    × All (Inside 40 (length log)) (hub_dup_spans reader log)
block_spans-Inside_example = block_spans-Inside reader log

nothing_accepted : Distinct reader []
unfolding Distinct
nothing_accepted = tt

unexpected-Distinct_example :
    Distinct reader (unexpected reader templates [] log fresh_state).0.panel_ok
unexpected-Distinct_example =
    unexpected-Distinct reader templates [] log fresh_state nothing_accepted

abbrev blocked_task : Task
blocked_task = record {
  is_blocked = true;
  comm = "kworker";
  starttime = 9;
  is_stable = true;
  frames = [];
}

abbrev no_waits : Waits
no_waits = record { bound = []; unknown = [] }

abbrev one_blocked : Tasks
one_blocked = (5, blocked_task) ∷ []

abbrev no_template : String → Template
no_template kind = record { comm = ""; frames = [] }

-- A candidate that is the only one is bound, and is not unknown then.
task_is_bound :
    try_bind no_template ((5, record blocked_task { comm = "" }) ∷ []) 0 ("adci" ∷ []) []
    ≡ (5, record { kind = "adci"; starttime = 9 }) ∷ []
unfolding try_bind bind_only
task_is_bound = refl

still_young :
    checks no_template ((0, one_blocked) ∷ (9999, one_blocked) ∷ []) no_waits
    ≡ some (record no_waits { unknown = ((5, 9), 0) ∷ [] })
unfolding checks check
still_young = refl

checks-overdue_example :
    checks no_template ((0, one_blocked) ∷ (5000, one_blocked) ∷ (10000, one_blocked) ∷ []) no_waits
    ≡ none
checks-overdue_example =
    checks-overdue no_template (5, 9) no_waits 0 one_blocked
      ((5000, one_blocked) ∷ (10000, one_blocked) ∷ []) (omega arith) (refl, (refl, (refl, tt)))
      refl
