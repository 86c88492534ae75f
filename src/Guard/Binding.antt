-- ===== src/Guard/Binding.antt =====
-- class Waits of design/nextboot-impl/bootguard.py: the reviewed waits that are bound to tasks, and the
-- check of blocked tasks. Times are milliseconds; the frames of a stack are those that `frames` returns.
use Prim.Native.String.{String}
use text.Mathlib.Text.{◌==◌ as str_eq}
use y700_linux.Prelude.{
  ℕ, ◌-◌, Bool, true, not, ◌&&◌, Option, none, some, List, [], ◌∷◌, ◌==◌, leb, any, map, select,
  if◌then◌else◌,
}
use y700_linux.Guard.{same_lines}

pub record Task : Type 0 where
  pub is_blocked : Bool
  pub comm : String
  pub starttime : ℕ
  pub is_stable : Bool
  pub frames : List String

pub record Template : Type 0 where
  pub comm : String
  pub frames : List String

pub record Bound : Type 0 where
  pub kind : String
  pub starttime : ℕ

-- `bound` and `unknown` of the object; a key of `unknown` is a number with a start time.
pub record Waits : Type 0 where
  pub bound : List (ℕ × Bound)
  pub unknown : List ((ℕ × ℕ) × ℕ)

abbrev pub Tasks : Type 0
Tasks = List (ℕ × Task)

abbrev pub task_of : ℕ → Tasks → Option Task
task_of pid [] = none
task_of pid ((q, t) ∷ ts) = if q == pid then some t else task_of pid ts

abbrev pub bind : ℕ → Bound → List (ℕ × Bound) → List (ℕ × Bound)
bind pid b [] = (pid, b) ∷ []
bind pid b ((q, c) ∷ bs) =
    let rest = bind pid b bs in if q == pid then (pid, b) ∷ bs else (q, c) ∷ rest

abbrev pub has_kind : String → List (ℕ × Bound) → Bool
has_kind kind bs = any (λ e. str_eq e.1.kind kind) bs

abbrev pub is_cand : Template → ℕ → ℕ × Task → Bool
is_cand tm not_before e =
    e.1.is_blocked
    && str_eq e.1.comm tm.comm
    && e.1.is_stable
    && same_lines e.1.frames tm.frames
    && leb not_before e.1.starttime

-- Binds a kind to the only candidate there is.
unfoldable pub bind_only : String → List (ℕ × Task) → List (ℕ × Bound) → List (ℕ × Bound)
bind_only kind ((pid, t) ∷ []) bs = bind pid (record { kind = kind; starttime = t.starttime }) bs
bind_only kind cands bs = bs

-- try_bind: what is bound behind it.
unfoldable pub try_bind :
    (String → Template) → Tasks → ℕ → List String → List (ℕ × Bound) → List (ℕ × Bound)
try_bind t tasks not_before [] bs = bs
try_bind t tasks not_before (k ∷ ks) bs =
    let tried = bind_only k (select (is_cand (t k) not_before) tasks) bs in
    try_bind t tasks not_before ks (if has_kind k bs then bs else tried)

-- A bound wait is as it was: an ADCI wait is always there, and a blocked one has its stack.
abbrev pub is_same : (String → Template) → Bound → Option Task → Bool
is_same t b none = not (str_eq b.kind "adci")
is_same t b (some x) =
    (if str_eq b.kind "adci" then x.starttime == b.starttime else true)
    && (if x.is_blocked
        then (x.starttime == b.starttime) && x.is_stable && same_lines x.frames (t b.kind).frames
        else true)

abbrev pub is_bound : List (ℕ × Bound) → ℕ → Bool
is_bound bs pid = any (λ e. e.0 == pid) bs

-- The keys of the blocked tasks that are not bound.
abbrev pub unknown_keys : List (ℕ × Bound) → Tasks → List (ℕ × ℕ)
unknown_keys bs tasks =
    map (λ e. (e.0, e.1.starttime)) (select (λ e. e.1.is_blocked && not (is_bound bs e.0)) tasks)

abbrev pub same_key : ℕ × ℕ → ℕ × ℕ → Bool
same_key a b = (a.0 == b.0) && (a.1 == b.1)

abbrev pub since_of : ℕ × ℕ → List ((ℕ × ℕ) × ℕ) → ℕ → ℕ
since_of k [] now = now
since_of k ((j, since) ∷ m) now = if same_key j k then since else since_of k m now

-- The unknown tasks with the time since which they are: that of the table, or now.
abbrev pub aged : List ((ℕ × ℕ) × ℕ) → ℕ → List (ℕ × ℕ) → List ((ℕ × ℕ) × ℕ)
aged table now keys = map (λ k. (k, since_of k table now)) keys

-- check: `none` where it raises.
unfoldable pub check : (String → Template) → Tasks → ℕ → Waits → Option Waits
check t tasks now w =
    let table = aged w.unknown now (unknown_keys w.bound tasks) in
    if any (λ e. not (is_same t e.1 (task_of e.0 tasks))) w.bound
    then none
    else (if any (λ e. leb 10000 (now - e.1)) table
        then none
        else some (record w { unknown = table }))

abbrev pub pid_kinds : List (ℕ × Bound) → List (ℕ × String)
pid_kinds bs = map (λ e. (e.0, e.1.kind)) bs
