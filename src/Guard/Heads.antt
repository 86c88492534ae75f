-- ===== src/Guard/Heads.antt =====
-- The reports of design/nextboot-impl/bootguard.py whose first lines the ring buffer has dropped:
-- rotated_template_head and rotated_head of class Review.
use Prim.Native.String.{String}
use text.Mathlib.Text.{◌==◌ as str_eq}
use y700_linux.Prelude.{
  ℕ, zero, suc, ◌-◌, Bool, true, false, not, ◌&&◌, ◌||◌, Option, none, some, List, [], ◌∷◌, ◌++◌,
  ◌==◌, min, ltb, leb, map, any, length, take, drop, if◌then◌else◌,
}
use y700_linux.Guard.{Reader, same_lines, buildids_ok}

pub record Spmi : Type 0 where
  pub blocks : List (List String)
  pub max_count : ℕ
  pub max_uptime : ℕ

pub record Hub : Type 0 where
  pub block : List String
  pub max_count : ℕ
  pub max_uptime : ℕ

pub record Wait : Type 0 where
  pub kind : String
  pub comm : String
  pub hung_tail : List String

pub record Templates : Type 0 where
  pub spmi : Spmi
  pub hub : Option Hub
  pub waits : List Wait
  pub panel_messages : List String

abbrev pub at_most : Option ℕ → ℕ → Bool
at_most none limit = false
at_most (some up) limit = leb up limit

abbrev pub same_thread : Option ℕ → ℕ → Bool
same_thread none tid = false
same_thread (some t) tid = t == tid

-- The first lines of one thread, at most so many.
abbrev pub run_of : Reader → ℕ → ℕ → List String → List String
run_of r tid zero ls = []
run_of r tid (suc left) [] = []
run_of r tid (suc left) (l ∷ ls) =
    let rest = run_of r tid left ls in if same_thread (r.thread l) tid then l ∷ rest else []

-- block[-n:]
abbrev pub suffix : ℕ → List String → List String
suffix n block = drop (length block - n) block

-- A template that a fragment may be the end of.
pub record Candidate : Type 0 where
  pub is_hub : Bool
  pub block : List String
  pub max_uptime : ℕ

abbrev pub candidates : Templates → List Candidate
candidates t =
    map (λ b. record { is_hub = false; block = b; max_uptime = t.spmi.max_uptime }) t.spmi.blocks
    ++ hub_candidate t.hub
  where
    hub_candidate : Option Hub → List Candidate
    hub_candidate none = []
    hub_candidate (some h) =
        record { is_hub = true; block = h.block; max_uptime = h.max_uptime } ∷ []

abbrev pub normalized : Reader → Bool → List String → List String
normalized r is_hub ls = map (if is_hub then r.normal_hub else r.normal) ls

-- The longest suffix of the block, of at most so many lines, that the fragment starts with; 0 is none.
unfoldable pub longest : Reader → List (String × String) → List String → Candidate → ℕ → ℕ
longest r live frag c zero = 0
longest r live frag c (suc n) =
    let rest = longest r live frag c n in
    if same_lines (normalized r c.is_hub (take (suc n) frag)) (suffix (suc n) c.block)
      && (if c.is_hub then buildids_ok r live (take (suc n) frag) else true)
    then suc n
    else rest

-- The best candidate so far, with its length.
unfoldable pub best_of :
    Reader → List (String × String) → Option ℕ → List String → List Candidate → Bool × ℕ → Bool × ℕ
best_of r live up frag [] best = best
best_of r live up frag (c ∷ cs) best =
    let n = longest r live frag c (min (length c.block - 1) (length frag)) in
    best_of r live up frag cs
      (if at_most up c.max_uptime && ltb best.1 n then (c.is_hub, n) else best)

-- The accepted lines of a text whose first line has a thread, and the template that they are the end of.
unfoldable pub template_head : Reader → Templates → List (String × String) → List String → Bool × ℕ
template_head r t live [] = (false, 0)
template_head r t live (l ∷ ls) = elim (r.thread l) [
  | none ↦ (false, 0)
  | some tid ↦
      best_of r live (r.uptime l) (map r.payload (run_of r tid 80 (l ∷ ls))) (candidates t)
        (false, 0)
]

abbrev pub is_hung : Option (String × ℕ) → Bool
is_hung none = false
is_hung (some x) = true

-- The lines up to the last frame, where all of them are of the thread and none starts a report.
unfoldable pub fragment : Reader → ℕ → ℕ → List String → Option (List String)
fragment r tid zero ls = none
fragment r tid (suc left) [] = none
fragment r tid (suc left) (l ∷ ls) =
    let rest = fragment r tid left ls in
    if not (same_thread (r.thread l) tid) || is_hung (r.hung (r.payload l))
    then none
    else (if r.is_last_frame (r.payload l) then some (l ∷ []) else with_line l rest)
  where
    with_line : String → Option (List String) → Option (List String)
    with_line l none = none
    with_line l (some ls) = some (l ∷ ls)

abbrev pub kind_of : ℕ → List (ℕ × String) → Option String
kind_of pid [] = none
kind_of pid ((q, k) ∷ bound) = if q == pid then some k else kind_of pid bound

abbrev pub is_kind : Option String → String → Bool
is_kind none kind = false
is_kind (some k) kind = str_eq k kind

-- Every number that a line of the fragment names is bound to the kind.
abbrev pub all_bound : Reader → List (ℕ × String) → String → List String → Bool
all_bound r bound kind [] = true
all_bound r bound kind (x ∷ xs) = named (r.task_pid x) && all_bound r bound kind xs
  where
    named : Option ℕ → Bool
    named none = true
    named (some pid) = is_kind (kind_of pid bound) kind

abbrev pub is_tail : Reader → List (String × String) → List String → Wait → Bool
is_tail r live seg w =
    leb (length seg) (length w.hung_tail)
    && same_lines (suffix (length seg) w.hung_tail) (map r.normal_hung seg)
    && buildids_ok r live seg

-- The first bound kind, in the order of the texts, whose tail the fragment ends. `kinds` is
-- sorted(set(bound.values())).
unfoldable pub kind_with_tail :
    Reader
    → Templates
    → List (String × String)
    → List (ℕ × String)
    → List String
    → List String
    → Option String
kind_with_tail r t live bound seg [] = none
kind_with_tail r t live bound seg (k ∷ ks) =
    let rest = kind_with_tail r t live bound seg ks in
    if any (λ w. str_eq w.kind k && is_tail r live seg w) t.waits && all_bound r bound k seg
    then some k
    else rest

-- How many lines rotated_head accepts, with the kind.
abbrev pub accept_fragment :
    Reader
    → Templates
    → List (String × String)
    → List (ℕ × String)
    → List String
    → Option (List String)
    → Option (String × ℕ)
accept_fragment r t live bound kinds none = none
accept_fragment r t live bound kinds (some seg) =
    elim (kind_with_tail r t live bound (map r.payload seg) kinds) [
      | none ↦ none
      | some k ↦ some (k, length seg)
    ]

unfoldable pub rotated_head :
    Reader
    → Templates
    → List (String × String)
    → List (ℕ × String)
    → List String
    → List String
    → Option (String × ℕ)
rotated_head r t live bound kinds [] = none
rotated_head r t live bound kinds (l ∷ ls) = elim (r.thread l) [
  | none ↦ none
  | some tid ↦
      if is_hung (r.hung (r.payload l))
      then none
      else accept_fragment r t live bound kinds (fragment r tid 40 (l ∷ ls))
]
