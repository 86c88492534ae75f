-- ===== src/Guard/Review.antt =====
-- class Review of design/nextboot-impl/bootguard.py: the lines of the log that are faults and were not
-- reviewed.
use Prim.Native.String.{String}
use text.Mathlib.Text.{◌==◌ as str_eq}
use y700_linux.Prelude.{
  ℕ, zero, suc, ◌+◌, ◌-◌, Bool, true, false, not, ◌&&◌, Option, none, some, List, [], ◌∷◌, ◌++◌,
  ◌==◌, ltb, leb, map, any, length, if◌then◌else◌,
}
use y700_linux.Guard.{Reader, same_lines, among, has, buildids_ok, lines_of}
use y700_linux.Guard.Spans.{Span, spmi_block_spans, hub_dup_spans, Hung, hung_spans}
use y700_linux.Guard.Heads.{
  Spmi, Hub, Templates, at_most, template_head, kind_of, is_kind, rotated_head,
}

pub data Event : Type 0 where
  reviewed_panel_message : String → Event
  -- Whether it is the end of the hub's template, the number of lines and the first one.
  rotated_template_head : Bool → ℕ → String → Event
  rotated_head_fragment : String → ℕ → Event

pub record State : Type 0 where
  pub live : List (String × String)
  pub bound : List (ℕ × String)
  pub panel_ok : List String
  pub exact_ok : List String
  pub load_module : Option String
  pub insmod_tid : Option ℕ
  pub audit : List Event

abbrev pub line_at : List String → ℕ → String
line_at [] i = ""
line_at (l ∷ ls) zero = l
line_at (l ∷ ls) (suc i) = line_at ls i

abbrev pub block_at : List (List String) → ℕ → List (List String)
block_at [] n = []
block_at (b ∷ bs) zero = b ∷ []
block_at (b ∷ bs) (suc n) = block_at bs n

-- The block of this number, and where earlier ones were dropped, the one that many behind it.
abbrev pub spmi_cands : List (List String) → ℕ → ℕ → List (List String)
spmi_cands blocks spans n =
    block_at blocks n
    ++ (if ltb spans (length blocks) then block_at blocks (n + (length blocks - spans)) else [])

unfoldable pub spmi_ok : Reader → Spmi → List String → ℕ → ℕ → Span → Bool
spmi_ok r t lines spans n s =
    let block = map r.normal (map r.payload (lines_of s.0 s.1 lines)) in
    ltb n t.max_count
    && at_most (r.uptime (line_at lines s.0)) t.max_uptime
    && any (λ b. same_lines b block) (spmi_cands t.blocks spans n)

-- The spans of a kind of report that its test accepts, by their numbers.
abbrev pub accepted : (ℕ → Span → Bool) → ℕ → List Span → List Span
accepted ok n [] = []
accepted ok n (s ∷ ss) = let rest = accepted ok (suc n) ss in if ok n s then s ∷ rest else rest

unfoldable pub hung_ok : Reader → Templates → State → List String → Hung → Bool
hung_ok r t st lines h =
    let tail = map r.payload (lines_of (suc h.first) h.last lines) in
    any
      (λ w.
        is_kind (kind_of h.pid st.bound) w.kind
        && str_eq h.comm w.comm
        && same_lines (map r.normal_hung tail) w.hung_tail
        && buildids_ok r st.live tail)
      t.waits

abbrev pub accepted_hung : Reader → Templates → State → List String → List Hung → List Span
accepted_hung r t st lines [] = []
accepted_hung r t st lines (h ∷ hs) =
    let rest = accepted_hung r t st lines hs in
    if hung_ok r t st lines h then (h.first, h.last) ∷ rest else rest

abbrev pub same_option : Option ℕ → Option ℕ → Bool
same_option none none = true
same_option (some a) (some b) = a == b
same_option a b = false

abbrev pub one_thread : Reader → List String → Bool
one_thread r [] = false
one_thread r (l ∷ ls) = not (any (λ x. not (same_option (r.thread x) (r.thread l))) ls)

unfoldable pub hub_ok : Reader → Hub → State → List String → ℕ → Span → Bool
hub_ok r t st lines n s =
    let raw = lines_of s.0 s.1 lines in
    let block = map r.payload raw in
    ltb n t.max_count
    && at_most (r.uptime (line_at lines s.0)) t.max_uptime
    && one_thread r raw
    && same_lines (map r.normal_hub block) t.block
    && buildids_ok r st.live block

abbrev pub hub_spans : Reader → Option Hub → State → List String → List Span
hub_spans r none st lines = []
hub_spans r (some t) st lines = accepted (hub_ok r t st lines) 0 (hub_dup_spans r lines)

-- The head of the text that a count accepts.
abbrev pub head_span : ℕ → List Span
head_span zero = []
head_span (suc n) = (0, n) ∷ []

abbrev pub is_loading : State → Option ℕ → Bool
is_loading st tid = is_kind st.load_module "msm_drm" && same_tid st.insmod_tid tid
  where
    same_tid : Option ℕ → Option ℕ → Bool
    same_tid none t = false
    same_tid (some a) t = same_option (some a) t

-- A panel message that is accepted now: from the thread that loads the panel's module, reviewed, and not
-- accepted before.
unfoldable pub is_new_message : Reader → Templates → State → String → Bool
is_new_message r t st l =
    is_loading st (r.thread l)
    && among (r.payload l) t.panel_messages
    && not (any (λ x. str_eq (r.payload x) (r.payload l)) st.panel_ok)

abbrev pub accept_message : String → State → State
accept_message l st = record st {
  panel_ok = st.panel_ok ++ l ∷ [];
  audit = st.audit ++ reviewed_panel_message l ∷ [];
}

-- The loop over the panel messages, from line `i`: the state and the lines it accepts.
unfoldable pub panel : Reader → Templates → ℕ → List String → State → State × List Span
panel r t i [] st = (st, [])
panel r t i (l ∷ ls) st =
    let skipped = panel r t (suc i) ls st in
    let known = with_span i skipped in
    let fresh = with_span i (panel r t (suc i) ls (accept_message l st)) in
    if not (has l "[msm-dsi-error]")
    then skipped
    else (if among l st.panel_ok
        then known
        else (if is_new_message r t st l then fresh else skipped))
  where
    with_span : ℕ → State × List Span → State × List Span
    with_span i (st, ss) = (st, (i, i) ∷ ss)

abbrev pub inside_any : ℕ → List Span → Bool
inside_any i ok = any (λ s. leb s.0 i && leb i s.1) ok

-- [l for i, l in enumerate(lines) if FAULT.search(l) and i not in ok]
unfoldable pub faults_from : Reader → List Span → ℕ → List String → List String
faults_from r ok i [] = []
faults_from r ok i (l ∷ ls) =
    let rest = faults_from r ok (suc i) ls in
    if r.is_fault l && not (inside_any i ok) then l ∷ rest else rest

abbrev pub exact_from : State → ℕ → List String → List Span
exact_from st i [] = []
exact_from st i (l ∷ ls) =
    let rest = exact_from st (suc i) ls in if among l st.exact_ok then (i, i) ∷ rest else rest

abbrev pub same_event : Event → Event → Bool
same_event (rotated_template_head a n l) (rotated_template_head b m k) =
    (if a then b else not b) && (n == m) && str_eq l k
same_event a b = false

-- rotated_template_head records an event once, rotated_head each time.
abbrev pub note_head : Bool × ℕ → String → State → State
note_head (is_hub, zero) l st = st
note_head (is_hub, suc n) l st =
    let e = rotated_template_head is_hub (suc n) l in
    if any (λ x. same_event x e) st.audit then st else record st { audit = st.audit ++ e ∷ [] }

abbrev pub note_fragment : Option (String × ℕ) → State → State
note_fragment none st = st
note_fragment (some (k, n)) st = record st { audit = st.audit ++ rotated_head_fragment k n ∷ [] }

abbrev pub fragment_lines : Option (String × ℕ) → ℕ
fragment_lines none = 0
fragment_lines (some (k, n)) = n

-- unexpected: the state that it leaves, and the lines that it returns. `kinds` is
-- sorted(set(bound.values())).
unfoldable pub unexpected :
    Reader → Templates → List String → List String → State → State × List String
unexpected r t kinds lines st =
    let spmi = spmi_block_spans lines in
    let reports =
      accepted (spmi_ok r t.spmi lines (length spmi)) 0 spmi
      ++ accepted_hung r t st lines (hung_spans r lines)
      ++ hub_spans r t.hub st lines
      ++ exact_from st 0 lines in
    let head = template_head r t st.live lines in
    let frag = rotated_head r t st.live st.bound kinds lines in
    let (after, messages) =
      panel r t 0 lines (note_fragment frag (note_head head (line_at lines 0) st)) in
    (
      after,
      faults_from r (reports ++ head_span head.1 ++ head_span (fragment_lines frag) ++ messages) 0
          lines,
    )
