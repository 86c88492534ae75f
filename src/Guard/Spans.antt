-- ===== src/Guard/Spans.antt =====
-- The spans of the reports of design/nextboot-impl/bootguard.py: spmi_block_spans, hub_dup_spans and
-- hung_spans, over the numbers of the lines.
use Prim.Native.String.{String}
use text.Mathlib.Text.{◌==◌ as str_eq}
use y700_linux.Prelude.{
  ℕ, zero, suc, ◌+◌, ◌-◌, Bool, ◌&&◌, Option, none, some, List, [], ◌∷◌, min, length, if◌then◌else◌,
}
use y700_linux.Guard.{Reader, has}

abbrev pub Span : Type 0
Span = ℕ × ℕ

-- How many lines stand before one that ends the report, of at most so many.
unfoldable pub lines_before : (String → Bool) → ℕ → List String → ℕ
lines_before ends zero ls = 0
lines_before ends (suc left) [] = 0
lines_before ends (suc left) (l ∷ ls) =
    let rest = lines_before ends left ls in if ends l then 0 else suc rest

-- The spans of the reports whose first line `starts`, among `total` lines, from line `i`.
unfoldable pub spans_from : (String → Bool) → (String → Bool) → ℕ → ℕ → ℕ → List String → List Span
spans_from starts ends limit total i [] = []
spans_from starts ends limit total i (l ∷ ls) =
    let rest = spans_from starts ends limit total (suc i) ls in
    if starts l then (i, min (i + lines_before ends limit (l ∷ ls)) (total - 1)) ∷ rest else rest

abbrev pub is_spmi_head : String → Bool
is_spmi_head l = has l "WARNING: CPU:" && has l "spmi-pmic-arb.c:352 pmic_arb_wait_for_done"

unfoldable pub spmi_block_spans : List String → List Span
spmi_block_spans lines =
    spans_from is_spmi_head (λ l. has l "---[ end trace") 80 (length lines) 0 lines

abbrev pub hub_dup : String
hub_dup = "sysfs: cannot create duplicate filename '/class/hub'"

unfoldable pub hub_dup_spans : Reader → List String → List Span
hub_dup_spans r lines =
    spans_from (λ l. str_eq (r.payload l) hub_dup) (λ l. r.is_last_frame (r.payload l)) 40
      (length lines) 0 lines

-- The span of a report of a hung task, with the task and its number.
pub record Hung : Type 0 where
  pub first : ℕ
  pub last : ℕ
  pub comm : String
  pub pid : ℕ

abbrev pub with_hung : Option (String × ℕ) → ℕ → ℕ → List Hung → List Hung
with_hung none i last rest = rest
with_hung (some (comm, pid)) i last rest =
    record { first = i; last = last; comm = comm; pid = pid } ∷ rest

unfoldable pub hung_from : Reader → ℕ → ℕ → List String → List Hung
hung_from r total i [] = []
hung_from r total i (l ∷ ls) =
    let rest = hung_from r total (suc i) ls in
    with_hung (r.hung (r.payload l)) i
      (min (suc i + lines_before (λ x. r.is_last_frame (r.payload x)) 39 ls) (total - 1)) rest

unfoldable pub hung_spans : Reader → List String → List Hung
hung_spans r lines = hung_from r (length lines) 0 lines
