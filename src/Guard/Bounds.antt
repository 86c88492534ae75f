-- ===== src/Guard/Bounds.antt =====
-- The spans lie inside the text and are short.
use Prim.Native.String.{String}
use y700_linux.Prelude.{
  ℕ, zero, suc, ◌+◌, ◌≤◌, ◌<◌, ◌≡◌, Bool, List, [], ◌∷◌, length, All, arith, if-cases,
}
use y700_linux.Guard.{Reader}
use y700_linux.Guard.Spans.{Span, lines_before, spans_from, spmi_block_spans, hub_dup_spans}

lines_before_le :
    (ends : String → Bool) (left : ℕ) (ls : List String) → lines_before ends left ls ≤ left
unfolding lines_before
lines_before_le ends zero ls = omega arith
lines_before_le ends (suc left) [] = omega arith
lines_before_le ends (suc left) (l ∷ ls) = ground (arith, lines_before_le ends left ls)

-- From its first line to its last one a span has at most `limit` lines more, all of them in the text.
abbrev pub Inside : ℕ → ℕ → Span → Type 0
Inside limit total s = (s.0 ≤ s.1) × (s.1 < total) × (s.1 ≤ s.0 + limit)

spans_from-Inside :
    (starts ends : String → Bool) (limit total i : ℕ) (ls : List String)
    → i + length ls ≡ total
    → All (Inside limit total) (spans_from starts ends limit total i ls)
unfolding spans_from
spans_from-Inside starts ends limit total i [] h = tt
spans_from-Inside starts ends limit total i (l ∷ ls) h =
    let rest = spans_from-Inside starts ends limit total (suc i) ls (omega (arith, h)) in
    if-cases (All (Inside limit total)) (starts l)
      (λ _. (
        (omega (arith, h), omega (arith, h), omega (arith, lines_before_le ends limit (l ∷ ls))),
        rest,
      ))
      (λ _. rest)

-- Each span of an SPMI report lies in the text, and has at most 80 lines behind its first one; each span
-- of a report of a duplicate hub lies in the text, and has at most 40.
pub block_spans-Inside :
    (r : Reader) (lines : List String)
    → All (Inside 80 (length lines)) (spmi_block_spans lines)
      × All (Inside 40 (length lines)) (hub_dup_spans r lines)
unfolding spmi_block_spans hub_dup_spans
block_spans-Inside r lines = (
  spans_from-Inside _ _ 80 (length lines) 0 lines (omega arith),
  spans_from-Inside _ _ 40 (length lines) 0 lines (omega arith),
)
