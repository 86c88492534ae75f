-- ===== src/Guard.antt =====
-- The guard of the kernel log, design/nextboot-impl/bootguard.py: the reports that it finds, and class
-- Review, which accepts the reviewed ones.
--
-- The regular expressions are an argument, `Reader`: what they find in a line, and the lines that re.sub
-- leaves. A time since the boot is a number of microseconds. The set of accepted lines is a list of spans
-- of their numbers, from the first to the last one.
pub mod Spans
pub mod Heads
pub mod Review
pub mod Binding
pub mod Overdue
pub mod Bounds
pub mod Messages
mod Tests
use Prim.Native.String.{String}
use text.Mathlib.Text.{◌==◌ as str_eq, find?}
use y700_linux.Prelude.{
  ℕ, zero, suc, ◌+◌, ◌-◌, Bool, true, false, not, ◌&&◌, ◌||◌, Option, none, some, List, [], ◌∷◌,
  ◌++◌, ◌==◌, ltb, leb, map, any, length, take, drop, if◌then◌else◌,
}

pub record Reader : Type 0 where
  -- PREFIX: the line behind its prefix, its time, and the thread, where the prefix names one.
  pub payload : String → String
  pub uptime : String → Option ℕ
  pub thread : String → Option ℕ
  -- FAULT, HUNG with its task and its number, and the findings of BUILDID.
  pub is_fault : String → Bool
  pub hung : String → Option (String × ℕ)
  pub build_ids : String → List (String × String)
  -- A line of normalize_block, of normalize_hub_block and of normalize_hung_tail.
  pub normal : String → String
  pub normal_hub : String → String
  pub normal_hung : String → String
  -- The line starts with ret_from_fork behind its white space; the number that 'task:... pid:' names.
  pub is_last_frame : String → Bool
  pub task_pid : String → Option ℕ

abbrev pub same_lines : List String → List String → Bool
same_lines [] [] = true
same_lines (x ∷ xs) (y ∷ ys) = str_eq x y && same_lines xs ys
same_lines xs ys = false

abbrev pub among : String → List String → Bool
among a xs = any (λ x. str_eq x a) xs

abbrev pub is_found : Option ℕ → Bool
is_found none = false
is_found (some n) = true

abbrev pub has : String → String → Bool
has line text = is_found (find? line text)

abbrev pub build_in : String → List (String × String) → Option String
build_in name [] = none
build_in name ((n, b) ∷ live) = if str_eq n name then some b else build_in name live

abbrev pub is_text : Option String → String → Bool
is_text none b = false
is_text (some a) b = str_eq a b

abbrev pub builds_live : List (String × String) → List (String × String) → Bool
builds_live live [] = true
builds_live live ((n, b) ∷ found) = is_text (build_in n live) b && builds_live live found

-- buildids_ok
unfoldable pub buildids_ok : Reader → List (String × String) → List String → Bool
buildids_ok r live [] = true
buildids_ok r live (x ∷ xs) = builds_live live (r.build_ids x) && buildids_ok r live xs

-- lines[a:b + 1]
abbrev pub lines_of : ℕ → ℕ → List String → List String
lines_of a b lines = take (suc b - a) (drop a lines)
