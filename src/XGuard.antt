-- ===== src/XGuard.antt =====
-- The X input guard, design/desktop-service-20260919/xguard.py: decide and the loop of run.
--
-- A round's inputs are what it reads: desktop.json, the X server (the active window, the mapped
-- toplevels bottom to top, a window's class, as toplevels and wm_class return them) and the clock.
-- Times are milliseconds of time.monotonic; each call of now() of a round is a field. Window ids are
-- numbers, 0 for none. The classes of desktop.json are given in lower case, as conf returns them.
pub mod Rules
mod Tests
use Prim.Native.String.{String}
use text.Mathlib.Text.{◌==◌ as str_eq}
use y700_linux.Prelude.{
  ℕ, zero, suc, ◌+◌, Bool, true, false, ◌&&◌, ◌||◌, not, Option, none, some, List, [], ◌∷◌, ◌++◌,
  leb, ltb, ◌==◌, elem, length, if◌then◌else◌,
}
use y700_linux.Prelude.Int.{ℤ, pos, sub_ℕ, leb_ℤ}

pub data Action : Type 0 where
  raise close : Action

-- The pair (action, window); (None, 0) is `nothing`.
pub data Decision : Type 0 where
  nothing : Decision
  act : Action → ℕ → Decision

-- tops[-1], where there is one.
abbrev pub last_or : ℕ → List ℕ → ℕ
last_or d [] = d
last_or d (x ∷ xs) = last_or x xs

unfoldable pub decide : ℕ → List ℕ → ℤ → ℤ → Decision
decide active tops waited grace =
    if active == 0 || not (elem active tops) || ltb (length tops) 2
    then nothing
    else if last_or 0 tops == active
    then nothing
    else act (if leb_ℤ grace waited then close else raise) (last_or 0 tops)

-- The value of "x_guard": any text but "off" and "close" only warns.
pub data Mode : Type 0 where
  off closing warning : Mode

pub record Conf : Type 0 where
  pub mode : Mode
  pub classes : List String
  pub grace : ℤ

-- x in classes
pub has_class : String → List String → Bool
has_class c [] = false
has_class c (k ∷ ks) = if str_eq k c then true else has_class c ks

pub record Round : Type 0 where
  pub conf : Conf
  pub active : ℕ
  pub tops : List ℕ
  pub class_of : ℕ → String
  -- now() as it is read for `waited`, twice, then for `since`, for the last close, and to record it.
  pub now_waited : ℕ
  pub now_missing : ℕ
  pub now_since : ℕ
  pub now_check : ℕ
  pub now_closed : ℕ

-- The dictionaries of run, from windows to times.
abbrev pub Times : Type 0
Times = ℕ → Option ℕ

abbrev pub put : ℕ → ℕ → Times → Times
put k v f j = if k == j then some v else f j

abbrev pub get_or_else : Option ℕ → ℕ → ℕ
get_or_else none d = d
get_or_else (some v) d = v

pub record State : Type 0 where
  pub since : Times
  pub closed : Times

-- What the guard does to the screen or the log.
pub data Effect : Type 0 where
  raised : ℕ → Effect
  sent_close : ℕ → Effect
  warned : ℕ → Effect

waited : State → Round → ℤ
waited s r = elim r.tops [
  | [] ↦ pos 0
  | x ∷ xs ↦ sub_ℕ r.now_waited (get_or_else (s.since (last_or x xs)) r.now_missing)
]

-- since.setdefault(win, now())
abbrev pub set_default : ℕ → ℕ → Times → Times
set_default k v f j = if k == j then some (get_or_else (f k) v) else f j

-- The `elif` and `else` branches: close, or log, at most once in 5 and in 30 seconds.
answer : State → Round → ℕ → State × Option Effect
answer s r win =
    if has_class (r.class_of win) r.conf.classes
      && (elim r.conf.mode [ closing ↦ true | _ ↦ false ])
    then (if ltb (get_or_else (s.closed win) 0 + 5000) r.now_check
        then (record s { closed = put win r.now_closed s.closed }, some (sent_close win))
        else (s, none))
    else if ltb (get_or_else (s.closed win) 0 + 30000) r.now_check
    then (record s { closed = put win r.now_closed s.closed }, some (warned win))
    else (s, none)

apply : State → Round → Decision → State × Option Effect
unfolding answer
apply s r nothing = (record s { since = λ w. none }, none)
apply s r (act raise win) =
    (record s { since = set_default win r.now_since s.since }, some (raised r.active))
apply s r (act close win) = answer (record s { since = set_default win r.now_since s.since }) r win

-- One turn of the loop; in mode off it reads nothing and changes nothing.
unfoldable pub step : State → Round → State × Option Effect
unfolding apply waited
step s r = elim r.conf.mode [
  | off ↦ (s, none)
  | _ ↦ apply s r (decide r.active r.tops (waited s r) r.conf.grace)
]

abbrev pub start : State
start = record { since = λ w. none; closed = λ w. none }

stamp : ℕ → Option Effect → List (ℕ × Effect) → List (ℕ × Effect)
stamp t none rest = rest
stamp t (some e) rest = (t, e) ∷ rest

-- The effects of a list of rounds, each with the time of its check.
unfoldable pub run : State → List Round → List (ℕ × Effect)
unfolding stamp
run s [] = []
run s (r ∷ rs) = stamp r.now_check (step s r).1 (run (step s r).0 rs)
