-- ===== src/XGuard/Rules.antt =====
-- What the X input guard may do, and when.
use y700_linux.Prelude.{
  ℕ, ◌+◌, ◌≤◌, ◌<◌, ◌≡◌, ◌≢◌, ◌⊎◌, ◌==◌, refl, Bool, true, false, Option, none, some, List, [], ◌∷◌,
  elem, length, All, arith, Option-cases, inl, inr, ltb, not, ◌&&◌, ap, ◌∙◌, if◌then◌else◌,
}
use y700_linux.Prelude.Int.{ℤ, pos, sub_ℕ, ◌≤ℤ◌, ◌<ℤ◌}
use y700_linux.XGuard.{
  Action, Decision, nothing, act, raise, close, decide, last_or, State, Round, Effect, raised,
  sent_close, warned, closing, has_class, set_default, stamp, step, apply, answer, waited, run,
  get_or_else, off, start,
}

-- `decide` acts exactly when the active window is one of at least two toplevels and is not on top;
-- it then names the window on top, and closes exactly when the grace period is over.
pub decide_acts :
    (active : ℕ) (tops : List ℕ) (waited grace : ℤ) {a : Action} {w : ℕ}
    → decide active tops waited grace ≡ act a w
    → (active ≢ 0)
      × (elem active tops ≡ true)
      × (2 ≤ length tops)
      × (w ≡ last_or 0 tops)
      × (w ≢ active)
      × ((a ≡ close) × (grace ≤ℤ waited) ⊎ (a ≡ raise) × (waited <ℤ grace))
unfolding decide
decide_acts active tops waited grace h = ground arith

abbrev pub is_close : ℕ → Effect → Bool
is_close w (raised v) = false
is_close w (sent_close v) = v == w
is_close w (warned v) = false

answer_closes :
    (s : State) (r : Round) (win w : ℕ)
    → (answer s r win).1 ≡ some (sent_close w)
    → (r.conf.mode ≡ closing)
      × (has_class (r.class_of w) r.conf.classes ≡ true)
      × (w ≡ win)
      × (get_or_else (s.closed w) 0 + 5000 < r.now_check)
unfolding answer
answer_closes s r win w h = ground arith

apply_closes :
    (s : State) (r : Round) (d : Decision) (w : ℕ)
    → (apply s r d).1 ≡ some (sent_close w)
    → (r.conf.mode ≡ closing)
      × (has_class (r.class_of w) r.conf.classes ≡ true)
      × (d ≡ act close w)
      × (get_or_else (s.closed w) 0 + 5000 < r.now_check)
unfolding apply
apply_closes s r nothing w h = cc
apply_closes s r (act raise v) w h = cc
apply_closes s r (act close v) w h =
    ground (arith, answer_closes (record s { since = set_default v r.now_since s.since }) r v w h)

waited_lem :
    (s : State) (r : Round) (w : ℕ)
    → w ≡ last_or 0 r.tops
    → 2 ≤ length r.tops
    → waited s r ≡ sub_ℕ r.now_waited (get_or_else (s.since w) r.now_missing)
unfolding waited
waited_lem s r w e l = go r.tops e l
  where
    go :
        (tops : List ℕ)
        → w ≡ last_or 0 tops
        → 2 ≤ length tops
        → elim tops as (λ t. ℤ) [
          | [] ↦ pos 0
          | x ∷ xs ↦ sub_ℕ r.now_waited (get_or_else (s.since (last_or x xs)) r.now_missing)
        ]
          ≡ sub_ℕ r.now_waited (get_or_else (s.since w) r.now_missing)
    go [] e l = absurd (omega arith)
    go (x ∷ xs) e l = rw e

abbrev decision : State → Round → Decision
decision s r = decide r.active r.tops (waited s r) r.conf.grace

step-apply :
    (s : State) (r : Round) (w : ℕ)
    → (step s r).1 ≡ some (sent_close w)
    → (apply s r (decision s r)).1 ≡ some (sent_close w)
unfolding step
step-apply s r w h = ground arith

-- A round sends at most one close, and only in mode close, to the window on top of the X stack,
-- of a configured class, while another window is active, once the grace period since the time that is
-- kept for the window is over, and more than 5 seconds after the guard last closed it or logged it.
pub step_closes :
    (s : State) (r : Round) (w : ℕ)
    → (step s r).1 ≡ some (sent_close w)
    → (r.conf.mode ≡ closing)
      × (has_class (r.class_of w) r.conf.classes ≡ true)
      × (w ≡ last_or 0 r.tops)
      × (elem r.active r.tops ≡ true)
      × (w ≢ r.active)
      × (r.conf.grace ≤ℤ sub_ℕ r.now_waited (get_or_else (s.since w) r.now_missing))
      × (get_or_else (s.closed w) 0 + 5000 < r.now_check)
unfolding step
step_closes s r w h =
    let (m, c, d, t) = apply_closes s r (decision s r) w (step-apply s r w h) in
    let (a, e, l, top, ne, due) =
      decide_acts r.active r.tops (waited s r) r.conf.grace {a = close} d in
    (m, c, top, e, ne, ground (arith, waited_lem s r w top l), t)

-- The state behind some rounds.
unfoldable pub after : State → List Round → State
after s [] = s
after s (r ∷ rs) = after (step s r).0 rs

-- A round in which another window than the one on top is active.
abbrev pub is_blocked : Round → Bool
is_blocked r =
    not (r.active == 0)
    && elem r.active r.tops
    && not (ltb (length r.tops) 2)
    && not (last_or 0 r.tops == r.active)

-- When `w` was first seen on top, over the rounds up to one: a round without a blocked window forgets it,
-- and one in mode off sees nothing.
abbrev pub see : Option ℕ → ℕ → Round → Option ℕ
see o w r =
    if elim r.conf.mode [ off ↦ true | _ ↦ false ]
    then o
    else if is_blocked r
    then (if last_or 0 r.tops == w then some (get_or_else o r.now_since) else o)
    else none

unfoldable pub first_seen : Option ℕ → ℕ → List Round → Option ℕ
first_seen o w [] = o
first_seen o w (r ∷ rs) = first_seen (see o w r) w rs

step-since : (s : State) (r : Round) (w : ℕ) → (step s r).0.since w ≡ see (s.since w) w r
unfolding step decide apply answer
step-since s r w = ground arith

after-since :
    (s : State) (rs : List Round) (w : ℕ) → (after s rs).since w ≡ first_seen (s.since w) w rs
unfolding after first_seen
after-since s [] w = refl
after-since s (r ∷ rs) w =
    after-since (step s r).0 rs w ∙ ap (λ (o : Option ℕ). first_seen o w rs) (step-since s r w)

-- Behind any rounds from the start, a round closes a window only in mode close, where it is on top of the
-- X stack and of a configured class, while another window is active, and once the grace period is over
-- since it was first seen on top in the rounds before, where no round without a blocked window came
-- between; it counts from the round itself where there is no such time.
pub step-first_seen :
    (rs : List Round) (r : Round) (w : ℕ)
    → (step (after start rs) r).1 ≡ some (sent_close w)
    → (r.conf.mode ≡ closing)
      × (has_class (r.class_of w) r.conf.classes ≡ true)
      × (w ≡ last_or 0 r.tops)
      × (elem r.active r.tops ≡ true)
      × (w ≢ r.active)
      × (r.conf.grace ≤ℤ sub_ℕ r.now_waited (get_or_else (first_seen none w rs) r.now_missing))
step-first_seen rs r w h =
    let (m, c, top, e, ne, due, late) = step_closes (after start rs) r w h in
    (m, c, top, e, ne, rw (← after-since start rs w) due)

-- Every later close of `w` is more than 5 seconds after `t`.
abbrev pub After : ℕ → ℕ → List (ℕ × Effect) → Type 0
After w t [] = Unit
After w t ((t', e) ∷ es) = ((is_close w e ≡ false) ⊎ (t + 5000 < t')) × After w t es

-- Any two closes of one window are more than 5 seconds apart.
abbrev pub Spaced : List (ℕ × Effect) → Type 0
Spaced [] = Unit
Spaced ((t, raised v) ∷ es) = Spaced es
Spaced ((t, sent_close v) ∷ es) = After v t es × Spaced es
Spaced ((t, warned v) ∷ es) = Spaced es

-- The clock does not go back between the check and the record of a close.
abbrev pub Clock : Round → Type 0
Clock r = r.now_check ≤ r.now_closed

step_keeps :
    (s : State) (r : Round) (w t c : ℕ)
    → Clock r
    → s.closed w ≡ some c
    → t ≤ c
    → (t ≤ get_or_else ((step s r).0.closed w) 0) × ((step s r).0.closed w ≢ none)
unfolding step
step_keeps s r w t c k e h = ground arith

step_records :
    (s : State) (r : Round) (w : ℕ)
    → (step s r).1 ≡ some (sent_close w)
    → (step s r).0.closed w ≡ some r.now_closed
unfolding step
step_records s r w h = ground arith

no_close_or_late :
    (s : State) (r : Round) (w t c : ℕ) (e : Effect)
    → s.closed w ≡ some c
    → t ≤ c
    → (step s r).1 ≡ some e
    → (is_close w e ≡ false) ⊎ (t + 5000 < r.now_check)
no_close_or_late s r w t c (raised v) k h eq = inl refl
no_close_or_late s r w t c (warned v) k h eq = inl refl
no_close_or_late s r w t c (sent_close v) k h eq =
    let (_, _, _, _, _, _, late) = step_closes s r v eq in ground (arith, late)

run-After :
    (s : State) (rs : List Round) (w t c : ℕ)
    → All Clock rs
    → s.closed w ≡ some c
    → t ≤ c
    → After w t (run s rs)
unfolding run
run-After s [] w t c k e h = tt
run-After s (r ∷ rs) w t c k e h = elim (Option-cases ((step s r).0.closed w)) [
  | inl gone ↦ absurd ((step_keeps s r w t c k.0 e h).1 gone)
  | inr (c', kept) ↦
      add (step s r).1 refl
        (run-After (step s r).0 rs w t c' k.1 kept (ground (arith, step_keeps s r w t c k.0 e h)))
]
  where
    add :
        (o : Option Effect)
        → (step s r).1 ≡ o
        → After w t (run (step s r).0 rs)
        → After w t (stamp r.now_check o (run (step s r).0 rs))
    add none eq rest = rest
    add (some e') eq rest = (no_close_or_late s r w t c e' e h eq, rest)

-- Whatever the rounds are, two closes of one window are more than 5 seconds apart.
pub run-Spaced : (s : State) (rs : List Round) → All Clock rs → Spaced (run s rs)
unfolding run
run-Spaced s [] k = tt
run-Spaced s (r ∷ rs) k = go (step s r).1 refl (run-Spaced (step s r).0 rs k.1)
  where
    go :
        (o : Option Effect)
        → (step s r).1 ≡ o
        → Spaced (run (step s r).0 rs)
        → Spaced (stamp r.now_check o (run (step s r).0 rs))
    go none eq rest = rest
    go (some (raised v)) eq rest = rest
    go (some (warned v)) eq rest = rest
    go (some (sent_close v)) eq rest =
        (run-After (step s r).0 rs v r.now_check r.now_closed k.1 (step_records s r v eq) k.0, rest)
