-- ===== src/XGuard/Tests.antt =====
-- Rounds of the X input guard, and instances of its theorems.
use y700_linux.Prelude.{ℕ, ◌≡◌, ◌≢◌, refl, true, none, some, List, [], ◌∷◌, elem, arith}
use y700_linux.Prelude.Int.{pos, sub_ℕ, ◌≤ℤ◌}
use y700_linux.XGuard.{
  decide, last_or, Round, raised, sent_close, closing, has_class, step, run, start, get_or_else,
}
use y700_linux.XGuard.Rules.{after, first_seen, step-first_seen, Spaced, run-Spaced}

-- Window 7 is active, and window 9 of Steam lies on top of it.
abbrev at : ℕ → Round
at t = record {
  conf = record { mode = closing; classes = "steam" ∷ []; grace = pos 2000 };
  active = 7;
  tops = 5 ∷ 7 ∷ 9 ∷ [];
  class_of = λ w. "steam";
  now_waited = t;
  now_missing = t;
  now_since = t;
  now_check = t;
  now_closed = t;
}

abbrev rounds : List Round
rounds = at 10000 ∷ at 11000 ∷ at 12500 ∷ at 13000 ∷ at 18000 ∷ []

rounds-run :
    run start rounds
    ≡ (10000, raised 7) ∷ (11000, raised 7) ∷ (12500, sent_close 9) ∷ (18000, sent_close 9) ∷ []
unfolding run step decide has_class
rounds-run = refl

abbrev before : List Round
before = at 10000 ∷ at 11000 ∷ []

closes : (step (after start before) (at 12500)).1 ≡ some (sent_close 9)
unfolding after step decide has_class
closes = refl

step-first_seen_example :
    (closing ≡ closing)
    × (has_class "steam" ("steam" ∷ []) ≡ true)
    × (9 ≡ last_or 0 (5 ∷ 7 ∷ 9 ∷ []))
    × (elem 7 (5 ∷ 7 ∷ 9 ∷ []) ≡ true)
    × ◌≢◌ {A = ℕ} 9 7
    × (pos 2000 ≤ℤ sub_ℕ 12500 (get_or_else (first_seen none 9 before) 12500))
step-first_seen_example = step-first_seen before (at 12500) 9 closes

run-Spaced_example : Spaced (run start rounds)
run-Spaced_example = run-Spaced start rounds (omega arith)
