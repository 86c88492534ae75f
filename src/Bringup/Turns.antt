-- ===== src/Bringup/Turns.antt =====
-- What a stage of bringup.py's main may do: the ways through the body of its loop.
use y700_linux.Prelude.{
  ℕ, ◌≡◌, inl, inr, refl, Bool, true, false, not, ◌&&◌, Option, none, some, List, [], ◌∷◌, arith,
  if-cases, false-ne-true, not-true, and-left, and-right, select, any, first, last, backwards,
  any-select, last-select-cases, All-select, first-All, All-backwards,
}
use y700_linux.Bringup.{
  Stage, governor, wifi_connect, Bundle, same_stage, is_of, bundles, is_ok, ok, dry, build_failed,
  rc, skip, stop_attempted, check_failed, built, State, World, Options, note, Outcome, put,
  apply_bundle, after_build, with_bundle, is_fresh, unless_tried, unless_done, run_bundles,
  run_stage, is_todo, visit, and_next, run, main, stages,
}

-- A bundle of the stage and boot with a success, and one with an attempt.
abbrev pub is_done : Stage → ℕ → Bundle → Bool
is_done st boot b = is_of st boot b && is_ok st b

abbrev pub is_tried : Stage → ℕ → Bundle → Bool
is_tried st boot b = is_of st boot b && b.is_attempted

-- No bundle of the stage and boot has either.
abbrev pub IsUntouched : Stage → ℕ → State → Type 0
IsUntouched st boot s =
    (any (is_done st boot) s.store ≡ false) × (any (is_tried st boot) s.store ≡ false)

-- A stage that starts bundles.
abbrev pub has_bundles : Stage → Bool
has_bundles st = not (same_stage st governor) && not (same_stage st wifi_connect)

abbrev pub with_built : Bundle → State → State
with_built b s = record s { store = put b s.store; effects = built b ∷ s.effects }

module _ (w : World) (o : Options) (st : Stage) (P : Outcome → Type 0) where
  module _ (s : State)
      (skips : (b : Bundle)
        → any (is_done st o.boot) s.store ≡ true
        → P (note st (skip b.id) s, none))
      (stops : (b : Bundle)
        → any (is_done st o.boot) s.store ≡ false
        → any (is_tried st o.boot) s.store ≡ true
        → P (note st (stop_attempted b.id) s, some 3))
      (dries : o.is_dry ≡ true → P (note st dry s, none))
      (no_build : o.is_dry ≡ false
        → IsUntouched st o.boot s
        → w.build s.effects st ≡ none
        → P (note st build_failed s, some 4))
      (no_check : (b : Bundle)
        → o.is_dry ≡ false
        → IsUntouched st o.boot s
        → w.build s.effects st ≡ some b
        → P (note st (check_failed b.id) (with_built b s), some 5))
      (applies : (b : Bundle)
        → o.is_dry ≡ false
        → IsUntouched st o.boot s
        → is_of st o.boot b ≡ true
        → b.is_attempted ≡ false
        → w.check_ok s.effects b ≡ true
        → P (apply_bundle w st b s))
      (builds : (b : Bundle)
        → o.is_dry ≡ false
        → IsUntouched st o.boot s
        → w.build s.effects st ≡ some b
        → w.check_ok (built b ∷ s.effects) b ≡ true
        → P (apply_bundle w st b (with_built b s))) where
    after_build-cases :
        o.is_dry ≡ false
        → IsUntouched st o.boot s
        → (r : Option Bundle) → w.build s.effects st ≡ r
        → P (after_build w o st r s)
    after_build-cases live new none e = no_build live new e
    after_build-cases live new (some b) e =
        if-cases P (w.check_ok (built b ∷ s.effects) b)
          (λ h.
            if-cases P o.is_dry (λ d. absurd (false-ne-true (rw live at d)))
              (λ _. builds b live new e h))
          (λ _. no_check b live new e)

    with_bundle-cases :
        IsUntouched st o.boot s
        → (r : Option Bundle)
        → first (is_fresh w s.effects) (backwards (bundles st o.boot s.store)) ≡ r
        → P (with_bundle w o st r s)
    with_bundle-cases new none e =
        if-cases P o.is_dry dries (λ live. after_build-cases live new _ refl)
    with_bundle-cases new (some b) e = if-cases P o.is_dry dries (λ live.
        applies b live new picked.0 (not-true _ (and-left _ _ picked.1)) (and-right _ _ picked.1))
      where
        picked : (is_of st o.boot b ≡ true) × (is_fresh w s.effects b ≡ true)
        picked = first-All _ _ _ b (All-backwards _ _ (All-select _ s.store)) e

    unless_tried-cases :
        any (is_done st o.boot) s.store ≡ false
        → (r : Option Bundle) → last (select (λ b. b.is_attempted) (bundles st o.boot s.store)) ≡ r
        → P (unless_tried w o st r s)
    unless_tried-cases undone r e =
        elim (last-select-cases (λ b. b.is_attempted) (bundles st o.boot s.store) r e) [
          | inl (b, found, tried) ↦ rw found (stops b undone (rw (any-select _ _ s.store) at tried))
          | inr (empty, new) ↦
              rw empty (with_bundle-cases (undone, rw (any-select _ _ s.store) at new) _ refl)
        ]

    unless_done-cases :
        (r : Option Bundle)
        → last (select (is_ok st) (bundles st o.boot s.store)) ≡ r
        → P (unless_done w o st r s)
    unless_done-cases r e = elim (last-select-cases (is_ok st) (bundles st o.boot s.store) r e) [
      | inl (b, found, done) ↦ rw found (skips b (rw (any-select _ _ s.store) at done))
      | inr (empty, new) ↦ rw empty (unless_tried-cases (rw (any-select _ _ s.store) at new) _ refl)
    ]

    -- The ways through the body for a stage of bundles.
    pub run_bundles-cases : P (run_bundles w o st s)
    unfolding run_bundles
    run_bundles-cases = unless_done-cases _ refl

  -- The ways through the body of the loop.
  pub visit-cases :
      (s : State)
      → (is_todo o st ≡ false → P (s, none))
      → (has_bundles st ≡ false → P (note st ok s, none))
      → ((n : ℕ) → has_bundles st ≡ false → P (note st (rc n) s, none))
      → (is_todo o st ≡ true → has_bundles st ≡ true → P (run_bundles w o st s))
      → P (visit w o st s)
  unfolding run_stage
  visit-cases s passes oks rcs bundled =
      if-cases P (is_todo o st)
        (λ todo.
          if-cases P (same_stage st governor) (λ h. oks (ground (arith, h)))
            (λ h.
              if-cases P (same_stage st wifi_connect) (λ k. rcs _ (ground (arith, k)))
                (λ k. bundled todo (ground (arith, h, k)))))
        passes

module _ (w : World) (o : Options) (P : State → Type 0)
    (keeps : (st : Stage) (s : State) → P s → P (visit w o st s).0) where
  and_next-keeps :
      (r : Outcome) (next : State → State × ℕ)
      → P r.0
      → ((s : State) → P s → P (next s).0)
      → P (and_next r next).0
  and_next-keeps (s, none) next h k = k s h
  and_next-keeps (s, some code) next h k = h

  pub run-keeps : (sts : List Stage) (s : State) → P s → P (run w o sts s).0
  unfolding run
  run-keeps [] s h = h
  run-keeps (st ∷ sts) s h =
      and_next-keeps (visit w o st s) (run w o sts) (keeps st s h) (run-keeps sts)

  -- What every stage keeps, a session keeps.
  pub main-keeps : (s : State) → P s → P (main w o s).0
  unfolding main
  main-keeps s h =
      if-cases (λ (r : State × ℕ). P r.0) o.is_disabled (λ _. h)
        (λ _.
          if-cases (λ (r : State × ℕ). P r.0) (not o.is_root && not o.is_dry) (λ _. h)
            (λ _. run-keeps stages s h))
