-- ===== src/Bringup/Codes.antt =====
-- The exit status of bringup.py against the steps that it recorded, and the dry run.
use y700_linux.Prelude.{
  ℕ, ◌≡◌, refl, sym, ◌∙◌, subst, true, false, not, ◌&&◌, none, some, List, [], ◌∷◌, ◌++◌, if-cases,
  All, All-append, false-ne-true,
}
use y700_linux.Bringup.{
  Stage, stages, Bundle, Note, ok, dry, build_failed, rc, skip, stop_attempted, check_failed,
  failed, State, World, Options, Outcome, is_ok, outcome_of, apply_bundle, visit, and_next, run,
  main,
}
use y700_linux.Bringup.Turns.{with_built, visit-cases, run_bundles-cases, main-keeps}

-- The exit status that belongs to a step, 0 where the run goes on after it.
unfoldable pub code : Note → ℕ
code ok = 0
code dry = 0
code (rc n) = 0
code (skip b) = 0
code (stop_attempted b) = 3
code build_failed = 4
code (check_failed b) = 5
code (failed b) = 6

-- Every step but the last let the run go on, and the last one decides the exit status.
abbrev pub Ends : List (Stage × Note) → ℕ → Type 0
Ends [] c = c ≡ 0
Ends (x ∷ []) c = c ≡ code x.1
Ends (x ∷ y ∷ r) c = (code x.1 ≡ 0) × Ends (y ∷ r) c

GoesOn : List (Stage × Note) → Type 0
GoesOn = All (λ (x : Stage × Note). code x.1 ≡ 0)

-- What a stage leaves: a step that lets the run go on, or one more step, with its exit status.
abbrev Good : Outcome → Type 0
Good (s, none) = GoesOn s.steps
Good (s, some c) = Ends s.steps c

Ends-last :
    (xs : List (Stage × Note)) (st : Stage) (n : Note) (c : ℕ)
    → GoesOn xs
    → c ≡ code n
    → Ends (xs ++ (st, n) ∷ []) c
unfolding GoesOn
Ends-last [] st n c h e = e
Ends-last (x ∷ []) st n c h e = (h.0, e)
Ends-last (x ∷ y ∷ r) st n c h e = (h.0, Ends-last (y ∷ r) st n c h.1 e)

Ends-zero : (xs : List (Stage × Note)) → GoesOn xs → Ends xs 0
unfolding GoesOn
Ends-zero [] h = refl
Ends-zero (x ∷ []) h = sym h.0
Ends-zero (x ∷ y ∷ r) h = (h.0, Ends-zero (y ∷ r) h.1)

GoesOn-note :
    (xs : List (Stage × Note)) (st : Stage) (n : Note)
    → GoesOn xs
    → code n ≡ 0
    → GoesOn (xs ++ (st, n) ∷ [])
unfolding GoesOn
GoesOn-note xs st n h e = All-append _ xs ((st, n) ∷ []) h (e, tt)

module _ (w : World) (o : Options) where
  apply_bundle-Good :
      (st : Stage) (b : Bundle) (s : State) → GoesOn s.steps → Good (apply_bundle w st b s)
  unfolding apply_bundle code
  apply_bundle-Good st b s h =
      if-cases Good (is_ok st (outcome_of (w.apply s.effects b) b))
        (λ _. GoesOn-note s.steps st ok h refl) (λ _. Ends-last s.steps st (failed b.id) 6 h refl)

  visit-Good : (st : Stage) (s : State) → GoesOn s.steps → Good (visit w o st s)
  unfolding code
  visit-Good st s h =
      visit-cases w o st Good s (λ _. h) (λ _. GoesOn-note s.steps st ok h refl)
        (λ n _. GoesOn-note s.steps st (rc n) h refl)
        (λ _ _.
          run_bundles-cases w o st Good s (λ b _. GoesOn-note s.steps st (skip b.id) h refl)
            (λ b _ _. Ends-last s.steps st (stop_attempted b.id) 3 h refl)
            (λ _. GoesOn-note s.steps st dry h refl)
            (λ _ _ _. Ends-last s.steps st build_failed 4 h refl)
            (λ b _ _ _. Ends-last s.steps st (check_failed b.id) 5 h refl)
            (λ b _ _ _ _ _. apply_bundle-Good st b s h)
            (λ b _ _ _ _. apply_bundle-Good st b (with_built b s) h))

  run-good :
      (sts : List Stage) (s : State) → GoesOn s.steps → let r = run w o sts s in Ends r.0.steps r.1
  unfolding run
  run-good [] s h = Ends-zero s.steps h
  run-good (st ∷ sts) s h = next (visit w o st s) (visit-Good st s h) (run-good sts)
    where
      next :
          (r : Outcome)
          → Good r
          → ((s' : State) → GoesOn s'.steps → let q = run w o sts s' in Ends q.0.steps q.1)
          → let q = and_next r (run w o sts) in Ends q.0.steps q.1
      next (s', none) g k = k s' g
      next (s', some c) g k = g

-- A run stops at the first step that fails: all steps before the last let it go on, and the exit
-- status is that of the last step: 3 for a bundle that was attempted without success, 4 for a
-- failed build, 5 for a failed check, 6 for an application without success, and 0 otherwise. The
-- user may run it, and no step was recorded before.
pub main-Ends :
    (w : World) (o : Options) (s : State)
    → (not o.is_root && not o.is_dry) ≡ false
    → s.steps ≡ []
    → let r = main w o s in Ends r.0.steps r.1
unfolding main GoesOn
main-Ends w o s may start =
    if-cases Q o.is_disabled (λ _. subst (λ xs. Ends xs 0) (sym start) refl)
      (λ _.
        if-cases Q (not o.is_root && not o.is_dry)
          (λ not_root. absurd (false-ne-true (sym may ∙ not_root)))
          (λ _. run-good w o stages s (subst GoesOn (sym start) tt)))
  where
    Q : State × ℕ → Type 0
    Q r = Ends r.0.steps r.1

-- A dry run builds and applies nothing.
pub main-dry :
    (w : World) (o : Options) (s : State)
    → o.is_dry ≡ true
    → let r = main w o s in (r.0.effects ≡ s.effects) × (r.0.store ≡ s.store)
main-dry w o s hdry = main-keeps w o Same keeps s (refl, refl)
  where
    Same : State → Type 0
    Same s' = (s'.effects ≡ s.effects) × (s'.store ≡ s.store)

    not_live : {A : Type 0} → o.is_dry ≡ false → A
    not_live live = absurd (false-ne-true (sym live ∙ hdry))

    keeps : (st : Stage) (s' : State) → Same s' → Same (visit w o st s').0
    keeps st s' h =
        visit-cases w o st (λ r. Same r.0) s' (λ _. h) (λ _. h) (λ _ _. h)
          (λ _ _.
            run_bundles-cases w o st (λ r. Same r.0) s' (λ _ _. h) (λ _ _ _. h) (λ _. h)
              (λ _ _ _. h) (λ _ live _ _. not_live live) (λ _ live _ _ _ _. not_live live)
              (λ _ live _ _ _. not_live live))
