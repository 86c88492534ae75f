-- ===== src/Bringup/Done.antt =====
-- What a run of bringup.py that ends with 0 has reached, and what a second run then does.
use mathlib.Core.Option.{none-ne-some, some-injective}
use y700_linux.Prelude.{
  ℕ, suc, ap, ◌≡◌, ◌≢◌, inl, inr, refl, sym, ◌∙◌, subst, Bool, true, false, not, ◌&&◌, none, some,
  List, [], ◌∷◌, arith, if-cases, Bool-cases, and-true, any, All, false-ne-true,
}
use y700_linux.Bringup.{
  Stage, build_failed, stop_attempted, stages, same_stage, Bundle, State, World, Options, note,
  Outcome, is_of, is_ok, outcome_of, put, apply_bundle, run_bundles, is_todo, visit, and_next, run,
  main,
}
use y700_linux.Bringup.Turns.{
  has_bundles, visit-cases, is_done, with_built, run_bundles-cases, run-keeps,
}
use y700_linux.Bringup.Store.{any-put, any-put_other, same_stage-≡}
use y700_linux.Bringup.Once.{Builds}

-- The stage has a bundle of this boot with its success status.
abbrev pub done : ℕ → Stage → State → Bool
done boot st s = any (is_done st boot) s.store

module _ (w : World) (o : Options) (makes : Builds w o.boot) where
  done-stage : (st : Stage) (x : Bundle) → is_done st o.boot x ≡ true → same_stage x.stage st ≡ true
  done-stage st x h = ground (arith)

  -- A bundle for a stage that is not done is of another stage than one that is.
  apart :
      (st other : Stage) (b : Bundle) (s : State)
      → is_of st o.boot b ≡ true
      → done o.boot st s ≡ false
      → done o.boot other s ≡ true
      → same_stage b.stage other ≡ false
  apart st other b s mine undone h = elim (Bool-cases (same_stage b.stage other)) [
    | inl same ↦
        absurd
          (false-ne-true (sym undone ∙ subst (λ t. done o.boot t s ≡ true) (sym (here same)) h))
    | inr differ ↦ differ
  ]
    where
      here : same_stage b.stage other ≡ true → st ≡ other
      here same = same_stage-≡ st other (ground (arith, mine, same))

  put-done :
      (other : Stage) (b : Bundle) (store : List Bundle)
      → same_stage b.stage other ≡ false
      → any (is_done other o.boot) store ≡ true
      → any (is_done other o.boot) (put b store) ≡ true
  put-done other b store differ h =
      any-put_other (is_done other o.boot) other b store (done-stage other) differ ∙ h

  -- What a stage promises: stages stay done, and the run goes on behind a stage of bundles only
  -- with a success.
  abbrev Promises : Stage → State → Outcome → Type 0
  Promises st s r =
      ((t : Stage) → done o.boot t s ≡ true → done o.boot t r.0 ≡ true)
      × (o.is_dry ≡ false → r.1 ≡ none → done o.boot st r.0 ≡ true)
      × (r.1 ≢ some 0)

  not_zero : (c : ℕ) → some (suc c) ≢ some 0
  not_zero c e = ground (arith, some-injective _ _ e)

  -- A bundle that is applied in a state `s'`, where all that was done in `s` still is.
  applied-Promises :
      (st : Stage) (b : Bundle) (s s' : State)
      → is_of st o.boot b ≡ true
      → done o.boot st s ≡ false
      → ((t : Stage) → done o.boot t s ≡ true → done o.boot t s' ≡ true)
      → Promises st s (apply_bundle w st b s')
  unfolding apply_bundle
  applied-Promises st b s s' mine undone keeps =
      if-cases (Promises st s) (is_ok st left)
        (λ good. (
          stays,
          (λ _ _. any-put (is_done st o.boot) left s'.store (and-true _ _ mine good)),
          none-ne-some 0,
        ))
        (λ _. (stays, (λ _ e. absurd (none-ne-some 6 (sym e))), not_zero 5))
    where
      left : Bundle
      left = outcome_of (w.apply s'.effects b) b

      stays :
          (t : Stage) → done o.boot t s ≡ true → any (is_done t o.boot) (put left s'.store) ≡ true
      stays t h = put-done t left s'.store (apart st t b s mine undone h) (keeps t h)

  run_bundles-Promises : (st : Stage) (s : State) → Promises st s (run_bundles w o st s)
  run_bundles-Promises st s =
      run_bundles-cases w o st (Promises st s) s (λ b h. ((λ t k. k), (λ _ _. h), none-ne-some 0))
        (λ b _ _. halts (note st (stop_attempted b.id) s) 2 (λ t k. k))
        (λ hdry. ((λ t k. k), (λ live _. absurd (false-ne-true (sym live ∙ hdry))), none-ne-some 0))
        (λ _ _ _. halts (note st build_failed s) 3 (λ t k. k))
        (λ b live new made.
          (built_stays b new.0 made, (λ _ e. absurd (none-ne-some 5 (sym e))), not_zero 4))
        (λ b live new mine untried checked. applied-Promises st b s s mine new.0 (λ t k. k))
        (λ b live new made checked.
          applied-Promises st b s (with_built b s) (makes _ st b made) new.0
            (built_stays b new.0 made))
    where
      halts :
          (s' : State) (c : ℕ)
          → ((t : Stage) → done o.boot t s ≡ true → done o.boot t s' ≡ true)
          → Promises st s (s', some (suc c))
      halts s' c k = (k, (λ _ e. absurd (none-ne-some (suc c) (sym e))), not_zero c)

      built_stays :
          (b : Bundle)
          → done o.boot st s ≡ false
          → w.build s.effects st ≡ some b
          → (t : Stage) → done o.boot t s ≡ true
          → done o.boot t (with_built b s) ≡ true
      built_stays b undone made t h =
          put-done t b s.store (apart st t b s (makes _ st b made) undone h) h

  -- The same of a stage of any kind.
  Visits : Stage → State → Outcome → Type 0
  Visits st s r =
      ((t : Stage) → done o.boot t s ≡ true → done o.boot t r.0 ≡ true)
      × (o.is_dry ≡ false
          → r.1 ≡ none
          → is_todo o st ≡ true
          → has_bundles st ≡ true
          → done o.boot st r.0 ≡ true)
      × (r.1 ≢ some 0)

  visit-promises : (st : Stage) (s : State) → Visits st s (visit w o st s)
  unfolding Visits
  visit-promises st s =
      visit-cases w o st (Visits st s) s
        (λ skipped.
          ((λ t k. k), (λ _ _ todo _. absurd (false-ne-true (sym skipped ∙ todo))), none-ne-some 0))
        (λ built_in.
          ((λ t k. k), (λ _ _ _ has. absurd (false-ne-true (sym built_in ∙ has))), none-ne-some 0))
        (λ n built_in.
          ((λ t k. k), (λ _ _ _ has. absurd (false-ne-true (sym built_in ∙ has))), none-ne-some 0))
        (λ todo _. let h = run_bundles-Promises st s in (h.0, (λ live e _ _. h.1 live e), h.2))

  run-stays :
      (t : Stage) (sts : List Stage) (s : State)
      → done o.boot t s ≡ true
      → done o.boot t (run w o sts s).0 ≡ true
  unfolding Visits
  run-stays t = run-keeps w o (λ s. done o.boot t s ≡ true) (λ st s h. (visit-promises st s).0 t h)

  run-done :
      o.is_dry ≡ false
      → (sts : List Stage) (s : State) → (run w o sts s).1 ≡ 0
      → All
          (λ t. is_todo o t ≡ true → has_bundles t ≡ true → done o.boot t (run w o sts s).0 ≡ true)
          sts
  unfolding run Visits
  run-done live [] s e = tt
  run-done live (st ∷ sts) s e = next (visit w o st s) (visit-promises st s) (run-done live sts) e
    where
      Reached : List Stage → State → Type 0
      Reached ts s' =
          All (λ t. is_todo o t ≡ true → has_bundles t ≡ true → done o.boot t s' ≡ true) ts

      next :
          (r : Outcome)
          → Visits st s r
          → ((s' : State) → (run w o sts s').1 ≡ 0 → Reached sts (run w o sts s').0)
          → (and_next r (run w o sts)).1 ≡ 0
          → Reached (st ∷ sts) (and_next r (run w o sts)).0
      next (s', none) h k z = ((λ todo has. run-stays st sts s' (h.1 live refl todo has)), k s' z)
      next (s', some c) h k z = absurd (h.2 (ap some z))

-- A run that ends with 0 has brought up what it was asked for: every stage of bundles in its
-- list has a bundle of this boot with the stage's success status. The run is not a dry one,
-- bringup.disable does not exist, and the builder makes what it is asked for.
pub main-done :
    (w : World) (o : Options) (s : State)
    → Builds w o.boot
    → o.is_dry ≡ false
    → o.is_disabled ≡ false
    → (main w o s).1 ≡ 0
    → All
        (λ t. is_todo o t ≡ true → has_bundles t ≡ true → done o.boot t (main w o s).0 ≡ true)
        stages
unfolding main
main-done w o s makes live enabled =
    if-cases Goal o.is_disabled (λ disabled. absurd (false-ne-true (sym enabled ∙ disabled)))
      (λ _.
        if-cases Goal (not o.is_root && not o.is_dry) (λ _ e. ground (arith, e))
          (λ _. run-done w o makes live stages s))
  where
    Goal : State × ℕ → Type 0
    Goal r =
        r.1 ≡ 0
        → All (λ t. is_todo o t ≡ true → has_bundles t ≡ true → done o.boot t r.0 ≡ true) stages

-- The run goes on, and the bundles are as they were.
Idle : State → Outcome → Type 0
Idle s r = (r.1 ≡ none) × (r.0.effects ≡ s.effects) × (r.0.store ≡ s.store)

visit-Idle :
    (w : World) (o : Options) (st : Stage) (s : State)
    → o.is_dry ≡ false
    → (is_todo o st ≡ true → has_bundles st ≡ true → done o.boot st s ≡ true)
    → Idle s (visit w o st s)
unfolding Idle
visit-Idle w o st s live h =
    visit-cases w o st (Idle s) s (λ _. (refl, refl, refl)) (λ _. (refl, refl, refl))
      (λ _ _. (refl, refl, refl))
      (λ todo has.
        run_bundles-cases w o st (Idle s) s (λ _ _. (refl, refl, refl))
          (λ _ undone _. not_done (h todo has) undone)
          (λ hdry. absurd (false-ne-true (sym live ∙ hdry)))
          (λ _ new _. not_done (h todo has) new.0) (λ _ _ new _. not_done (h todo has) new.0)
          (λ _ _ new _ _ _. not_done (h todo has) new.0)
          (λ _ _ new _ _. not_done (h todo has) new.0))
  where
    not_done : {A : Type 0} → done o.boot st s ≡ true → done o.boot st s ≡ false → A
    not_done is undone = absurd (false-ne-true (sym undone ∙ is))

run-idle :
    (w : World) (o : Options) (sts : List Stage) (s : State)
    → o.is_dry ≡ false
    → All (λ t. is_todo o t ≡ true → has_bundles t ≡ true → done o.boot t s ≡ true) sts
    → let r = run w o sts s in (r.1 ≡ 0) × (r.0.effects ≡ s.effects) × (r.0.store ≡ s.store)
unfolding run Idle
run-idle w o [] s live h = (refl, refl, refl)
run-idle w o (st ∷ sts) s live h =
    next (visit w o st s) (visit-Idle w o st s live h.0) (run-idle w o sts)
  where
    Same : State × ℕ → Type 0
    Same r = (r.1 ≡ 0) × (r.0.effects ≡ s.effects) × (r.0.store ≡ s.store)

    next :
        (r : Outcome)
        → Idle s r
        → ((s' : State)
            → o.is_dry ≡ false
            → All (λ t. is_todo o t ≡ true → has_bundles t ≡ true → done o.boot t s' ≡ true) sts
            → let q = run w o sts s' in
              (q.1 ≡ 0) × (q.0.effects ≡ s'.effects) × (q.0.store ≡ s'.store))
        → Same (and_next r (run w o sts))
    next (s', none) same k =
        let q = k s' live (
          subst
            (λ (kept : List Bundle).
              All
                (λ t.
                  is_todo o t ≡ true → has_bundles t ≡ true → any (is_done t o.boot) kept ≡ true)
                sts)
            (sym same.2) h.1) in
        (q.0, q.1 ∙ same.1, q.2 ∙ same.2)
    next (s', some c) same k = absurd (none-ne-some c (sym same.0))

main-idle :
    (w : World) (o : Options) (s : State)
    → o.is_dry ≡ false
    → (not o.is_root && not o.is_dry) ≡ false
    → All (λ t. is_todo o t ≡ true → has_bundles t ≡ true → done o.boot t s ≡ true) stages
    → let r = main w o s in (r.1 ≡ 0) × (r.0.effects ≡ s.effects) × (r.0.store ≡ s.store)
unfolding main
main-idle w o s live may h =
    if-cases Same o.is_disabled (λ _. (refl, refl, refl))
      (λ _.
        if-cases Same (not o.is_root && not o.is_dry)
          (λ refused. absurd (false-ne-true (sym may ∙ refused)))
          (λ _. run-idle w o stages s live h))
  where
    Same : State × ℕ → Type 0
    Same r = (r.1 ≡ 0) × (r.0.effects ≡ s.effects) × (r.0.store ≡ s.store)

main-may :
    (w : World) (o : Options) (s : State)
    → o.is_disabled ≡ false
    → (main w o s).1 ≡ 0
    → (not o.is_root && not o.is_dry) ≡ false
unfolding main
main-may w o s enabled zero_exit = ground (arith, enabled, zero_exit)

-- The next run repeats nothing: behind a run that ended with 0, one with the same options builds
-- and applies nothing, whatever the world then does, and ends with 0 too.
pub main-resumes :
    (w w' : World) (o : Options) (s : State)
    → Builds w o.boot
    → o.is_dry ≡ false
    → o.is_disabled ≡ false
    → (main w o s).1 ≡ 0
    → let s' = (main w o s).0 in
      let r = main w' o s' in (r.1 ≡ 0) × (r.0.effects ≡ s'.effects) × (r.0.store ≡ s'.store)
main-resumes w w' o s makes live enabled zero_exit =
    main-idle w' o (main w o s).0 live (main-may w o s enabled zero_exit)
      (main-done w o s makes live enabled zero_exit)
