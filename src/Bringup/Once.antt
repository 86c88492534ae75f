-- ===== src/Bringup/Once.antt =====
-- The sessions of bringup.py in one boot attempt a stage at most once.
use y700_linux.Prelude.{
  ℕ, ◌≡◌, ◌≤◌, ◌+◌, inl, inr, Bool, true, false, ◌&&◌, some, List, [], ◌∷◌, arith, if◌then◌else◌,
  subst, ap, sym, ◌∙◌, and-true, Bool-cases, if-cases, All, any,
}
use y700_linux.Bringup.{
  Stage, Bundle, same_stage, is_of, Effect, built, applied, State, World, Options, Outcome, put,
  outcome_of, apply_bundle, visit, main, run_bundles,
}
use y700_linux.Bringup.Turns.{is_tried, with_built, visit-cases, run_bundles-cases, main-keeps}
use y700_linux.Bringup.Store.{any-put, any-put_other, same_stage-≡}

abbrev pub is_attempt : Stage → Effect → Bool
is_attempt st (built b) = false
is_attempt st (applied b) = same_stage b.stage st && b.is_attempted

-- The attempts at a stage.
abbrev pub attempts : Stage → List Effect → ℕ
attempts st [] = 0
attempts st (e ∷ es) = (if is_attempt st e then 1 else 0) + attempts st es

-- At most one attempt at each stage, and none without a bundle that shows it.
abbrev pub AtMostOnce : ℕ → State → Type 0
AtMostOnce boot s =
    (st : Stage) → attempts st s.effects ≤ (if any (is_tried st boot) s.store then 1 else 0)

-- make-boot-bundle.py makes bundles of the stage and the boot.
abbrev pub Builds : World → ℕ → Type 0
Builds w boot =
    (h : List Effect) (st : Stage) (b : Bundle) → w.build h st ≡ some b → is_of st boot b ≡ true

module _ (boot : ℕ) where
  tried-stage : (st : Stage) (x : Bundle) → is_tried st boot x ≡ true → same_stage x.stage st ≡ true
  tried-stage st x h = ground (arith)

  own-counts :
      (st : Stage) (b : Bundle) (store : List Bundle) (n k : ℕ)
      → is_of st boot b ≡ true
      → n ≡ 0
      → k ≤ (if same_stage b.stage st && b.is_attempted then 1 else 0)
      → k + n ≤ (if any (is_tried st boot) (put b store) then 1 else 0)
  own-counts st b store n k mine new hk = elim (Bool-cases b.is_attempted) [
    | inl tried ↦
        rw (any-put (is_tried st boot) b store (and-true _ _ mine tried)) (ground (arith, new, hk))
    | inr untried ↦ ground (arith, untried, new, hk)
  ]

  -- The store with a bundle of a stage that had no attempt.
  put-counts :
      (st other : Stage) (b : Bundle) (store : List Bundle) (n k : ℕ)
      → is_of st boot b ≡ true
      → (st ≡ other → n ≡ 0)
      → n ≤ (if any (is_tried other boot) store then 1 else 0)
      → k ≤ (if same_stage b.stage other && b.is_attempted then 1 else 0)
      → k + n ≤ (if any (is_tried other boot) (put b store) then 1 else 0)
  put-counts st other b store n k mine new hn hk = elim (Bool-cases (same_stage b.stage other)) [
    | inl same ↦
        own-counts other b store n k (subst (λ t. is_of t boot b ≡ true) (here same) mine)
          (new (here same)) hk
    | inr differ ↦
        ground (arith, any-put_other (is_tried other boot) other b store (tried-stage other) differ)
  ]
    where
      here : same_stage b.stage other ≡ true → st ≡ other
      here same = same_stage-≡ st other (ground (arith, mine, same))

  built-once :
      (st : Stage) (b : Bundle) (s : State)
      → is_of st boot b ≡ true
      → attempts st s.effects ≡ 0
      → AtMostOnce boot s
      → AtMostOnce boot (with_built b s)
  built-once st b s mine new v other =
      put-counts st other b s.store _ 0 mine (λ e. ap (λ t. attempts t s.effects) (sym e) ∙ new)
        (v other) (ground (arith))

  module _ (w : World) where
    applied-once :
        (st : Stage) (b : Bundle) (s : State)
        → is_of st boot b ≡ true
        → attempts st s.effects ≡ 0
        → AtMostOnce boot s
        → AtMostOnce boot (apply_bundle w st b s).0
    unfolding apply_bundle
    applied-once st b s mine new v =
        if-cases (λ (o : Outcome). AtMostOnce boot o.0) _ (λ _. once) (λ _. once)
      where
        left : Bundle
        left = outcome_of (w.apply s.effects b) b

        once :
            AtMostOnce boot
              (record s { store = put left s.store; effects = applied left ∷ s.effects })
        once other =
            put-counts st other left s.store _ _ mine
              (λ e. ap (λ t. attempts t s.effects) (sym e) ∙ new) (v other) (ground (arith))

module _ (w : World) (o : Options) (makes : Builds w o.boot) where
  Kept : Outcome → Type 0
  Kept r = AtMostOnce o.boot r.0

  none_yet :
      (st : Stage) (s : State)
      → AtMostOnce o.boot s
      → any (is_tried st o.boot) s.store ≡ false
      → attempts st s.effects ≡ 0
  none_yet st s v new = ground (arith, v st)

  run_bundles-once :
      (st : Stage) (s : State) → AtMostOnce o.boot s → AtMostOnce o.boot (run_bundles w o st s).0
  unfolding Kept
  run_bundles-once st s v =
      run_bundles-cases w o st Kept s (λ b _. v) (λ b _ _. v) (λ _. v) (λ _ _ _. v)
        (λ b live new made. built-once o.boot st b s (makes _ st b made) (none_yet st s v new.1) v)
        (λ b live new mine untried checked.
          applied-once o.boot w st b s mine (none_yet st s v new.1) v)
        (λ b live new made checked.
          let mine = makes _ st b made in
          let unseen = none_yet st s v new.1 in
          applied-once o.boot w st b (with_built b s) mine (ground (arith, unseen))
            (built-once o.boot st b s mine unseen v))

  visit-once : (st : Stage) (s : State) → AtMostOnce o.boot s → AtMostOnce o.boot (visit w o st s).0
  unfolding Kept
  visit-once st s v =
      visit-cases w o st Kept s (λ _. v) (λ _. v) (λ _ _. v) (λ _ _. run_bundles-once st s v)

  -- A session keeps the invariant, however it ends.
  pub main-once : (s : State) → AtMostOnce o.boot s → AtMostOnce o.boot (main w o s).0
  main-once s v = main-keeps w o (AtMostOnce o.boot) visit-once s v

-- The sessions of a boot, each with its own world and options.
unfoldable pub sessions : List (World × Options) → State → State
sessions [] s = s
sessions ((w, o) ∷ rest) s = sessions rest (main w o s).0

many-once :
    (boot : ℕ) (rs : List (World × Options)) (s : State)
    → All (λ r. (r.1.boot ≡ boot) × Builds r.0 boot) rs
    → AtMostOnce boot s
    → AtMostOnce boot (sessions rs s)
unfolding sessions
many-once boot [] s h v = v
many-once boot ((w, o) ∷ rs) s h v = many-once boot rs (main w o s).0 h.1 (
    subst (λ n. AtMostOnce n (main w o s).0) h.0.0
      (main-once w o (subst (Builds w) (sym h.0.0) h.0.1) s
        (subst (λ n. AtMostOnce n s) (sym h.0.0) v)))

-- However often bringup.py runs in a boot, with whatever options and outcomes, no stage is
-- attempted twice: from a state without attempts, each stage has at most one at the end, where
-- the builder makes bundles of the stage and boot it is asked for.
pub sessions-once :
    (boot : ℕ) (runs : List (World × Options)) (store : List Bundle) (st : Stage)
    → All (λ r. (r.1.boot ≡ boot) × Builds r.0 boot) runs
    → attempts st (sessions runs (record { store = store; steps = []; effects = [] })).effects ≤ 1
sessions-once boot runs store st good = ground (
  arith,
  many-once boot runs (record { store = store; steps = []; effects = [] }) good
      (λ t. ground (arith)) st,
)
