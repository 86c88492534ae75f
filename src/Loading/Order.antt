-- ===== src/Loading/Order.antt =====
-- What a run of the loader leaves: the attempt first, the modules in their order, the result last.
use Prim.Native.String.{String, ◌++◌ as ◌<>◌}
use mathlib.Core.List.{append_assoc, append-nil}
use y700_linux.Prelude.{
  ◌≡◌, ◌⊎◌, inl, inr, refl, sym, ap, ◌∙◌, subst, Bool, true, false, not, ◌&&◌, List, [], ◌∷◌, ◌++◌,
  ◌==◌, any, any-append, arith, false-ne-true, if-cases, Bool-cases, if◌then◌else◌,
}
use y700_linux.Loading.{View, Verdict, passed, raised, stopped}
use y700_linux.Loading.Bundle.{File, Manifest, module_name}
use y700_linux.Loading.Preflight.{preflight}
use y700_linux.Loading.Loads.{
  Effect, saved_attempt, saved_result, fs_ready, installed, insmod, World, State, Step, and_then,
  require, record_effect, observe, Plan, waits_of, wait_all, ramoops_ok, inserted, load, drm_ok,
  load_all, calibrate, calibrate_if, is_text, is_missing, install, install_all, body, finally,
  bound_all, apply, is_passed, start, main, polled, add_loaded, calibrated,
}

abbrev pub is_save : Effect → Bool
is_save saved_attempt = true
is_save saved_result = true
is_save _ = false

abbrev name_in : Effect → List String
name_in (insmod f) = f ∷ []
name_in _ = []

-- The files that insmod was started on, the first ones first.
unfoldable pub started : List Effect → List String
started [] = []
started (e ∷ es) = started es ++ name_in e

started-append : (xs ys : List Effect) → started (xs ++ ys) ≡ started ys ++ started xs
unfolding started
started-append [] ys = sym (append-nil (started ys))
started-append (x ∷ xs) ys =
    ap (λ (l : List String). l ++ name_in x) (started-append xs ys)
    ∙ append_assoc (started ys) (started xs) (name_in x)

-- A step that starts insmod on these files, in this order: on all of them where it returns, and on the
-- first ones of them where it raises. It saves neither the attempt nor the result.
Ran : State → List String → Step → Type 0
Ran s fs r =
    (new : List Effect) × ((r.0.effects ≡ new ++ s.effects)
      × (any is_save new ≡ false)
      × ((rest : List String) × ((started new ++ rest ≡ fs) × (r.1 ≡ true → rest ≡ []))))

Ran-same : (s t : State) (ok : Bool) → t.effects ≡ s.effects → Ran s [] (t, ok)
unfolding Ran started
Ran-same s t ok e = ([], (e, refl, ([], (refl, λ h. refl))))

Ran-and_then :
    (s : State) (fs gs : List String) (r : Step) (k : State → Step)
    → Ran s fs r
    → ((t : State) → Ran t gs (k t))
    → Ran s (fs ++ gs) (and_then r k)
unfolding Ran
Ran-and_then s fs gs (t, true) k (new, (e, no_save, (rest, (split, full)))) next =
    let (new2, (e2, no_save2, (rest2, (split2, full2)))) = next t in
    let whole =
      sym (append-nil (started new))
      ∙ subst (λ (r : List String). started new ++ r ≡ fs) (full refl) split in
    let order =
      ap (λ (l : List String). l ++ rest2) (started-append new2 new)
      ∙ append_assoc (started new) (started new2) rest2
      ∙ ap (λ (l : List String). started new ++ l) split2
      ∙ ap (λ (l : List String). l ++ gs) whole in
    (
      new2 ++ new,
      (
        e2 ∙ ap (λ (l : List Effect). new2 ++ l) e ∙ sym (append_assoc new2 new s.effects),
        ground (arith, any-append is_save new2 new, no_save, no_save2),
        (rest2, (order, full2)),
      ),
    )
Ran-and_then s fs gs (t, false) k (new, (e, no_save, (rest, (split, full)))) next = (
  new,
  (
    e,
    no_save,
    (
      rest ++ gs,
      (
        sym (append_assoc (started new) rest gs) ∙ ap (λ (l : List String). l ++ gs) split,
        λ h. absurd (false-ne-true h),
      ),
    ),
  ),
)

-- An effect, then a step.
Ran-effect :
    (s : State) (c : Effect) (r : Step)
    → is_save c ≡ false
    → Ran (record_effect c s) [] r
    → Ran s (name_in c) r
unfolding Ran started
Ran-effect s c r no_save_c (new, (e, no_save, (rest, (split, full)))) = (
  new ++ c ∷ [],
  (
    e ∙ sym (append_assoc new (c ∷ []) s.effects),
    ground (arith, any-append is_save new (c ∷ []), no_save, no_save_c),
    (
      rest,
      (
        ap (λ (l : List String). l ++ rest) (started-append new (c ∷ []))
            ∙ append_assoc (name_in c) (started new) rest
            ∙ ap (λ (l : List String). name_in c ++ l) split
            ∙ append-nil (name_in c),
        full,
      ),
    ),
  ),
)

-- A test, or a change that is no effect, then a step.
Ran-step :
    (s t : State) (gs : List String) (ok : Bool) (k : State → Step)
    → t.effects ≡ s.effects
    → ((u : State) → Ran u gs (k u))
    → Ran s gs (and_then (t, ok) k)
Ran-step s t gs ok k e next = Ran-and_then s [] gs (t, ok) k (Ran-same s t ok e) next

Ran-last :
    (s : State) (fs : List String) (r : Step) (k : State → Step)
    → Ran s fs r
    → ((u : State) → Ran u [] (k u))
    → Ran s fs (and_then r k)
Ran-last s fs r k h next =
    subst (λ (l : List String). Ran s l (and_then r k)) (append-nil fs)
      (Ran-and_then s fs [] r k h next)

module _ (w : World) (p : Plan) where
  wait_all-Ran : (ks : List String) (s : State) → Ran s [] (wait_all w ks s)
  unfolding wait_all
  wait_all-Ran [] s = Ran-same s s true refl
  wait_all-Ran (k ∷ ks) s =
      Ran-and_then s [] [] (require (polled 130000 (w.waits s.effects k)) s) (wait_all w ks)
        (Ran-same s s _ refl) (wait_all-Ran ks)

  inserted-Ran : (name : String) (s : State) → Ran s [] (inserted w p name s)
  unfolding inserted
  inserted-Ran name s = Ran-step s s [] (polled 25000 (w.polls s.effects)) _ refl λ s.
      Ran-step s s [] (w.returncode s.effects == 0) _ refl λ s.
        Ran-step s (add_loaded name s) [] (w.is_calm s.effects) _ refl λ s.
          Ran-step s s [] (w.is_live s.effects name) _ refl λ s.
            Ran-step s s [] (observe w 3000 s).1 _ refl λ s.
              Ran-and_then s [] [] _ _ (wait_all-Ran (waits_of name p.bind_after) s)
                (λ s. Ran-same s s (ramoops_ok w name s).1 refl)

  load-Ran : (f : String) (s : State) → Ran s (f ∷ []) (load w p f s)
  unfolding load
  load-Ran f s = Ran-step s s (f ∷ []) (observe w 2000 s).1 _ refl λ s.
      Ran-step s s (f ∷ []) (w.makes s.effects (f <> ".log")) _ refl λ s.
        Ran-effect s (insmod f) _ refl (inserted-Ran (module_name f) (record_effect (insmod f) s))

  load_all-Ran : (fs : List String) (s : State) → Ran s fs (load_all w p fs s)
  unfolding load_all
  load_all-Ran [] s = Ran-same s s true refl
  load_all-Ran (f ∷ fs) s =
      Ran-and_then s (f ∷ []) fs _ _ (load-Ran f s)
        λ s. Ran-step s s fs (drm_ok w p s).1 _ refl (load_all-Ran fs)

  calibrate-Ran : (s : State) → Ran s [] (calibrate w s)
  unfolding calibrate
  calibrate-Ran s = Ran-effect s fs_ready _ refl (
      Ran-step (record_effect fs_ready s) (record_effect fs_ready s) []
        (calibrated (w.calibration (fs_ready ∷ s.effects))) _ refl
        (λ s. Ran-same s s (observe w 5000 s).1 refl))

  calibrate_if-Ran : (s : State) → Ran s [] (calibrate_if w p s)
  calibrate_if-Ran s =
      if-cases (Ran s []) (p.is_wifi_b && not p.calibration_done) (λ _. calibrate-Ran s)
        (λ _. Ran-same s s true refl)

  install-Ran : (f : File) (s : State) → Ran s [] (install w f s)
  unfolding install
  install-Ran f s =
      Ran-and_then s [] [] _ _
        (if-cases (Ran s []) (is_missing (w.firmware s.effects f.0))
          (λ _. Ran-step s s [] (is_text (w.bundled f.0) f.1) _ refl λ s.
            Ran-effect s (installed f.0) _ refl (
              Ran-same (record_effect (installed f.0) s) (record_effect (installed f.0) s) true
                refl))
          (λ _. Ran-same s s true refl))
        (λ s. Ran-same s s (is_text (w.firmware s.effects f.0) f.1) refl)

  install_all-Ran : (fs : List File) (s : State) → Ran s [] (install_all w fs s)
  unfolding install_all
  install_all-Ran [] s = Ran-same s s true refl
  install_all-Ran (f ∷ fs) s = Ran-and_then s [] [] _ _ (install-Ran f s) (install_all-Ran fs)

  body-Ran : (m : Manifest) (s : State) → Ran s m.load_order (body w p m s)
  unfolding body
  body-Ran m s =
      let names = m.load_order in
      Ran-and_then s [] names _ _ (calibrate_if-Ran s) λ s.
        Ran-and_then s [] names _ _ (install_all-Ran p.firmware_install s) λ s.
          Ran-last s names _ _ (load_all-Ran m.load_order s)
            (λ s. Ran-same s s (w.reports s.effects) refl)

-- The attempt is saved first, and once; behind it insmod is started on the first ones of these files, in
-- order, and on all of them where the run returns. The result is saved last, and once; only where its file
-- cannot be written it is not, and the run raises.
abbrev pub Ordered : World → List String → Step → Type 0
Ordered w names r =
    (mid : List Effect) × (((r.0.effects ≡ saved_result ∷ (mid ++ saved_attempt ∷ []))
        ⊎ ((r.0.effects ≡ mid ++ saved_attempt ∷ [])
            × (w.makes (mid ++ saved_attempt ∷ []) "result.json" ≡ false)
            × (r.1 ≡ false)))
      × (any is_save mid ≡ false)
      × ((rest : List String) × ((started mid ++ rest ≡ names) × (r.1 ≡ true → rest ≡ []))))

finally-Ordered :
    (w : World) (s : State) (names : List String) (r : Step)
    → s.effects ≡ []
    → Ran (record_effect saved_attempt s) names r
    → Ordered w names (finally w r)
unfolding Ran
finally-Ordered w s names (t, ok) none_yet (new, (e, no_save, (rest, (split, full)))) =
    let before : t.effects ≡ new ++ saved_attempt ∷ [] =
      e ∙ ap (λ (l : List Effect). new ++ saved_attempt ∷ l) none_yet in
    elim (Bool-cases (w.makes t.effects "result.json")) [
      | inl made ↦ rw made (
        new,
        (inl (ap (λ (l : List Effect). saved_result ∷ l) before), no_save, (rest, (split, full))),
      )
      | inr lost ↦ rw lost (
        new,
        (
          inr (before, ap (λ (l : List Effect). w.makes l "result.json") (sym before) ∙ lost, refl),
          no_save,
          (rest, (split, λ h. absurd (false-ne-true h))),
        ),
      )
    ]

-- Nothing was done, or all in order.
Recorded : World → List String → Step → Type 0
Recorded w names r = (r.0.effects ≡ []) ⊎ Ordered w names r

guard-Recorded :
    (w : World) (names : List String) (s : State) (ok : Bool) (k : State → Step)
    → s.effects ≡ []
    → Recorded w names (k s)
    → Recorded w names (and_then (s, ok) k)
unfolding Recorded
guard-Recorded w names s true k none_yet h = h
guard-Recorded w names s false k none_yet h = inl none_yet

ordered : (w : World) (names : List String) (r : Step) → Ordered w names r → Recorded w names r
unfolding Recorded
ordered w names r h = inr h

passed_if : (d : Verdict) → is_passed d ≡ true → d ≡ passed
passed_if passed e = refl
passed_if raised e = absurd (false-ne-true e)
passed_if (stopped message) e = absurd (false-ne-true e)

module _ (v : View) (w : World) (p : Plan) (m : Manifest) where
  apply-Recorded : (s : State) → s.effects ≡ [] → Recorded w m.load_order (apply w p m s)
  unfolding apply
  apply-Recorded s e = guard-Recorded w m.load_order s (w.has_lock s.effects) _ e (
      guard-Recorded w m.load_order s (bound_all w s.effects ("adci" ∷ p.bind_now)) _ e (
        guard-Recorded w m.load_order s (if p.has_extra then w.extra s.effects else true) _ e (
          guard-Recorded w m.load_order s (observe w 15000 s).1 _ e (
            guard-Recorded w m.load_order s (w.makes s.effects "attempt.json") _ e (
              ordered w m.load_order _ (
                finally-Ordered w s m.load_order (body w p m (record_effect saved_attempt s)) e
                  (body-Ran w p m (record_effect saved_attempt s))))))))

  -- What main leaves: no effect at all; or, where it was to apply, by root, and its preflight passed, the
  -- effects in order.
  abbrev pub Left : Bool → Bool → Step → Type 0
  Left is_apply is_root r =
      (r.0.effects ≡ [])
      ⊎ ((is_apply ≡ true) × (is_root ≡ true) × (preflight v m ≡ passed) × Ordered w m.load_order r)

  conclude :
      (is_apply is_root : Bool) (r : Step)
      → is_apply ≡ true
      → is_root ≡ true
      → preflight v m ≡ passed
      → Recorded w m.load_order r
      → Left is_apply is_root r
  unfolding Recorded
  conclude is_apply is_root r a b c (inl h) = inl h
  conclude is_apply is_root r a b c (inr h) = inr (a, b, c, h)

  -- Main does nothing at all; or it was called with --apply by root and its preflight passed. Then it
  -- saves the attempt first, once, and behind it starts insmod on the first ones of the files of the load
  -- order, in their order, and on all of them where it returns. Whether or not it raises, it saves the
  -- result last, once; only where result.json cannot be made and written it does not, and raises.
  pub main-Left : (is_apply is_root : Bool) → Left is_apply is_root (main is_apply is_root v w p m)
  unfolding main
  main-Left is_apply is_root = elim (Bool-cases (is_passed (preflight v m))) [
    | inr bad ↦ rw bad (inl refl)
    | inl ok ↦ rw ok (behind is_apply is_root (passed_if (preflight v m) ok))
  ]
    where
      behind :
          (a b : Bool)
          → preflight v m ≡ passed
          → Left a b (if a then and_then (require b start) (apply w p m) else (start, true))
      behind false b c = inl refl
      behind true false c = inl refl
      behind true true c =
          conclude true true (apply w p m start) refl refl c (apply-Recorded start refl)
