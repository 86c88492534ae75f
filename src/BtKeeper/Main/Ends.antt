-- ===== src/BtKeeper/Main/Ends.antt =====
-- How main ends: attached with the tty open, or with the tty closed and the power off.
use y700_linux.Prelude.{
  ℕ, ◌≡◌, ◌≢◌, ◌⊎◌, inl, inr, refl, ap, sym, ◌∙◌, Bool, true, false, Option, none, some, List, [],
  ◌∷◌, false-ne-true, if-cases, Bool-cases, if◌then◌else◌,
}
use y700_linux.BtKeeper.{
  Effect, open_power, power_on, open_tty, flush, set_discipline, set_protocol, get_device, Reason,
  exception, gate_not_released, World, State, Outcome, done, raised, failed, and_then, ask, perform,
}
use y700_linux.BtKeeper.Nvm.{Change}
use y700_linux.BtKeeper.Held.{is_open, is_on, Held, Held-facts, opened-Held}
use y700_linux.BtKeeper.Main.{
  Config, Hold, bt_attached, stopped, opened, connect, identify, patch, settings, controller,
  attach, session, fail, finish, powered, release, check_nodes, on_nodes, on_files, patched_nvm,
  start, main,
}
use y700_linux.BtKeeper.Main.Steps.{session-Held}

abbrev is_done : {A : Type 0} → Outcome A → Bool
is_done (done a) = true
is_done raised = false
is_done (failed r) = false

-- A chain that is done comes from a first step that is done.
and_then_done :
    {A B : Type 0} (r : State × Outcome A) (k : A → State → State × Outcome B) (t : State) (b : B)
    → and_then r k ≡ (t, done b)
    → (a : A) × ((s : State) × ((r ≡ (s, done a)) × (k a s ≡ (t, done b))))
and_then_done (s, done a) k t b e = (a, (s, (refl, e)))
and_then_done (s, raised) k t b e = absurd (false-ne-true (ap (λ p. is_done p.1) e))
and_then_done (s, failed r) k t b e = absurd (false-ne-true (ap (λ p. is_done p.1) e))

is_done_if : (b : Bool) → is_done (if b then done tt else raised) ≡ b
is_done_if true = refl
is_done_if false = refl

perform_done :
    (w : World) (c : Effect) (s t : State)
    → perform w c s ≡ (t, done tt)
    → (t ≡ ask c s) × (w.works s.effects c ≡ true)
perform_done w c s t e =
    (ap (λ p. p.0) (sym e), sym (is_done_if (w.works s.effects c)) ∙ ap (λ p. is_done p.1) e)

-- The line discipline of HCI with H4 was set, and the device asked for.
abbrev pub Attached : World → State → Type 0
Attached w s =
    (es : List Effect) × ((s.effects ≡ get_device ∷ set_protocol ∷ set_discipline ∷ flush ∷ es)
      × (w.works (flush ∷ es) set_discipline ≡ true)
      × (w.works (set_discipline ∷ flush ∷ es) set_protocol ≡ true))

attach-Attached : (w : World) (s t : State) → attach w s ≡ (t, done tt) → Attached w t
unfolding attach
attach-Attached w s t e =
    let (_, (s1, (e1, k1))) = and_then_done (perform w flush s) _ t tt e in
    let (_, (s2, (e2, k2))) = and_then_done (perform w set_discipline s1) _ t tt k1 in
    let (_, (s3, (e3, k3))) = and_then_done (perform w set_protocol s2) _ t tt k2 in
    let p1 = perform_done w flush s s1 e1 in
    let p2 = perform_done w set_discipline s1 s2 e2 in
    let p3 = perform_done w set_protocol s2 s3 e3 in
    let p4 = perform_done w get_device s3 t k3 in
    let q1 = ap (λ (x : State). x.effects) p1.0 in
    let q2 = ap (λ (x : State). x.effects) p2.0 in
    let q3 = ap (λ (x : State). x.effects) p3.0 in
    let q4 = ap (λ (x : State). x.effects) p4.0 in
    (s.effects, (cc (q1, q2, q3, q4), cc (q1, p2.1), cc (q1, q2, p3.1)))

session-Attached :
    (w : World) (c : Config) (rampatch nvm : List ℕ) (s t : State)
    → session w c rampatch nvm s ≡ (t, done tt)
    → Attached w t
unfolding session
session-Attached w c rampatch nvm s t e =
    let (_, (s1, (_, k1))) = and_then_done (connect w s) _ t tt e in
    let (_, (s2, (_, k2))) = and_then_done (identify w c s1) _ t tt k1 in
    let (_, (s3, (_, k3))) = and_then_done (patch w rampatch s2) _ t tt k2 in
    let (_, (s4, (_, k4))) = and_then_done (settings w nvm s3) _ t tt k3 in
    let (_, (s5, (_, k5))) = and_then_done (controller w s4) _ t tt k4 in attach-Attached w s5 t k5

-- Attached with the tty open and the power on, or stopped with neither.
pub Ended : World → State × Hold → Type 0
Ended w r =
    ((r.1 ≡ bt_attached)
      × (is_open w r.0.effects ≡ true)
      × (is_on w r.0.effects ≡ true)
      × Attached w r.0)
    ⊎ ((r.1 ≢ bt_attached) × (is_open w r.0.effects ≡ false) × (is_on w r.0.effects ≡ false))

abbrev is_attached : Hold → Bool
is_attached bt_attached = true
is_attached (stopped r) = false

stopped-ne : (r : Reason) → stopped r ≢ bt_attached
stopped-ne r e = false-ne-true (ap is_attached e)

fail-Ended :
    (w : World) (r : Reason) (s : State)
    → (s.has_tty ≡ false → is_open w s.effects ≡ false)
    → Ended w (fail r s)
unfolding fail is_open is_on Ended
fail-Ended w r s h = elim (Bool-cases s.has_tty) [
  | inl t ↦ inr (stopped-ne r, rw t refl, refl)
  | inr t ↦ inr (stopped-ne r, rw t (h t), refl)
]

module _ (w : World) where
  give_up : (r : Reason) (s : State) → Held w s → Ended w (fail r s)
  give_up r s h = fail-Ended w r s λ t. absurd (false-ne-true (sym t ∙ (Held-facts w s h).0))

  finish-Ended :
      (r : State × Outcome Unit)
      → Held w r.0
      → ((t : State) → r ≡ (t, done tt) → Attached w t)
      → Ended w (finish r)
  unfolding Ended
  finish-Ended (s, done _) h k = inl (refl, (Held-facts w s h).1, (Held-facts w s h).2, k s refl)
  finish-Ended (s, raised) h k = give_up exception s h
  finish-Ended (s, failed r) h k = give_up r s h

  powered-Ended :
      (c : Config) (rampatch nvm : List ℕ) (s : State)
      → is_on w s.effects ≡ true
      → is_open w s.effects ≡ false
      → s.has_tty ≡ false
      → Ended w (powered w c rampatch nvm s)
  unfolding is_open
  powered-Ended c rampatch nvm s on shut none_yet = elim (Bool-cases (w.works s.effects open_tty)) [
    | inl ok ↦ rw ok (
        finish-Ended (session w c rampatch nvm (opened (ask open_tty s)))
          (session-Held w c rampatch nvm _ (opened-Held w s ok on))
          (session-Attached w c rampatch nvm _))
    | inr bad ↦ rw bad (fail-Ended w exception (ask open_tty s) (λ _. bad))
  ]

  early-Ended :
      (r : Reason) (s : State)
      → is_open w s.effects ≡ false
      → is_on w s.effects ≡ false
      → Ended w (s, stopped r)
  unfolding Ended
  early-Ended r s shut off = inr (stopped-ne r, shut, off)

  release-Ended : (c : Config) (rampatch nvm : List ℕ) → Ended w (release w c rampatch nvm start)
  unfolding is_open is_on
  release-Ended c rampatch nvm =
      if-cases (Ended w) (w.works [] open_power)
        (λ _.
          if-cases (Ended w) (w.works (open_power ∷ []) power_on)
            (λ on. powered-Ended c rampatch nvm (ask power_on (ask open_power start)) on refl refl)
            (λ off. early-Ended exception (ask power_on (ask open_power start)) refl off))
        (λ _. early-Ended exception (ask open_power start) refl refl)

  on_files-Ended :
      (c : Config) (rampatch : Option (List ℕ)) (nvm : Option (List ℕ × List Change))
      → Ended w (on_files c rampatch nvm w start)
  unfolding is_open is_on
  on_files-Ended c none nvm = early-Ended exception start refl refl
  on_files-Ended c (some rampatch) none = early-Ended exception start refl refl
  on_files-Ended c (some rampatch) (some nvm) =
      if-cases (Ended w) c.is_released (λ _. release-Ended c rampatch nvm.0)
        (λ _. early-Ended gate_not_released start refl refl)

  on_nodes-Ended : (r : Option Reason) (c : Config) → Ended w (on_nodes r w c)
  unfolding is_open is_on
  on_nodes-Ended none c = on_files-Ended c c.patch (patched_nvm c.nvm)
  on_nodes-Ended (some r) c = early-Ended r start refl refl

  -- Main ends in one of two ways. It holds as attached, with the tty open and the power on, behind a
  -- line discipline and a protocol that were set. Or it holds as stopped, with no tty open, and with
  -- the power never switched on or asked off again.
  pub main-Ended : (c : Config) → Ended w (main w c)
  unfolding main
  main-Ended c = on_nodes-Ended (check_nodes c.nodes) c
