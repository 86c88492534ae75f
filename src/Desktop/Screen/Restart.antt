-- ===== src/Desktop/Screen/Restart.antt =====
-- What a restart of desktop-service.py finds, and what a sleep leaves.
use y700_linux.Prelude.{
  ℕ, ◌≡◌, ◌⊎◌, inl, inr, ◌∙◌, ap, refl, Bool, true, false, Option, none, some, List, [], ◌∷◌, ◌==◌,
  elem, arith,
}
use y700_linux.Desktop.Recovery.{Rec, Owner, recovery_action}
use y700_linux.Desktop.Recovery.Laws.{is_refusal, recovery_refuses}
use y700_linux.Desktop.Screen.{Kernel, Fb, Saved, Screen, sleep_on, sleep_off, set_sleep}
use y700_linux.Desktop.Screen.Known.{IsOne, IsOld, Shows, IsValid, Written, Ours, OldOurs}
use y700_linux.Desktop.Screen.Turns.{Request, Turn, poll, turns}
use y700_linux.Desktop.Screen.Run.{poll-IsValid, turns-IsValid}

abbrev pub rec_of : ℕ → Owner → Option Saved → Option Rec
rec_of boot owner none = none
rec_of boot owner (some f) = some (record { boot_id = boot; owner = owner; fbs = f.fbs })

-- What the recovery reads from fbs.json, and what the two planes show.
abbrev pub file_of : ℕ → Owner → Screen → Option Rec
file_of boot owner s = rec_of boot owner s.saved

abbrev pub plane_fbs : Screen → List ℕ
plane_fbs s = s.planes ∷ s.planes ∷ []

-- A file that was written holds the framebuffers of the record.
file_of-Written :
    (boot : ℕ) (owner : Owner) (s : Screen)
    → Written s
    → file_of boot owner s ≡ some (record { boot_id = boot; owner = owner; fbs = s.rec_fbs })
file_of-Written boot owner s (handles, e) = ap (rec_of boot owner) e

known_lem :
    (native : ℕ) (s : Screen)
    → IsValid native s
    → s.panel_off ≡ false
    → (s.planes ≡ native) ⊎ (elem s.planes s.rec_fbs ≡ true)
known_lem native s v e = go v.shows
  where
    one :
        (p : Fb × Fb)
        → Ours native s p.0.fb
        → Ours native s p.1.fb
        → IsOne s.planes p
        → elem s.planes s.rec_fbs ≡ true
    one p a b (inl h) = rw h a.recorded
    one p a b (inr h) = rw h b.recorded

    old :
        (o : Option (Fb × Fb))
        → OldOurs native s o
        → IsOld s.planes o
        → elem s.planes s.rec_fbs ≡ true
    old none h i = elim i [ ]
    old (some o) h i = one o h.0.one h.0.two i

    go : Shows native s → (s.planes ≡ native) ⊎ (elem s.planes s.rec_fbs ≡ true)
    go (inl off) = cc
    go (inr (inl at)) = inl at
    go (inr (inr (inl i))) = inr (one s.fbs v.current.one v.current.two i)
    go (inr (inr (inr i))) = inr (old s.old v.previous i)

-- A valid screen that is not switched off is taken back.
recovers_lem :
    (native boot : ℕ) (owner : Owner) (s : Screen)
    → IsValid native s
    → s.panel_off ≡ false
    → is_refusal (recovery_action (file_of boot owner s) boot owner (plane_fbs s) native s.existing)
      ≡ false
recovers_lem native boot owner s v e =
    let file : Rec = record { boot_id = boot; owner = owner; fbs = s.rec_fbs } in
    ap
      (λ (f : Option Rec).
        is_refusal (recovery_action f boot owner (plane_fbs s) native s.existing))
      (file_of-Written boot owner s v.written)
    ∙ recovery_refuses (some file) boot owner (plane_fbs s) native s.existing
    ∙ ground (arith, v.native_lives, known_lem native s v e)

-- Where the service is stopped dead behind any turns of its loop and any requests of the next one, a restart
-- of the same boot and owner does not refuse: by what fbs.json then holds and the kernel has, the recovery
-- takes the screen back, unless the panel is off. The screen is well formed before the turns.
pub turns-recovers :
    (k : Kernel) (native boot : ℕ) (owner : Owner) (ts : List Turn) (rs : List Request) (s : Screen)
    → IsValid native s
    → (poll k rs (turns k ts s).0).0.panel_off ≡ false
    → is_refusal (
        recovery_action
          (file_of boot owner (poll k rs (turns k ts s).0).0)
          boot
          owner
          (plane_fbs (poll k rs (turns k ts s).0).0)
          native
          (poll k rs (turns k ts s).0).0.existing)
      ≡ false
turns-recovers k native boot owner ts rs s v =
    recovers_lem native boot owner (poll k rs (turns k ts s).0).0
      (poll-IsValid native k rs (turns k ts s).0 (turns-IsValid native k ts s v))

set_sleep-saved : (s : Screen) → s.asleep ≡ false → (set_sleep true true true s).0.saved ≡ s.saved
unfolding set_sleep sleep_on
set_sleep-saved s a = rw a refl

-- A service that is stopped dead while its panel is off cannot be restarted: once set_sleep has
-- switched the panel off, the recovery refuses, unless 0 is the number of the native framebuffer or of one
-- that the record lists. fbs.json holds the record.
pub sleep-refuses :
    (native boot : ℕ) (owner : Owner) (s : Screen)
    → Written s
    → s.asleep ≡ false
    → (0 == native) ≡ false
    → elem 0 s.rec_fbs ≡ false
    → is_refusal (
        recovery_action
          (file_of boot owner (set_sleep true true true s).0)
          boot
          owner
          (plane_fbs (set_sleep true true true s).0)
          native
          (set_sleep true true true s).0.existing)
      ≡ true
unfolding set_sleep sleep_on
sleep-refuses native boot owner s written a n z =
    let s' = (set_sleep true true true s).0 in
    let file : Rec = record { boot_id = boot; owner = owner; fbs = s.rec_fbs } in
    ap
      (λ (f : Option Rec).
        is_refusal (recovery_action f boot owner (plane_fbs s') native s'.existing))
      (ap (rec_of boot owner) (set_sleep-saved s a) ∙ file_of-Written boot owner s written)
    ∙ recovery_refuses (some file) boot owner (plane_fbs s') native s'.existing
    ∙ ground arith

-- Sleeping and waking again leaves the backlight as it was, if the commits are accepted.
pub sleep-wake :
    (display_off commit_ok : Bool) (s : Screen)
    → s.asleep ≡ false
    → (set_sleep false false true (set_sleep true display_off commit_ok s).0).0.backlight
      ≡ s.backlight
unfolding set_sleep sleep_on sleep_off
sleep-wake display_off commit_ok s a = ground arith
