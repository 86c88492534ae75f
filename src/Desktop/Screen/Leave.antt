-- ===== src/Desktop/Screen/Leave.antt =====
-- How main of desktop-service.py leaves the screen: its finally clause.
use y700_linux.Prelude.{
  ℕ, ◌≡◌, ◌≢◌, inl, inr, refl, Bool, true, false, not, ◌&&◌, Option, none, some, List, [], ◌∷◌,
  elem, arith, Bool-cases,
}
use y700_linux.Desktop.Screen.{Screen, Saved, rm_fb}
use y700_linux.Desktop.Screen.Known.{elem-without, Written}
use y700_linux.Desktop.Screen.Turns.{leave, remove_fbs}

-- Where no error was collected, exactly the given framebuffers are gone.
remove_fbs-clean :
    (removes : ℕ → Bool) (fs xs : List ℕ) (f : ℕ)
    → (remove_fbs removes fs xs).1 ≡ true
    → elem f (remove_fbs removes fs xs).0 ≡ (elem f xs && not (elem f fs))
unfolding remove_fbs
remove_fbs-clean removes [] xs f h = ground arith
remove_fbs-clean removes (g ∷ gs) xs f h = elim (Bool-cases (removes g)) [
  | inl took ↦
      ground (
        arith,
        took,
        h,
        remove_fbs-clean removes gs (rm_fb (removes g) g xs) f,
        elem-without f g xs,
      )
  | inr failed ↦ ground (arith, failed, h)
]

kept_file : (o : Option Saved) (s : Saved) → o ≡ some s → o ≢ none
kept_file o s e h = cc

-- fbs.json, which was there, is gone behind the exit only where the planes show the native framebuffer and
-- what still exists is exactly what was not in `allfbs`.
pub leave_cleans :
    (native : ℕ) (commit_ok : Bool) (removes : ℕ → Bool) (destroys : Bool) (s : Screen)
    → Written s
    → (leave native commit_ok removes destroys s).saved ≡ none
    → ((leave native commit_ok removes destroys s).planes ≡ native)
      × ((f : ℕ)
          → elem f (leave native commit_ok removes destroys s).existing
            ≡ (elem f s.existing && not (elem f s.allfbs)))
unfolding leave
leave_cleans native false removes destroys s (handles, e) gone = absurd (kept_file s.saved _ e gone)
leave_cleans native true removes destroys s (handles, e) gone =
    elim (Bool-cases (remove_fbs removes s.allfbs s.existing).1) [
      | inl clean ↦ (refl, λ f. remove_fbs-clean removes s.allfbs s.existing f clean)
      | inr dirty ↦ absurd (kept_file s.saved _ e (rw dirty at gone))
    ]
