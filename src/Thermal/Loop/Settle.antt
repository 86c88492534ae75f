-- ===== src/Thermal/Loop/Settle.antt =====
-- What the frequency files hold after a round of main of thermald.py.
use y700_linux.Prelude.{◌≡◌, subst, sym, ◌∙◌, ap, refl, Bool, true, false, Option, none, some}
use y700_linux.Prelude.Int.{ℤ}
use y700_linux.Floats.{Floats}
use y700_linux.Thermal.{DomainName, prime, eff, gpu, Profile}
use y700_linux.Thermal.Loop.{Machine, Round, chain, control, sweep, hottest}
use y700_linux.Thermal.Loop.Files.{
  IsReady, Settled, control_settles, control-IsReady, Settled-other,
}

chain_inv :
    (a : Machine × Bool) (f : Machine → Machine × Bool)
    → (chain a f).1 ≡ true
    → (a.1 ≡ true) × ((f a.0).1 ≡ true) × ((chain a f).0 ≡ (f a.0).0)
chain_inv (m, true) f h = (refl, h, refl)
chain_inv (m, false) f h = cc

module _ (x : Floats) (p : Profile) (r : Round x) where
  settle_one :
      (n : DomainName) (o : Option ℤ) (t : ℤ) (m : Machine)
      → IsReady m
      → o ≡ some t
      → (control x p r n o m).1 ≡ true
      → Settled p n (control x p r n o m).0
  settle_one n none t m h e ok = cc
  settle_one n (some s) t m h e ok = control_settles x p r n s m h ok

  -- The machine after the first domain, after the second and after the third.
  abbrev first : Machine → Machine
  first m = (control x p r prime (hottest (r.zones prime)) m).0

  abbrev second : Machine → Machine
  second m = (control x p r eff (hottest (r.zones eff)) (first m)).0

  abbrev third : Machine → Machine
  third m = (control x p r gpu (hottest (r.zones gpu)) (second m)).0

  sweep_inv :
      (m : Machine)
      → (sweep x p r m).1 ≡ true
      → ((control x p r prime (hottest (r.zones prime)) m).1 ≡ true)
        × ((control x p r eff (hottest (r.zones eff)) (first m)).1 ≡ true)
        × ((control x p r gpu (hottest (r.zones gpu)) (second m)).1 ≡ true)
        × ((sweep x p r m).0 ≡ third m)
  unfolding sweep
  sweep_inv m ok =
      let (a, b, c) = chain_inv _ (control x p r gpu (hottest (r.zones gpu))) ok in
      let (a', b', c') = chain_inv _ (control x p r eff (hottest (r.zones eff))) a in
      (
        a',
        b',
        rw c' at b,
        c ∙ ap (λ (s : Machine). (control x p r gpu (hottest (r.zones gpu)) s).0) c',
      )

  settle_each :
      (m : Machine) (n : DomainName) (t : ℤ)
      → IsReady m
      → (sweep x p r m).1 ≡ true
      → hottest (r.zones n) ≡ some t
      → Settled p n (third m)
  settle_each m prime t h ok e = Settled-other x p r gpu prime _ (second m) refl (
      Settled-other x p r eff prime _ (first m) refl
        (settle_one prime _ t m h e (sweep_inv m ok).0))
  settle_each m eff t h ok e =
      Settled-other x p r gpu eff _ (second m) refl
        (settle_one eff _ t (first m) (control-IsReady x p r prime _ m h) e (sweep_inv m ok).1)
  settle_each m gpu t h ok e =
      settle_one gpu _ t (second m)
        (control-IsReady x p r eff _ (first m) (control-IsReady x p r prime _ m h)) e
        (sweep_inv m ok).2

  -- After a round that raises nothing, the file of every domain with a readable zone holds that
  -- domain's cap, and the cap is at most the ceiling of the profile. The machine is one that
  -- writes, with well-formed tables that reach below the floors, whose cache agrees with the files.
  pub sweep_settles :
      (m : Machine) (n : DomainName) (t : ℤ)
      → IsReady m
      → (sweep x p r m).1 ≡ true
      → hottest (r.zones n) ≡ some t
      → Settled p n (sweep x p r m).0
  sweep_settles m n t h ok e =
      subst (Settled p n) (sym (sweep_inv m ok).3) (settle_each m n t h ok e)
