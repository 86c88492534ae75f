-- ===== src/Thermal/Loop/Files.antt =====
-- What the main loop of thermald.py leaves in the frequency files.
use y700_linux.Prelude.{
  ℕ, ◌≤◌, ◌<◌, ◌≡◌, ◌∙◌, ap, refl, Bool, true, false, Bool-cases, inl, inr, Option, none, some,
  List, [], ◌∷◌, arith,
}
use y700_linux.Prelude.Int.{ℤ}
use y700_linux.Floats.{Floats}
use y700_linux.Thermal.{
  DomainName, prime, eff, gpu, Profile, limits, Domain, cap, update, read_profile,
}
use y700_linux.Thermal.Control.{IsValid, update-IsValid, update-cap_bounds, update-steps}
use y700_linux.Thermal.Steps.{count_le, count_le_mono}
use y700_linux.Thermal.Loop.{
  Machine, Round, set_cap, chain, put, same, apply_cap, control, sweep, round, run, battery_limited,
  hottest,
}
use y700_linux.Thermal.Loop.Ceiling.{battery_limited_bounds}

-- A cached value is what the file holds; a dry run has written nothing, so it is left out.
abbrev pub Tracks : Machine → Type 0
Tracks m = (n : DomainName) (v : ℕ) → m.dry ≡ false → m.last n ≡ some v → m.files n ≡ v

pub set_cap-Tracks :
    (refused : Bool) (k : DomainName) (w : ℕ) (m : Machine)
    → Tracks m
    → Tracks (set_cap refused k w m).0
unfolding set_cap
set_cap-Tracks refused k w m h n v d e = ground (arith, h n v)

module _ (x : Floats) where
  pub control-Tracks :
      (p : Profile) (r : Round x) (k : DomainName) (o : Option ℤ) (m : Machine)
      → Tracks m
      → Tracks (control x p r k o m).0
  unfolding control apply_cap
  control-Tracks p r k none m h = h
  control-Tracks p r k (some t) m h = go (cap d) (record m { doms = put k d m.doms }) h
    where
      d : Domain
      d =
          update t (battery_limited x p r.battery k) (limits p k).floor (limits p k).target
            (m.doms k)

      go : (c : Option ℕ) (m' : Machine) → Tracks m' → Tracks (apply_cap c (r.refused k) k m').0
      go none m' h' = h'
      go (some v) m' h' = set_cap-Tracks (r.refused k) k v m' h'

  chain-Tracks :
      (a : Machine × Bool) (f : Machine → Machine × Bool)
      → Tracks a.0
      → ((m : Machine) → Tracks m → Tracks (f m).0)
      → Tracks (chain a f).0
  chain-Tracks (m, true) f h k = k m h
  chain-Tracks (m, false) f h k = h

  sweep-Tracks : (p : Profile) (r : Round x) (m : Machine) → Tracks m → Tracks (sweep x p r m).0
  unfolding sweep
  sweep-Tracks p r m h =
      chain-Tracks _ _
        (chain-Tracks _ _ (control-Tracks p r prime (hottest (r.zones prime)) m h)
          (control-Tracks p r eff (hottest (r.zones eff))))
        (control-Tracks p r gpu (hottest (r.zones gpu)))

  round-Tracks :
      (r : Round x) (o : Option Profile) (m : Machine) → Tracks m → Tracks (round x r o m).0
  unfolding round
  round-Tracks r none m h = h
  round-Tracks r (some p) m h = sweep-Tracks p r m h

  pub run-Tracks : (rs : List (Round x)) (m : Machine) → Tracks m → Tracks (run x rs m).0
  unfolding run
  run-Tracks [] m h = h
  run-Tracks (r ∷ rs) m h =
      chain-Tracks _ _ (round-Tracks r (read_profile r.document) m h) (run-Tracks rs)

module _ (x : Floats) where
  -- From an empty cache, through any rounds and whether or not one raises, the cached cap of a
  -- domain is what its file holds; a dry run, which writes nothing, is left out.
  pub run_cached :
      (rs : List (Round x)) (m : Machine) (n : DomainName) (v : ℕ)
      → ((k : DomainName) → m.last k ≡ none)
      → (run x rs m).0.dry ≡ false
      → (run x rs m).0.last n ≡ some v
      → (run x rs m).0.files n ≡ v
  run_cached rs m n v fresh d e = run-Tracks x rs m empty n v d e
    where
      empty : Tracks m
      empty k w dry h = ground (arith, fresh k)

-- A machine that writes, with well-formed domains whose tables reach below every floor.
pub record IsReady (m : Machine) : Type 0 where
  pub live : m.dry ≡ false
  pub tracks : Tracks m
  pub valid : (n : DomainName) → IsValid (m.doms n)
  pub low : (p : Profile) (n : DomainName) → 0 < count_le (limits p n).floor (m.doms n).steps

-- The file of `n` holds the cap of its domain, which is at most the ceiling of the profile.
abbrev pub Settled : Profile → DomainName → Machine → Type 0
Settled p n m = (v : ℕ) × (cap (m.doms n) ≡ some v) × (m.files n ≡ v) × (v ≤ (limits p n).ceiling)

set_cap_other :
    (refused : Bool) (k n : DomainName) (v : ℕ) (m : Machine)
    → same k n ≡ false
    → ((set_cap refused k v m).0.doms n ≡ m.doms n)
      × ((set_cap refused k v m).0.files n ≡ m.files n)
unfolding set_cap
set_cap_other refused k n v m h = ground arith

set_cap-frame :
    (refused : Bool) (k : DomainName) (v : ℕ) (m : Machine)
    → ((set_cap refused k v m).0.doms ≡ m.doms) × ((set_cap refused k v m).0.dry ≡ m.dry)
unfolding set_cap
set_cap-frame refused k v m = ground arith

same_refl : (n : DomainName) → same n n ≡ true
same_refl prime = refl
same_refl eff = refl
same_refl gpu = refl

-- A `set` that does not raise leaves its value in the file.
set_cap_file :
    (refused : Bool) (k : DomainName) (v : ℕ) (m : Machine)
    → Tracks m
    → m.dry ≡ false
    → (set_cap refused k v m).1 ≡ true
    → (set_cap refused k v m).0.files k ≡ v
unfolding set_cap
set_cap_file refused k v m h d e = ground (arith, h k v, same_refl k)

module _ (x : Floats) (p : Profile) (r : Round x) where
  control_other :
      (k n : DomainName) (o : Option ℤ) (m : Machine)
      → same k n ≡ false
      → ((control x p r k o m).0.doms n ≡ m.doms n) × ((control x p r k o m).0.files n ≡ m.files n)
  unfolding control apply_cap
  control_other k n none m h = (refl, refl)
  control_other k n (some t) m h = go (cap d)
    where
      d : Domain
      d =
          update t (battery_limited x p r.battery k) (limits p k).floor (limits p k).target
            (m.doms k)

      m' : Machine
      m' = record m { doms = put k d m.doms }

      go :
          (c : Option ℕ)
          → ((apply_cap c (r.refused k) k m').0.doms n ≡ m.doms n)
            × ((apply_cap c (r.refused k) k m').0.files n ≡ m.files n)
      go none = ground arith
      go (some v) = ground (arith, set_cap_other (r.refused k) k n v m' h)

  -- The domain `k` after the round.
  abbrev pub stepped : DomainName → ℤ → Machine → Domain
  stepped k t m =
      update t (battery_limited x p r.battery k) (limits p k).floor (limits p k).target (m.doms k)

  apply_cap-frame :
      (c : Option ℕ) (k : DomainName) (m : Machine)
      → ((apply_cap c (r.refused k) k m).0.doms ≡ m.doms)
        × ((apply_cap c (r.refused k) k m).0.dry ≡ m.dry)
  unfolding apply_cap
  apply_cap-frame none k m = (refl, refl)
  apply_cap-frame (some v) k m = set_cap-frame (r.refused k) k v m

  control-frame :
      (k : DomainName) (t : ℤ) (m : Machine)
      → ((control x p r k (some t) m).0.doms ≡ put k (stepped k t m) m.doms)
        × ((control x p r k (some t) m).0.dry ≡ m.dry)
  unfolding control
  control-frame k t m =
      apply_cap-frame (cap (stepped k t m)) k (record m { doms = put k (stepped k t m) m.doms })

  put-keeps :
      (P : Domain → Type 0) (k n : DomainName) (d : Domain) (f : DomainName → Domain)
      → (same k n ≡ true → P d)
      → P (f n)
      → P (put k d f n)
  put-keeps P k n d f hd hf = elim (Bool-cases (same k n)) [ inl e ↦ rw e (hd e) | inr e ↦ rw e hf ]

  same-eq : (k n : DomainName) → same k n ≡ true → k ≡ n
  same-eq prime n h = ground arith
  same-eq eff n h = ground arith
  same-eq gpu n h = ground arith

  pub control-IsReady :
      (k : DomainName) (o : Option ℤ) (m : Machine) → IsReady m → IsReady (control x p r k o m).0
  control-IsReady k none m h = unfold control in h
  control-IsReady k (some t) m h = record {
    live = (control-frame k t m).1 ∙ h.live;
    tracks = control-Tracks x p r k (some t) m h.tracks;
    valid = λ n. rw (ap (λ (f : DomainName → Domain). f n) (control-frame k t m).0) (
        put-keeps IsValid k n (stepped k t m) m.doms
          (λ e. update-IsValid t _ _ _ (m.doms k) (h.valid k)) (h.valid n));
    low = λ q n. rw (ap (λ (f : DomainName → Domain). f n) (control-frame k t m).0) (
        put-keeps (λ d. 0 < count_le (limits q n).floor d.steps) k n (stepped k t m) m.doms
          (λ e. rw (update-steps t _ _ _ (m.doms k)) (rw (same-eq k n e) (h.low q n))) (h.low q n));
  }

  apply_cap_file :
      (c : Option ℕ) (v : ℕ) (k : DomainName) (m : Machine)
      → c ≡ some v
      → Tracks m
      → m.dry ≡ false
      → (apply_cap c (r.refused k) k m).1 ≡ true
      → (apply_cap c (r.refused k) k m).0.files k ≡ v
  unfolding apply_cap
  apply_cap_file none v k m e h d ok = cc
  apply_cap_file (some w) v k m e h d ok = set_cap_file (r.refused k) k w m h d ok ∙ ground arith

  -- The cap that a round chooses for a domain of a ready machine.
  chosen :
      (n : DomainName) (t : ℤ) (m : Machine)
      → IsReady m
      → (v : ℕ) × (cap (stepped n t m) ≡ some v) × (v ≤ (limits p n).ceiling)
  chosen n t m h =
      (bounds.0, bounds.1, omega (arith, bounds.2, battery_limited_bounds x p r.battery n))
    where
      ceil : ℕ
      ceil = battery_limited x p r.battery n

      low : 0 < count_le ceil (m.doms n).steps
      low = omega (
        arith,
        h.low p n,
        battery_limited_bounds x p r.battery n,
        count_le_mono (limits p n).floor ceil (m.doms n).steps
            (battery_limited_bounds x p r.battery n).0,
      )

      bounds : (v : ℕ) × (cap (stepped n t m) ≡ some v) × (v ≤ ceil)
      bounds =
          update-cap_bounds t ceil (limits p n).floor (limits p n).target (m.doms n) (h.valid n) low

  pub control_settles :
      (n : DomainName) (t : ℤ) (m : Machine)
      → IsReady m
      → (control x p r n (some t) m).1 ≡ true
      → Settled p n (control x p r n (some t) m).0
  unfolding control
  control_settles n t m h e = (value.0, at_cap, at_file, value.2)
    where
      value : (v : ℕ) × (cap (stepped n t m) ≡ some v) × (v ≤ (limits p n).ceiling)
      value = chosen n t m h

      at_cap : cap ((control x p r n (some t) m).0.doms n) ≡ some value.0
      at_cap =
          ap (λ (f : DomainName → Domain). cap (f n)) (control-frame n t m).0
          ∙ rw (same_refl n) value.1

      at_file : (control x p r n (some t) m).0.files n ≡ value.0
      at_file =
          apply_cap_file (cap (stepped n t m)) value.0 n
            (record m { doms = put n (stepped n t m) m.doms }) value.1 h.tracks h.live e

  pub Settled-other :
      (k n : DomainName) (o : Option ℤ) (m : Machine)
      → same k n ≡ false
      → Settled p n m
      → Settled p n (control x p r k o m).0
  Settled-other k n o m h (v, c, f, l) =
      (v, ap cap (control_other k n o m h).0 ∙ c, (control_other k n o m h).1 ∙ f, l)
