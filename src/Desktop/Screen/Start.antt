-- ===== src/Desktop/Screen/Start.antt =====
-- How desktop-service.py starts with the screen.
use y700_linux.Prelude.{
  ℕ, ◌≡◌, inl, inr, Bool, true, false, none, List, [], ◌==◌, elem, arith, Bool-cases,
}
use y700_linux.Desktop.Screen.{
  Kernel, Fb, Screen, Result, ok, raised, Reply, done, Attempt, alloc, and_then, resolution,
  made_fb,
}
use y700_linux.Desktop.Screen.Known.{Ours, IsValid, IsNew, MakesTwo, alloc-MakesTwo}

-- Before S exists: the planes show the native framebuffer and nothing is recorded: recover has
-- removed fbs.json. The fields of S
-- have placeholders, which the start replaces.
abbrev pub booting : Bool → ℕ → List ℕ → ℕ → Screen
booting zc native existing backlight = record {
  fbs = (made_fb 0 0 0 0, made_fb 0 0 0 0);
  w = 0;
  h = 0;
  pct = 0;
  old = none;
  first = true;
  watch = none;
  asleep = false;
  panel_off = false;
  bl = 0;
  back = false;
  zc_on = zc;
  rec_fbs = [];
  rec_handles = [];
  allfbs = [];
  existing = existing;
  saved = none;
  planes = native;
  backlight = backlight;
}

abbrev pub with_fbs : ℕ → Fb × Fb → Screen → Screen × Result Reply
with_fbs pct p s =
    (record s { fbs = p; w = (resolution pct).0; h = (resolution pct).1; pct = pct }, ok (done pct))

-- S = {'fbs': alloc(rw0, rh0), ...} at the resolution of desktop.json.
unfoldable pub start : Kernel → ℕ → Attempt → Attempt → Screen → Screen × Result Reply
start k pct a1 a2 s =
    and_then (alloc k (resolution pct).0 (resolution pct).1 a1 a2 s) (with_fbs pct)

-- The service has started: the call returned.
abbrev pub Starts : ℕ → Screen × Result Reply → Type 0
Starts native (s, ok r) = IsValid native s
Starts native (s, raised why) = Unit

new-foreign : (s s' : Screen) (f g : ℕ) → IsNew s s' f → elem g s.existing ≡ true → (f == g) ≡ false
new-foreign s s' f g n e = elim (Bool-cases (f == g)) [
  | inl same ↦ ground (arith, n.unused)
  | inr ne ↦ ne
]

-- Where the native framebuffer exists, a start that raises nothing leaves a well-formed screen.
pub start-IsValid :
    (k : Kernel) (zc : Bool) (native pct backlight : ℕ) (a1 a2 : Attempt) (existing : List ℕ)
    → elem native existing ≡ true
    → Starts native (start k pct a1 a2 (booting zc native existing backlight))
unfolding start
start-IsValid k zc native pct backlight a1 a2 existing e =
    go (alloc k (resolution pct).0 (resolution pct).1 a1 a2 (booting zc native existing backlight))
      (alloc-MakesTwo k (resolution pct).0 (resolution pct).1 a1 a2
        (booting zc native existing backlight))
  where
    s0 : Screen
    s0 = booting zc native existing backlight

    new : (s' : Screen) (p : Fb × Fb) (f : ℕ) → IsNew s0 s' f → Ours native (with_fbs pct p s').0 f
    new s' p f n = record {
      recorded = n.recorded;
      lives = n.lives;
      foreign = new-foreign s0 s' f native n e;
    }

    go : (o : Screen × Result (Fb × Fb)) → MakesTwo s0 o → Starts native (and_then o (with_fbs pct))
    go (s', raised why) m = tt
    go (s', ok p) m = record {
      written = m.1.0.written;
      native_lives = m.0.lives native e;
      current = record { one = new s' p p.0.fb m.1.0; two = new s' p p.1.fb m.1.1.0 };
      previous = rw m.0.same_old tt;
      shows = inr (inl m.0.same_planes);
      off_asleep = inr m.0.same_off;
    }
