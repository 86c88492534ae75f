-- ===== src/Desktop/Screen/Reach.antt =====
-- Sleeping, waking and the commit of a frame in desktop-service.py keep the screen well formed.
use y700_linux.Prelude.{
  ℕ, ◌≡◌, ◌⊎◌, inl, inr, refl, subst, Bool, true, false, not, ◌&&◌, Option, none, some, arith,
  if◌then◌else◌,
}
use y700_linux.Desktop.Screen.{
  remove, Fb, Screen, Watch, ok, raised, done, free, sleep_on, sleep_off, awake, set_sleep,
  os_error,
}
use y700_linux.Desktop.Screen.Known.{Ours, BothOurs, OldOurs, IsOne, Shows, IsValid}
use y700_linux.Desktop.Screen.Valid.{Ours-free, native-free}
use y700_linux.Desktop.Screen.Turns.{free_old, pick, shown}

module _ (native : ℕ) where
  -- A change that the invariant does not read, save the planes and the two flags.
  pub keep :
      (s : Screen) (first asleep off : Bool) (bl planes backlight : ℕ) (watch : Option Watch)
      (back : Bool)
      → IsValid native s
      → Shows native (record s { panel_off = off; planes = planes })
      → (asleep ≡ true) ⊎ (off ≡ false)
      → IsValid native (record s {
        first = first;
        watch = watch;
        back = back;
        asleep = asleep;
        panel_off = off;
        bl = bl;
        planes = planes;
        backlight = backlight;
      })
  keep s first asleep off bl planes backlight watch back v shows off_asleep = record {
    written = v.written;
    native_lives = v.native_lives;
    current = both s.fbs v.current;
    previous = old s.old v.previous;
    shows = shows;
    off_asleep = off_asleep;
  }
    where
      both :
          (p : Fb × Fb)
          → BothOurs native s p
          → BothOurs native
              (record s {
                first = first;
                watch = watch;
                back = back;
                asleep = asleep;
                panel_off = off;
                bl = bl;
                planes = planes;
                backlight = backlight;
              })
              p
      both p b = record {
        one = record { recorded = b.one.recorded; lives = b.one.lives; foreign = b.one.foreign };
        two = record { recorded = b.two.recorded; lives = b.two.lives; foreign = b.two.foreign };
      }

      old :
          (o : Option (Fb × Fb))
          → OldOurs native s o
          → OldOurs native
              (record s {
                first = first;
                watch = watch;
                back = back;
                asleep = asleep;
                panel_off = off;
                bl = bl;
                planes = planes;
                backlight = backlight;
              })
              o
      old none h = tt
      old (some o) h = (both o h.0, h.1)

  not_off :
      (s : Screen)
      → Shows native s
      → s.panel_off ≡ false
      → Shows native (record s { panel_off = false })
  not_off s (inl off) h = cc
  not_off s (inr at) h = inr at

  awake_flags : (s : Screen) → IsValid native s → s.asleep ≡ false → s.panel_off ≡ false
  awake_flags s v h = ground (arith, v.off_asleep)

  sleep_on-IsValid :
      (display_off commit_ok : Bool) (s : Screen)
      → s.asleep ≡ false
      → IsValid native s
      → IsValid native (sleep_on display_off commit_ok s)
  unfolding sleep_on
  sleep_on-IsValid display_off commit_ok s e v = go (display_off && commit_ok)
    where
      go :
          (b : Bool)
          → IsValid native (
              if b
              then record s {
                bl = s.backlight;
                backlight = 0;
                asleep = true;
                panel_off = true;
                planes = 0;
              }
              else record s { bl = s.backlight; backlight = 0; asleep = true; panel_off = false })
      go true = keep s s.first true true s.backlight 0 0 s.watch s.back v (inl refl) (inl refl)
      go false =
          keep s s.first true false s.backlight s.planes 0 s.watch s.back v
            (not_off s v.shows (awake_flags s v e)) (inl refl)

  abbrev pub Holds : {A : Type 0} → Screen × A → Type 0
  Holds o = IsValid native o.0

  sleep_off-IsValid :
      (commit_ok : Bool) (s : Screen) → IsValid native s → Holds (sleep_off commit_ok s)
  unfolding sleep_off
  sleep_off-IsValid commit_ok s v = go s.panel_off commit_ok refl
    where
      go :
          (a b : Bool)
          → s.panel_off ≡ a
          → Holds (
              if a
              then (if b
                  then (awake (record s { planes = s.fbs.0.fb }), ok (done 0))
                  else (s, raised os_error))
              else (awake s, ok (done 0)))
      go true true e =
          keep s true false false s.bl s.fbs.0.fb _ s.watch s.back v (inr (inr (inl (inl refl))))
            (inr refl)
      go true false e = v
      go false b e =
          keep s true false false s.bl s.planes _ s.watch s.back v (not_off s v.shows e) (inr refl)

  pub set_sleep-IsValid :
      (on display_off commit_ok : Bool) (s : Screen)
      → IsValid native s
      → Holds (set_sleep on display_off commit_ok s)
  unfolding set_sleep
  set_sleep-IsValid on display_off commit_ok s v = go on s.asleep refl
    where
      go :
          (a b : Bool)
          → s.asleep ≡ b
          → Holds (
              if a
              then (if b then (s, ok (done 1)) else (sleep_on display_off commit_ok s, ok (done 1)))
              else if b
              then sleep_off commit_ok s
              else (s, ok (done 0)))
      go true true e = v
      go true false e = sleep_on-IsValid display_off commit_ok s e v
      go false true e = sleep_off-IsValid commit_ok s v
      go false false e = v

  -- The panel shows the frame; the framebuffers of the previous resolution, if any, may go.
  pub shown-IsValid : (s : Screen) → s.asleep ≡ false → IsValid native s → IsValid native (shown s)
  shown-IsValid s e v =
      keep s false s.asleep s.panel_off s.bl (pick s.back s.fbs).fb s.backlight s.watch (not s.back)
        v (inr (inr (inl (one s.back s.fbs)))) v.off_asleep
    where
      one : (b : Bool) (p : Fb × Fb) → IsOne (pick b p).fb p
      one false p = inl refl
      one true p = inr refl

  Ours-no_old : (s : Screen) (f : ℕ) → Ours native s f → Ours native (record s { old = none }) f
  Ours-no_old s f o = record { recorded = o.recorded; lives = o.lives; foreign = o.foreign }

  pub free_old-IsValid :
      (s : Screen) (o : Option (Fb × Fb)) (gone : Bool × Bool)
      → s.old ≡ o
      → ((s.planes ≡ native) ⊎ IsOne s.planes s.fbs)
      → IsValid native s
      → IsValid native (free_old o gone s)
  unfolding free
  free_old-IsValid s none gone e at v = v
  free_old-IsValid s (some o) gone e at v = go (subst (OldOurs native s) e v.previous)
    where
      go : OldOurs native s (some o) → IsValid native (record (free o gone s) { old = none })
      go (b, a) = record {
        written = (remove o.1.handle (remove o.0.handle s.rec_handles), refl);
        native_lives = native-free native s o gone b.one.foreign b.two.foreign v.native_lives;
        current = record {
          one =
              Ours-no_old (free o gone s) s.fbs.0.fb
                (Ours-free native s o gone s.fbs.0.fb a.p00 a.p10 v.current.one);
          two =
              Ours-no_old (free o gone s) s.fbs.1.fb
                (Ours-free native s o gone s.fbs.1.fb a.p01 a.p11 v.current.two);
        };
        previous = tt;
        shows = inr (weaken at);
        off_asleep = v.off_asleep;
      }
        where
          weaken :
              ((s.planes ≡ native) ⊎ IsOne s.planes s.fbs)
              → (s.planes ≡ native) ⊎ (IsOne s.planes s.fbs ⊎ ⊥)
          weaken (inl h) = inl h
          weaken (inr h) = inr (inl h)
