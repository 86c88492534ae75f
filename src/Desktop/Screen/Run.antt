-- ===== src/Desktop/Screen/Run.antt =====
-- The loop of desktop-service.py keeps the screen well formed through any turns.
use y700_linux.Prelude.{
  ℕ, ◌≡◌, inl, inr, refl, Bool, true, false, not, ◌&&◌, Option, none, some, List, [], ◌∷◌, ◌==◌,
  elem, if◌then◌else◌,
}
use y700_linux.Desktop.Screen.{
  Kernel, Fb, Screen, Watch, Result, ok, raised, Reply, done, refused, Switch, switch_resolution,
  set_sleep, os_error, runtime_error,
}
use y700_linux.Desktop.Screen.Known.{IsOne, IsValid}
use y700_linux.Desktop.Screen.Valid.{switch_resolution-IsValid}
use y700_linux.Desktop.Screen.Reach.{
  set_sleep-IsValid, shown-IsValid, free_old-IsValid, keep, Holds,
}
use y700_linux.Desktop.Screen.Turns.{
  Request, Refresh, set_refresh, refresh, brightness, switch_to, sleep, other, Turn, on_ctl, caught,
  continue, poll, wake, pick, shown, frame, any_more, propagated, is_due, settle, check_watch,
  present, turn, turns,
}

module _ (native : ℕ) where
  set_refresh-IsValid :
      (r : Refresh) (s : Screen) → IsValid native s → Holds native (set_refresh r s)
  unfolding set_refresh
  set_refresh-IsValid r s v =
      go (elem r.hz r.offered) (r.current == r.hz) r.commit_ok (any_more r.after r.before)
    where
      go :
          (a b c d : Bool)
          → Holds native (
              if not a
              then (s, ok refused)
              else if b
              then (s, ok (done r.hz))
              else if not c
              then (s, ok refused)
              else if d
              then (record s { planes = s.fbs.0.fb }, ok refused)
              else (record s { planes = s.fbs.0.fb; first = true }, ok (done r.hz)))
      go false b c d = v
      go true true c d = v
      go true false false d = v
      go true false true true =
          keep native s s.first s.asleep s.panel_off s.bl s.fbs.0.fb s.backlight s.watch s.back v
            (inr (inr (inl (inl refl)))) v.off_asleep
      go true false true false =
          keep native s true s.asleep s.panel_off s.bl s.fbs.0.fb s.backlight s.watch s.back v
            (inr (inr (inl (inl refl)))) v.off_asleep

  on_ctl-IsValid :
      (k : Kernel) (r : Request) (s : Screen) → IsValid native s → Holds native (on_ctl k r s)
  unfolding on_ctl
  on_ctl-IsValid k (brightness b) s v =
      keep native s s.first s.asleep s.panel_off s.bl s.planes b s.watch s.back v v.shows
        v.off_asleep
  on_ctl-IsValid k (switch_to pct i) s v = switch_resolution-IsValid native k pct false i s v
  on_ctl-IsValid k (sleep on display_off commit_ok) s v =
      set_sleep-IsValid native on display_off commit_ok s v
  on_ctl-IsValid k (refresh r) s v = go s.asleep
    where
      go : (b : Bool) → Holds native (if b then (s, ok refused) else set_refresh r s)
      go true = v
      go false = set_refresh-IsValid r s v
  on_ctl-IsValid k other s v = v

  caught-IsValid : (o : Screen × Result Reply) → Holds native o → Holds native (caught o)
  caught-IsValid (s, ok r) v = v
  caught-IsValid (s, raised os_error) v = v
  caught-IsValid (s, raised runtime_error) v = v

  propagated-IsValid : (o : Screen × Result Reply) → Holds native o → Holds native (propagated o)
  propagated-IsValid (s, ok r) v = v
  propagated-IsValid (s, raised why) v = v

  continue-IsValid :
      (o : Screen × Bool) (next : Screen → Screen × Bool)
      → Holds native o
      → ((s : Screen) → IsValid native s → Holds native (next s))
      → Holds native (continue o next)
  continue-IsValid (s, true) next v h = h s v
  continue-IsValid (s, false) next v h = v

  pub poll-IsValid :
      (k : Kernel) (rs : List Request) (s : Screen) → IsValid native s → Holds native (poll k rs s)
  unfolding poll
  poll-IsValid k [] s v = v
  poll-IsValid k (r ∷ rs) s v =
      continue-IsValid _ (poll k rs) (caught-IsValid _ (on_ctl-IsValid k r s v)) (poll-IsValid k rs)

  wake-IsValid :
      (asked commit_ok : Bool) (s : Screen)
      → IsValid native s
      → IsValid native (wake asked commit_ok s)
  unfolding wake
  wake-IsValid asked commit_ok s v = go (asked && s.asleep)
    where
      go : (b : Bool) → IsValid native (if b then (set_sleep false false commit_ok s).0 else s)
      go true = set_sleep-IsValid native false false commit_ok s v
      go false = v

  frame-IsValid :
      (is_captured frame_ok : Bool) (removed : Bool × Bool) (s : Screen)
      → s.asleep ≡ false
      → IsValid native s
      → Holds native (frame is_captured frame_ok removed s)
  unfolding frame
  frame-IsValid false frame_ok removed s e v = v
  frame-IsValid true false removed s e v = v
  frame-IsValid true true removed s e v =
      free_old-IsValid native (shown s) s.old removed refl (inr (one s.back s.fbs))
        (shown-IsValid native s e v)
    where
      one : (b : Bool) (p : Fb × Fb) → IsOne (pick b p).fb p
      one false p = inl refl
      one true p = inr refl

  settle-IsValid :
      (k : Kernel) (w : Watch) (underruns : List ℕ) (i : Switch) (s : Screen)
      → IsValid native s
      → Holds native (settle k w underruns i s)
  settle-IsValid k w underruns i s v = go (any_more underruns w.before && not w.is_revert)
    where
      go :
          (b : Bool)
          → Holds native (if b then propagated (switch_resolution k w.prev true i s) else (s, true))
      go true = propagated-IsValid _ (switch_resolution-IsValid native k w.prev true i s v)
      go false = v

  check_watch-IsValid :
      (k : Kernel) (o : Option Watch) (now : ℕ) (underruns : List ℕ) (i : Switch) (s : Screen)
      → IsValid native s
      → Holds native (check_watch k o now underruns i s)
  unfolding check_watch
  check_watch-IsValid k none now underruns i s v = v
  check_watch-IsValid k (some w) now underruns i s v = go (is_due w now s)
    where
      go :
          (b : Bool)
          → Holds native
              (if b then settle k w underruns i (record s { watch = none }) else (s, true))
      go true =
          settle-IsValid k w underruns i (record s { watch = none })
            (keep native s s.first s.asleep s.panel_off s.bl s.planes s.backlight none s.back v
              v.shows v.off_asleep)
      go false = v

  present-IsValid :
      (k : Kernel) (t : Turn) (s : Screen) → IsValid native s → Holds native (present k t s)
  unfolding present
  present-IsValid k t s v = go s.asleep refl
    where
      go :
          (b : Bool)
          → s.asleep ≡ b
          → Holds native (
              if b
              then (wake t.is_ready t.ready_ok s, true)
              else continue
                  (frame t.is_captured t.frame_ok t.removed s)
                  λ s'. check_watch k s'.watch t.now t.underruns t.back_switch s')
      go true e = wake-IsValid t.is_ready t.ready_ok s v
      go false e =
          continue-IsValid _ _ (frame-IsValid t.is_captured t.frame_ok t.removed s e v)
            λ s' v'. check_watch-IsValid k s'.watch t.now t.underruns t.back_switch s' v'

  -- Any turns of the loop keep the screen well formed: the native framebuffer exists, the service's
  -- own are recorded and exist, and the planes show one of these or the native one, or the panel is
  -- off, which it is only while asleep.
  pub turns-IsValid :
      (k : Kernel) (ts : List Turn) (s : Screen)
      → IsValid native s
      → IsValid native (turns k ts s).0
  unfolding turns turn
  turns-IsValid k [] s v = v
  turns-IsValid k (t ∷ ts) s v =
      continue-IsValid _ (turns k ts)
        (continue-IsValid _ _ (poll-IsValid k t.requests s v)
          λ s' v'. present-IsValid k t _ (wake-IsValid t.wake_asked t.wake_ok s' v'))
        (turns-IsValid k ts)
