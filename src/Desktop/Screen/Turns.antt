-- ===== src/Desktop/Screen/Turns.antt =====
-- The loop of main in desktop-service.py, and how it ends.
--
-- A turn's inputs are the requests that the control socket delivers, the wake flag of the touch
-- proxy, whether a watched device has input, whether a frame of the right size was captured and its
-- commit accepted, and the clock and the underruns as the watch of a switch reads them.
use y700_linux.Prelude.{
  ℕ, Bool, true, false, not, ◌&&◌, Option, none, some, List, [], ◌∷◌, leb, ltb, elem, ◌==◌,
  if◌then◌else◌,
}
use y700_linux.Desktop.Screen.{
  Kernel, Fb, Screen, Watch, os_error, runtime_error, Result, ok, raised, Reply, done, refused,
  Switch, switch_resolution, set_sleep, free, rm_fb, has_old,
}

-- any(u_now[i] > u_before[i] for i in u_now), on counters in one order.
abbrev pub any_more : List ℕ → List ℕ → Bool
any_more [] before = false
any_more (u ∷ us) [] = false
any_more (u ∷ us) (b ∷ bs) = if ltb b u then true else any_more us bs

-- What a change of the refresh rate asks: the rates that the connector offers, the one it has, and
-- the underruns around the commit.
pub record Refresh : Type 0 where
  pub hz : ℕ
  pub offered : List ℕ
  pub current : ℕ
  pub commit_ok : Bool
  pub before : List ℕ
  pub after : List ℕ

-- What on_ctl does to the screen, by the answer of parse_ctl; the other requests leave it alone.
pub data Request : Type 0 where
  brightness : ℕ → Request
  switch_to : ℕ → Switch → Request
  sleep : Bool → Bool → Bool → Request
  refresh : Refresh → Request
  other : Request

pub record Turn : Type 0 where
  pub requests : List Request
  pub wake_asked : Bool
  pub wake_ok : Bool
  pub is_ready : Bool
  pub ready_ok : Bool
  pub is_captured : Bool
  pub frame_ok : Bool
  -- Whether RMFB takes the framebuffers of the previous resolution.
  pub removed : Bool × Bool
  pub now : ℕ
  pub underruns : List ℕ
  pub back_switch : Switch

-- The commit puts the first framebuffer on the planes, and so does the one that reverts it.
unfoldable pub set_refresh : Refresh → Screen → Screen × Result Reply
set_refresh r s =
    if not (elem r.hz r.offered)
    then (s, ok refused)
    else if r.current == r.hz
    then (s, ok (done r.hz))
    else if not r.commit_ok
    then (s, ok refused)
    else if any_more r.after r.before
    then (record s { planes = s.fbs.0.fb }, ok refused)
    else (record s { planes = s.fbs.0.fb; first = true }, ok (done r.hz))

unfoldable pub on_ctl : Kernel → Request → Screen → Screen × Result Reply
on_ctl k (brightness v) s = (record s { backlight = v }, ok (done v))
on_ctl k (switch_to pct i) s = switch_resolution k pct false i s
on_ctl k (sleep on display_off commit_ok) s = set_sleep on display_off commit_ok s
on_ctl k (refresh r) s = if s.asleep then (s, ok refused) else set_refresh r s
on_ctl k other s = (s, ok refused)

-- Control.poll logs an OSError and goes on; any other exception ends the loop.
abbrev pub caught : Screen × Result Reply → Screen × Bool
caught (s, ok r) = (s, true)
caught (s, raised os_error) = (s, true)
caught (s, raised runtime_error) = (s, false)

-- The next statement, unless the loop has ended.
abbrev pub continue : Screen × Bool → (Screen → Screen × Bool) → Screen × Bool
continue (s, true) next = next s
continue (s, false) next = (s, false)

unfoldable pub poll : Kernel → List Request → Screen → Screen × Bool
poll k [] s = (s, true)
poll k (r ∷ rs) s = continue (caught (on_ctl k r s)) (poll k rs)

-- `if asked` and `if S['asleep']`: set_sleep(False), with an OSError logged.
unfoldable pub wake : Bool → Bool → Screen → Screen
wake asked commit_ok s = if asked && s.asleep then (set_sleep false false commit_ok s).0 else s

abbrev pub free_old : Option (Fb × Fb) → Bool × Bool → Screen → Screen
free_old none removed s = s
free_old (some o) removed s = record (free o removed s) { old = none }

abbrev pub pick : Bool → Fb × Fb → Fb
pick false fbs = fbs.0
pick true fbs = fbs.1

abbrev pub shown : Screen → Screen
shown s = record s { planes = (pick s.back s.fbs).fb; first = false; back = not s.back }

-- The commit of a captured frame; the framebuffers of the previous resolution go after it.
unfoldable pub frame : Bool → Bool → Bool × Bool → Screen → Screen × Bool
frame is_captured frame_ok removed s =
    if is_captured
    then (if frame_ok then (free_old s.old removed (shown s), true) else (s, false))
    else (s, true)

-- A return to the previous resolution; its exception ends the loop.
abbrev pub propagated : Screen × Result Reply → Screen × Bool
propagated (s, ok r) = (s, true)
propagated (s, raised why) = (s, false)

abbrev pub is_due : Watch → ℕ → Screen → Bool
is_due w now s = leb w.at_time now && not (has_old s.old)

abbrev pub settle : Kernel → Watch → List ℕ → Switch → Screen → Screen × Bool
settle k w underruns i s =
    if any_more underruns w.before && not w.is_revert
    then propagated (switch_resolution k w.prev true i s)
    else (s, true)

unfoldable pub check_watch : Kernel → Option Watch → ℕ → List ℕ → Switch → Screen → Screen × Bool
check_watch k none now underruns i s = (s, true)
check_watch k (some w) now underruns i s =
    if is_due w now s then settle k w underruns i (record s { watch = none }) else (s, true)

-- While asleep the turn ends at its `continue`.
unfoldable pub present : Kernel → Turn → Screen → Screen × Bool
present k t s =
    if s.asleep
    then (wake t.is_ready t.ready_ok s, true)
    else continue (frame t.is_captured t.frame_ok t.removed s)
        λ s'. check_watch k s'.watch t.now t.underruns t.back_switch s'

unfoldable pub turn : Kernel → Turn → Screen → Screen × Bool
turn k t s = continue (poll k t.requests s) λ s'. present k t (wake t.wake_asked t.wake_ok s')

unfoldable pub turns : Kernel → List Turn → Screen → Screen × Bool
turns k [] s = (s, true)
turns k (t ∷ ts) s = continue (turn k t s) (turns k ts)

-- remove_fbs on the framebuffers of `allfbs`: what is left, and whether no error was collected. `removes`
-- says which RMFB the kernel takes.
unfoldable pub remove_fbs : (ℕ → Bool) → List ℕ → List ℕ → List ℕ × Bool
remove_fbs removes [] xs = (xs, true)
remove_fbs removes (f ∷ fs) xs =
    let rest = remove_fbs removes fs (rm_fb (removes f) f xs) in (rest.0, removes f && rest.1)

-- The finally clause: the native layout, then every framebuffer of `allfbs`, if that commit holds; fbs.json
-- goes where there was no error of RMFB or, by `destroys`, of DESTROY_DUMB.
unfoldable pub leave : ℕ → Bool → (ℕ → Bool) → Bool → Screen → Screen
leave native commit_ok removes destroys s =
    let left = remove_fbs removes s.allfbs s.existing in
    if commit_ok
    then record s {
      planes = native;
      existing = left.0;
      saved = if left.1 && destroys then none else s.saved;
    }
    else s
