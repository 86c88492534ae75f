-- ===== src/Desktop/Screen.antt =====
-- The screen of main in desktop-service.py: alloc, free, switch_resolution, set_sleep and the part of
-- the loop that puts frames on the panel.
--
-- `Screen` holds the dictionary S, the record of fbs.json, and what the kernel has: the framebuffers
-- that exist, the one on the two planes (0 where they are detached) and the backlight. What a call
-- of the kernel or of the compositor answers is an input. The frame's pixels, the mappings of the
-- buffers, the counters of the status file and the log are left out. `saved` is fbs.json: it changes
-- where the code calls write_json, whose calls are taken to succeed.

pub mod Turns
pub mod Known
pub mod Valid
pub mod Reach
pub mod Run
pub mod Restart
pub mod Start
pub mod Leave
mod Tests
use y700_linux.Prelude.{
  ℕ, zero, suc, ◌+◌, Bool, true, false, not, ◌&&◌, ◌||◌, Option, none, some, List, [], ◌∷◌, ◌++◌,
  ◌==◌, ◌≡◌, elem, if◌then◌else◌,
}

pub record Fb : Type 0 where
  pub fb : ℕ
  pub handle : ℕ
  pub w : ℕ
  pub h : ℕ

-- time, underruns before, the previous resolution, and whether the switch is itself a return.
pub record Watch : Type 0 where
  pub at_time : ℕ
  pub before : List ℕ
  pub prev : ℕ
  pub is_revert : Bool

-- The two lists of framebuffers and handles that fbs.json holds.
pub record Saved : Type 0 where
  pub fbs : List ℕ
  pub handles : List ℕ

pub record Screen : Type 0 where
  pub fbs : Fb × Fb
  pub w : ℕ
  pub h : ℕ
  pub pct : ℕ
  pub old : Option (Fb × Fb)
  pub first : Bool
  pub watch : Option Watch
  pub asleep : Bool
  pub panel_off : Bool
  pub bl : ℕ
  pub back : Bool
  pub zc_on : Bool
  -- rec['fbs'] and rec['handles'], and allfbs.
  pub rec_fbs : List ℕ
  pub rec_handles : List ℕ
  pub allfbs : List ℕ
  -- fbs.json, where it exists.
  pub saved : Option Saved
  -- The kernel's side.
  pub existing : List ℕ
  pub planes : ℕ
  pub backlight : ℕ

-- The kernel numbers a framebuffer when it is made, and gives none of the numbers that are in use.
pub record Kernel : Type 0 where
  pub new_id : List ℕ → ℕ
  pub new_id-fresh : (existing : List ℕ) → elem (new_id existing) existing ≡ false

pub data Failure : Type 0 where
  os_error runtime_error : Failure

-- How making a buffer ends: with this handle and a framebuffer; with both, where the readback of the
-- framebuffer raises, so that nobody knows its number; with the handle only; or with neither.
pub data Made : Type 0 where
  got : ℕ → Made
  unread : ℕ → Failure → Made
  half : ℕ → Failure → Made
  failed : Failure → Made

-- One turn of the loop of alloc: heap_fb, and dumb_fb where that is not used or fails.
pub record Attempt : Type 0 where
  pub heap : Made
  pub dumb : Made

pub data Result {ℓ} (A : Type ℓ) : Type ℓ where
  ok : A → Result A
  raised : Failure → Result A

-- list.remove under its `if x in xs`
abbrev pub remove : ℕ → List ℕ → List ℕ
remove a [] = []
remove a (x ∷ xs) = let rest = remove a xs in if x == a then xs else x ∷ rest

abbrev pub without : ℕ → List ℕ → List ℕ
without a [] = []
without a (x ∷ xs) = let rest = without a xs in if x == a then rest else x ∷ rest

-- What RMFB leaves of the framebuffers that exist: an error of it is collected, and nothing goes.
abbrev pub rm_fb : Bool → ℕ → List ℕ → List ℕ
rm_fb true a xs = without a xs
rm_fb false a xs = xs

-- write_json(STATE/'fbs.json', rec)
abbrev pub write : Screen → Screen
write s = record s { saved = some (record { fbs = s.rec_fbs; handles = s.rec_handles }) }

abbrev pub made_fb : ℕ → ℕ → ℕ → ℕ → Fb
made_fb handle fb w h = record { fb = fb; handle = handle; w = w; h = h }

abbrev pub add_handle : ℕ → Screen → Screen
add_handle handle s = write (record s { rec_handles = s.rec_handles ++ handle ∷ [] })

-- The last lines of the loop body: the framebuffer exists, and is recorded.
abbrev pub add_fb : ℕ → ℕ → Screen → Screen
add_fb handle fb s = write (record (add_handle handle s) {
  rec_fbs = s.rec_fbs ++ fb ∷ [];
  allfbs = s.allfbs ++ fb ∷ [];
  existing = fb ∷ s.existing;
})

-- The except clause takes the handle, if it is recorded, out again, and dumb buffers are used; it does not
-- write fbs.json.
abbrev pub fall_back : Screen → Screen
fall_back s = record s { zc_on = false }

-- The dumb buffer: an exception leaves its handle recorded.
abbrev pub alloc_dumb : Kernel → ℕ → ℕ → Made → Screen → Screen × Result Fb
alloc_dumb k w h (got handle) s =
    (add_fb handle (k.new_id s.existing) s, ok (made_fb handle (k.new_id s.existing) w h))
alloc_dumb k w h (unread handle why) s =
    (add_handle handle (record s { existing = k.new_id s.existing ∷ s.existing }), raised why)
alloc_dumb k w h (half handle why) s = (add_handle handle s, raised why)
alloc_dumb k w h (failed why) s = (s, raised why)

abbrev pub alloc_heap : Kernel → ℕ → ℕ → Made → Made → Screen → Screen × Result Fb
alloc_heap k w h (got handle) dumb s =
    (add_fb handle (k.new_id s.existing) s, ok (made_fb handle (k.new_id s.existing) w h))
alloc_heap k w h (unread handle why) dumb s = alloc_dumb k w h dumb (
    fall_back (record (add_handle handle s) {
      rec_handles = remove handle (s.rec_handles ++ handle ∷ []);
      existing = k.new_id s.existing ∷ s.existing;
    }))
alloc_heap k w h (half handle why) dumb s = alloc_dumb k w h dumb (
    fall_back
      (record (add_handle handle s) { rec_handles = remove handle (s.rec_handles ++ handle ∷ []) }))
alloc_heap k w h (failed why) dumb s = alloc_dumb k w h dumb (fall_back s)

unfoldable pub alloc_one : Kernel → ℕ → ℕ → Attempt → Screen → Screen × Result Fb
alloc_one k w h a s =
    if s.zc_on then alloc_heap k w h a.heap a.dumb s else alloc_dumb k w h a.dumb s

-- The rest of a call, where no exception is raised.
abbrev pub and_then {ℓ κ} :
    {A : Type ℓ} {B : Type κ}
    → Screen × Result A
    → (A → Screen → Screen × Result B)
    → Screen × Result B
and_then (s, ok a) next = next a s
and_then (s, raised why) next = (s, raised why)

-- The second turn of the loop, behind the first one's framebuffer.
abbrev pub alloc_second : Kernel → ℕ → ℕ → Attempt → Fb → Screen → Screen × Result (Fb × Fb)
alloc_second k w h a d1 s = and_then (alloc_one k w h a s) λ d2 s2. (s2, ok (d1, d2))

unfoldable pub alloc : Kernel → ℕ → ℕ → Attempt → Attempt → Screen → Screen × Result (Fb × Fb)
alloc k w h a1 a2 s = and_then (alloc_one k w h a1 s) (alloc_second k w h a2)

-- One framebuffer of `free`, and whether RMFB takes it; an error of RMFB or DESTROY_DUMB is logged.
abbrev pub free_one : Fb → Bool → Screen → Screen
free_one d removed s = record s {
  existing = rm_fb removed d.fb s.existing;
  allfbs = remove d.fb s.allfbs;
  rec_fbs = remove d.fb s.rec_fbs;
  rec_handles = remove d.handle s.rec_handles;
}

unfoldable pub free : Fb × Fb → Bool × Bool → Screen → Screen
free (d1, d2) (removed1, removed2) s = write (free_one d2 removed2 (free_one d1 removed1 s))

-- RESOLUTIONS, with the full size where a percentage is not in it.
unfoldable pub resolution : ℕ → ℕ × ℕ
resolution pct =
    if pct == 90
    then (1712, 2736)
    else if pct == 80
    then (1524, 2432)
    else if pct == 67
    then (1276, 2036)
    else if pct == 50
    then (952, 1520)
    else (1904, 3040)

-- What a switch of the resolution asks the kernel and the compositor.
pub record Switch : Type 0 where
  pub first_fb : Attempt
  pub second_fb : Attempt
  pub test_ok : Bool
  pub output_ok : Bool
  -- Whether RMFB takes the new framebuffers, where they are given up.
  pub removed : Bool × Bool
  pub now : ℕ
  pub underruns : List ℕ

-- A reply is 'ok' with a number, or 'error'.
pub data Reply : Type 0 where
  done : ℕ → Reply
  refused : Reply

-- S.update(...) of a switch.
abbrev pub switched : ℕ → Bool → Switch → Fb × Fb → Screen → Screen
switched pct is_revert i new s = record s {
  old = some s.fbs;
  fbs = new;
  w = (resolution pct).0;
  h = (resolution pct).1;
  pct = pct;
  first = true;
  watch =
      some
        (record { at_time = i.now + 6; before = i.underruns; prev = s.pct; is_revert = is_revert });
}

abbrev pub has_old : Option (Fb × Fb) → Bool
has_old none = false
has_old (some o) = true

-- The part behind alloc.
unfoldable pub try_new : ℕ → Bool → Switch → Fb × Fb → Screen → Screen × Result Reply
try_new pct is_revert i new s =
    if not i.test_ok
    then (free new i.removed s, ok refused)
    else if not i.output_ok
    then (free new i.removed s, ok refused)
    else (switched pct is_revert i new s, ok (done pct))

unfoldable pub switch_resolution : Kernel → ℕ → Bool → Switch → Screen → Screen × Result Reply
switch_resolution k pct is_revert i s =
    if pct == s.pct
    then (s, ok (done s.pct))
    else if has_old s.old
    then (s, ok refused)
    else and_then (alloc k (resolution pct).0 (resolution pct).1 i.first_fb i.second_fb s)
        (try_new pct is_revert i)

-- set_sleep(True): whether desktop.json has sleep_display_off, and whether the commit is accepted.
unfoldable pub sleep_on : Bool → Bool → Screen → Screen
sleep_on display_off commit_ok s =
    if display_off && commit_ok
    then record s { bl = s.backlight; backlight = 0; asleep = true; panel_off = true; planes = 0 }
    else record s { bl = s.backlight; backlight = 0; asleep = true; panel_off = false }

-- set_sleep(False) behind the commit.
abbrev pub awake : Screen → Screen
awake s = record s {
  backlight = if s.bl == 0 then s.backlight else s.bl;
  panel_off = false;
  asleep = false;
  first = true;
}

unfoldable pub sleep_off : Bool → Screen → Screen × Result Reply
sleep_off commit_ok s =
    if s.panel_off
    then (if commit_ok
        then (awake (record s { planes = s.fbs.0.fb }), ok (done 0))
        else (s, raised os_error))
    else (awake s, ok (done 0))

unfoldable pub set_sleep : Bool → Bool → Bool → Screen → Screen × Result Reply
set_sleep on display_off commit_ok s =
    if on
    then (if s.asleep then (s, ok (done 1)) else (sleep_on display_off commit_ok s, ok (done 1)))
    else if s.asleep
    then sleep_off commit_ok s
    else (s, ok (done 0))
