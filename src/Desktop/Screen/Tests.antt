-- ===== src/Desktop/Screen/Tests.antt =====
-- Turns of the loop on a small screen, and instances of the theorems.
use y700_linux.Prelude.{
  ℕ, ◌+◌, ◌<◌, max, subst, ◌≡◌, refl, true, false, not, ◌&&◌, none, ◌==◌, some, List, [], ◌∷◌, elem,
  arith,
}
use y700_linux.Desktop.Recovery.{Owner, recovery_action}
use y700_linux.Desktop.Recovery.Laws.{is_refusal}
use y700_linux.Desktop.Screen.{
  Kernel, Screen, Attempt, got, failed, os_error, Switch, ok, done, alloc, alloc_one, made_fb,
  switch_resolution, try_new, resolution, set_sleep, free,
}
use y700_linux.Desktop.Screen.Known.{IsValid}
use y700_linux.Desktop.Screen.Turns.{
  Turn, Request, switch_to, turns, turn, poll, on_ctl, present, frame, wake, check_watch, leave,
  remove_fbs,
}
use y700_linux.Desktop.Screen.Restart.{turns-recovers, sleep-refuses, file_of, plane_fbs}
use y700_linux.Desktop.Screen.Leave.{leave_cleans}
use y700_linux.Desktop.Screen.Start.{booting, start, Starts, start-IsValid}

abbrev biggest : List ℕ → ℕ
biggest [] = 0
biggest (x ∷ xs) = max x (biggest xs)

elem_above : (a : ℕ) (xs : List ℕ) → biggest xs < a → elem a xs ≡ false
elem_above a [] h = refl
elem_above a (x ∷ xs) h = ground (arith, elem_above a xs)

-- Numbers are given in ascending order.
abbrev kernel : Kernel
kernel = record {
  new_id = λ xs. 1 + biggest xs;
  new_id-fresh = λ xs. elem_above (1 + biggest xs) xs (omega arith);
}

abbrev dumb : ℕ → Attempt
dumb handle = record { heap = failed os_error; dumb = got handle }

-- Framebuffer 50 is the native one; the heap refuses, and dumb buffers are used.
abbrev before : Screen
before = booting true 50 (50 ∷ []) 1024

abbrev fresh : Screen
fresh = record before {
  fbs = (made_fb 7 51 1904 3040, made_fb 8 52 1904 3040);
  w = 1904;
  h = 3040;
  pct = 100;
  zc_on = false;
  rec_fbs = 51 ∷ 52 ∷ [];
  rec_handles = 7 ∷ 8 ∷ [];
  allfbs = 51 ∷ 52 ∷ [];
  saved = some (record { fbs = 51 ∷ 52 ∷ []; handles = 7 ∷ 8 ∷ [] });
  existing = 52 ∷ 51 ∷ 50 ∷ [];
}

start-runs : start kernel 100 (dumb 7) (dumb 8) before ≡ (fresh, ok (done 100))
unfolding start alloc alloc_one resolution
start-runs = refl

start-IsValid_example : Starts 50 (start kernel 100 (dumb 7) (dumb 8) before)
start-IsValid_example = start-IsValid kernel true 50 100 1024 (dumb 7) (dumb 8) (50 ∷ []) refl

fresh-IsValid : IsValid 50 fresh
fresh-IsValid = subst (Starts 50) start-runs start-IsValid_example

abbrev half_size : Switch
half_size = record {
  first_fb = dumb 9;
  second_fb = dumb 10;
  test_ok = true;
  output_ok = true;
  removed = (true, true);
  now = 100;
  underruns = 0 ∷ [];
}

abbrev show : List Request → Turn
show requests = record {
  requests = requests;
  wake_asked = false;
  wake_ok = true;
  is_ready = false;
  ready_ok = true;
  is_captured = true;
  frame_ok = true;
  removed = (true, true);
  now = 101;
  underruns = 0 ∷ [];
  back_switch = half_size;
}

-- A frame, a switch to half the size with its frame, and one frame more.
abbrev three : List Turn
three = show [] ∷ show (switch_to 50 half_size ∷ []) ∷ show [] ∷ []

three-run :
    ((turns kernel three fresh).1 ≡ true)
    × ((turns kernel three fresh).0.planes ≡ 53)
    × ((turns kernel three fresh).0.rec_fbs ≡ 53 ∷ 54 ∷ [])
    × ((turns kernel three fresh).0.existing ≡ 54 ∷ 53 ∷ 50 ∷ [])
unfolding turns turn poll on_ctl present frame wake check_watch switch_resolution try_new alloc
    alloc_one resolution free
three-run = (refl, refl, refl, refl)

abbrev owner : Owner
owner = record { pid = 412; starttime = 9001 }

-- Behind the three turns, a switch back to the full size is asked for.
abbrev behind : Screen
behind = (poll kernel (switch_to 100 half_size ∷ []) (turns kernel three fresh).0).0

turns-recovers_example :
    is_refusal
      (recovery_action (file_of 1 owner behind) 1 owner (plane_fbs behind) 50 behind.existing)
    ≡ false
unfolding turns turn poll on_ctl present frame wake check_watch switch_resolution try_new alloc
    alloc_one resolution free
turns-recovers_example =
    turns-recovers kernel 50 1 owner three (switch_to 100 half_size ∷ []) fresh fresh-IsValid refl

sleep-refuses_example :
    is_refusal (
      recovery_action
        (file_of 1 owner (set_sleep true true true fresh).0)
        1
        owner
        (plane_fbs (set_sleep true true true fresh).0)
        50
        (set_sleep true true true fresh).0.existing)
    ≡ true
sleep-refuses_example = sleep-refuses 50 1 owner fresh fresh-IsValid.written refl refl refl

-- The kernel keeps framebuffer 51, and fbs.json stays for the next start.
leave_runs :
    ((leave 50 true (λ f. not (f == 51)) true fresh).existing ≡ 51 ∷ 50 ∷ [])
    × ((leave 50 true (λ f. not (f == 51)) true fresh).saved ≡ fresh.saved)
    × ((leave 50 true (λ f. true) true fresh).saved ≡ none)
unfolding leave remove_fbs
leave_runs = (refl, refl, refl)

leave_cleans_example :
    ((leave 50 true (λ f. true) true fresh).planes ≡ 50)
    × ((f : ℕ)
        → elem f (leave 50 true (λ g. true) true fresh).existing
          ≡ (elem f (52 ∷ 51 ∷ 50 ∷ []) && not (elem f (51 ∷ 52 ∷ []))))
unfolding leave remove_fbs
leave_cleans_example = leave_cleans 50 true (λ f. true) true fresh fresh-IsValid.written refl
