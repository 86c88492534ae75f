-- ===== src/BtKeeper/Main.antt =====
-- main of design/nextboot-impl/bt-keeper.py. hold never returns, so what main leaves is its state and
-- the reason that it holds. The close of the tty is taken to return.
pub mod Steps
pub mod Ends
use y700_linux.Prelude.{
  ℕ, ◌+◌, ◌*◌, Bool, true, false, ◌&&◌, ◌||◌, not, Option, none, some, List, [], ◌∷◌, ◌==◌, ltb,
  leb, length, get_or, if◌then◌else◌,
}
use y700_linux.BtKeeper.{
  open_power, power_on, power_off, open_tty, raw_tty, close_tty, vote_on, vote_off, flush,
  set_discipline, set_protocol, get_device, Reason, node_rejected, gate_not_released, exception,
  no_version, unexpected_event, version_mismatch, patch_config_failed, rampatch_events,
  no_rampatch_ack, no_version_after_patch, nvm_failed, disable_logging_failed,
  unexpected_event_after_nvm, reset_failed, local_version_failed, unread_bytes_before_attach, World,
  State, Outcome, done, raised, failed, and_then, ask, perform, word16, is_empty, read_event, is_cc,
  is_ok, cc,
}
use y700_linux.BtKeeper.Nvm.{Change, nvm_for_h4}
use y700_linux.BtKeeper.Download.{version_request, lines, first_version, tlv_download, nvm_download}

pub record Config : Type 0 where
  -- Whether os.stat shows the device that was named, for each of the two nodes; `none` raises.
  pub nodes : List (Option Bool)
  pub product : ℕ
  pub rom : ℕ
  pub soc : ℕ
  -- The two firmware files; `none` cannot be read.
  pub patch : Option (List ℕ)
  pub nvm : Option (List ℕ)
  -- The line read from stdin is GO.
  pub is_released : Bool

-- Ends in fail where a step went wrong.
abbrev pub check : Bool → Reason → State → State × Outcome Unit
check true r s = (s, done tt)
check false r s = (s, failed r)

-- An index out of range raises.
abbrev pub inside : Bool → State → State × Outcome Unit
inside true s = (s, done tt)
inside false s = (s, raised)

-- A tty that is opened, then raw, with the vote for its clock.
abbrev pub opened : State → State
opened s = record s { has_tty = true }

abbrev pub voted : State → State
voted s = record s { has_vote = true }

unfoldable pub connect : World → State → State × Outcome Unit
connect w s =
    and_then (perform w raw_tty s)
      λ _ s. and_then (perform w vote_on s) λ _ s. and_then (lines w (voted s)) λ _ s. (s, done tt)

abbrev pub word32 : ℕ → List ℕ → ℕ
word32 i bs = word16 i bs + 65536 * word16 (2 + i) bs

-- (pid, romv, socid) == (product, rom, soc), of struct.unpack_from('<IHHI', ev, 9)
unfoldable pub is_reviewed : Config → List ℕ → Bool
is_reviewed c ev = (word32 9 ev == c.product) && (word16 15 ev == c.rom) && (word32 17 ev == c.soc)

-- A second answer to the version request is the only packet that may stand behind the first.
abbrev pub is_duplicate : List ℕ → Bool
is_duplicate stale = is_cc stale 0xfc00 && (get_or stale 7 0 == 25)

abbrev pub duplicate_or_none : List ℕ → State → State × Outcome Unit
duplicate_or_none stale s =
    if is_empty stale
    then (s, done tt)
    else (if is_cc stale 0xfc00 && leb (length stale) 7
        then (s, raised)
        else check (is_duplicate stale) unexpected_event s)

unfoldable pub identify : World → Config → State → State × Outcome Unit
identify w c s = and_then (first_version 3 w s) λ a s. and_then (check a.1 no_version s) λ _ s.
    and_then (read_event w 50 s) λ stale s.
      and_then (duplicate_or_none stale s) λ _ s. check (is_reviewed c a.0) version_mismatch s

-- LAT[-1], of an answer that is reported behind it.
abbrev pub answered : Bool → Reason → State → State × Outcome Unit
answered ok r s = and_then (inside (ltb 0 (length s.lat)) s) λ _. check ok r

abbrev pub patch_config : List ℕ
patch_config = 40 ∷ 1 ∷ 0 ∷ 0 ∷ 0 ∷ []

unfoldable pub patch : World → List ℕ → State → State × Outcome Unit
patch w rampatch s = and_then (cc w 0xfc00 patch_config 6000 (some 40) s) λ a s.
    and_then (answered a.1 patch_config_failed s) λ _ s.
      and_then (tlv_download w rampatch s) λ stray s.
        and_then (check (is_empty stray) rampatch_events s) λ _ s.
          and_then (read_event w 5000 s) λ ev s.
            and_then (check (is_ok ev 0xfc00 (some 30)) no_rampatch_ack s) λ _ s.
              and_then (cc w 0xfc00 version_request 6000 (some 25) s)
                λ a. check a.1 no_version_after_patch

unfoldable pub settings : World → List ℕ → State → State × Outcome Unit
settings w nvm s = and_then (nvm_download w nvm s) λ ok s. and_then (check ok nvm_failed s) λ _ s.
    and_then (cc w 0xfc17 (20 ∷ 0 ∷ []) 6000 none s) λ a s.
      and_then (answered a.1 disable_logging_failed s) λ _ s.
        and_then (read_event w 200 s) λ extra. check (is_empty extra) unexpected_event_after_nvm

-- The answer to the address and the last version are only reported.
unfoldable pub controller : World → State → State × Outcome Unit
controller w s = and_then (cc w 0x0c03 [] 3000 none s) λ a s.
    and_then (check a.1 reset_failed s) λ _ s. and_then (cc w 0x1001 [] 6000 none s) λ v s.
      and_then (check v.1 local_version_failed s) λ _ s.
        and_then (inside (leb 15 (length v.0)) s) λ _ s.
          and_then (cc w 0x1009 [] 6000 none s) λ _ s.
            and_then (cc w 0xfc00 version_request 6000 (some 25) s)
              λ _ s. check (is_empty s.rx) unread_bytes_before_attach s

unfoldable pub attach : World → State → State × Outcome Unit
attach w s = and_then (perform w flush s) λ _ s.
    and_then (perform w set_discipline s)
      λ _ s. and_then (perform w set_protocol s) λ _ s. perform w get_device s

-- The body of the try, behind the open of the tty.
unfoldable pub session : World → Config → List ℕ → List ℕ → State → State × Outcome Unit
session w c rampatch nvm s = and_then (connect w s) λ _ s. and_then (identify w c s) λ _ s.
    and_then (patch w rampatch s)
      λ _ s. and_then (settings w nvm s) λ _ s. and_then (controller w s) λ _. attach w

-- How main holds.
pub data Hold : Type 0 where
  bt_attached : Hold
  stopped : Reason → Hold

-- fail: the vote and the power are given up even where their ioctls raise.
unfoldable pub fail : Reason → State → State × Hold
fail r s =
    let released = if s.has_vote then ask vote_off s else s in
    let closed =
      if s.has_tty
      then record (ask close_tty released) { has_tty = false; has_vote = false }
      else s in
    (ask power_off closed, stopped r)

abbrev pub finish : State × Outcome Unit → State × Hold
finish (s, done _) = (s, bt_attached)
finish (s, raised) = fail exception s
finish (s, failed r) = fail r s

abbrev pub powered : World → Config → List ℕ → List ℕ → State → State × Hold
powered w c rampatch nvm s =
    finish (and_then (perform w open_tty s) λ _ s. session w c rampatch nvm (opened s))

-- Behind the gate. What raises outside of the try holds at once.
abbrev pub release : World → Config → List ℕ → List ℕ → State → State × Hold
release w c rampatch nvm s =
    let s1 = ask open_power s in
    let s2 = ask power_on s1 in
    if w.works s.effects open_power
    then (if w.works s1.effects power_on
        then powered w c rampatch nvm s2
        else (s2, stopped exception))
    else (s1, stopped exception)

abbrev pub check_nodes : List (Option Bool) → Option Reason
check_nodes [] = none
check_nodes (none ∷ ns) = some exception
check_nodes (some true ∷ ns) = check_nodes ns
check_nodes (some false ∷ ns) = some node_rejected

abbrev pub on_files :
    Config → Option (List ℕ) → Option (List ℕ × List Change) → World → State → State × Hold
on_files c none nvm w s = (s, stopped exception)
on_files c (some rampatch) none w s = (s, stopped exception)
on_files c (some rampatch) (some nvm) w s =
    if c.is_released then release w c rampatch nvm.0 s else (s, stopped gate_not_released)

abbrev pub patched_nvm : Option (List ℕ) → Option (List ℕ × List Change)
patched_nvm none = none
patched_nvm (some bs) = nvm_for_h4 bs

abbrev pub start : State
start = record {
  rx = [];
  count = 0;
  bytes = 0;
  first_debug = [];
  lat = [];
  has_tty = false;
  has_vote = false;
  effects = [];
}

abbrev pub on_nodes : Option Reason → World → Config → State × Hold
on_nodes none w c = on_files c c.patch (patched_nvm c.nvm) w start
on_nodes (some r) w c = (start, stopped r)

unfoldable pub main : World → Config → State × Hold
main w c = on_nodes (check_nodes c.nodes) w c
