-- ===== src/BtKeeper.antt =====
-- The keeper of the Bluetooth controller, design/nextboot-impl/bt-keeper.py: the H4 packets, the
-- commands, the firmware download and main.
--
-- Bytes are numbers below 256. The kernel and the controller are an argument, `World`: each call that
-- main makes on the power device or on the tty is an `Effect`, and the world says how it ends, from all
-- that was asked before it. `effects` holds them, the latest first, whether they worked or not. A wait
-- for the tty is the list of what its reads return before the deadline. Log lines are left out, and of
-- LAT the opcodes are kept.
pub mod Nvm
pub mod Download
pub mod Main
pub mod Framing
pub mod Sent
pub mod Held
mod Tests
use y700_linux.Prelude.{
  ℕ, zero, suc, ◌+◌, ◌-◌, ◌*◌, ◌/◌, ◌%◌, Bool, true, false, ◌&&◌, ◌||◌, not, Option, none, some,
  List, [], ◌∷◌, ◌++◌, ◌==◌, ltb, leb, length, take, drop, get_or, if◌then◌else◌,
}

pub data Effect : Type 0 where
  -- os.open of /dev/btpower, and the two ioctls of BT_CMD_PWR_CTRL.
  open_power power_on power_off : Effect
  -- os.open, raw_tty and os.close of /dev/ttyHS0, and the vote for its clock.
  open_tty raw_tty close_tty vote_on vote_off : Effect
  -- The three ioctls of lines.
  ask_lines : Effect
  wrote received : List ℕ → Effect
  -- tcdrain and tcflush, and the three ioctls of the attach.
  drain flush set_discipline set_protocol get_device : Effect

-- The reasons of hold, but for BT_ATTACHED.
pub data Reason : Type 0 where
  node_rejected gate_not_released exception no_version unexpected_event version_mismatch : Reason
  patch_config_failed rampatch_events no_rampatch_ack no_version_after_patch nvm_failed : Reason
  disable_logging_failed unexpected_event_after_nvm reset_failed local_version_failed : Reason
  unread_bytes_before_attach : Reason

pub record World : Type 0 where
  -- Whether an open or an ioctl returns; it raises where not.
  pub works : List Effect → Effect → Bool
  -- The bytes that the tty has still to send.
  pub queued : List Effect → ℕ
  -- What the reads of a wait of so many milliseconds return; `none` raises.
  pub arrives : List Effect → ℕ → List (Option (List ℕ))
  -- How many bytes os.write takes behind the first one; `none` is a tty that is not ready, or raises.
  pub accepts : List Effect → List ℕ → Option ℕ

pub record State : Type 0 where
  pub rx : List ℕ
  -- DEBUG
  pub count : ℕ
  pub bytes : ℕ
  pub first_debug : List (List ℕ)
  pub lat : List ℕ
  -- tfd is not None, and voted.
  pub has_tty : Bool
  pub has_vote : Bool
  pub effects : List Effect

-- How a step ends: with a value, with an exception, or in fail.
pub data Outcome (A : Type 0) : Type 0 where
  done : A → Outcome A
  raised : Outcome A
  failed : Reason → Outcome A

abbrev pub and_then :
    {A B : Type 0} → State × Outcome A → (A → State → State × Outcome B) → State × Outcome B
and_then (s, done a) k = k a s
and_then (s, raised) k = (s, raised)
and_then (s, failed r) k = (s, failed r)

abbrev pub ask : Effect → State → State
ask e s = record s { effects = e ∷ s.effects }

abbrev pub perform : World → Effect → State → State × Outcome Unit
perform w e s = (ask e s, if w.works s.effects e then done tt else raised)

abbrev pub word16 : ℕ → List ℕ → ℕ
word16 i bs = get_or bs i 0 + 256 * get_or bs (suc i) 0

unfoldable pub cmd : ℕ → List ℕ → List ℕ
cmd opcode params = 1 ∷ opcode % 256 ∷ opcode / 256 ∷ length params ∷ params

abbrev pub qca_debug_handle : ℕ
qca_debug_handle = 0x2edc

abbrev pub is_empty : List ℕ → Bool
is_empty [] = true
is_empty (b ∷ bs) = false

-- The packet of `n` bytes behind its header, off the buffer and counted.
abbrev pub debugged : ℕ → State → State
debugged n s = record s {
  rx = drop (5 + n) s.rx;
  count = s.count + 1;
  bytes = s.bytes + n;
  first_debug =
      if ltb (length s.first_debug) 8
      then s.first_debug ++ take 64 (take (5 + n) s.rx) ∷ []
      else s.first_debug;
}

abbrev pub cut : ℕ → State → State
cut n s = record s { rx = drop n s.rx }

-- The tests of pop_packet: the header of an ACL packet, a whole event, and the start of a packet.
abbrev pub has_acl : List ℕ → Bool
has_acl rx = leb 5 (length rx) && (get_or rx 0 0 == 2)

abbrev pub has_event : List ℕ → Bool
has_event rx = leb 3 (length rx) && (get_or rx 0 0 == 4) && leb (3 + get_or rx 2 0) (length rx)

abbrev pub is_start : List ℕ → Bool
is_start rx = is_empty rx || (get_or rx 0 0 == 2) || (get_or rx 0 0 == 4)

-- The loop of pop_packet, of at most so many turns.
unfoldable pub pop_by : ℕ → State → State × Outcome (Option (List ℕ))
pop_by zero s = (s, done none)
pop_by (suc turns) s =
    let n = word16 3 s.rx in
    let rest = pop_by turns (debugged n s) in
    if has_acl s.rx
    then (if ltb (length s.rx) (5 + n)
        then (s, done none)
        else (if word16 1 s.rx == qca_debug_handle then rest else (cut (5 + n) s, raised)))
    else (if has_event s.rx
        then (cut (3 + get_or s.rx 2 0) s, done (some (take (3 + get_or s.rx 2 0) s.rx)))
        else (if is_start s.rx then (s, done none) else (s, raised)))

-- Every turn but the last takes five bytes or more.
unfoldable pub pop_packet : State → State × Outcome (Option (List ℕ))
pop_packet s = pop_by (suc (length s.rx)) s

abbrev pub received_more : List ℕ → State → State
received_more bs s = record s { rx = s.rx ++ bs; effects = received bs ∷ s.effects }

-- A turn of read_event, on the packet that it found.
abbrev pub or_read :
    Option (List ℕ) → (State → State × Outcome (List ℕ)) → State → State × Outcome (List ℕ)
or_read none k s = k s
or_read (some p) k s = (s, done p)

abbrev pub read_more :
    Option (List ℕ) → (State → State × Outcome (List ℕ)) → State → State × Outcome (List ℕ)
read_more none k s = (s, raised)
read_more (some bs) k s = k (received_more bs s)

-- The loop of read_event, over what its reads return; b'' is [].
unfoldable pub read_by : List (Option (List ℕ)) → State → State × Outcome (List ℕ)
read_by [] s = and_then (pop_packet s) λ p. or_read p λ s. (s, done [])
read_by (c ∷ cs) s = and_then (pop_packet s) λ p. or_read p (read_more c (read_by cs))

unfoldable pub read_event : World → ℕ → State → State × Outcome (List ℕ)
read_event w ms s = read_by (w.arrives s.effects ms) s

abbrev pub sent_some :
    Option ℕ → List ℕ → (List ℕ → State → State × Outcome Unit) → State → State × Outcome Unit
sent_some none view k s = (s, raised)
sent_some (some n) view k s = k (drop (suc n) view) (ask (wrote (take (suc n) view)) s)

-- The loop of write_all, of at most so many turns.
unfoldable pub write_by : ℕ → World → List ℕ → State → State × Outcome Unit
write_by zero w view s = (s, done tt)
write_by (suc turns) w [] s = (s, done tt)
write_by (suc turns) w (b ∷ bs) s =
    sent_some (w.accepts s.effects (b ∷ bs)) (b ∷ bs) (write_by turns w) s

-- Every turn takes a byte or more.
unfoldable pub write_all : World → List ℕ → State → State × Outcome Unit
write_all w view s = write_by (length view) w view s

unfoldable pub is_cc : List ℕ → ℕ → Bool
is_cc ev opcode =
    leb 7 (length ev) && (get_or ev 0 0 == 4) && (get_or ev 1 0 == 14) && (word16 4 ev == opcode)

abbrev pub has_rtype : Option ℕ → List ℕ → Bool
has_rtype none ev = true
has_rtype (some t) ev = ltb 7 (length ev) && (get_or ev 7 0 == t)

unfoldable pub is_ok : List ℕ → ℕ → Option ℕ → Bool
is_ok ev opcode rtype = is_cc ev opcode && (get_or ev 6 0 == 0) && has_rtype rtype ev

abbrev pub logged : ℕ → State → State
logged opcode s = record s { lat = s.lat ++ opcode ∷ [] }

-- The event that answers a command, and whether it is its success.
abbrev pub Answer : Type 0
Answer = List ℕ × Bool

abbrev pub or_send :
    Option (List ℕ) → (State → State × Outcome Answer) → State → State × Outcome Answer
or_send none k s = k s
or_send (some p) k s = (s, done (p, false))

unfoldable pub cc : World → ℕ → List ℕ → ℕ → Option ℕ → State → State × Outcome Answer
cc w opcode params ms rtype s = and_then (pop_packet s) λ early. or_send early λ s.
    and_then (write_all w (cmd opcode params) s) λ _ s.
      and_then (read_event w ms s) λ ev s. (logged opcode s, done (ev, is_ok ev opcode rtype))
