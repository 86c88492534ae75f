-- ===== src/Speaker/Player.antt =====
-- The buffers of one playing session in design/nextboot-impl/speakerd.py: the accounting of class Player,
-- and the turns of play.
--
-- A slot is a part of the shared memory; the DSP names a buffer by a token, 0x100 and the slot. The
-- memory, the graph and the sound device are left out, and so is closing them; a message is what the
-- code reads of it. `none` is an exception, which ends the session. Times are in milliseconds.
use y700_linux.Prelude.{
  ℕ, zero, suc, ◌+◌, ◌-◌, min, Bool, true, false, ◌&&◌, ◌||◌, Option, none, some, List, [], ◌∷◌,
  ◌++◌, ◌==◌, ltb, leb, length, if◌then◌else◌,
}
use y700_linux.Speaker.{inflight}

-- list(range(CMD_AREA // PERIOD, SIZE // PERIOD))
abbrev pub count_up : ℕ → ℕ → List ℕ
count_up from zero = []
count_up from (suc n) = from ∷ count_up (from + 1) n

abbrev pub slots : List ℕ
slots = count_up 2 14

pub record Player : Type 0 where
  pub free : List ℕ
  -- The tokens that the DSP holds, with the times they were sent.
  pub busy : List (ℕ × ℕ)
  pub done : ℕ
  pub errors : ℕ
  pub prepared : Bool

-- What Player.open leaves.
abbrev pub opened : Player
opened = record { free = slots; busy = []; done = 0; errors = 0; prepared = false }

-- A message: whether it says that a buffer is done, or is a plain result, its token, and the status
-- in its payload, if that is long enough.
pub record Message : Type 0 where
  pub is_done : Bool
  pub is_result : Bool
  pub token : ℕ
  pub status : Option ℕ

unfoldable pub has_token : ℕ → List (ℕ × ℕ) → Bool
has_token t [] = false
has_token t ((u, at) ∷ busy) = u == t || has_token t busy

-- self.busy[t] = now
unfoldable pub set_token : ℕ → ℕ → List (ℕ × ℕ) → List (ℕ × ℕ)
set_token t now [] = (t, now) ∷ []
set_token t now ((u, at) ∷ busy) =
    let rest = set_token t now busy in if u == t then (t, now) ∷ busy else (u, at) ∷ rest

-- del self.busy[t]
unfoldable pub del_token : ℕ → List (ℕ × ℕ) → List (ℕ × ℕ)
del_token t [] = []
del_token t ((u, at) ∷ busy) =
    let rest = del_token t busy in if u == t then busy else (u, at) ∷ rest

abbrev pub is_some_slot : List ℕ → Bool
is_some_slot [] = false
is_some_slot (k ∷ ks) = true

unfoldable pub can_submit : Player → Bool
can_submit p = is_some_slot p.free && ltb (length p.busy) inflight

abbrev pub submit_to : List ℕ → ℕ → Player → Player
submit_to [] now p = p
submit_to (k ∷ ks) now p = record p { free = ks; busy = set_token (256 + k) now p.busy }

-- self.free.pop(0), which can_submit allows.
unfoldable pub submit : ℕ → Player → Player
submit now p = submit_to p.free now p

abbrev pub finish : ℕ → ℕ → Player → Player
finish t status p = record p {
  free = p.free ++ (t - 256) ∷ [];
  busy = del_token t p.busy;
  done = p.done + 1;
  errors = if status == 0 then p.errors else p.errors + 1;
}

abbrev pub finish_with : ℕ → Option ℕ → Player → Option Player
finish_with t none p = none
finish_with t (some status) p = some (finish t status p)

abbrev pub result_of : Option ℕ → Player → Option Player
result_of none p = none
result_of (some status) p = if status == 0 then some p else none

unfoldable pub on_async : Message → Player → Option Player
on_async m p =
    if m.is_done && has_token m.token p.busy
    then finish_with m.token m.status p
    else if m.is_result
    then result_of m.status p
    else some p

-- The oldest of the times.
abbrev pub oldest : List (ℕ × ℕ) → ℕ → ℕ
oldest [] now = now
oldest ((t, at) ∷ busy) now = min at (oldest busy now)

-- BE PREPARE once two buffers have played, and the check for a buffer that is never done.
abbrev pub after_pump : ℕ → Option Player → Option Player
after_pump now none = none
after_pump now (some p) =
    let p' = record p { prepared = p.prepared || leb 2 p.done } in
    if ltb 2000 (now - oldest p'.busy now) then none else some p'

abbrev pub received : Option Message → Player → Option Player
received none p = some p
received (some m) p = on_async m p

unfoldable pub pump : Option Message → ℕ → Player → Option Player
pump m now p = after_pump now (received m p)

-- The inner loop of play, on fuel; the time of a submission is left at that of the turn.
unfoldable pub submit_all : ℕ → ℕ → Player → Player
submit_all zero now p = p
submit_all (suc fuel) now p = if can_submit p then submit_all fuel now (submit now p) else p

abbrev pub play_turn : ℕ × Option Message → Player → Option Player
play_turn (now, m) p = pump m now (submit_all inflight now p)

abbrev pub and_turns : Option Player → (Player → Option Player) → Option Player
and_turns none next = none
and_turns (some p) next = next p

-- The turns of play, each with its time and what the DSP sent.
unfoldable pub play_turns : List (ℕ × Option Message) → Player → Option Player
play_turns [] p = some p
play_turns (t ∷ ts) p = and_turns (play_turn t p) (play_turns ts)
