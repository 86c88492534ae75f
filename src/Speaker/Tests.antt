-- ===== src/Speaker/Tests.antt =====
-- The speaker daemon on concrete streams.
use y700_linux.Prelude.{
  ℕ, ◌≡◌, refl, true, false, Option, some, List, [], ◌∷◌, arith, ◌-◌, ◌*◌, ◌/◌, ◌<◌,
}
use y700_linux.Speaker.{
  Fifo, pending, read, trim_loop, trim, fill_loop, fill, Wait, scale_sample, scale_from,
}
use y700_linux.Speaker.Reader.{stream, Fills, fill-Fills, Drops, Stops, trim-Stops}
use y700_linux.Speaker.Player.{
  Player, opened, Message, has_token, set_token, del_token, can_submit, submit, on_async, pump,
  submit_all, play_turns,
}
use y700_linux.Speaker.Slots.{SlotsOk, play_turns-SlotsOk}
use y700_linux.Speaker.Volume.{IsQuieter, scale_sample-IsQuieter}

-- A kernel that returns all that it has.
abbrev all_there : ℕ → List ℕ → ℕ
all_there n pipe = n

-- Two bytes of a frame, and eleven behind them.
abbrev waiting : Fifo
waiting = record { pipe = 3 ∷ 4 ∷ 5 ∷ 6 ∷ 7 ∷ 8 ∷ 9 ∷ 10 ∷ 11 ∷ 12 ∷ 13 ∷ []; odd = 1 ∷ 2 ∷ [] }

trims : trim all_there 4 8 waiting ≡ (record { pipe = 9 ∷ 10 ∷ 11 ∷ 12 ∷ 13 ∷ []; odd = [] }, 8)
unfolding trim trim_loop read pending
trims = refl

trim-Stops_example :
    Drops (stream waiting) ((pending waiting - 4) / 4 * 4) 0 (trim all_there 4 8 waiting)
    × ((8 < pending waiting)
        → Stops all_there ((pending waiting - 4) / 4 * 4) (trim all_there 4 8 waiting))
trim-Stops_example = trim-Stops all_there 4 8 waiting (ground (arith))

abbrev waits : List Wait
waits = (false, 14 ∷ []) ∷ (true, 15 ∷ 16 ∷ 17 ∷ []) ∷ []

fills :
    (fill all_there 16 waits waiting).1
    ≡ (1 ∷ 2 ∷ 3 ∷ 4 ∷ 5 ∷ 6 ∷ 7 ∷ 8 ∷ 9 ∷ 10 ∷ 11 ∷ 12 ∷ 13 ∷ 14 ∷ 15 ∷ 16 ∷ [])
unfolding fill fill_loop read
fills = refl

fill-Fills_example : Fills (stream waiting) waits 16 (fill all_there 16 waits waiting)
fill-Fills_example = fill-Fills all_there 16 waits waiting refl (ground (arith)) (ground (arith))

-- Four buffers are sent, and the first one is done.
abbrev done_first : Message
done_first = record { is_done = true; is_result = false; token = 258; status = some 0 }

abbrev one_turn : List (ℕ × Option Message)
one_turn = (100, some done_first) ∷ []

abbrev after_one : Player
after_one = record {
  free = 6 ∷ 7 ∷ 8 ∷ 9 ∷ 10 ∷ 11 ∷ 12 ∷ 13 ∷ 14 ∷ 15 ∷ 2 ∷ [];
  busy = (259, 100) ∷ (260, 100) ∷ (261, 100) ∷ [];
  done = 1;
  errors = 0;
  prepared = false;
}

plays : play_turns one_turn opened ≡ some after_one
unfolding play_turns pump on_async submit_all submit can_submit set_token del_token has_token
plays = refl

play_turns-SlotsOk_example : SlotsOk after_one
play_turns-SlotsOk_example = play_turns-SlotsOk one_turn after_one plays

scale_sample-IsQuieter_example : IsQuieter 65535 (scale_sample 16384 65535)
scale_sample-IsQuieter_example =
    scale_sample-IsQuieter 16384 65535 (ground (arith)) (ground (arith))

-- Minus one at half the gain is minus one.
rounds_down : scale_from 16384 (255 ∷ 255 ∷ []) ≡ some (255 ∷ 255 ∷ [])
unfolding scale_from scale_sample
rounds_down = refl
