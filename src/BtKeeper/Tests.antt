-- ===== src/BtKeeper/Tests.antt =====
-- Runs of the keeper at fixed inputs: a controller that answers every command, and one whose protocol
-- cannot be set.
use y700_linux.Prelude.{
  ℕ, ◌≡◌, refl, Bool, true, false, Option, some, List, [], ◌∷◌, ◌==◌, get_or, if◌then◌else◌,
}
use y700_linux.BtKeeper.{
  Effect, wrote, drain, set_protocol, exception, World, State, pop_packet, pop_by, read_event,
  read_by, write_all, write_by, cmd, cc, is_cc, is_ok,
}
use y700_linux.BtKeeper.Nvm.{Change, nvm_for_h4, walk, patched}
use y700_linux.BtKeeper.Download.{lines, first_version, tlv_download, tlv_by, nvm_download, nvm_by}
use y700_linux.BtKeeper.Framing.{Popped, event_packet, pop_packet-after_debug}
use y700_linux.BtKeeper.Sent.{joined, Sized, Wrote, packets, tlv_download-Wrote}
use y700_linux.BtKeeper.Main.{
  Config, bt_attached, stopped, connect, identify, is_reviewed, patch, settings, controller, attach,
  session, fail, main, start,
}
use y700_linux.BtKeeper.Main.Ends.{Ended, main-Ended}

-- The Command Complete of a command, with its first parameter and twelve bytes more.
abbrev answer : List ℕ → List (Option (List ℕ))
answer bs =
    let body = 0 ∷ 1 ∷ 0 ∷ 0 ∷ 0 ∷ 2 ∷ 0 ∷ 3 ∷ 0 ∷ 4 ∷ 0 ∷ 0 ∷ 0 ∷ [] in
    some (4 ∷ 14 ∷ 18 ∷ 1 ∷ get_or bs 1 0 ∷ get_or bs 2 0 ∷ 0 ∷ get_or bs 4 0 ∷ body) ∷ []

abbrev reply_to : List Effect → List (Option (List ℕ))
reply_to (wrote bs ∷ es) = answer bs
reply_to (drain ∷ es) = answer (1 ∷ 0 ∷ 252 ∷ 0 ∷ 30 ∷ [])
reply_to _ = []

abbrev works_but : Bool → Effect → Bool
works_but ok set_protocol = ok
works_but ok _ = true

abbrev controller_of : Bool → World
controller_of ok = record {
  works = λ es e. works_but ok e;
  queued = λ es. 0;
  arrives = λ es ms. if ms == 0 then [] else reply_to es;
  accepts = λ es bs. some 300;
}

-- A tag 17 with three bytes, and a tag 27 with one.
abbrev nvm_file : List ℕ
nvm_file =
    2 ∷ 28 ∷ 0 ∷ 0 ∷ 17 ∷ 0 ∷ 3 ∷ 0 ∷ 0 ∷ 0 ∷ 0 ∷ 0 ∷ 0 ∷ 0 ∷ 0 ∷ 0 ∷ 0x81 ∷ 0x11 ∷ 5 ∷ 27 ∷ 0 ∷ 1
    ∷ 0 ∷ 0 ∷ 0 ∷ 0 ∷ 0 ∷ 0 ∷ 0 ∷ 0 ∷ 0 ∷ 1 ∷ []

abbrev nvm_result : List ℕ
nvm_result =
    2 ∷ 28 ∷ 0 ∷ 0 ∷ 17 ∷ 0 ∷ 3 ∷ 0 ∷ 0 ∷ 0 ∷ 0 ∷ 0 ∷ 0 ∷ 0 ∷ 0 ∷ 0 ∷ 1 ∷ 0 ∷ 5 ∷ 27 ∷ 0 ∷ 1 ∷ 0 ∷ 0
    ∷ 0 ∷ 0 ∷ 0 ∷ 0 ∷ 0 ∷ 0 ∷ 0 ∷ 0 ∷ []

abbrev changes : List Change
changes =
    record { tag = 17; old = 0x81 ∷ 0x11 ∷ []; new = 1 ∷ 0 ∷ [] }
    ∷ record { tag = 27; old = 1 ∷ []; new = 0 ∷ [] }
    ∷ []

abbrev config : Config
config = record {
  nodes = some true ∷ some true ∷ [];
  product = 1;
  rom = 3;
  soc = 4;
  patch = some (7 ∷ 8 ∷ 9 ∷ []);
  nvm = some nvm_file;
  is_released = true;
}

abbrev full_buffer : State
full_buffer = record start { rx = 2 ∷ 0xdc ∷ 0x2e ∷ 1 ∷ 0 ∷ 99 ∷ 4 ∷ 14 ∷ 1 ∷ 5 ∷ 4 ∷ [] }

pop_packet-after_debug_example :
    Popped full_buffer ((99 ∷ []) ∷ []) (event_packet 14 (5 ∷ [])) (4 ∷ []) (pop_packet full_buffer)
pop_packet-after_debug_example =
    pop_packet-after_debug full_buffer ((99 ∷ []) ∷ []) 14 (5 ∷ []) (4 ∷ []) refl

tlv_download-Wrote_example :
    (segs : List (List ℕ)) × ((joined segs ≡ 7 ∷ 8 ∷ 9 ∷ [])
      × Sized segs
      × Wrote start (packets segs) (tlv_download (controller_of true) (7 ∷ 8 ∷ 9 ∷ []) start))
tlv_download-Wrote_example = tlv_download-Wrote (controller_of true) (7 ∷ 8 ∷ 9 ∷ []) start

main_attaches : (main (controller_of true) config).1 ≡ bt_attached
unfolding main connect identify is_reviewed patch settings controller attach session fail nvm_for_h4
    walk patched lines first_version tlv_download tlv_by nvm_download nvm_by pop_packet pop_by
    read_event read_by write_all write_by cmd cc is_cc is_ok
main_attaches = refl

main-Ended_example : Ended (controller_of false) (main (controller_of false) config)
main-Ended_example = main-Ended (controller_of false) config

main_stops : (main (controller_of false) config).1 ≡ stopped exception
unfolding main connect identify is_reviewed patch settings controller attach session fail nvm_for_h4
    walk patched lines first_version tlv_download tlv_by nvm_download nvm_by pop_packet pop_by
    read_event read_by write_all write_by cmd cc is_cc is_ok
main_stops = refl
