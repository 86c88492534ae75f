-- ===== src/BtKeeper/Download.antt =====
-- The version request and the two downloads of design/nextboot-impl/bt-keeper.py: first_version,
-- tlv_download and nvm_download.
use y700_linux.Prelude.{
  ℕ, zero, suc, Bool, true, false, ◌&&◌, not, Option, some, List, [], ◌∷◌, ◌==◌, ltb, leb, length,
  take, drop, get_or, if◌then◌else◌,
}
use y700_linux.BtKeeper.{
  drain, ask_lines, World, State, Outcome, done, and_then, perform, is_empty, cmd, read_more,
  read_event, write_all, is_cc, Answer, cc,
}

abbrev pub seg_size : ℕ
seg_size = 243

-- The bytes that the tty has still to send; one of its ioctls may raise.
unfoldable pub lines : World → State → State × Outcome ℕ
lines w s = and_then (perform w ask_lines s) λ _ s. (s, done (w.queued s.effects))

abbrev pub version_request : List ℕ
version_request = 25 ∷ []

abbrev pub is_version : List ℕ → Bool
is_version ev =
    is_cc ev 0xfc00 && (get_or ev 6 1 == 0) && leb 21 (length ev) && (get_or ev 7 0 == 25)

abbrev pub send_if : Bool → World → List ℕ → State → State × Outcome Unit
send_if true w bs s = write_all w bs s
send_if false w bs s = (s, done tt)

abbrev pub or_again : List ℕ → (State → State × Outcome Answer) → State → State × Outcome Answer
or_again [] k s = k s
or_again (b ∷ bs) k s = (s, done (b ∷ bs, is_version (b ∷ bs)))

unfoldable pub first_version : ℕ → World → State → State × Outcome Answer
first_version zero w s = (s, done ([], false))
first_version (suc tries) w s = and_then (lines w s) λ outq. λ s.
    and_then (send_if (outq == 0) w (cmd 0xfc00 version_request) s)
      λ _. λ s. and_then (read_event w 6000 s) λ ev. or_again ev (first_version tries w)

-- select with no wait, and the read where the tty is ready.
abbrev pub take_ready : List (Option (List ℕ)) → State → State × Outcome (List ℕ)
take_ready [] s = (s, done [])
take_ready (c ∷ cs) s = read_more c (λ s. (s, done [])) s

-- One segment of either download, as a command carries it.
abbrev pub segment : List ℕ → List ℕ
segment seg = 30 ∷ length seg ∷ seg

-- The loop of tlv_download over what is left of its data, of at most so many turns.
unfoldable pub tlv_by : ℕ → World → List ℕ → List ℕ → State → State × Outcome (List ℕ)
tlv_by zero w rest stray s = (s, done stray)
tlv_by (suc turns) w [] stray s = (s, done stray)
tlv_by (suc turns) w (b ∷ bs) stray s =
    let rest = b ∷ bs in
    and_then (write_all w (cmd 0xfc00 (segment (take seg_size rest))) s) λ _. λ s.
      and_then (take_ready (w.arrives s.effects 0) s) λ _. λ s.
        tlv_by turns w (drop seg_size rest)
          (if not (is_empty s.rx) && ltb seg_size (length rest) then s.rx else stray) s

-- Every turn takes a byte or more. The value is `stray`, what arrived before the last segment.
unfoldable pub tlv_download : World → List ℕ → State → State × Outcome (List ℕ)
tlv_download w bytes s =
    and_then (tlv_by (length bytes) w bytes [] s)
      λ stray. λ s. and_then (perform w drain s) λ _. λ s. (s, done stray)

abbrev pub if_acked : Answer → (State → State × Outcome Bool) → State → State × Outcome Bool
if_acked (ev, true) k s = k s
if_acked (ev, false) k s = (s, done false)

-- The loop of nvm_download, which waits longer for the last segment.
unfoldable pub nvm_by : ℕ → World → List ℕ → State → State × Outcome Bool
nvm_by zero w rest s = (s, done true)
nvm_by (suc turns) w [] s = (s, done true)
nvm_by (suc turns) w (b ∷ bs) s =
    let rest = b ∷ bs in
    and_then
      (cc w 0xfc00 (segment (take seg_size rest))
        (if leb (length rest) seg_size then 10000 else 5000) (some 30) s)
      λ ack. if_acked ack (nvm_by turns w (drop seg_size rest))

unfoldable pub nvm_download : World → List ℕ → State → State × Outcome Bool
nvm_download w bytes s = nvm_by (length bytes) w bytes s
