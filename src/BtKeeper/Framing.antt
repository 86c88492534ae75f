-- ===== src/BtKeeper/Framing.antt =====
-- pop_packet on a stream of whole packets, and every packet that read_event takes.
use y700_linux.Prelude.{
  ℕ, zero, suc, ◌+◌, ◌/◌, ◌%◌, ◌≤◌, ◌<◌, ◌≡◌, refl, sym, true, false, Option, some, List, [], ◌∷◌,
  ◌++◌, ◌==◌, ltb, leb, length, take, drop, get_or, arith, length-append, drop-append, take-append,
  and-true,
}
use y700_linux.BtKeeper.{
  State, Outcome, done, word16, debugged, has_acl, has_event, qca_debug_handle, pop_by, pop_packet,
}

-- A debug packet, with flags and handle 0x2edc, and an event.
abbrev pub debug_packet : List ℕ → List ℕ
debug_packet p = 2 ∷ 0xdc ∷ 0x2e ∷ length p % 256 ∷ length p / 256 ∷ p

abbrev pub event_packet : ℕ → List ℕ → List ℕ
event_packet code params = 4 ∷ code ∷ length params ∷ params

-- Debug packets, then what follows them.
abbrev pub after_debug : List (List ℕ) → List ℕ → List ℕ
after_debug [] tail = tail
after_debug (p ∷ ps) tail = debug_packet p ++ after_debug ps tail

abbrev pub total : List (List ℕ) → ℕ
total [] = 0
total (p ∷ ps) = length p + total ps

drop_by : (n : ℕ) (k t : List ℕ) → length k ≡ n → drop n (k ++ t) ≡ t
drop_by n k t h = rw (sym h) (drop-append k t)

take_by : (n : ℕ) (k t : List ℕ) → length k ≡ n → take n (k ++ t) ≡ k
take_by n k t h = rw (sym h) (take-append k t)

-- One turn of the loop on a debug packet, and on an event.
pop_debug :
    (turns : ℕ) (s : State) (p t : List ℕ)
    → s.rx ≡ debug_packet p ++ t
    → pop_by (suc turns) s ≡ pop_by turns (debugged (length p) s)
unfolding pop_by
pop_debug turns s p t h = rw (n, acl, fits, handle) refl
  where
    size : length s.rx ≡ 5 + length (p ++ t)
    size = rw h (omega arith)

    n : word16 3 s.rx ≡ length p
    n = rw h (omega arith)

    acl : has_acl s.rx ≡ true
    acl = and-true (leb 5 (length s.rx)) (get_or s.rx 0 0 == 2) (ground (arith, size)) (rw h refl)

    fits : ltb (length s.rx) (5 + length p) ≡ false
    fits = ground (arith, size, length-append p t)

    handle : (word16 1 s.rx == qca_debug_handle) ≡ true
    handle = rw h refl

pop_event :
    (turns : ℕ) (s : State) (code : ℕ) (params t : List ℕ)
    → s.rx ≡ event_packet code params ++ t
    → pop_by (suc turns) s ≡ (record s { rx = t }, done (some (event_packet code params)))
unfolding pop_by
pop_event turns s code params t h = rw (acl, event, n, drop_t, take_t) refl
  where
    size : length s.rx ≡ 3 + length (params ++ t)
    size = rw h (omega arith)

    four : get_or s.rx 0 0 ≡ 4
    four = rw h refl

    n : get_or s.rx 2 0 ≡ length params
    n = rw h refl

    acl : has_acl s.rx ≡ false
    acl = ground (arith, four)

    event : has_event s.rx ≡ true
    event = ground (arith, four, n, size, length-append params t)

    drop_t : drop (3 + length params) s.rx ≡ t
    drop_t = rw h (drop_by (3 + length params) (event_packet code params) t (omega arith))

    take_t : take (3 + length params) s.rx ≡ event_packet code params
    take_t = rw h (take_by (3 + length params) (event_packet code params) t (omega arith))

-- What a state has behind so many debug packets.
pub Popped : State → List (List ℕ) → List ℕ → List ℕ → State × Outcome (Option (List ℕ)) → Type 0
Popped s ps event tail r =
    (r.1 ≡ done (some event))
    × (r.0.rx ≡ tail)
    × (r.0.count ≡ s.count + length ps)
    × (r.0.bytes ≡ s.bytes + total ps)
    × (r.0.effects ≡ s.effects)

pop_by-Popped :
    (turns : ℕ) (s : State) (ps : List (List ℕ)) (code : ℕ) (params tail : List ℕ)
    → length ps < turns
    → s.rx ≡ after_debug ps (event_packet code params ++ tail)
    → Popped s ps (event_packet code params) tail (pop_by turns s)
unfolding Popped
pop_by-Popped zero s ps code params tail h e = absurd (omega (arith, h))
pop_by-Popped (suc turns) s [] code params tail h e =
    rw (pop_event turns s code params tail e) (refl, refl, omega arith, omega arith, refl)
pop_by-Popped (suc turns) s (p ∷ ps) code params tail h e =
    let rest = after_debug ps (event_packet code params ++ tail) in
    let next = e1 in
    let (out, rx, count, bytes, effects) =
      pop_by-Popped turns (debugged (length p) s) ps code params tail (omega (arith, h)) next in
    rw (pop_debug turns s p rest e) (out, rx, omega (arith, count), omega (arith, bytes), effects)
  where
    e1 : drop (5 + length p) s.rx ≡ after_debug ps (event_packet code params ++ tail)
    e1 = rw e (drop_by (5 + length p) (debug_packet p) _ (omega arith))

length-after_debug : (ps : List (List ℕ)) (tail : List ℕ) → length ps ≤ length (after_debug ps tail)
length-after_debug [] tail = omega arith
length-after_debug (p ∷ ps) tail =
    omega (arith, length-after_debug ps tail, length-append (debug_packet p) (after_debug ps tail))

-- On a buffer that starts with debug packets and a whole event, pop_packet returns the event, leaves
-- exactly what stands behind it, and counts the debug packets and their bytes.
pub pop_packet-after_debug :
    (s : State) (ps : List (List ℕ)) (code : ℕ) (params tail : List ℕ)
    → s.rx ≡ after_debug ps (event_packet code params ++ tail)
    → Popped s ps (event_packet code params) tail (pop_packet s)
unfolding pop_packet
pop_packet-after_debug s ps code params tail e =
    pop_by-Popped (suc (length s.rx)) s ps code params tail
      (rw e (omega (arith, length-after_debug ps (event_packet code params ++ tail)))) e
