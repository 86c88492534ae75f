-- ===== src/Pad.antt =====
-- The gamepad proxy, design/desktop-service-20260919/padproxy.py: class PadMapper with the map of the
-- Kishi, and the loop of PadProxy._run over the events of one read. `none` is KeyError.
pub mod Output
mod Tests
use y700_linux.Prelude.{
  ℕ, Bool, true, false, ◌&&◌, Option, none, some, List, [], ◌∷◌, ◌++◌, ◌==◌, elem, if◌then◌else◌,
}
use y700_linux.Prelude.Int.{ℤ, pos, negsuc, ltb_ℤ, leb_ℤ}
use y700_linux.Touch.{ev_syn, ev_key, ev_abs, syn_report, Event, event}

-- m[code]
abbrev pub get : {A : Type 0} → ℕ → List (ℕ × A) → Option A
get code [] = none
get code ((c, a) ∷ rest) = if c == code then some a else get code rest

-- BTN_A to BTN_THUMBR.
abbrev pub xbox_keys : List ℕ
xbox_keys =
    0x130 ∷ 0x131 ∷ 0x133 ∷ 0x134 ∷ 0x136 ∷ 0x137 ∷ 0x13a ∷ 0x13b ∷ 0x13c ∷ 0x13d ∷ 0x13e ∷ []

abbrev pub stick : ℤ × ℤ
stick = (negsuc 32767, pos 32767)

abbrev pub trigger : ℤ × ℤ
trigger = (pos 0, pos 255)

abbrev pub hat : ℤ × ℤ
hat = (negsuc 0, pos 1)

-- The axes X, Y, RX, RY, Z, RZ, HAT0X and HAT0Y with their limits.
abbrev pub xbox_abs : List (ℕ × (ℤ × ℤ))
xbox_abs =
    (0, stick)
    ∷ (1, stick)
    ∷ (3, stick)
    ∷ (4, stick)
    ∷ (2, trigger)
    ∷ (5, trigger)
    ∷ (16, hat)
    ∷ (17, hat)
    ∷ []

pub record Mapping : Type 0 where
  pub keys : List (ℕ × ℕ)
  pub axes : List (ℕ × ℕ)

-- The right stick is on Z and RZ there, the triggers on BRAKE (10) and GAS (9).
abbrev pub kishi : Mapping
kishi = record {
  keys =
      (0x130, 0x130)
      ∷ (0x131, 0x131)
      ∷ (0x133, 0x133)
      ∷ (0x134, 0x134)
      ∷ (0x136, 0x136)
      ∷ (0x137, 0x137)
      ∷ (0x13a, 0x13a)
      ∷ (0x13b, 0x13b)
      ∷ (0x13c, 0x13c)
      ∷ (0x13d, 0x13d)
      ∷ (0x13e, 0x13e)
      ∷ [];
  axes = (0, 0) ∷ (1, 1) ∷ (2, 3) ∷ (5, 4) ∷ (10, 2) ∷ (9, 5) ∷ (16, 16) ∷ (17, 17) ∷ [];
}

-- max(lo, min(hi, value))
abbrev pub clamp : ℤ × ℤ → ℤ → ℤ
clamp (lo, hi) value =
    let low = if ltb_ℤ value hi then value else hi in if ltb_ℤ lo low then low else lo

abbrev pub feed_axis : ℕ → ℤ → Option (ℤ × ℤ) → Option (List Event)
feed_axis axis value none = none
feed_axis axis value (some limits) = some (event ev_abs axis (clamp limits value) ∷ [])

abbrev pub feed_syn : Event → Option (List Event)
feed_syn e =
    if e.kind == ev_syn && e.code == syn_report
    then some (event ev_syn syn_report (pos 0) ∷ [])
    else some []

-- An axis of the map, where the event is on one.
abbrev pub feed_abs : Event → Option ℕ → Option (List Event)
feed_abs e none = feed_syn e
feed_abs e (some axis) =
    if e.kind == ev_abs then feed_axis axis e.value (get axis xbox_abs) else feed_syn e

abbrev pub feed_key : Mapping → Event → Option ℕ → Option (List Event)
feed_key m e none = feed_abs e (get e.code m.axes)
feed_key m e (some key) =
    if e.kind == ev_key
    then some (event ev_key key e.value ∷ [])
    else feed_abs e (get e.code m.axes)

unfoldable pub feed : Mapping → Event → Option (List Event)
feed m e = feed_key m e (get e.code m.keys)

abbrev pub add_out : Option (List Event) → Option (List Event) → Option (List Event)
add_out none rest = none
add_out (some es) none = none
add_out (some es) (some out) = some (es ++ out)

-- out += self.map.feed(t, code, value) for the events of a read.
unfoldable pub feed_all : Mapping → List Event → Option (List Event)
feed_all m [] = some []
feed_all m (e ∷ es) = add_out (feed m e) (feed_all m es)
