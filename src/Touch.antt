-- ===== src/Touch.antt =====
-- The rotated touchscreen, design/desktop-service-20260919/touchproxy.py: class Rotator, and the loop
-- of TouchProxy._run over the events of one read.
--
-- An input event is (type, code, value) with a signed value. The limits of the two axes are not
-- negative. `none` is an exception: ZeroDivisionError for an axis with no extent, or KeyError.
pub mod Output
pub mod Slots
mod Tests
use y700_linux.Prelude.{
  ◌<◌, ℕ, zero, suc, ◌+◌, ◌-◌, ◌/◌, Bool, true, false, ◌||◌, Option, none, some, List, [], ◌∷◌,
  ◌++◌, ◌==◌, if◌then◌else◌,
}
use y700_linux.Prelude.Int.{ℤ, pos, eqb_ℤ, ◌-ℤ◌}
use y700_linux.Floats.{Floats, fmin, fmax}

abbrev pub ev_syn : ℕ
ev_syn = 0

abbrev pub ev_key : ℕ
ev_key = 1

abbrev pub ev_abs : ℕ
ev_abs = 3

abbrev pub syn_report : ℕ
syn_report = 0

abbrev pub syn_dropped : ℕ
syn_dropped = 3

abbrev pub btn_touch : ℕ
btn_touch = 0x14a

abbrev pub abs_mt_slot : ℕ
abs_mt_slot = 0x2f

abbrev pub abs_mt_touch_major : ℕ
abs_mt_touch_major = 0x30

abbrev pub abs_mt_position_x : ℕ
abs_mt_position_x = 0x35

abbrev pub abs_mt_position_y : ℕ
abs_mt_position_y = 0x36

abbrev pub abs_mt_tracking_id : ℕ
abs_mt_tracking_id = 0x39

abbrev pub abs_mt_pressure : ℕ
abs_mt_pressure = 0x3a

pub record Event : Type 0 where
  pub kind : ℕ
  pub code : ℕ
  pub value : ℤ

abbrev pub event : ℕ → ℕ → ℤ → Event
event t c v = record { kind = t; code = c; value = v }

-- (min, max) of an axis.
-- The limits of an axis, of 32 bits with a sign in struct input_absinfo.
pub record Range : Type 0 where
  pub low : ℕ
  pub high : ℕ
  pub high_bound : high < 2147483648

-- The six numbers of the calibration matrix.
pub record Matrix (x : Floats) : Type 0 where
  pub a : x.F
  pub b : x.F
  pub c : x.F
  pub d : x.F
  pub e : x.F
  pub f : x.F

pub record Rotator (x : Floats) : Type 0 where
  pub xr : Range
  pub yr : Range
  pub m : Matrix x
  pub cur : ℤ
  pub vslot : ℤ
  pub pos_of : ℤ → Option (ℤ × ℤ)
  pub dirty : List ℤ

-- s in xs
abbrev pub elem_ℤ : ℤ → List ℤ → Bool
elem_ℤ s [] = false
elem_ℤ s (x ∷ xs) = if eqb_ℤ x s then true else elem_ℤ s xs

module _ (x : Floats) where
  unfoldable pub new_rotator : Range → Range → Matrix x → Rotator x
  new_rotator xr yr m = record {
    xr = xr;
    yr = yr;
    m = m;
    cur = pos 0;
    vslot = pos 0;
    pos_of = λ s. none;
    dirty = [];
  }

  pub set_matrix : Matrix x → Rotator x → Rotator x
  set_matrix m r = record r { m = m }

  -- (v - low) / (high - low)
  normal : Range → ℤ → x.F
  normal r v = x.div (x.of_ℤ (v -ℤ r.low)) (x.of_ℕ (r.high - r.low))

  -- min(1.0, max(0.0, a * u + b * v + c))
  clamped : x.F → x.F → x.F → x.F → x.F → x.F
  clamped a b c u v =
      fmin x (x.of_ℕ 1) (fmax x (x.of_ℕ 0) (x.add (x.add (x.mul a u) (x.mul b v)) c))

  -- round(low + n * (high - low))
  denormal : Range → x.F → ℕ
  denormal r n = x.round (x.add (x.of_ℕ r.low) (x.mul n (x.of_ℕ (r.high - r.low))))

  unfoldable pub rot : Rotator x → ℤ × ℤ → Option (ℕ × ℕ)
  unfolding normal clamped denormal
  rot r (px, py) =
      let u = normal r.xr px in
      let v = normal r.yr py in
      if r.xr.high == r.xr.low || r.yr.high == r.yr.low
      then none
      else some (
        denormal r.xr (clamped r.m.a r.m.b r.m.c u v),
        denormal r.yr (clamped r.m.d r.m.e r.m.f u v),
      )

  -- A switch of the virtual device's slot, where it is on another one.
  abbrev pub slot_event : ℤ → ℤ → List Event
  slot_event vslot s = if eqb_ℤ vslot s then [] else event ev_abs abs_mt_slot s ∷ []

  abbrev pub position_events : ℕ × ℕ → List Event
  position_events (px, py) =
      event ev_abs abs_mt_position_x (pos px) ∷ event ev_abs abs_mt_position_y (pos py) ∷ []

  -- One slot of the `for` loop at SYN_REPORT: pos[s], then its rotation.
  unfoldable pub located : Rotator x → Option (ℤ × ℤ) → Option (ℕ × ℕ)
  located r none = none
  located r (some p) = rot r p

  abbrev pub prepend : List Event → Option (ℤ × List Event) → Option (ℤ × List Event)
  prepend out none = none
  prepend out (some (v, rest)) = some (v, out ++ rest)

  abbrev pub flush_slot : ℤ → ℤ → Option (ℕ × ℕ) → Option (ℤ × List Event) → Option (ℤ × List Event)
  flush_slot v s none rest = none
  flush_slot v s (some p) rest = prepend (slot_event v s ++ position_events p) rest

  -- The loop over `dirty`; the new vslot comes back with the events.
  unfoldable pub flush : Rotator x → ℤ → List ℤ → Option (ℤ × List Event)
  flush r v [] = some (v, [])
  flush r v (s ∷ ss) = flush_slot v s (located r (r.pos_of s)) (flush r s ss)

  abbrev pub or_middle : Rotator x → Option (ℤ × ℤ) → ℤ × ℤ
  or_middle r none = (pos ((r.xr.low + r.xr.high) / 2), pos ((r.yr.low + r.yr.high) / 2))
  or_middle r (some p) = p

  abbrev pub with_axis : ℕ → ℤ → ℤ × ℤ → ℤ × ℤ
  with_axis code v (px, py) = if code == abs_mt_position_x then (v, py) else (px, v)

  unfoldable pub move : ℕ → ℤ → Rotator x → Rotator x
  move code v r = record r {
    pos_of = λ s.
        if eqb_ℤ r.cur s then some (with_axis code v (or_middle r (r.pos_of s))) else r.pos_of s;
    dirty = if elem_ℤ r.cur r.dirty then r.dirty else r.dirty ++ r.cur ∷ [];
  }

  unfoldable pub feed_abs : ℕ → ℤ → Rotator x → Rotator x × List Event
  feed_abs code v r =
      if code == abs_mt_slot
      then (record r { cur = v }, [])
      else if code == abs_mt_position_x || code == abs_mt_position_y
      then (move code v r, [])
      else if code == abs_mt_touch_major || code == abs_mt_tracking_id || code == abs_mt_pressure
      then (record r { vslot = r.cur }, slot_event r.vslot r.cur ++ event ev_abs code v ∷ [])
      else (r, [])

  abbrev pub report : Rotator x → Option (ℤ × List Event) → Option (Rotator x × List Event)
  report r none = none
  report r (some (v, out)) =
      some (record r { vslot = v; dirty = [] }, out ++ event ev_syn syn_report (pos 0) ∷ [])

  unfoldable pub feed : Event → Rotator x → Option (Rotator x × List Event)
  feed e r =
      if e.kind == ev_abs
      then some (feed_abs e.code e.value r)
      else if e.kind == ev_key
      then some (r, if e.code == btn_touch then e ∷ [] else [])
      else if e.kind == ev_syn
      then (if e.code == syn_report
          then report r (flush r r.vslot r.dirty)
          else some (if e.code == syn_dropped then record r { dirty = [] } else r, []))
      else some (r, [])

  abbrev pub append_out :
      List Event → Option (Rotator x × List Event) → Option (Rotator x × List Event)
  append_out out none = none
  append_out out (some (r, rest)) = some (r, out ++ rest)

  abbrev pub and_then :
      Option (Rotator x × List Event)
      → (Rotator x → Option (Rotator x × List Event))
      → Option (Rotator x × List Event)
  and_then none next = none
  and_then (some (r, out)) next = append_out out (next r)

  -- The events of one read: `out += self.rot.feed(...)`.
  unfoldable pub feed_all : List Event → Rotator x → Option (Rotator x × List Event)
  feed_all [] r = some (r, [])
  feed_all (e ∷ es) r = and_then (feed e r) (feed_all es)
