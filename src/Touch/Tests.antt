-- ===== src/Touch/Tests.antt =====
-- The rotated touchscreen on a small panel, and instances of the theorems.
use y700_linux.Prelude.{◌≡◌, refl, none, some, List, [], ◌∷◌, arith}
use y700_linux.Prelude.Int.{pos}
use y700_linux.Floats.{fmin, fmax}
use y700_linux.Floats.Fixed.{thousandths}
use y700_linux.Touch.{
  Event, event, Matrix, Rotator, new_rotator, ev_abs, ev_syn, rot, located, flush, move, feed_abs,
  feed, feed_all,
}
use y700_linux.Touch.Output.{IsValid, Sound, feed_all-Sound}
use y700_linux.Touch.Slots.{Delivers, feed-Delivers}

-- The two axes exchanged.
abbrev exchange : Matrix thousandths
exchange = record { a = 0; b = 1000; c = 0; d = 1000; e = 0; f = 0 }

abbrev panel : Rotator thousandths
panel = record {
  xr = record { low = 0; high = 100; high_bound = omega arith };
  yr = record { low = 0; high = 200; high_bound = omega arith };
  m = exchange;
  cur = pos 0;
  vslot = pos 0;
  pos_of = λ s. none;
  dirty = [];
}

panel_lem :
    new_rotator thousandths
      (record { low = 0; high = 100; high_bound = omega arith })
      (record { low = 0; high = 200; high_bound = omega arith })
      exchange
    ≡ panel
unfolding new_rotator
panel_lem = refl

-- Finger 1 touches at (25, 100): a quarter across, half down.
abbrev touch : List Event
touch =
    event ev_abs 0x2f (pos 1)
    ∷ event ev_abs 0x39 (pos 77)
    ∷ event ev_abs 0x35 (pos 25)
    ∷ event ev_abs 0x36 (pos 100)
    ∷ event ev_syn 0 (pos 0)
    ∷ []

touch_runs :
    (o : Rotator thousandths) × (feed_all thousandths touch panel
      ≡ some (
        o,
        event ev_abs 0x2f (pos 1)
            ∷ event ev_abs 0x39 (pos 77)
            ∷ event ev_abs 0x35 (pos 50)
            ∷ event ev_abs 0x36 (pos 50)
            ∷ event ev_syn 0 (pos 0)
            ∷ [],
      ))
unfolding feed_all feed feed_abs move flush located rot fmin fmax
touch_runs = (_, refl)

panel-IsValid : IsValid thousandths panel
panel-IsValid = record { x_extent = omega arith; y_extent = omega arith; placed = tt }

feed_all-Sound_example :
    (o : Rotator thousandths × List Event) × (feed_all thousandths touch panel ≡ some o)
    × Sound thousandths panel o
feed_all-Sound_example = feed_all-Sound thousandths touch panel panel-IsValid

abbrev second_slot : Rotator thousandths
second_slot = record panel { cur = pos 1 }

feed-Delivers_example : Delivers thousandths (event ev_abs 0x39 (pos 77)) second_slot (
  record second_slot { vslot = pos 1 },
  event ev_abs 0x2f (pos 1) ∷ event ev_abs 0x39 (pos 77) ∷ [],
)
unfolding feed feed_abs
feed-Delivers_example =
    feed-Delivers thousandths (event ev_abs 0x39 (pos 77)) second_slot
      (
        record second_slot { vslot = pos 1 },
        event ev_abs 0x2f (pos 1) ∷ event ev_abs 0x39 (pos 77) ∷ [],
      )
      refl
