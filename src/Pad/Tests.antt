-- ===== src/Pad/Tests.antt =====
-- The gamepad proxy on concrete events.
use y700_linux.Prelude.{◌≡◌, refl, true, some, List, [], ◌∷◌, All}
use y700_linux.Prelude.Int.{pos}
use y700_linux.Touch.{ev_syn, ev_key, ev_abs, Event, event}
use y700_linux.Pad.{kishi, feed, feed_all}
use y700_linux.Pad.Output.{declared, feed_all-declared}

-- The trigger beyond its limit, a digital trigger, a button and the end of the report.
abbrev pressed : List Event
pressed =
    event ev_abs 10 (pos 300)
    ∷ event ev_key 0x138 (pos 1)
    ∷ event ev_key 0x133 (pos 1)
    ∷ event ev_syn 0 (pos 0)
    ∷ []

feeds :
    feed_all kishi pressed
    ≡ some (event ev_abs 2 (pos 255) ∷ event ev_key 0x133 (pos 1) ∷ event ev_syn 0 (pos 0) ∷ [])
unfolding feed_all feed
feeds = refl

feed_all-declared_example :
    (out : List Event) × (feed_all kishi pressed ≡ some out)
    × All (λ (e : Event). declared e ≡ true) out
feed_all-declared_example = feed_all-declared pressed
