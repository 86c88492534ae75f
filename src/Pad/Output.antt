-- ===== src/Pad/Output.antt =====
-- The gamepad proxy writes only events that the virtual pad was set up for.
use mathlib.Core.Option.{none-ne-some, some-injective}
use y700_linux.Prelude.{
  ℕ, ◌≡◌, subst, refl, inl, inr, Bool, true, false, ◌&&◌, Option, none, some, List, [], ◌∷◌, ◌++◌,
  arith, ◌==◌, elem, All, All-append, if◌then◌else◌, if-cases, Bool-cases,
}
use y700_linux.Prelude.Int.{ℤ, pos, leb_ℤ}
use y700_linux.Touch.{ev_syn, ev_key, ev_abs, syn_report, Event, event}
use y700_linux.Pad.{
  get, xbox_keys, xbox_abs, Mapping, kishi, clamp, feed_axis, feed_syn, feed_abs, feed_key, feed,
  add_out, feed_all,
}

abbrev pub in_range : Option (ℤ × ℤ) → ℤ → Bool
in_range none value = false
in_range (some (lo, hi)) value = leb_ℤ lo value && leb_ℤ value hi

-- A key of the pad, a value within the limits of an axis of the pad, or the end of a report.
abbrev pub declared : Event → Bool
declared e =
    if e.kind == ev_key
    then elem e.code xbox_keys
    else if e.kind == ev_abs
    then in_range (get e.code xbox_abs) e.value
    else e.kind == ev_syn && e.code == syn_report

-- The map leads to keys and axes that the pad has, the latter with limits in order.
abbrev pub has_limits : Option (ℤ × ℤ) → Bool
has_limits none = false
has_limits (some (lo, hi)) = leb_ℤ lo hi

pub record IsKnown (m : Mapping) : Type 0 where
  pub keys_known : All (λ (k : ℕ × ℕ). elem k.1 xbox_keys ≡ true) m.keys
  pub axes_known : All (λ (k : ℕ × ℕ). has_limits (get k.1 xbox_abs) ≡ true) m.axes

get-All :
    (P : ℕ → Type 0) (code v : ℕ) (m : List (ℕ × ℕ))
    → All (λ (k : ℕ × ℕ). P k.1) m
    → get code m ≡ some v
    → P v
get-All P code v [] h e = absurd (none-ne-some v e)
get-All P code v ((c, a) ∷ rest) h e = elim (Bool-cases (c == code)) [
  | inl same ↦ subst P (some-injective _ _ (rw same at e)) h.0
  | inr other ↦ get-All P code v rest h.1 (rw other at e)
]

-- What a step gives is there, and declared.
Declares : Option (List Event) → Type 0
Declares r = (out : List Event) × (r ≡ some out) × All (λ (e : Event). declared e ≡ true) out

clamp_range :
    (lo hi value : ℤ) → leb_ℤ lo hi ≡ true → in_range (some (lo, hi)) (clamp (lo, hi) value) ≡ true
clamp_range lo hi value h = ground (arith, h)

feed_syn-Declares : (e : Event) → Declares (feed_syn e)
unfolding Declares
feed_syn-Declares e =
    if-cases
      (λ (r : Option (List Event)).
        (out : List Event) × (r ≡ some out) × All (λ (x : Event). declared x ≡ true) out)
      (e.kind == ev_syn && e.code == syn_report)
      (λ _. (event ev_syn syn_report (pos 0) ∷ [], refl, (refl, tt))) (λ _. ([], refl, tt))

pressed-Declares :
    (key : ℕ) (value : ℤ)
    → elem key xbox_keys ≡ true
    → Declares (some (event ev_key key value ∷ []))
unfolding Declares
pressed-Declares key value h = (event ev_key key value ∷ [], refl, (h, tt))

module _ (m : Mapping) (known : IsKnown m) where
  feed_axis-Declares :
      (axis : ℕ) (value : ℤ) (o : Option (ℤ × ℤ))
      → get axis xbox_abs ≡ o
      → has_limits o ≡ true
      → Declares (feed_axis axis value o)
  unfolding Declares
  feed_axis-Declares axis value none e h = ground (arith, h)
  feed_axis-Declares axis value (some (lo, hi)) e h =
      (event ev_abs axis (clamp (lo, hi) value) ∷ [], refl, (rw e (clamp_range lo hi value h), tt))

  feed_abs-Declares : (e : Event) (o : Option ℕ) → get e.code m.axes ≡ o → Declares (feed_abs e o)
  feed_abs-Declares e none h = feed_syn-Declares e
  feed_abs-Declares e (some axis) h =
      if-cases Declares (e.kind == ev_abs)
        (λ _.
          feed_axis-Declares axis e.value _ refl (
            get-All (λ a. has_limits (get a xbox_abs) ≡ true) e.code axis m.axes known.axes_known
              h))
        (λ _. feed_syn-Declares e)

  feed_key-Declares : (e : Event) (o : Option ℕ) → get e.code m.keys ≡ o → Declares (feed_key m e o)
  feed_key-Declares e none h = feed_abs-Declares e _ refl
  feed_key-Declares e (some key) h =
      if-cases Declares (e.kind == ev_key)
        (λ _.
          pressed-Declares key e.value
            (get-All (λ k. elem k xbox_keys ≡ true) e.code key m.keys known.keys_known h))
        (λ _. feed_abs-Declares e _ refl)

  feed_all-known : (es : List Event) → Declares (feed_all m es)
  unfolding feed_all feed Declares
  feed_all-known [] = ([], refl, tt)
  feed_all-known (e ∷ es) =
      both (feed_key m e (get e.code m.keys)) (feed_all m es) (feed_key-Declares e _ refl)
        (feed_all-known es)
    where
      both :
          (a b : Option (List Event))
          → Declares a
          → Declares b
          → (out : List Event) × (add_out a b ≡ some out)
            × All (λ (x : Event). declared x ≡ true) out
      both a b (xs, ea, da) (ys, eb, db) = (xs ++ ys, rw (ea, eb) refl, All-append _ xs ys da db)

kishi-IsKnown : IsKnown kishi
kishi-IsKnown = record { keys_known = ground (arith); axes_known = ground (arith) }

-- Whatever a Kishi sends, no event of a read raises, and every event that is written is one that the
-- virtual pad was set up for: a key of its list, or an axis of its list with a value within the
-- limits of that axis, or the end of a report.
pub feed_all-declared :
    (es : List Event)
    → (out : List Event) × (feed_all kishi es ≡ some out)
      × All (λ (e : Event). declared e ≡ true) out
unfolding Declares
feed_all-declared es = feed_all-known kishi kishi-IsKnown es
