-- ===== src/Desktop/Ctl.antt =====
-- The control requests of desktop-service.py: parse_ctl, compose and touch_matrix.
--
-- The maximum of the backlight is not 0. A request is its length and its words, as line.strip().split() gives them; the text of an error
-- is left out. `round` of a quotient of whole numbers below 2 ** 24 is exact: no such quotient that
-- is not a tie rounds to one. The rotation matrices have whole entries, on which floats are exact.

pub mod Laws
mod Tests
use Prim.Native.Char.{Char, code}
use Prim.Native.String
use Prim.Native.String.{String}
use text.Mathlib.Text.{◌==◌ as str_eq}
use y700_linux.Prelude.{
  ℕ, zero, suc, ◌+◌, ◌-◌, ◌*◌, ◌/◌, ◌%◌, Bool, true, false, not, ◌&&◌, ◌||◌, Option, none, some,
  List, [], ◌∷◌, min, max, ◌==◌, leb, ltb, if◌then◌else◌,
}
use y700_linux.Prelude.Int.{ℤ, pos, negsuc, ◌+ℤ◌, ◌*ℤ◌}

abbrev pub bl_min : ℕ
bl_min = 200

abbrev pub ctl_max : ℕ
ctl_max = 64

-- The keys of ROTATIONS.
pub data Rotation : Type 0 where
  deg0 deg90 deg180 deg270 : Rotation

pub data Answer : Type 0 where
  brightness : ℕ → Answer
  rotate : Rotation → Answer
  resolution : ℕ → Answer
  refresh : ℕ → Answer
  sleep : Bool → Answer
  touch : Rotation → Answer
  get_number : ℕ → Answer
  get_resolution get_refresh get_sleep : Answer
  error : Answer

-- round(n / d): the nearest whole number, the even one of two.
unfoldable pub round_div : ℕ → ℕ → ℕ
round_div n d =
    if ltb (2 * (n % d)) d
    then n / d
    else if ltb d (2 * (n % d))
    then n / d + 1
    else if n / d % 2 == 0
    then n / d
    else n / d + 1

-- a.isdigit() and int(a), on ASCII text.
abbrev pub is_digit : ℕ → Bool
is_digit c = leb 48 c && leb c 57

digits_from : ℕ → String → Option ℕ
digits_from n String.[] = some n
digits_from n (String.◌∷◌ c s) =
    let rest = digits_from (10 * n + (code c - 48)) s in if is_digit (code c) then rest else none

unfoldable pub digits : String → Option ℕ
unfolding digits_from
digits String.[] = none
digits (String.◌∷◌ c s) = digits_from 0 (String.◌∷◌ c s)

abbrev pub rotation_of : ℕ → Option Rotation
rotation_of n =
    if n == 0
    then some deg0
    else if n == 90
    then some deg90
    else if n == 180
    then some deg180
    else if n == 270
    then some deg270
    else none

abbrev pub degrees_of : Rotation → ℕ
degrees_of deg0 = 0
degrees_of deg90 = 90
degrees_of deg180 = 180
degrees_of deg270 = 270

-- ROTATE_CYCLE, and its first entry behind an angle that is not in it.
abbrev pub next_rotation : Rotation → Rotation
next_rotation deg270 = deg90
next_rotation deg90 = deg0
next_rotation deg0 = deg270
next_rotation deg180 = deg270

-- int(a[1]) in RESOLUTIONS
abbrev pub is_resolution : ℕ → Bool
is_resolution n = n == 100 || n == 90 || n == 80 || n == 67 || n == 50

-- max(BL_MIN, min(bl_max, round(max(0, min(100, pct)) * bl_max / 100)))
unfoldable pub raw_brightness : ℕ → ℕ → ℕ
raw_brightness pct bl_max = max bl_min (min bl_max (round_div (min 100 pct * bl_max) 100))

-- The percentage of the backlight; a step down from below 10 goes below 0, which the clamp takes up.
parse_brightness : String → ℕ → ℕ → Answer
parse_brightness w cur_bl bl_max =
    if str_eq w "get"
    then get_number (round_div (cur_bl * 100) bl_max)
    else if str_eq w "up"
    then brightness (raw_brightness (round_div (cur_bl * 100) bl_max + 10) bl_max)
    else if str_eq w "down"
    then brightness (raw_brightness (round_div (cur_bl * 100) bl_max - 10) bl_max)
    else elim (digits w) [ none ↦ error | some pct ↦ brightness (raw_brightness pct bl_max) ]

parse_resolution : String → Answer
parse_resolution w =
    if str_eq w "get"
    then get_resolution
    else elim (digits w) [ none ↦ error | some n ↦ if is_resolution n then resolution n else error ]

parse_refresh : String → Answer
parse_refresh w =
    if str_eq w "get" then get_refresh else elim (digits w) [ none ↦ error | some n ↦ refresh n ]

parse_sleep : String → Answer
parse_sleep w =
    if str_eq w "on"
    then sleep true
    else if str_eq w "off"
    then sleep false
    else if str_eq w "get"
    then get_sleep
    else error

abbrev pub turn_to : (Rotation → Answer) → Option Rotation → Answer
turn_to act none = error
turn_to act (some r) = act r

abbrev pub angle : Option ℕ → Option Rotation
angle none = none
angle (some n) = rotation_of n

parse_touch : String → Answer
parse_touch w = turn_to touch (angle (digits w))

parse_rotate : String → Rotation → Answer
parse_rotate w cur_rot =
    if str_eq w "get"
    then get_number (degrees_of cur_rot)
    else if str_eq w "next"
    then rotate (next_rotation cur_rot)
    else turn_to rotate (angle (digits w))

parse_two : String → String → ℕ → ℕ → Rotation → Answer
parse_two a w cur_bl bl_max cur_rot =
    if str_eq a "brightness"
    then parse_brightness w cur_bl bl_max
    else if str_eq a "resolution"
    then parse_resolution w
    else if str_eq a "refresh"
    then parse_refresh w
    else if str_eq a "sleep"
    then parse_sleep w
    else if str_eq a "touch"
    then parse_touch w
    else if str_eq a "rotate"
    then parse_rotate w cur_rot
    else error

parse_one : String → Answer
parse_one a =
    if str_eq a "sleep" then sleep true else if str_eq a "wake" then sleep false else error

parse_words : List String → ℕ → ℕ → Rotation → Answer
parse_words [] cur_bl bl_max cur_rot = error
parse_words (a ∷ []) cur_bl bl_max cur_rot = parse_one a
parse_words (a ∷ w ∷ []) cur_bl bl_max cur_rot = parse_two a w cur_bl bl_max cur_rot
parse_words (a ∷ w ∷ v ∷ r) cur_bl bl_max cur_rot = error

unfoldable pub parse_ctl : ℕ → List String → ℕ → ℕ → Rotation → Answer
unfolding parse_words parse_two parse_one parse_brightness parse_resolution parse_refresh
    parse_sleep parse_touch parse_rotate
parse_ctl size words cur_bl bl_max cur_rot =
    if ltb ctl_max size then error else parse_words words cur_bl bl_max cur_rot

-- x' = a u + b v + c, y' = d u + e v + f
pub record Affine : Type 0 where
  pub a : ℤ
  pub b : ℤ
  pub c : ℤ
  pub d : ℤ
  pub e : ℤ
  pub f : ℤ

unfoldable pub compose : Affine → Affine → Affine
compose o i = record {
  a = o.a *ℤ i.a +ℤ o.b *ℤ i.d;
  b = o.a *ℤ i.b +ℤ o.b *ℤ i.e;
  c = o.a *ℤ i.c +ℤ o.b *ℤ i.f +ℤ o.c;
  d = o.d *ℤ i.a +ℤ o.e *ℤ i.d;
  e = o.d *ℤ i.b +ℤ o.e *ℤ i.e;
  f = o.d *ℤ i.c +ℤ o.e *ℤ i.f +ℤ o.f;
}

abbrev affine : ℤ → ℤ → ℤ → ℤ → ℤ → ℤ → Affine
affine a b c d e f = record { a = a; b = b; c = c; d = d; e = e; f = f }

-- The matrices of ROTATIONS.
unfoldable pub matrix : Rotation → Affine
matrix deg0 = affine (pos 1) (pos 0) (pos 0) (pos 0) (pos 1) (pos 0)
matrix deg90 = affine (pos 0) (pos 1) (pos 0) (negsuc 0) (pos 0) (pos 1)
matrix deg180 = affine (negsuc 0) (pos 0) (pos 1) (pos 0) (negsuc 0) (pos 1)
matrix deg270 = affine (pos 0) (negsuc 0) (pos 1) (pos 1) (pos 0) (pos 0)

unfoldable pub touch_matrix : Rotation → Rotation → Affine
touch_matrix rot offset = compose (matrix offset) (matrix rot)
