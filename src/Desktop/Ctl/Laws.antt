-- ===== src/Desktop/Ctl/Laws.antt =====
-- What a control request of desktop-service.py can ask for.
use Prim.Native.String.{String}
use text.Mathlib.Text.{◌==◌ as str_eq}
use y700_linux.Prelude.{
  ℕ, ◌≤◌, ◌≡◌, refl, Bool, true, false, Option, none, some, List, [], ◌∷◌, ltb, arith,
  if◌then◌else◌,
}
use y700_linux.Desktop.Ctl.{
  Rotation, deg0, deg90, deg180, deg270, Answer, brightness, rotate, resolution, refresh, sleep,
  touch, get_number, get_resolution, get_refresh, get_sleep, error, raw_brightness, digits,
  is_resolution, turn_to, angle, parse_brightness, parse_resolution, parse_refresh, parse_sleep,
  parse_touch, parse_rotate, parse_two, parse_one, parse_words, parse_ctl, matrix, touch_matrix,
  compose, bl_min, ctl_max,
}

-- A brightness is at least BL_MIN and at most the maximum; a resolution is a key of RESOLUTIONS.
abbrev pub IsSafe : ℕ → Answer → Type 0
IsSafe m (brightness n) = (bl_min ≤ n) × (n ≤ m)
IsSafe m (resolution n) = is_resolution n ≡ true
IsSafe m (rotate r) = Unit
IsSafe m (refresh n) = Unit
IsSafe m (sleep b) = Unit
IsSafe m (touch r) = Unit
IsSafe m (get_number n) = Unit
IsSafe m get_resolution = Unit
IsSafe m get_refresh = Unit
IsSafe m get_sleep = Unit
IsSafe m error = Unit

-- An `if` is safe where both branches are.
either : (m : ℕ) (b : Bool) (x y : Answer) → IsSafe m x → IsSafe m y → IsSafe m (if b then x else y)
either m true x y hx hy = hx
either m false x y hx hy = hy

module _ (m : ℕ) (h : bl_min ≤ m) where
  raw_brightness_bounds : (pct : ℕ) → IsSafe m (brightness (raw_brightness pct m))
  unfolding raw_brightness
  raw_brightness_bounds pct = omega arith

  brightness-IsSafe : (w : String) (cur : ℕ) → IsSafe m (parse_brightness w cur m)
  unfolding parse_brightness
  brightness-IsSafe w cur = either m (str_eq w "get") _ _ tt (
      either m (str_eq w "up") _ _ (raw_brightness_bounds _)
        (either m (str_eq w "down") _ _ (raw_brightness_bounds _) (number (digits w))))
    where
      number :
          (o : Option ℕ)
          → IsSafe m (elim o [ none ↦ error | some pct ↦ brightness (raw_brightness pct m) ])
      number none = tt
      number (some pct) = raw_brightness_bounds pct

  resolution-IsSafe : (w : String) → IsSafe m (parse_resolution w)
  unfolding parse_resolution
  resolution-IsSafe w = either m (str_eq w "get") _ _ tt (number (digits w))
    where
      known :
          (n : ℕ) (b : Bool) → is_resolution n ≡ b → IsSafe m (if b then resolution n else error)
      known n true e = e
      known n false e = tt

      number :
          (o : Option ℕ)
          → IsSafe m
              (elim o [ none ↦ error | some n ↦ if is_resolution n then resolution n else error ])
      number none = tt
      number (some n) = known n (is_resolution n) refl

  refresh-IsSafe : (w : String) → IsSafe m (parse_refresh w)
  unfolding parse_refresh
  refresh-IsSafe w = either m (str_eq w "get") _ _ tt (number (digits w))
    where
      number : (o : Option ℕ) → IsSafe m (elim o [ none ↦ error | some n ↦ refresh n ])
      number none = tt
      number (some n) = tt

  sleep-IsSafe : (w : String) → IsSafe m (parse_sleep w)
  unfolding parse_sleep
  sleep-IsSafe w =
      either m (str_eq w "on") _ _ tt
        (either m (str_eq w "off") _ _ tt (either m (str_eq w "get") _ _ tt tt))

  touch-IsSafe : (o : Option Rotation) → IsSafe m (turn_to touch o)
  touch-IsSafe none = tt
  touch-IsSafe (some r) = tt

  rotate-IsSafe : (w : String) (r : Rotation) → IsSafe m (parse_rotate w r)
  unfolding parse_rotate
  rotate-IsSafe w r =
      either m (str_eq w "get") _ _ tt
        (either m (str_eq w "next") _ _ tt (turned (angle (digits w))))
    where
      turned : (o : Option Rotation) → IsSafe m (turn_to rotate o)
      turned none = tt
      turned (some q) = tt

  words-IsSafe : (ws : List String) (cur : ℕ) (r : Rotation) → IsSafe m (parse_words ws cur m r)
  unfolding parse_words parse_one parse_two parse_touch
  words-IsSafe [] cur r = tt
  words-IsSafe (a ∷ []) cur r =
      either m (str_eq a "sleep") _ _ tt (either m (str_eq a "wake") _ _ tt tt)
  words-IsSafe (a ∷ w ∷ []) cur r = either m (str_eq a "brightness") _ _ (brightness-IsSafe w cur) (
      either m (str_eq a "resolution") _ _ (resolution-IsSafe w) (
        either m (str_eq a "refresh") _ _ (refresh-IsSafe w) (
          either m (str_eq a "sleep") _ _ (sleep-IsSafe w) (
            either m (str_eq a "touch") _ _ (touch-IsSafe (angle (digits w)))
              (either m (str_eq a "rotate") _ _ (rotate-IsSafe w r) tt)))))
  words-IsSafe (a ∷ w ∷ v ∷ ws) cur r = tt

-- Whatever the request is, a brightness that it asks for is at least BL_MIN and at most the maximum
-- of the backlight, and a resolution is one of RESOLUTIONS; the maximum is at least BL_MIN.
pub parse_ctl-IsSafe :
    (size : ℕ) (words : List String) (cur_bl bl_max : ℕ) (cur_rot : Rotation)
    → bl_min ≤ bl_max
    → IsSafe bl_max (parse_ctl size words cur_bl bl_max cur_rot)
unfolding parse_ctl
parse_ctl-IsSafe size words cur_bl bl_max cur_rot h =
    either bl_max (ltb ctl_max size) error _ tt (words-IsSafe bl_max h words cur_bl cur_rot)

abbrev pub quarter : Rotation → Rotation
quarter deg0 = deg90
quarter deg90 = deg180
quarter deg180 = deg270
quarter deg270 = deg0

-- The sum of two angles, in full turns.
abbrev pub turn_by : Rotation → Rotation → Rotation
turn_by deg0 r = r
turn_by deg90 r = quarter r
turn_by deg180 r = quarter (quarter r)
turn_by deg270 r = quarter (quarter (quarter r))

-- The matrix of the touch proxy is that of the rotation by the sum of the two angles.
pub touch_matrix-turns :
    (rot offset : Rotation) → touch_matrix rot offset ≡ matrix (turn_by offset rot)
unfolding touch_matrix matrix compose
touch_matrix-turns deg0 deg0 = refl
touch_matrix-turns deg0 deg90 = refl
touch_matrix-turns deg0 deg180 = refl
touch_matrix-turns deg0 deg270 = refl
touch_matrix-turns deg90 deg0 = refl
touch_matrix-turns deg90 deg90 = refl
touch_matrix-turns deg90 deg180 = refl
touch_matrix-turns deg90 deg270 = refl
touch_matrix-turns deg180 deg0 = refl
touch_matrix-turns deg180 deg90 = refl
touch_matrix-turns deg180 deg180 = refl
touch_matrix-turns deg180 deg270 = refl
touch_matrix-turns deg270 deg0 = refl
touch_matrix-turns deg270 deg90 = refl
touch_matrix-turns deg270 deg180 = refl
touch_matrix-turns deg270 deg270 = refl
