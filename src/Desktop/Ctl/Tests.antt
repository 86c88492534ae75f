-- ===== src/Desktop/Ctl/Tests.antt =====
-- Control requests, and instances of the theorems.
use y700_linux.Prelude.{◌≡◌, refl, false, [], ◌∷◌, arith}
use y700_linux.Desktop.Ctl.{
  deg0, deg90, deg180, deg270, brightness, rotate, resolution, sleep, touch, get_number, error,
  parse_ctl, digits, round_div, raw_brightness,
}
use y700_linux.Desktop.Ctl.Laws.{IsSafe, parse_ctl-IsSafe}

requests :
    (parse_ctl 14 ("brightness" ∷ "up" ∷ []) 1024 4095 deg270 ≡ brightness 1433)
    × (parse_ctl 12 ("brightness" ∷ "0" ∷ []) 1024 4095 deg270 ≡ brightness 200)
    × (parse_ctl 14 ("brightness" ∷ "get" ∷ []) 1024 4095 deg270 ≡ get_number 25)
    × (parse_ctl 11 ("rotate" ∷ "next" ∷ []) 1024 4095 deg270 ≡ rotate deg90)
    × (parse_ctl 10 ("rotate" ∷ "45" ∷ []) 1024 4095 deg270 ≡ error)
    × (parse_ctl 13 ("resolution" ∷ "67" ∷ []) 1024 4095 deg270 ≡ resolution 67)
    × (parse_ctl 9 ("touch" ∷ "180" ∷ []) 1024 4095 deg270 ≡ touch deg180)
    × (parse_ctl 4 ("wake" ∷ []) 1024 4095 deg270 ≡ sleep false)
    × (parse_ctl 65 ("wake" ∷ []) 1024 4095 deg270 ≡ error)
unfolding parse_ctl digits round_div raw_brightness
requests = (refl, refl, refl, refl, refl, refl, refl, refl, refl)

parse_ctl-IsSafe_example : IsSafe 4095 (parse_ctl 16 ("brightness" ∷ "150" ∷ []) 1024 4095 deg0)
parse_ctl-IsSafe_example =
    parse_ctl-IsSafe 16 ("brightness" ∷ "150" ∷ []) 1024 4095 deg0 (omega arith)
