-- ===== src/Loading/LinkUp.antt =====
-- What a preflight that passes has seen.
use Prim.Native.String.{String, ◌++◌ as ◌<>◌}
use text.Mathlib.Text.{◌==◌ as str_eq}
use text.Mathlib.TextEquality.{eq_iff}
use mathlib.Core.Option.{none-ne-some, some-injective}
use y700_linux.Prelude.{
  ◌≡◌, refl, ap, subst, Bool, true, false, Option, none, some, List, [], ◌∷◌, ◌++◌, map, All,
  false-ne-true, not-true,
}
use y700_linux.Loading.{
  View, Check, passed, verdict, need, also, reads, within, carrier, link_up, registered,
}
use y700_linux.Loading.Bundle.{
  module_name, File, Wifi, Sound, Stage, pstore, display, wifi_a, wifi_b, adc, frpc, audio_d1,
  audio_d2, audio_d3, audio_d4, audio_d5, audio_c4, audio_c3, audio_c2, audio_c1, audio_c, qrtr_smd,
  blescan, bt_b, bt_probe, bt_a, touch, gpu, Manifest, file_ok,
}
use y700_linux.Loading.Radio.{
  wifi_checks, adc_checks, frpc_checks, qrtr_checks, blescan_checks, bt_b_checks, bt_probe_checks,
  bt_a_checks,
}
use y700_linux.Loading.Audio.{
  with_locator, with_both, d2_checks, d3_checks, d_checks, c4_checks, c3_checks, c2_checks,
  c1_checks,
}
use y700_linux.Loading.Loads.{is_passed}
use y700_linux.Loading.Preflight.{none_of, context, common, stage_checks, preflight}

abbrev pub Holds : Check → Type 0
Holds c = c.0 ≡ some true

All-left : (xs ys : List Check) → All Holds (xs ++ ys) → All Holds xs
All-left [] ys h = tt
All-left (x ∷ xs) ys h = (h.0, All-left xs ys h.1)

All-right : (xs ys : List Check) → All Holds (xs ++ ys) → All Holds ys
All-right [] ys h = h
All-right (x ∷ xs) ys h = All-right xs ys h.1

verdict-Holds : (cs : List Check) → verdict cs ≡ passed → All Holds cs
unfolding verdict
verdict-Holds [] e = tt
verdict-Holds ((none, message) ∷ cs) e = absurd (false-ne-true (ap is_passed e))
verdict-Holds ((some false, message) ∷ cs) e = absurd (false-ne-true (ap is_passed e))
verdict-Holds ((some true, message) ∷ cs) e = (refl, verdict-Holds cs e)

-- The management link that the manifest names, for the stages that are run over it.
unfoldable pub stage_net : Stage → Option String
stage_net pstore = none
stage_net display = none
stage_net (wifi_a w) = w.net
stage_net (wifi_b w) = w.net
stage_net (adc a) = a.net
stage_net (frpc f) = f.net
stage_net (audio_d1 s) = s.net
stage_net (audio_d2 s) = s.net
stage_net (audio_d3 s) = s.net
stage_net (audio_d4 s) = s.net
stage_net (audio_d5 s) = s.net
stage_net (audio_c4 s) = s.net
stage_net (audio_c3 s) = s.net
stage_net (audio_c2 s) = s.net
stage_net (audio_c1 s) = s.net
stage_net (audio_c s) = s.net
stage_net (qrtr_smd q) = q.net
stage_net (blescan b) = b.net
stage_net (bt_b b) = b.net
stage_net (bt_probe b) = b.net
stage_net (bt_a b) = b.net
stage_net (touch p) = none
stage_net (gpu g) = none

module _ (v : View) (m : Manifest) where
  Up : Option String → Type 0
  Up net = Holds (link_up v net)

  wifi_link : (w : Wifi) → All Holds (wifi_checks v w) → Up w.net
  unfolding wifi_checks Up
  wifi_link w h = (All-right (map _ w.firmware) _ h).0

  d_link : (own : List Check) (s : Sound) → All Holds (d_checks v m.boot_id own s) → Up s.net
  unfolding d_checks Up
  d_link own s h = (All-right own _ (All-right (with_both v m.boot_id s) _ h).1).1.0

  c4_link : (s : Sound) → All Holds (c4_checks v m.boot_id s) → Up s.net
  unfolding c4_checks Up
  c4_link s h = (All-right (with_both v m.boot_id s) _ h).1.1.1.0

  c3_link : (s : Sound) → All Holds (c3_checks v m.boot_id s) → Up s.net
  unfolding c3_checks Up
  c3_link s h = (All-right (map _ s.amps) _ (All-right (with_locator v m.boot_id s) _ h).1).1.0

  c2_link : (s : Sound) → All Holds (c2_checks v m.boot_id s) → Up s.net
  unfolding c2_checks Up
  c2_link s h =
      let behind_amps = All-right (map _ s.amps) _ (All-right (with_locator v m.boot_id s) _ h).1 in
      (All-right (map _ s.firmware_install) _ behind_amps).1.0

  c1_link : (s : Sound) → All Holds (c1_checks v m.boot_id s) → Up s.net
  unfolding c1_checks Up
  c1_link s h = (All-right (with_locator v m.boot_id s) _ h).1.1.0

  stage_link : (st : Stage) → All Holds (stage_checks v m st) → Up (stage_net st)
  unfolding stage_checks stage_net adc_checks frpc_checks qrtr_checks blescan_checks bt_b_checks
      bt_probe_checks bt_a_checks Up
  stage_link pstore h = refl
  stage_link display h = refl
  stage_link (wifi_a w) h = wifi_link w (All-left (wifi_checks v w) _ h)
  stage_link (wifi_b w) h = wifi_link w (All-left (wifi_checks v w) _ h)
  stage_link (adc a) h = h.1.1.1.0
  stage_link (frpc f) h = h.1.1.1.0
  stage_link (audio_d1 s) h = d_link [] s h
  stage_link (audio_d2 s) h = d_link (d2_checks v) s h
  stage_link (audio_d3 s) h = d_link (d3_checks v) s h
  stage_link (audio_d4 s) h = d_link (d3_checks v) s h
  stage_link (audio_d5 s) h = d_link (d3_checks v) s h
  stage_link (audio_c4 s) h = c4_link s h
  stage_link (audio_c3 s) h = c3_link s h
  stage_link (audio_c2 s) h = c2_link s h
  stage_link (audio_c s) h = c2_link s h
  stage_link (audio_c1 s) h = c1_link s h
  stage_link (qrtr_smd q) h = h.1.1.1.0
  stage_link (blescan b) h = (All-right (registered v m.boot_id "bt") _ h).1.0
  stage_link (bt_b b) h = h.1.1.0
  stage_link (bt_probe b) h = h.1.1.1.0
  stage_link (bt_a b) h = h.1.1.1.0
  stage_link (touch p) h = refl
  stage_link (gpu g) h = refl

  reads-text : (r : Option String) (s : String) → reads r s ≡ some true → r ≡ some s
  reads-text none s e = absurd (none-ne-some true e)
  reads-text (some t) s e = ap (λ (x : String). some x) ((eq_iff t s).0 (some-injective _ _ e))

  -- Where preflight passes a stage whose part of the manifest names a management link, the carrier of
  -- that link was up.
  pub preflight_link :
      (net : String)
      → preflight v m ≡ passed
      → stage_net m.stage ≡ some net
      → v.read (carrier net) ≡ some "1"
  unfolding preflight Up
  preflight_link net ok named =
      let h = All-right (common v m) (stage_checks v m m.stage) (verdict-Holds _ ok) in
      let up : Up (some net) = subst Up named (stage_link m.stage h) in
      reads-text (v.read (carrier net)) "1" up

  also-right : (a b : Option Bool) → also a b ≡ some true → b ≡ some true
  also-right none b e = absurd (none-ne-some true e)
  also-right (some false) b e = absurd (false-ne-true (some-injective _ _ e))
  also-right (some true) b e = e

  files_seen :
      (fs : List File)
      → All Holds (map (file_ok v) fs)
      → All (λ (f : File). v.digest (v.bundle <> "/" <> f.0) ≡ some f.1) fs
  files_seen [] h = tt
  files_seen (f ∷ fs) h = (
    reads-text (v.digest (v.bundle <> "/" <> f.0)) f.1
        (also-right (some (str_eq (v.base_name f.0) f.0)) _ h.0),
    files_seen fs h.1,
  )

  live_seen :
      (xs : List String)
      → All Holds (map (λ x. need (within x v.live) ("prerequisite module not live: " <> x)) xs)
      → All (λ x. within x v.live ≡ true) xs
  live_seen [] h = tt
  live_seen (x ∷ xs) h = (some-injective _ _ h.0, live_seen xs h.1)

  -- Where preflight passes, the bundle was not attempted, each of its files had its digest, the boot was
  -- that of the manifest, no module of the load order was live, and all required modules were.
  pub preflight_fresh :
      preflight v m ≡ passed
      → (v.exists (v.bundle <> "/attempt.json") ≡ false)
        × All (λ (f : File). v.digest (v.bundle <> "/" <> f.0) ≡ some f.1) m.files
        × (v.read "/proc/sys/kernel/random/boot_id" ≡ some m.boot_id)
        × (none_of (map module_name m.load_order) v.live ≡ true)
        × All (λ x. within x v.live ≡ true) m.requires_live
  unfolding preflight common context
  preflight_fresh ok =
      let h = All-left (common v m) (stage_checks v m m.stage) (verdict-Holds _ ok) in
      let behind = All-right (map (file_ok v) m.files) _ h in
      let loading = All-right (context v m) _ behind.1 in
      let boot = All-left (context v m) _ behind.1 in
      (
        not-true (v.exists (v.bundle <> "/attempt.json")) (some-injective _ _ behind.0),
        files_seen m.files (All-left (map (file_ok v) m.files) _ h),
        reads-text (v.read "/proc/sys/kernel/random/boot_id") m.boot_id boot.0,
        some-injective _ _ loading.0,
        live_seen m.requires_live loading.1,
      )
