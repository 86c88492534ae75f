-- ===== src/Loading/Preflight.antt =====
-- preflight of design/nextboot-impl/load-stage.py, with context of bootmon.py, as the list of its checks.
use Prim.Native.String.{String, ◌++◌ as ◌<>◌}
use text.Mathlib.Text.{◌==◌ as str_eq}
use y700_linux.Prelude.{
  Bool, true, false, not, ◌&&◌, Option, none, some, List, [], ◌∷◌, ◌++◌, map, select, any,
  if◌then◌else◌,
}
use y700_linux.Loading.{
  View, Check, Verdict, verdict, need, also, reads, within, contains, is_empty, same_texts,
  no_names, devices, driver, unbound_consumers,
}
use y700_linux.Loading.Bundle.{
  module_name, Panel, GpuView, Gpu, Stage, pstore, display, wifi_a, wifi_b, adc, frpc, audio_d1,
  audio_d2, audio_d3, audio_d4, audio_d5, audio_c4, audio_c3, audio_c2, audio_c1, audio_c, qrtr_smd,
  blescan, bt_b, bt_probe, bt_a, touch, gpu, Manifest, file_ok, firmware_ok,
}
use y700_linux.Loading.Radio.{
  wifi_checks, wifi_a_checks, wifi_b_checks, adc_checks, frpc_checks, qrtr_checks, blescan_checks,
  bt_b_checks, bt_probe_checks, bt_a_checks,
}
use y700_linux.Loading.Audio.{
  d_checks, d2_checks, d3_checks, c4_checks, c3_checks, c2_checks, c1_checks,
}

abbrev pub none_of : List String → List String → Bool
none_of names live = not (any (λ x. within x live) names)

-- context of bootmon.py, before the first module is loaded.
unfoldable pub context : View → Manifest → List Check
context v m =
    (reads (v.read "/proc/sys/kernel/random/boot_id") m.boot_id, "boot changed")
      ∷ need (str_eq v.release m.kernel) "kernel changed"
      ∷ need v.has_slot_a "slot A required"
      ∷ (
        also (some (same_texts v.roots (m.root ∷ [])))
            (reads (v.read "/sys/class/block/mmcblk1p3/dev") m.root),
        "SD root changed",
      )
      ∷ map (λ n. (reads (v.build_id n.0) n.1, "module changed: " <> n.0)) m.module_notes
    ++ need (is_empty (select (λ x. not (within x m.module_names)) v.live))
        "unexpected module loaded"
      ∷ []

-- What every stage is checked for.
unfoldable pub common : View → Manifest → List Check
common v m =
    map (file_ok v) m.files
    ++ (need (not (v.exists (v.bundle <> "/attempt.json")))
          "already attempted; inspect result, do not retry"
        ∷ (context v m
            ++ (need (none_of (map module_name m.load_order) v.live)
                  "a stage module is already loaded"
                ∷ map (λ x. need (within x v.live) ("prerequisite module not live: " <> x))
                    m.requires_live)))

abbrev pub touch_checks : View → Panel → List Check
touch_checks v p =
    map (λ f. firmware_ok v "touch firmware missing/changed: " ("/lib/firmware/" <> f.0) f)
      p.firmware
    ++ (no_names (v.names "/sys/bus/spi/devices"), "SPI devices already exist")
      ∷ need (not (v.exists (driver (devices p.spi_controller)))) "SPI controller already bound"
      ∷ map
          (λ sup.
            need (not (is_empty (select (λ x. not (contains x "spi")) (unbound_consumers v sup))))
              ("only the SPI controller left unbound for " <> sup))
          p.must_keep_pending

-- gpu_view
abbrev pub driver_of : View → String → Option String
driver_of v dev =
    if v.is_link (driver (devices dev)) then some (v.target (driver (devices dev))) else none

unfoldable pub gpu_view : View → Option GpuView
gpu_view v = elim (v.read (devices "3d90000.clock-controller/state_synced")) [
  | none ↦ none
  | some s ↦ some (record {
    drivers =
        driver_of v "3d00000.qcom,kgsl-3d0"
        ∷ driver_of v "3d37000.qcom,gmu"
        ∷ driver_of v "3da0000.qcom,kgsl-iommu"
        ∷ [];
    synced = s;
  })
]

abbrev pub same_name : Option String → Option String → Bool
same_name none none = true
same_name (some a) (some b) = str_eq a b
same_name a b = false

abbrev pub same_names : List (Option String) → List (Option String) → Bool
same_names [] [] = true
same_names (a ∷ xs) (b ∷ ys) = same_name a b && same_names xs ys
same_names xs ys = false

abbrev pub same_view : Option GpuView → GpuView → Option Bool
same_view none b = none
same_view (some a) b = some (same_names a.drivers b.drivers && str_eq a.synced b.synced)

abbrev pub gpu_checks : View → Gpu → List Check
gpu_checks v g =
    map (λ f. firmware_ok v "firmware missing/changed: " ("/lib/firmware/" <> f.0) f) g.firmware
    ++ (same_view (gpu_view v) g.expected_before, "GPU devices not in reviewed pre-load state")
      ∷ map
          (λ sup.
            need
              (not (
                is_empty (
                  select (λ x. not (contains x "kgsl") && not (contains x "gmu"))
                    (unbound_consumers v sup))))
              ("only GPU consumers left for " <> sup))
          g.must_keep_pending

-- The blocks of the stages.
unfoldable pub stage_checks : View → Manifest → Stage → List Check
stage_checks v m pstore = []
stage_checks v m display = []
stage_checks v m (wifi_a w) = wifi_checks v w ++ wifi_a_checks v w
stage_checks v m (wifi_b w) = wifi_checks v w ++ wifi_b_checks v w
stage_checks v m (adc a) = adc_checks v a
stage_checks v m (frpc f) = frpc_checks v f
stage_checks v m (audio_d1 s) = d_checks v m.boot_id [] s
stage_checks v m (audio_d2 s) = d_checks v m.boot_id (d2_checks v) s
stage_checks v m (audio_d3 s) = d_checks v m.boot_id (d3_checks v) s
stage_checks v m (audio_d4 s) = d_checks v m.boot_id (d3_checks v) s
stage_checks v m (audio_d5 s) = d_checks v m.boot_id (d3_checks v) s
stage_checks v m (audio_c4 s) = c4_checks v m.boot_id s
stage_checks v m (audio_c3 s) = c3_checks v m.boot_id s
stage_checks v m (audio_c2 s) = c2_checks v m.boot_id s
stage_checks v m (audio_c s) = c2_checks v m.boot_id s
stage_checks v m (audio_c1 s) = c1_checks v m.boot_id s
stage_checks v m (qrtr_smd q) = qrtr_checks v q
stage_checks v m (blescan b) = blescan_checks v m.boot_id b
stage_checks v m (bt_b b) = bt_b_checks v b
stage_checks v m (bt_probe b) = bt_probe_checks v b
stage_checks v m (bt_a b) = bt_a_checks v b
stage_checks v m (touch p) = touch_checks v p
stage_checks v m (gpu g) = gpu_checks v g

unfoldable pub preflight : View → Manifest → Verdict
preflight v m = verdict (common v m ++ stage_checks v m m.stage)
