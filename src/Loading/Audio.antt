-- ===== src/Loading/Audio.antt =====
-- The blocks of preflight of design/nextboot-impl/load-stage.py for the sound card.
use Prim.Native.String.{String, ◌++◌ as ◌<>◌}
use y700_linux.Prelude.{
  Bool, true, not, ◌&&◌, Option, none, some, List, [], ◌∷◌, ◌++◌, map, if◌then◌else◌,
}
use y700_linux.Loading.{View, Check, need, reads, contains, devices, driver, link_up, registered}
use y700_linux.Loading.Bundle.{Sound, File}
use y700_linux.Loading.Radio.{rproc_state, rpmsg_device, is_free}

abbrev pub runs_adsp : View → Sound → Check
runs_adsp v s = (reads (v.read (rproc_state s.rproc)) "running", "ADSP not running")

-- The ADSP runs, with the domain locator of this boot; or with the Bluetooth keeper, too.
unfoldable pub with_locator : View → String → Sound → List Check
with_locator v boot s = runs_adsp v s ∷ registered v boot "pdm"

unfoldable pub with_both : View → String → Sound → List Check
with_both v boot s = runs_adsp v s ∷ registered v boot "pdm" ++ registered v boot "bt"

-- text in c.read(p)
abbrev pub holds : Option String → String → Option Bool
holds none t = none
holds (some s) t = some (contains s t)

-- No file, or one with the text.
abbrev pub absent_or_holds : View → String → String → Option Bool
absent_or_holds v path t = if v.exists path then holds (v.read path) t else some true

abbrev pub no_card : View → Check
no_card v = (absent_or_holds v "/proc/asound/cards" "no soundcards", "a sound card already exists")

unfoldable pub d2_checks : View → List Check
d2_checks v =
    need
      (v.exists "/sys/class/msm_audio_ion/msm_audio_ion/dev"
        && v.exists "/sys/class/dma_heap/system/dev")
      "ion/dma-heap device missing"
    ∷ []

abbrev pub closed_too : Option Bool → Option Bool → Option Bool
closed_too (some a) (some b) = some (a && b)
closed_too a b = none

-- [x for x in ... if 'closed' not in c.read(x)] is empty.
abbrev pub all_closed : View → List String → Option Bool
all_closed v [] = some true
all_closed v (p ∷ ps) = closed_too (holds (v.read p) "closed") (all_closed v ps)

unfoldable pub d3_checks : View → List Check
d3_checks v =
    need (v.exists "/sys/class/sound/pcmC0D14p/dev") "speaker BE pcm missing"
    ∷ (all_closed v (v.glob "/proc/asound/card0" "pcm*/sub*/status"), "a PCM substream is open")
    ∷ []

-- The stages d1 to d5, with the checks of one of them.
unfoldable pub d_checks : View → String → List Check → Sound → List Check
d_checks v boot own s =
    with_both v boot s
    ++ (need (v.exists "/sys/class/aud_pasthru_adsp/aud_pasthru_adsp/dev")
          "audio-pkt device missing"
        ∷ (own
            ++ ((holds (v.read "/proc/asound/cards") "canoeqrdsndcard", "sound card missing")
                ∷ link_up v s.net
                ∷ [])))

unfoldable pub c4_checks : View → String → Sound → List Check
c4_checks v boot s =
    with_both v boot s
    ++ (need
          (v.is_link (driver (devices s.extdisp_codec))
            && not (v.exists (driver (devices s.sound)))
            && not (v.exists (driver (devices s.btswr))))
          "C-3 state changed"
        ∷ need (v.exists "/sys/class/bluetooth/hci0") "hci0 missing"
        ∷ no_card v
        ∷ link_up v s.net
        ∷ [])

abbrev pub amp : String → String
amp a = driver ("/sys/bus/i2c/devices/" <> a)

unfoldable pub c3_checks : View → String → Sound → List Check
c3_checks v boot s =
    with_locator v boot s
    ++ (need
          (not (v.exists (driver (devices s.sound)))
            && not (v.exists (driver (devices s.extdisp_codec))))
          "card or ext-disp codec already bound"
        ∷ (map (λ a. need (v.is_link (amp a)) ("amp not bound (C-2 state changed): " <> a)) s.amps
            ++ (no_card v ∷ link_up v s.net ∷ [])))

abbrev pub same_firmware : View → File → Check
same_firmware v f =
    let path = "/lib/firmware/" <> f.0 in
    (
      if v.exists path then reads (v.digest path) f.1 else some true,
      "different firmware installed: " <> f.0,
    )

unfoldable pub c2_checks : View → String → Sound → List Check
c2_checks v boot s =
    with_locator v boot s
    ++ (need
          (v.is_link (driver (devices "soc:spf_core_platform"))
            && not (v.exists (driver (devices s.lpi))))
          "C-1 state changed (spf_core_platform bound, lpi waiting)"
        ∷ (map (λ a. need (not (v.exists (amp a))) ("amp already bound: " <> a)) s.amps
            ++ (map (same_firmware v) s.firmware_install ++ (no_card v ∷ link_up v s.net ∷ []))))

unfoldable pub c1_checks : View → String → Sound → List Check
c1_checks v boot s =
    with_locator v boot s
    ++ (need (is_free v (rpmsg_device s.gpr_rpmsg)) "adsp_apps channel missing or already bound"
        ∷ no_card v
        ∷ link_up v s.net
        ∷ [])
