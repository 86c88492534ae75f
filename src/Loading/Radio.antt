-- ===== src/Loading/Radio.antt =====
-- The blocks of preflight of design/nextboot-impl/load-stage.py for the radios, the ADC, the FastRPC
-- channel and the router.
use Prim.Native.String.{String, len, slice, ◌++◌ as ◌<>◌}
use text.Mathlib.Text.{◌==◌ as str_eq}
use y700_linux.Prelude.{
  ◌-◌, Bool, false, not, ◌&&◌, Option, none, some, List, [], ◌∷◌, ◌++◌, map, select, any,
}
use y700_linux.Loading.{
  Consumer, View, Check, need, also, reads, within, contains, is_empty, same_texts, no_names,
  names_are, concat_map, devices, driver, link_up, unbound_consumers, registered, Registry,
}
use y700_linux.Loading.Bundle.{Wifi, Adc, Frpc, Qrtr, Bt, firmware_ok}

abbrev pub device_names : View → String → List String
device_names v sup = v.sorted (map (λ (c : Consumer). c.device) (v.consumers sup))

abbrev pub first_bound : View → List String → Check
first_bound v [] = (none, "")
first_bound v (a ∷ others) = need (v.is_link (driver (devices a))) (a <> " not bound")

-- The consumers of a supplier are the allowed ones, and the first of those is bound.
abbrev pub only_allowed : View → String × List String → List Check
only_allowed v (sup, allowed) =
    need (same_texts (device_names v sup) (v.sorted allowed)) ("consumer set changed: " <> sup)
    ∷ first_bound v allowed
    ∷ []

abbrev pub idle : View → List String → Option Bool
idle v (r ∷ []) =
    also (reads (v.read (r <> "/num_users")) "0") (reads (v.read (r <> "/state")) "disabled")
idle v rs = some false

-- A consumer besides Wi-Fi and PCIe is left unbound.
abbrev pub guarded : View → String → Check
guarded v sup =
    need
      (not (
        is_empty (
          select (λ x. not (contains x "cnss") && not (contains x "pcie"))
            (unbound_consumers v sup))))
      ("only Wi-Fi/PCIe consumers left unbound for " <> sup)

unfoldable pub wifi_checks : View → Wifi → List Check
wifi_checks v w =
    map (λ f. firmware_ok v "Wi-Fi firmware missing/changed: " ("/lib/firmware/" <> f.0) f)
      w.firmware
    ++ (link_up v w.net
        ∷ (map (guarded v) w.guard_suppliers
            ++ concat_map (only_allowed v) w.pcie_only_suppliers
            ++ ((
              idle v (v.glob (devices w.wcal <> "/regulator") "regulator.*"),
              "vrm-wcal (sync_state follows the cnss bind) is not idle/disabled",
            )
                ∷ [])))

abbrev pub not_bound : View → String → Check
not_bound v dev = need (not (v.exists (driver (devices dev)))) (dev <> " already bound")

unfoldable pub wifi_a_checks : View → Wifi → List Check
wifi_a_checks v w =
    not_bound v w.pcie
    ∷ not_bound v w.cnss
    ∷ (no_names (v.names "/sys/bus/pci/devices"), "PCI devices already present")
    ∷ []

abbrev pub is_bound : View → String → Check
is_bound v dev = need (v.is_link (driver (devices dev))) (dev <> " not bound (wifi-a incomplete)")

unfoldable pub wifi_b_checks : View → Wifi → List Check
wifi_b_checks v w =
    is_bound v w.pcie
    ∷ is_bound v w.cnss
    ∷ need (not (v.exists "/sys/class/net/wlan0")) "wlan0 already exists"
    ∷ []

-- The types of all thermal zones; one that cannot be read raises.
abbrev pub and_also : Option String → Option (List String) → Option (List String)
and_also none xs = none
and_also (some x) none = none
and_also (some x) (some xs) = some (x ∷ xs)

abbrev pub zone_types : View → List String → Option (List String)
zone_types v [] = some []
zone_types v (z ∷ zs) = and_also (v.read (z <> "/type")) (zone_types v zs)

abbrev pub apart : Option (List String) → List String → Option Bool
apart none zones = none
apart (some have) zones = some (not (any (λ z. within z have) zones))

unfoldable pub adc_checks : View → Adc → List Check
adc_checks v a =
    need (v.exists (devices a.vadc) && not (v.exists (driver (devices a.vadc))))
      "vadc device missing or already bound"
    ∷ (no_names (v.names "/sys/bus/iio/devices"), "IIO devices already present")
    ∷ (
      apart (zone_types v (v.glob "/sys/class/thermal" "thermal_zone*")) a.zones,
      "ADC thermal zones already registered",
    )
    ∷ link_up v a.net
    ∷ []

abbrev pub rproc_state : String → String
rproc_state rproc = "/sys/class/remoteproc/" <> rproc <> "/state"

abbrev pub rpmsg_device : String → String
rpmsg_device name = "/sys/bus/rpmsg/devices/" <> name

-- A channel that no driver has taken.
abbrev pub is_free : View → String → Bool
is_free v path = v.exists path && not (v.exists (driver path))

unfoldable pub frpc_checks : View → Frpc → List Check
frpc_checks v f =
    (reads (v.read (rproc_state f.rproc)) "running", "ADSP not running")
    ∷ need (is_free v (rpmsg_device f.rpmsg)) "fastrpc rpmsg channel missing or already bound"
    ∷ need (is_empty (v.glob "/sys/class/misc" "fastrpc*")) "fastrpc device already exists"
    ∷ link_up v f.net
    ∷ []

abbrev pub with_suffix : String → List String → List String
with_suffix suffix xs = select (λ x. str_eq (slice x (len x - len suffix) (len x)) suffix) xs

abbrev pub channels_are : View → Option (List String) → List String → Option Bool
channels_are v none ys = none
channels_are v (some xs) ys = names_are v (some (with_suffix ".IPCRTR.-1.-1" xs)) ys

unfoldable pub qrtr_checks : View → Qrtr → List Check
qrtr_checks v q =
    need (is_free v (rpmsg_device q.soccp_rpmsg)) "SoCCP IPCRTR channel missing or already bound"
    ∷ (
      channels_are v (v.names "/sys/bus/rpmsg/devices") (q.soccp_rpmsg ∷ []),
      "unexpected IPCRTR channel set",
    )
    ∷ (reads (v.read (rproc_state q.soccp_rproc)) "attached", "SoCCP not attached")
    ∷ link_up v q.net
    ∷ []

abbrev pub hci_of : Option Registry → String
hci_of none = ""
hci_of (some r) = r.hci

unfoldable pub blescan_checks : View → String → Bt → List Check
blescan_checks v boot b =
    registered v boot "bt"
    ++ ((
      also (some (str_eq (hci_of (v.registry "bt")) b.hci))
          (names_are v (v.names "/sys/class/bluetooth") (b.hci ∷ [])),
      "hci set changed",
    )
        ∷ link_up v b.net
        ∷ [])

abbrev pub has_drivers : View → Bt → Check
has_drivers v b =
    need
      (str_eq (v.target (driver (devices b.uart))) "msm_geni_serial"
        && str_eq (v.target (driver (devices b.power))) "bt_power")
      "bt-a incomplete"

unfoldable pub bt_b_checks : View → Bt → List Check
bt_b_checks v b =
    has_drivers v b
    ∷ need (not (v.exists "/sys/class/bluetooth")) "/sys/class/bluetooth already exists"
    ∷ link_up v b.net
    ∷ []

unfoldable pub bt_probe_checks : View → Bt → List Check
bt_probe_checks v b =
    has_drivers v b
    ∷ need (v.exists "/sys/class/tty/ttyHS0/dev" && v.exists "/sys/class/bt-dev/btpower/dev")
        "ttyHS0/btpower missing"
    ∷ need (is_empty (v.glob "/sys/class" "bluetooth/hci*")) "an HCI device already exists"
    ∷ link_up v b.net
    ∷ []

-- The unbound consumers of a regulator but for the power device, by the names of their devices.
abbrev pub pending : View → String → String → List String
pending v power sup =
    let left =
      select (λ (c : Consumer). not c.is_bound && not (str_eq c.device power)) (v.consumers sup) in
    v.sorted (map (λ (c : Consumer). c.device) left)

unfoldable pub bt_a_checks : View → Bt → List Check
bt_a_checks v b =
    not_bound v b.uart
    ∷ not_bound v b.power
    ∷ need (is_empty (v.glob "/sys/class/tty" "ttyHS*")) "ttyHS already exists"
    ∷ link_up v b.net
    ∷ need (same_texts (device_names v b.clk_virt) (v.sorted (b.clk_virt_others ++ b.uart ∷ [])))
        "clk_virt consumer set changed"
    ∷ need (not (any (λ d. not (v.is_link (driver (devices d)))) b.clk_virt_others))
        "a reviewed clk_virt consumer is not bound"
    ∷ (reads (v.read (devices b.clk_virt <> "/state_synced")) "0", "clk_virt already synced")
    ∷ map
        (λ r.
          need (same_texts (pending v b.power r) (b.regulators_pending_via ∷ []))
            ("regulator would sync_state: " <> r))
        b.regulators
