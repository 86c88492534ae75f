-- ===== src/Loading/Bundle.antt =====
-- The manifest of a bundle for design/nextboot-impl/load-stage.py: a stage carries its part of it.
use Prim.Native.Char.{code}
use Prim.Native.String.{String, ◌++◌ as ◌<>◌}
use text.Mathlib.Text.{◌==◌ as str_eq}
use y700_linux.Prelude.{ℕ, zero, suc, ◌-◌, not, Option, some, List, ◌==◌, if◌then◌else◌}
use y700_linux.Loading.{View, Check, also, reads}

-- A file and its SHA-256.
abbrev pub File : Type 0
File = String × String

pub record Wifi : Type 0 where
  pub firmware : List File
  pub net : Option String
  pub guard_suppliers : List String
  pub pcie_only_suppliers : List (String × List String)
  pub wcal : String
  pub pcie : String
  pub cnss : String

pub record Adc : Type 0 where
  pub vadc : String
  pub zones : List String
  pub net : Option String

pub record Frpc : Type 0 where
  pub rpmsg : String
  pub rproc : String
  pub net : Option String

pub record Sound : Type 0 where
  pub rproc : String
  pub sound : String
  pub extdisp_codec : String
  pub btswr : String
  pub lpi : String
  pub gpr_rpmsg : String
  pub amps : List String
  pub firmware_install : List File
  pub net : Option String

pub record Qrtr : Type 0 where
  pub soccp_rpmsg : String
  pub soccp_rproc : String
  pub net : Option String

pub record Bt : Type 0 where
  pub hci : String
  pub uart : String
  pub power : String
  pub clk_virt : String
  pub clk_virt_others : List String
  pub regulators : List String
  pub regulators_pending_via : String
  pub net : Option String

pub record Panel : Type 0 where
  pub firmware : List File
  pub spi_controller : String
  pub must_keep_pending : List String

-- gpu_view: the drivers of the three devices, and whether the clocks are synced.
pub record GpuView : Type 0 where
  pub drivers : List (Option String)
  pub synced : String

pub record Gpu : Type 0 where
  pub firmware : List File
  pub expected_before : GpuView
  pub must_keep_pending : List String

pub data Stage : Type 0 where
  pstore display : Stage
  wifi_a wifi_b : Wifi → Stage
  adc : Adc → Stage
  frpc : Frpc → Stage
  audio_d1 audio_d2 audio_d3 audio_d4 audio_d5 : Sound → Stage
  audio_c4 audio_c3 audio_c2 audio_c1 audio_c : Sound → Stage
  qrtr_smd : Qrtr → Stage
  blescan bt_b bt_probe bt_a : Bt → Stage
  touch : Panel → Stage
  gpu : Gpu → Stage

pub record Manifest : Type 0 where
  pub stage : Stage
  pub boot_id : String
  pub kernel : String
  pub root : String
  pub files : List File
  -- The files that are loaded.
  pub load_order : List String
  pub requires_live : List String
  pub module_notes : List (String × String)
  pub module_names : List String

text_size : String → ℕ
text_size String.[] = 0
text_size (String.◌∷◌ c s) = suc (text_size s)

cut_text : ℕ → String → String
cut_text zero s = String.[]
cut_text (suc n) String.[] = String.[]
cut_text (suc n) (String.◌∷◌ c s) = String.◌∷◌ c (cut_text n s)

underscored : String → String
underscored String.[] = String.[]
underscored (String.◌∷◌ c s) = String.◌∷◌ (if code c == 45 then "_" else c) (underscored s)

-- f[:-3].replace('-', '_')
unfoldable pub module_name : String → String
unfolding text_size cut_text underscored
module_name f = underscored (cut_text (text_size f - 3) f)

abbrev pub file_ok : View → File → Check
file_ok v f = (
  also (some (str_eq (v.base_name f.0) f.0)) (reads (v.digest (v.bundle <> "/" <> f.0)) f.1),
  "bundle changed: " <> f.0,
)

-- A regular file that is no link and has its digest.
abbrev pub firmware_ok : View → String → String → File → Check
firmware_ok v message path f = (
  also (some (v.is_file path)) (also (some (not (v.is_link path))) (reads (v.digest path) f.1)),
  message <> f.0,
)
