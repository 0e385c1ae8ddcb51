-- ===== src/DeviceMap/Config.antt =====
-- server/device-ops.c: the two maps that the controls are built from.
use Prim.Native.String.{String}
use fcp_support.Base.{ℕ, Option, none, some, Hw, Ioctl, pure, fail, enoent, ◌>>=◌}
use fcp_support.Json.{JsonC}
use fcp_support.DeviceMap.{Tools, Loaded, or_else, devmap_read_json}

-- `devmap` and `fam` of the device
pub record Config (Json : Type 0) : Type 0 where
  pub map : Loaded Json
  pub fam : Json

module _ {Json : Type 0} (tools : Tools Json) where
  -- `try_load_json`
  unfoldable pub try_load_json : Option String → String → Option Json
  try_load_json none filename = tools.from_file filename
  try_load_json (some dir) filename = tools.from_file (tools.path dir filename)

  -- The loop of `device_load_config` over the three places.
  unfoldable pub load_fam : String → Option Json
  unfolding try_load_json
  load_fam filename =
      or_else (try_load_json tools.data_dir_env filename)
        (or_else (try_load_json none filename) (try_load_json (some tools.data_dir) filename))

module _ {D : Type 0} (ioctl : Ioctl D) (json : JsonC) (tools : Tools json.Json) where
  abbrev pub with_fam :
      Option json.Json → Option (Loaded json.Json) → Hw D (Option (Config json.Json))
  with_fam fam none = pure none
  with_fam none (some map) = fail enoent
  with_fam (some fam) (some map) = pure (some (record { map = map; fam = fam }))

  -- `device_load_config`; `filename` is "fcp-alsa-map-%04x.json" of a product.
  unfoldable pub device_load_config : (ℕ → String) → ℕ → Hw D (Option (Config json.Json))
  unfolding load_fam devmap_read_json
  device_load_config filename usb_pid =
      devmap_read_json ioctl json tools usb_pid >>= with_fam (load_fam tools (filename usb_pid))
