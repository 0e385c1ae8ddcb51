-- ===== src/DeviceMap.antt =====
-- server/fcp-devmap.c: the device map, from a file or from the device. The formatting of names, base64, zlib
-- and the parser of json-c are parameters.
pub mod Config
use Prim.Native.String.{String}
use text.Mathlib.Text.{◌==◌ as str_eq}
use fcp_support.Base.{
  ℕ, ◌*◌, List, [], ◌∷◌, true, false, Option, none, some, ℤ, to_unsigned, leb, ltb, length, Res, ok,
  err, Hw, Ioctl, pure, fail, fail_if, continue, einval, ◌>>=◌, ◌>>◌, if◌then◌else◌,
}
use fcp_support.Json.{JsonC}
use fcp_support.Fcp.Data.{data_read}
use fcp_support.Fcp.Devmap.{devmap_read}

-- What the code calls, and what it finds: FCP_SERVER_DATA_DIR, DATADIR, the files.
pub record Tools (Json : Type 0) : Type 0 where
  pub data_dir_env : Option String
  pub data_dir : String
  -- the names "fcp-devmap-%04x.json" of a product, and "%s/%s" of a directory and a name
  pub filename : ℕ → String
  pub path : String → String → String
  -- `json_object_from_file`, `json_tokener_parse`
  pub from_file : String → Option Json
  pub parse : List ℕ → Option Json
  -- the decoded bytes of `EVP_DecodeUpdate` and `EVP_DecodeFinal`, and those of `inflate` if it ends the
  -- stream with so much room
  pub decode : List ℕ → List ℕ
  pub inflate : List ℕ → ℕ → Option (List ℕ)

-- The map, and what is written to the file for debugging: the version that is in its name, and the text.
pub record Loaded (Json : Type 0) : Type 0 where
  pub devmap : Json
  pub saved : Option (ℕ × List ℕ)

abbrev pub or_else : {A : Type 0} → Option A → Option A → Option A
or_else none b = b
or_else (some a) b = some a

module _ {Json : Type 0} (tools : Tools Json) where
  -- `try_load_devmap_json`
  unfoldable pub try_load_devmap_json : Option String → String → Option Json
  try_load_devmap_json none filename = tools.from_file filename
  try_load_devmap_json (some dir) filename = tools.from_file (tools.path dir filename)

  -- `fcp_devmap_read_from_file`: the first of the places that has the file; `none` is -ENOENT.
  unfoldable pub devmap_read_from_file : ℕ → Option Json
  unfolding try_load_devmap_json
  devmap_read_from_file usb_pid =
      or_else (try_load_devmap_json tools.data_dir_env (tools.filename usb_pid)) (
        or_else (try_load_devmap_json none (tools.filename usb_pid))
          (try_load_devmap_json (some tools.data_dir) (tools.filename usb_pid)))

module _ {D : Type 0} where
  -- `return -EINVAL` without a result
  abbrev pub or_einval : {A : Type 0} → Option A → Hw D A
  or_einval none = fail einval
  or_einval (some a) = pure a

  abbrev pub version_of : Res ℤ × D → Res ℕ × D
  version_of (ok v, d) = (ok (to_unsigned 32 v), d)
  version_of (err e, d) = (ok 0, d)

module _ {D : Type 0} (ioctl : Ioctl D) (json : JsonC) (tools : Tools json.Json) where
  abbrev pub member : Option json.Json → String → Option json.Json
  member none key = none
  member (some j) key = json.get_ex j key

  abbrev pub read_version : Option json.Json → Option json.Json → Hw D ℕ
  read_version none type = pure 0
  read_version (some offset) none = pure 0
  read_version (some offset) (some type) =
      if str_eq (json.get_string type) "uint32"
      then (λ d. version_of (data_read ioctl (to_unsigned 32 (json.get_int offset)) 4 false d))
      else pure 0

  -- `firmware_version` of `fcp_devmap_read_from_device`: 0 if the map or the device do not tell it.
  unfoldable pub firmware_version : json.Json → Hw D ℕ
  firmware_version map =
      let version =
        member (member (member (member (some map) "structs") "APP_SPACE") "members")
          "versionStageRelease" in
      read_version (member version "offset") (member version "type")

  abbrev pub parsed : List ℕ → Hw D (Option (Loaded json.Json))
  parsed text = do
    map ← or_einval (tools.parse text)
    version ← firmware_version map
    pure (some (record { devmap = map; saved = some (version, text) }))

  -- What follows the reading of the encoded map. The text is inflated into `json_buf`, with `room` bytes, and
  -- the zero behind a text of `room` bytes is written outside the buffer.
  abbrev pub loaded : List ℕ → Hw D (Option (Loaded json.Json))
  loaded encoded = do
    let decoded = tools.decode encoded
    let room = length decoded * 16
    fail_if (leb (length decoded) 0) einval
    text ← or_einval (tools.inflate decoded room)
    if ltb (length text) room then parsed text else pure none

  -- `fcp_devmap_read_from_device`; `none` is a write outside a buffer, which C does not define.
  unfoldable pub devmap_read_from_device : Hw D (Option (Loaded json.Json))
  unfolding devmap_read firmware_version
  devmap_read_from_device = devmap_read ioctl >>= loaded

  abbrev pub or_device : Option json.Json → Hw D (Option (Loaded json.Json))
  or_device (some map) = pure (some (record { devmap = map; saved = none }))
  or_device none = devmap_read_from_device

  -- `fcp_devmap_read_json`
  unfoldable pub devmap_read_json : ℕ → Hw D (Option (Loaded json.Json))
  unfolding devmap_read_from_file devmap_read_from_device
  devmap_read_json usb_pid = or_device (devmap_read_from_file tools usb_pid)
