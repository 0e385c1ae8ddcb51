-- ===== src/Client/Versions.antt =====
-- client/main.c and client/devices.c: firmware versions, and the firmware files found.
pub mod Order
pub mod Found
use Prim.Native.String.{String}
use fcp_support.Base.{
  ℕ, zero, suc, ◌+◌, List, [], ◌∷◌, ◌++◌, Bool, true, false, not, ◌&&◌, Option, none, some,
}
use fcp_support.Base.{ℤ, pos, negsuc, eqb_ℤ, ltb, ◌==◌, if◌then◌else◌}
use fcp_support.Firmware.{Version, FirmwareContainer}
use fcp_support.Client.{FoundFirmware}

-- A round of the loop of `firmware_cmp`: -1, 1, or the rest.
unfoldable pub cmp_part : ℕ → ℕ → ℤ → ℤ
cmp_part a b rest = if ltb a b then negsuc 0 else if ltb b a then pos 1 else rest

-- `firmware_cmp`
unfoldable pub firmware_cmp : Version → Version → ℤ
unfolding cmp_part
firmware_cmp (a, (b, (c, d))) (e, (f, (g, h))) =
    cmp_part a e (cmp_part b f (cmp_part c g (cmp_part d h (pos 0))))

-- `supported_devices`: the product IDs
abbrev pub supported_devices : List ℕ
supported_devices = 0x821b ∷ 0x821c ∷ 0x821d ∷ []

-- `get_supported_device_by_pid`: the place in the table; NULL is 0, before every place.
unfoldable pub place : ℕ → List ℕ → ℕ → ℕ
place pid [] i = 0
place pid (p ∷ ps) i = let rest = place pid ps (i + 1) in if p == pid then i else rest

unfoldable pub get_supported_device_by_pid : ℕ → ℕ
unfolding place
get_supported_device_by_pid pid = place pid supported_devices 1

-- `VENDOR_VID`
abbrev pub vendor_vid : ℕ
vendor_vid = 0x1235

-- `-x` of a result of a comparison
abbrev pub negated : ℤ → ℤ
negated (pos zero) = pos 0
negated (pos (suc n)) = negsuc n
negated (negsuc n) = pos (suc n)

-- `found_firmware_cmp`: by place in the table, then newest first
unfoldable pub found_firmware_cmp : FoundFirmware → FoundFirmware → ℤ
unfolding cmp_part get_supported_device_by_pid firmware_cmp
found_firmware_cmp x y =
    cmp_part (get_supported_device_by_pid x.firmware.container_pid)
      (get_supported_device_by_pid y.firmware.container_pid)
      (negated (firmware_cmp x.firmware.container_version y.firmware.container_version))

unfoldable pub is_same : FirmwareContainer → FirmwareContainer → Bool
is_same f g =
    (f.container_vid == g.container_vid)
    && (f.container_pid == g.container_pid)
    && eqb_ℤ (firmware_cmp f.container_version g.container_version) (pos 0)

-- "already have this firmware under a different name?"
unfoldable pub is_found : List FoundFirmware → FirmwareContainer → Bool
unfolding is_same
is_found [] f = false
is_found (x ∷ xs) f = let rest = is_found xs f in if is_same x.firmware f then true else rest

-- `add_found_firmware`, on the array `found_firmwares`
unfoldable pub add_found_firmware :
    String → FirmwareContainer → List FoundFirmware → List FoundFirmware
unfolding is_found
add_found_firmware fn f xs =
    if not (f.container_vid == vendor_vid)
    then xs
    else if is_found xs f
    then xs
    else xs ++ record { fn = fn; firmware = f } ∷ []

-- The files that `enum_firmware_dir` could read, in the order of the directory.
unfoldable pub enum_firmware_dir :
    List (String × FirmwareContainer) → List FoundFirmware → List FoundFirmware
unfolding add_found_firmware
enum_firmware_dir [] xs = xs
enum_firmware_dir ((fn, f) ∷ files) xs = enum_firmware_dir files (add_found_firmware fn f xs)

-- `enum_firmwares`; `sort` is `qsort` with `found_firmware_cmp`.
unfoldable pub enum_firmwares :
    (List FoundFirmware → List FoundFirmware)
    → List (String × FirmwareContainer)
    → List FoundFirmware
unfolding enum_firmware_dir
enum_firmwares sort files = sort (enum_firmware_dir files [])

-- `get_latest_firmware`
unfoldable pub get_latest_firmware : ℕ → List FoundFirmware → Option FoundFirmware
get_latest_firmware pid [] = none
get_latest_firmware pid (x ∷ xs) =
    let rest = get_latest_firmware pid xs in
    if x.firmware.container_pid == pid then some x else rest
