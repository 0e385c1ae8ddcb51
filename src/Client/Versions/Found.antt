-- ===== src/Client/Versions/Found.antt =====
-- client/main.c: the firmware files found have no duplicates.
use Prim.Native.String.{String}
use fcp_support.Base.{List, [], ◌∷◌, ◌++◌, All, true, false, Bool-cases, if_true, if_false, ◌==◌}
use fcp_support.Base.{◌≡◌, arith, sym, ◌∙◌, inl, inr, ==_iff}
use fcp_support.Firmware.{FirmwareContainer}
use fcp_support.Client.{FoundFirmware}
use fcp_support.Client.Versions.Order.{firmware_cmp-IsOrder}
use fcp_support.Client.Versions.{
  is_same, is_found, add_found_firmware, enum_firmware_dir, vendor_vid,
}

-- Two entries for different products, or with different versions.
abbrev pub IsOther : FoundFirmware → FoundFirmware → Type 0
IsOther x y = ¬ (
    (x.firmware.container_pid ≡ y.firmware.container_pid)
    × (x.firmware.container_version ≡ y.firmware.container_version))

-- All entries are of the vendor, and no two have the same product and version.
unfoldable pub IsDistinct : List FoundFirmware → Type 0
IsDistinct [] = Unit {0}
IsDistinct (x ∷ xs) = (x.firmware.container_vid ≡ vendor_vid) × (All (IsOther x) xs × IsDistinct xs)

All-append :
    (P : FoundFirmware → Type 0) (xs : List FoundFirmware) (y : FoundFirmware)
    → All P xs
    → P y
    → All P (xs ++ y ∷ [])
All-append P [] y u p = (p, tt)
All-append P (x ∷ xs) y (q, qs) p = (q, All-append P xs y qs p)

-- What the code's comparison tells apart is of another product or version, within the vendor.
is_same-IsOther :
    (x y : FoundFirmware)
    → x.firmware.container_vid ≡ vendor_vid
    → y.firmware.container_vid ≡ vendor_vid
    → is_same x.firmware y.firmware ≡ false
    → IsOther x y
unfolding is_same
is_same-IsOther x y v w other (pid, version) =
    let level =
      (firmware_cmp-IsOrder.same x.firmware.container_version y.firmware.container_version).1
        version in
    ground (arith, v, w, pid, level, other)

is_found-append :
    (xs : List FoundFirmware) (y : FoundFirmware)
    → y.firmware.container_vid ≡ vendor_vid
    → is_found xs y.firmware ≡ false
    → IsDistinct xs
    → IsDistinct (xs ++ y ∷ [])
unfolding is_found IsDistinct
is_found-append [] y v h d = (v, (tt, tt))
is_found-append (x ∷ xs) y v h (w, (first, d)) = elim (Bool-cases (is_same x.firmware y.firmware)) [
  | inl same ↦
      absurd (cc (if_true (is_same x.firmware y.firmware) true (is_found xs y.firmware) same, h))
  | inr other ↦ (
    w,
    (
      All-append (IsOther x) xs y first (is_same-IsOther x y w v other),
      is_found-append xs y v
          (sym (if_false (is_same x.firmware y.firmware) true (is_found xs y.firmware) other) ∙ h)
          d,
    ),
  )
]

add_found_firmware-IsDistinct :
    (fn : String) (f : FirmwareContainer) (xs : List FoundFirmware)
    → IsDistinct xs
    → IsDistinct (add_found_firmware fn f xs)
unfolding add_found_firmware
add_found_firmware-IsDistinct fn f xs d = elim (Bool-cases (f.container_vid == vendor_vid)) [
  | inr other ↦ rw other d
  | inl vendor ↦ elim (Bool-cases (is_found xs f)) [
    | inl known ↦ rw (vendor, known) d
    | inr new ↦
        rw (vendor, new)
          (is_found-append xs (record { fn = fn; firmware = f }) ((==_iff _ _).0 vendor) new d)
  ]
]

-- Whatever files the directory has, the firmware found is all of the vendor, and no two entries have the
-- same product and version.
pub enum_firmware_dir-IsDistinct :
    (files : List (String × FirmwareContainer)) (xs : List FoundFirmware)
    → IsDistinct xs
    → IsDistinct (enum_firmware_dir files xs)
unfolding enum_firmware_dir
enum_firmware_dir-IsDistinct [] xs d = d
enum_firmware_dir-IsDistinct ((fn, f) ∷ files) xs d =
    enum_firmware_dir-IsDistinct files (add_found_firmware fn f xs)
      (add_found_firmware-IsDistinct fn f xs d)
