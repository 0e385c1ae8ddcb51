-- ===== src/Client/Update/Sections.antt =====
-- client/main.c: which sections of a firmware file an update sends.
use fcp_support.Base.{List, [], ◌∷◌, Bool, true, if◌then◌else◌, Option, pos, ℤ, some}
use fcp_support.Firmware.{Firmware, FirmwareType, container, app, esp, leapfrog}
use fcp_support.Client.Update.{Session, upload_section, when_zero}

-- Whether a section is sent: Leapfrog and ESP firmware if asked for, and the others always.
abbrev pub is_needed : Bool → Bool → FirmwareType → Bool
is_needed with_leapfrog with_esp app = true
is_needed with_leapfrog with_esp container = true
is_needed with_leapfrog with_esp esp = with_esp
is_needed with_leapfrog with_esp leapfrog = with_leapfrog

unfoldable pub needed_sections : Bool → Bool → List Firmware → List Firmware
needed_sections l e [] = []
needed_sections l e (f ∷ fs) =
    let rest = needed_sections l e fs in if is_needed l e f.firmware_type then f ∷ rest else rest

-- Every section in turn, up to the first failure.
unfoldable pub upload_each : List Firmware → List Firmware → Session → Option ℤ × Session
upload_each sections [] s = (some (pos 0), s)
upload_each sections (f ∷ fs) s =
    when_zero (upload_each sections fs) (upload_section f.firmware_type sections s)

abbrev Rest : Type 0
Rest = Session → Option ℤ × Session
