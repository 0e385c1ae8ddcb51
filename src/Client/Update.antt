-- ===== src/Client/Update.antt =====
-- client/main.c: which firmware is sent to a card, and in which order.
pub mod Sections
pub mod Single
use fcp_support.Base.{
  ℕ, List, [], ◌∷◌, ◌++◌, Bool, true, false, not, ◌&&◌, ◌||◌, Option, none, some,
}
use fcp_support.Base.{ℤ, pos, negsuc, eqb_ℤ, leb, ltb_ℤ, ◌==◌, if◌then◌else◌}
use fcp_support.Protocol.{request_reboot, request_app_firmware_erase}
use Prim.Native.String.{String}
use fcp_support.Firmware.{
  Firmware, FirmwareType, FirmwareContainer, Version, container, app, esp, leapfrog,
}
use fcp_support.Firmware.{Parse, done, failed, undefined, read_firmware_file, read_firmware_header}
use fcp_support.Client.{Connection, SoundCard, FoundFirmware}
use fcp_support.Client.Versions.{firmware_cmp, get_latest_firmware}
use fcp_support.Client.Replugged.{Poll, Look, wait_for_device, wait_for_disconnect}
use fcp_support.Client.Send.{send_simple_command, send_firmware}

-- What a reboot meets: the wait for the server's end, from a time on, the wait for the card, from a time
-- on, and the new connection (client/wait.c, client/alsa.c).
pub record Replug : Type 0 where
  pub rebooted : ℕ
  pub looks : List Look
  pub gone : ℕ
  pub polls : List Poll
  pub connects : Option Connection

-- The selected card, its connection, and those that were closed.
pub record Session : Type 0 where
  pub card : SoundCard
  pub connection : Connection
  pub closed : List Connection
  pub replugs : List Replug

abbrev pub is_type : FirmwareType → FirmwareType → Bool
is_type container container = true
is_type app app = true
is_type esp esp = true
is_type leapfrog leapfrog = true
is_type container app = false
is_type container esp = false
is_type container leapfrog = false
is_type app container = false
is_type app esp = false
is_type app leapfrog = false
is_type esp container = false
is_type esp app = false
is_type esp leapfrog = false
is_type leapfrog container = false
is_type leapfrog app = false
is_type leapfrog esp = false

-- `find_firmware_by_type`, in the sections of the selected firmware
unfoldable pub find_firmware_by_type : FirmwareType → List Firmware → Option Firmware
find_firmware_by_type t [] = none
find_firmware_by_type t (f ∷ fs) =
    let rest = find_firmware_by_type t fs in if is_type f.firmware_type t then some f else rest

abbrev pub on_connection : (Connection → Option ℤ × Connection) → Session → Option ℤ × Session
on_connection m s = let (r, c) = m s.connection in (r, record s { connection = c })

-- `if (result != 0) return result;`
abbrev pub when_zero : (Session → Option ℤ × Session) → Option ℤ × Session → Option ℤ × Session
when_zero next (none, s) = (none, s)
when_zero next (some r, s) = if eqb_ℤ r (pos 0) then next s else (some r, s)

abbrev pub send_found : Option Firmware → Session → Option ℤ × Session
send_found none s = (some (negsuc 0), s)
send_found (some fw) s = on_connection (send_firmware fw) s

-- `send_firmware_of_type`
unfoldable pub send_firmware_of_type : FirmwareType → List Firmware → Session → Option ℤ × Session
unfolding find_firmware_by_type
send_firmware_of_type t sections s = send_found (find_firmware_by_type t sections) s

-- `erase_and_upload`
unfoldable pub erase_and_upload : FirmwareType → List Firmware → Session → Option ℤ × Session
unfolding send_firmware_of_type
erase_and_upload t sections s =
    if is_type t esp
    then send_firmware_of_type t sections s
    else when_zero (send_firmware_of_type t sections)
        (on_connection (send_simple_command request_app_firmware_erase false) s)

abbrev pub reconnected : Session → Option Connection → Option ℤ × Session
reconnected s none = (some (negsuc 0), s)
reconnected s (some c) =
    (some (pos 0), record s { connection = c; closed = s.closed ++ s.connection ∷ [] })

abbrev pub reappeared : Session → Replug → Option (Option SoundCard) → Option ℤ × Session
reappeared s r none = (none, s)
reappeared s r (some none) = (some (negsuc 0), s)
reappeared s r (some (some card)) = reconnected (record s { card = card }) r.connects

abbrev pub disconnected : Session → Replug → Option ℤ → Option ℤ × Session
disconnected s r none = (none, s)
disconnected s r (some e) =
    if eqb_ℤ e (pos 0)
    then reappeared s r (wait_for_device s.card.serial 20 r.gone r.polls)
    else (some (negsuc 0), s)

abbrev pub replugged : List Replug → Session → Option ℤ × Session
replugged [] s = (none, s)
replugged (r ∷ rs) s =
    disconnected (record s { replugs = rs }) r (wait_for_disconnect r.rebooted r.looks)

-- `reboot_and_wait`
unfoldable pub reboot_and_wait : Session → Option ℤ × Session
unfolding wait_for_device wait_for_disconnect
reboot_and_wait s =
    when_zero (λ t. replugged t.replugs t)
      (on_connection (send_simple_command request_reboot true) s)

-- `memcmp(...) == 0` of two versions
unfoldable pub same_version : Version → Version → Bool
same_version (a, (b, (c, d))) (e, (f, (g, h))) = (a == e) && (b == f) && (c == g) && (d == h)

-- Whether a section that is there has another version.
unfoldable pub differs : Version → Option Firmware → Bool
unfolding same_version
differs v none = false
differs v (some f) = not (same_version v f.firmware_version)

unfoldable pub need_esp : SoundCard → List Firmware → Bool
unfolding differs find_firmware_by_type
need_esp card sections = differs card.esp_firmware_version (find_firmware_by_type esp sections)

-- Leapfrog firmware is only needed to update the ESP.
unfoldable pub need_leapfrog : SoundCard → List Firmware → Bool
unfolding need_esp
need_leapfrog card sections =
    need_esp card sections
    && differs card.firmware_version (find_firmware_by_type leapfrog sections)

-- Whether the loop goes past a section.
abbrev pub skipped : Bool → Bool → FirmwareType → Bool
skipped with_leapfrog with_esp leapfrog = not with_leapfrog
skipped with_leapfrog with_esp esp = not with_esp
skipped with_leapfrog with_esp app = false
skipped with_leapfrog with_esp container = false

-- The body of the loop, on a section that is needed.
unfoldable pub upload_section : FirmwareType → List Firmware → Session → Option ℤ × Session
unfolding erase_and_upload reboot_and_wait
upload_section t sections s =
    when_zero (λ u. if is_type t esp then (some (pos 0), u) else reboot_and_wait u)
      (erase_and_upload t sections s)

-- The loop of `update` over the sections that are left.
unfoldable pub upload_sections :
    Bool → Bool → List Firmware → List Firmware → Session → Option ℤ × Session
unfolding upload_section
upload_sections with_leapfrog with_esp sections [] s = (some (pos 0), s)
upload_sections with_leapfrog with_esp sections (f ∷ fs) s =
    let rest = upload_sections with_leapfrog with_esp sections fs in
    if skipped with_leapfrog with_esp f.firmware_type
    then rest s
    else when_zero rest (upload_section f.firmware_type sections s)

-- `update`, with the sections of the selected firmware
unfoldable pub update : List Firmware → Session → Option ℤ × Session
unfolding need_leapfrog upload_sections
update sections s =
    upload_sections (need_leapfrog s.card sections) (need_esp s.card sections) sections sections s

-- What `check_firmware_selection` comes to; each but `chosen` ends the program.
pub data Selection : Type 0 where
  no_firmware up_to_date unreadable other_device undefined_read : Selection
  chosen : FirmwareContainer → Selection

-- From the reading of the file on.
unfoldable pub check_pid : SoundCard → Parse FirmwareContainer → Selection
check_pid card failed = unreadable
check_pid card undefined = undefined_read
check_pid card (done f) = if f.container_pid == card.usb_pid then chosen f else other_device

module _ (sha md5_of : List ℕ → List ℕ) (files : String → Option (List ℕ)) where
  -- `read_firmware_file` and `read_firmware_header` of a name
  abbrev pub of_file :
      (List ℕ → Parse FirmwareContainer) → Option (List ℕ) → Parse FirmwareContainer
  of_file read none = failed
  of_file read (some bytes) = read bytes

  abbrev pub read_named : String → Parse FirmwareContainer
  read_named fn = of_file (read_firmware_file sha md5_of) (files fn)

  abbrev pub check_newer : SoundCard → Option FoundFirmware → Selection
  check_newer card none = no_firmware
  check_newer card (some x) =
      if ltb_ℤ (firmware_cmp card.firmware_version x.firmware.container_version) (pos 0)
      then check_pid card (read_named x.fn)
      else up_to_date

  abbrev pub check_named : SoundCard → String → Parse FirmwareContainer → Selection
  check_named card fn failed = unreadable
  check_named card fn undefined = undefined_read
  check_named card fn (done f) = check_pid card (read_named fn)

  -- `check_firmware_selection`: the file named on the command line, or the latest that was found.
  unfoldable pub check_firmware_selection :
      SoundCard → List FoundFirmware → Option String → Selection
  unfolding check_pid
  check_firmware_selection card found none =
      check_newer card (get_latest_firmware card.usb_pid found)
  check_firmware_selection card found (some fn) =
      check_named card fn (of_file (read_firmware_header) (files fn))
