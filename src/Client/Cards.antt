-- ===== src/Client/Cards.antt =====
-- client/alsa.c: the cards that the program works with, and the addresses of their servers.
pub mod Ours
use Prim.Native.String.{String}
use fcp_support.Base.{
  ℕ, zero, suc, ◌%◌, ◌^◌, List, [], ◌∷◌, Bool, true, false, ◌&&◌, Option, none, some, ◌==◌, leb,
  length, take, if◌then◌else◌,
}
use fcp_support.Base.Options.{◌>>=◌}
use fcp_support.Firmware.{Version}
use fcp_support.Client.{SoundCard}
use fcp_support.Client.Versions.{get_supported_device_by_pid, vendor_vid}

-- A control element of a card, as ALSA gives it: the first word of its TLV data with the text behind the
-- second, and its values as 64-bit words, if they can be read.
pub record Element : Type 0 where
  pub is_user : Bool
  pub is_locked : Bool
  pub is_tlv_readable : Bool
  pub tlv : Option (ℕ × String)
  pub count : ℕ
  pub is_integer : Bool
  pub values : Option (ℕ → ℕ)

-- A card, as the system gives it: its number, the bytes of its usbid file, what `get_device_serial` gives,
-- and its control's elements by name, if the control can be opened.
pub record AlsaCard : Type 0 where
  pub card_num : ℕ
  pub usbid : Option (List ℕ)
  pub device_serial : Option String
  pub control : Option (String → Option Element)

abbrev tlv_path : Option (ℕ × String) → Option String
tlv_path none = none
tlv_path (some (tag, path)) = if tag == 0x53434b54 then some path else none

abbrev socket_of : Option Element → Option String
socket_of none = none
socket_of (some e) = if e.is_user && e.is_locked && e.is_tlv_readable then tlv_path e.tlv else none

-- `get_socket_path`
unfoldable pub get_socket_path : (String → Option Element) → Option String
get_socket_path ctl = socket_of (ctl "Firmware Version")

abbrev no_version : Version
no_version = (0, (0, (0, 0)))

abbrev values_of : Option (ℕ → ℕ) → Version
values_of none = no_version
values_of (some v) = (v 0 % 2 ^ 32, (v 1 % 2 ^ 32, (v 2 % 2 ^ 32, v 3 % 2 ^ 32)))

abbrev version_of : Option Element → Version
version_of none = no_version
version_of (some e) = if (e.count == 4) && e.is_integer then values_of e.values else no_version

-- `get_firmware_version`
unfoldable pub get_firmware_version : (String → Option Element) → String → Version
get_firmware_version ctl name = version_of (ctl name)

abbrev pub of_vendor : Option (ℕ × ℕ) → Option (ℕ × ℕ)
of_vendor none = none
of_vendor (some (vid, pid)) = if vid == vendor_vid then some (vid, pid) else none

-- The test of `enum_cards` on the product
abbrev pub supported : Option (ℕ × ℕ) → Option (ℕ × ℕ)
supported none = none
supported (some (vid, pid)) =
    if get_supported_device_by_pid (pid % 2 ^ 16) == 0 then none else some (vid, pid)

abbrev pub added : Option SoundCard → List SoundCard → List SoundCard
added none cards = cards
added (some c) cards = c ∷ cards

-- `scan`: the two numbers of a usbid file, as `sscanf` reads them.
module _ (scan : List ℕ → Option (ℕ × ℕ)) where
  abbrev pub scanned : List ℕ → Option (ℕ × ℕ)
  scanned bytes = if leb 10 (length bytes) then scan (take 10 bytes) else none

  abbrev pub of_usbid : Option (List ℕ) → Option (ℕ × ℕ)
  of_usbid none = none
  of_usbid (some bytes) = of_vendor (scanned bytes)

  -- `get_usb_id`
  unfoldable pub get_usb_id : AlsaCard → Option (ℕ × ℕ)
  get_usb_id a = of_usbid a.usbid

  -- The body of the loop of `enum_cards`; `none` goes to the next card.
  unfoldable pub add_card : AlsaCard → Option SoundCard
  unfolding get_usb_id get_socket_path get_firmware_version get_supported_device_by_pid
  add_card a = do
    (vid, pid) ← supported (get_usb_id a)
    serial ← a.device_serial
    ctl ← a.control
    path ← get_socket_path ctl
    some (record {
      card_num = a.card_num;
      usb_vid = vid;
      usb_pid = pid;
      serial = serial;
      socket_path = some path;
      firmware_version = get_firmware_version ctl "Firmware Version";
      esp_firmware_version = get_firmware_version ctl "ESP Firmware Version";
    })

  -- `enum_cards`, over the cards that `snd_card_next` gives
  unfoldable pub enum_cards : List AlsaCard → List SoundCard
  unfolding add_card
  enum_cards [] = []
  enum_cards (a ∷ rest) = added (add_card a) (enum_cards rest)
