-- ===== src/Client.antt =====
-- client/main.c, client/devices.c and client/data-cmd.c: the program fcp-tool. Versions orders the
-- firmware files found, Messages reads what the server sends, Send sends requests, Update decides what
-- to send, Data is the command for the device's data space, Args reads the command line, Main selects the
-- card and the command, Cards lists the cards, Replugged waits for the card after a reboot.
pub mod Versions
pub mod Messages
pub mod Send
pub mod Update
pub mod Data
pub mod Args
pub mod Replugged
pub mod Main
pub mod Cards
use Prim.Native.String.{String}
use fcp_support.Base.{ℕ, List, Bool, Option, ℤ}
use fcp_support.Firmware.{FirmwareContainer, Version}

-- `struct found_firmware`
pub record FoundFirmware : Type 0 where
  pub fn : String
  pub firmware : FirmwareContainer

-- `struct sound_card`, without what is only printed
pub record SoundCard : Type 0 where
  pub card_num : ℕ
  pub usb_vid : ℕ
  pub usb_pid : ℕ
  pub serial : String
  pub socket_path : Option String
  pub firmware_version : Version
  pub esp_firmware_version : Version

-- What `read` on the socket meets: EAGAIN or EINTR, an error, the end, or up to so many bytes.
pub data ReadEvent : Type 0 where
  again failed eof : ReadEvent
  got : ℕ → ReadEvent

-- What `select` gives: interrupted, an error, no message in time, a message.
pub data Selected : Type 0 where
  interrupted broken nothing message : Selected

-- A turn of the loop that waits for the server: the time at its start, what `select` gives, and the time
-- once a message was handled, in seconds.
pub record Turn : Type 0 where
  pub now : ℕ
  pub selected : Selected
  pub after : ℕ

-- A wait for the server's answer: the time at its start, and the turns of the loop.
pub record Wait : Type 0 where
  pub start : ℕ
  pub turns : List Turn

-- What the user is shown.
pub data Shown : Type 0 where
  percent : ℕ → Shown
  error : ℤ → Shown
  success invalid : Shown

-- The connection to the server. `writes` are the bytes that the next calls of `write` take at most;
-- after them a call takes all.
pub record Connection : Type 0 where
  pub sent : List ℕ
  pub writes : List ℕ
  pub stream : List ℕ
  pub reads : List ReadEvent
  pub waits : List Wait
  pub showing_progress : Bool
  pub shown : List Shown
  pub data_response : Option (List ℕ)
