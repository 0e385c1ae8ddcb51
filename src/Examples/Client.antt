-- ===== src/Examples/Client.antt =====
-- client/main.c at concrete versions, messages and files.
use Prim.Native.String.{String}
use fcp_support.Base.{
  ℕ, List, [], ◌∷◌, ◌++◌, All, Option, none, some, ◌≡◌, ◌≢◌, refl, arith, pos, negsuc, true, false,
  replicate,
}
use fcp_support.Firmware.{
  Firmware, FirmwareType, FirmwareContainer, esp, app, leapfrog, magic_of, read_magic,
  firmware_type_from_magic,
}
use fcp_support.Protocol.{effect_bytes, error_message, response_bytes, response_data}
use fcp_support.Client.{FoundFirmware, SoundCard, Connection, ReadEvent, got, again, eof, error}
use fcp_support.Client.Versions.{
  found_firmware_cmp, cmp_part, firmware_cmp, get_latest_firmware, enum_firmware_dir, vendor_vid,
}
use fcp_support.Client.Versions.Order.{IsSorted, IsAsNew, get_latest_firmware-newest}
use fcp_support.Client.Versions.Found.{IsDistinct, enum_firmware_dir-IsDistinct}
use fcp_support.Client.Messages.{handle_server_message, switch_type}
use fcp_support.Client.Messages.Decoded.{IsGood, handle_server_message-response}
use fcp_support.Client.Messages.Outcome.{handle_server_message-error, handle_server_message-cut_off}
use fcp_support.Client.Update.{Session, chosen, check_firmware_selection}
use fcp_support.Client.Update.Single.{check_firmware_selection-single}

abbrev of_version : ℕ → FirmwareContainer
of_version n = record {
  container_vid = vendor_vid;
  container_pid = 0x821b;
  container_version = (2, (0, (0, n)));
  num_sections = 1;
  sections = [];
}

abbrev new : FoundFirmware
new = record { fn = "new.bin"; firmware = of_version 9 }

abbrev old : FoundFirmware
old = record { fn = "old.bin"; firmware = of_version 4 }

get_latest_firmware-newest_example :
    (new.firmware.container_pid ≡ 0x821b) × All (IsAsNew 0x821b new) (new ∷ old ∷ [])
unfolding IsSorted get_latest_firmware found_firmware_cmp cmp_part firmware_cmp
get_latest_firmware-newest_example =
    get_latest_firmware-newest 0x821b (new ∷ old ∷ []) new ((refl, tt), (tt, tt)) refl

abbrev files : List (String × FirmwareContainer)
files = ("a.bin", of_version 4) ∷ ("copy of a.bin", of_version 4) ∷ ("b.bin", of_version 9) ∷ []

enum_firmware_dir-IsDistinct_example : IsDistinct (enum_firmware_dir files [])
unfolding IsDistinct
enum_firmware_dir-IsDistinct_example = enum_firmware_dir-IsDistinct files [] tt

abbrev talking : List ℕ → List ReadEvent → Connection
talking stream reads = record {
  sent = [];
  writes = [];
  stream = stream;
  reads = reads;
  waits = [];
  showing_progress = false;
  shown = [];
  data_response = none;
}

abbrev reads : List ReadEvent
reads = got 1 ∷ again ∷ got 3 ∷ got 1 ∷ got 1 ∷ got 9 ∷ got 9 ∷ got 9 ∷ got 9 ∷ []

reads-IsGood : All IsGood reads
reads-IsGood = (
  omega arith,
  (
    tt,
    (
      omega arith,
      (omega arith, (omega arith, (omega arith, (omega arith, (omega arith, (omega arith, tt)))))),
    ),
  ),
)

abbrev answering : Connection
answering = talking (response_bytes response_data (5 ∷ 6 ∷ []) ++ 0x73 ∷ []) reads

handle_server_message-response_example :
    (left : List ReadEvent) × (handle_server_message true answering ≡ (
      let (r, d) =
        switch_type true response_data
          (5 ∷ 6 ∷ [])
          (record (answering) { stream = 0x73 ∷ []; reads = left }) in
      (some r, d)))
handle_server_message-response_example =
    handle_server_message-response true response_data (5 ∷ 6 ∷ []) (0x73 ∷ []) answering
      (omega arith) (omega arith) refl reads-IsGood (omega arith)

abbrev refused : Connection
refused = talking (effect_bytes (error_message (pos 5)) ++ []) reads

handle_server_message-error_example :
    (left : List ReadEvent) × (handle_server_message true refused ≡ (
      some (negsuc 0),
      record (refused) { stream = []; reads = left; shown = error (pos 5) ∷ [] },
    ))
handle_server_message-error_example =
    handle_server_message-error true 5 [] refused (omega arith) refl reads-IsGood (omega arith)

abbrev abandoned : Connection
abandoned = talking (0x73 ∷ 1 ∷ []) (got 6 ∷ eof ∷ [])

handle_server_message-cut_off_example : (handle_server_message false abandoned).0 ≡ some (pos 0)
handle_server_message-cut_off_example =
    handle_server_message-cut_off false (got 6 ∷ []) [] abandoned refl (omega arith, tt)
      (omega arith)

abbrev section : FirmwareType → ℕ → Firmware
section t n = record {
  firmware_type = t;
  usb_vid = vendor_vid;
  usb_pid = 0x821b;
  firmware_version = (2, (0, (0, n)));
  firmware_length = 1;
  sha256 = replicate 32 0;
  md5 = replicate 16 0;
  firmware_data = 7 ∷ [];
}

abbrev card : SoundCard
card = record {
  card_num = 0;
  usb_vid = vendor_vid;
  serial = "S1";
  socket_path = none;
  usb_pid = 0x821b;
  firmware_version = (2, (0, (0, 4)));
  esp_firmware_version = (2, (0, (0, 3)));
}

abbrev session : Session
session = record { card = card; connection = talking [] []; closed = []; replugs = [] }

abbrev sections : List Firmware
sections = section leapfrog 8 ∷ section esp 3 ∷ section app 9 ∷ []

abbrev app_file : List ℕ
app_file = magic_of app ++ replicate 60 0

abbrev directory : String → Option (List ℕ)
directory fn = some app_file

check_firmware_selection-single_example :
    check_firmware_selection
      (λ bs. replicate 32 0)
      (λ bs. replicate 16 0)
      directory
      card
      []
      (some "app.bin")
    ≢ chosen (of_version 9)
unfolding read_magic firmware_type_from_magic
check_firmware_selection-single_example =
    check_firmware_selection-single (λ bs. replicate 32 0) (λ bs. replicate 16 0) directory card []
      "app.bin" app_file (of_version 9) (λ e. ground arith) refl (λ e. cc)
