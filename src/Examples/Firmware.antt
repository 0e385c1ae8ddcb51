-- ===== src/Examples/Firmware.antt =====
-- server/fcp-socket.c at a flash that keeps what is written to its one segment, and at one that only
-- describes its segments.
use fcp_support.Base.{
  ℕ, zero, suc, ◌++◌, List, [], ◌∷◌, replicate, take, length, ◌==◌, if◌then◌else◌, ok, Ioctl, le32,
}
use fcp_support.Base.{◌≡◌, refl, ap, arith, ℤ, pos, none, some, true, false, byte_at, drop}
use fcp_support.Protocol.{
  FirmwarePayload, MsgHeader, request_app_firmware_update, magic_request, read_firmware_payload,
}
use fcp_support.Fcp.{fcp_cmd, opcode_flash_info, opcode_flash_write}
use fcp_support.Fcp.Flash.{flash_info, flash_segment_info}
use fcp_support.EspDfu.{on_device}
use fcp_support.Socket.{FlashInfo, Service, no_flash_info, on_world}
use fcp_support.Socket.Segments.{
  get_segment_nums, scan_segments, note_segment, some_segment_is_zero, app_upgrade,
}
use fcp_support.Socket.Segments.Safe.{IsSafe, get_segment_nums-IsSafe}
use fcp_support.Socket.Flash.{handle_app_firmware_update}
use fcp_support.Socket.Flash.Written.{StoresChunks, app_update-image}
use fcp_support.Socket.Command.{Setup, handle_client_command}
use fcp_support.Socket.Command.Refusal.{told, app_refusal_sent_twice}

-- Segment 0 has no name, segment 1 is App_Upgrade.
abbrev described : Ioctl (Unit {0})
described op req size d =
    if op == opcode_flash_info
    then (ok (le32 0x800000 ++ le32 2 ++ replicate 8 0), d)
    else if byte_at req 0 == 1
    then (ok (le32 0x100000 ++ le32 0 ++ app_upgrade ++ replicate 5 0), d)
    else (ok (replicate 24 0), d)

abbrev service_of : {D : Type 0} → D → FlashInfo → Service D
service_of d f = record {
  world = record { dev = d; events = []; log = [] };
  flash = f;
  erase_progress = pos 0;
}

get_segment_nums-IsSafe_example :
    IsSafe (get_segment_nums described (service_of tt no_flash_info)).1
unfolding get_segment_nums scan_segments note_segment some_segment_is_zero flash_info
    flash_segment_info on_world on_device fcp_cmd
get_segment_nums-IsSafe_example =
    get_segment_nums-IsSafe described (service_of tt no_flash_info) (λ h. absurd cc) refl

abbrev known : FlashInfo
known = record no_flash_info {
  have_flash_info = true;
  upgrade_segment_num = pos 1;
  upgrade_segment_size = pos 0x100000;
}

abbrev env : Setup (Unit {0})
env = record {
  ioctl = described;
  sha = λ bs. bs;
  usb_vid = 0x1235;
  usb_pid = 0x821b;
  junk = pos 0;
  esp_config = none;
  fcp_debug = false;
  polls = 0;
}

abbrev header : MsgHeader
header = record {
  magic = magic_request;
  msg_type = request_app_firmware_update;
  payload_length = 0;
}

app_refusal_sent_twice_example :
    (code : ℤ) × (handle_client_command env header [] (service_of tt known)
      ≡ (some tt, told code (told code (service_of tt known))))
unfolding read_firmware_payload
app_refusal_sent_twice_example =
    app_refusal_sent_twice env header [] (service_of tt known) refl refl
      (λ w. absurd (omega (arith, w.large)))

abbrev flash : Ioctl (List ℕ)
flash op req size d = if op == opcode_flash_write then (ok [], d ++ drop 12 req) else (ok [], d)

flash-StoresChunks : StoresChunks flash 1 (λ d. d)
flash-StoresChunks = record { accepts = λ req d. refl; stores = λ bytes d. refl }

length-replicate : (n k : ℕ) → length (replicate n k) ≡ n
length-replicate zero k = refl
length-replicate (suc n) k = ap suc (length-replicate n k)

abbrev payload : FirmwarePayload
payload = record {
  size = 65536;
  usb_vid = 0x1235;
  usb_pid = 0x821b;
  sha256 = 1 ∷ [];
  md5 = [];
  bytes = replicate 65536 0xff;
}

app_update-image_example :
    let r =
      handle_app_firmware_update flash (λ bs. 1 ∷ []) 0x1235 0x821b payload (service_of [] known) in
    (r.0 ≡ pos 0) × (r.1.world.dev ≡ take 65536 (replicate 65536 0xff))
app_update-image_example =
    app_update-image flash 1 (λ d. d) flash-StoresChunks (omega arith) (omega arith) (λ bs. 1 ∷ [])
      0x1235 0x821b payload (service_of [] known) refl refl
      (record { same_vid = refl; same_pid = refl; same_hash = refl }) (omega arith) (omega arith)
      (omega (arith, length-replicate 65536 0xff)) refl
