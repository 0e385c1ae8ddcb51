-- ===== src/Examples/Upload.antt =====
-- client/main.c, server/fcp-socket.c and server/esp-dfu.c at an ESP firmware of three bytes, which the
-- client sends and the server gets byte by byte.
use fcp_support.Base.{
  ℕ, zero, suc, ◌<◌, List, [], ◌∷◌, All, replicate, length, ◌≡◌, refl, arith, pos, some, inl, inr,
  true, false, none,
}
use fcp_support.Firmware.{Firmware, esp}
use fcp_support.Protocol.{request_esp_firmware_update, read_header, respond, response_data}
use fcp_support.Client.Data.Served.{fcp_request, send_fcp_cmd-served}
use fcp_support.Base.{◌++◌}
use fcp_support.Socket.{no_flash_info}
use fcp_support.Socket.Command.{Setup, handle_client_command}
use fcp_support.Socket.Client.{Server, no_client, complete}
use fcp_support.Socket.Client.Reassembly.{receive}
use fcp_support.Client.{Connection}
use fcp_support.Client.Messages.{handle_server_responses}
use fcp_support.Client.Send.{send_firmware, send_fcp_cmd, payload_header}
use fcp_support.Fcp.Data.{data_read}
use fcp_support.Fcp.{fcp_cmd, opcode_data_read}
use fcp_support.Client.Send.RoundTrip.{IsSendable, firmware_request, Carries, send_firmware-Carries}
use fcp_support.Examples.Update.{esp as keeper, esp-TakesBlocks as keeper-TakesBlocks, config}
use fcp_support.Upload.{IsReady, Uploaded, upload-image}

abbrev firmware : Firmware
firmware = record {
  firmware_type = esp;
  usb_vid = 0x1235;
  usb_pid = 0x821b;
  firmware_version = (1, (0, (0, 7)));
  firmware_length = 3;
  sha256 = replicate 32 3;
  md5 = replicate 16 9;
  firmware_data = 10 ∷ 20 ∷ 30 ∷ [];
}

firmware-IsSendable : IsSendable firmware
firmware-IsSendable = record {
  vid = omega arith;
  pid = omega arith;
  hash = refl;
  md5_hash = refl;
  whole = refl;
  small = omega arith;
}

-- The hash is the length, 32 times.
abbrev setup : Setup (List ℕ)
setup = record {
  ioctl = keeper;
  sha = λ bs. replicate 32 (length bs);
  usb_vid = 0x1235;
  usb_pid = 0x821b;
  junk = pos 0;
  esp_config = some config;
  fcp_debug = false;
  polls = 0;
}

abbrev uploading : Server (List ℕ)
uploading = record {
  service = record {
    world = record { dev = []; events = []; log = [] };
    flash = no_flash_info;
    erase_progress = pos 0;
  };
  client = record (no_client) { connected = true };
  stream = firmware_request request_esp_firmware_update firmware;
}

bytewise : (n : ℕ) → All (λ k. 0 < k) (replicate n 1)
bytewise zero = tt
bytewise (suc n) = (omega arith, bytewise n)

uploading-IsReady : IsReady setup config firmware (pos 1) []
unfolding data_read fcp_cmd
uploading-IsReady = record {
  configured = refl;
  same_vid = refl;
  same_pid = refl;
  same_hash = refl;
  reads = refl;
  nonzero = λ e. ground arith;
  known = inr refl;
}

long_enough : length (firmware_request request_esp_firmware_update firmware) ≡ 65
unfolding firmware_request payload_header
long_enough = refl

upload-image_example :
    ((receive setup [] (replicate 65 1) uploading).0 ≡ complete)
    × Uploaded setup []
        (λ d. d)
        keeper-TakesBlocks
        config
        firmware
        firmware-IsSendable
        (pos 1)
        uploading.service.world
        (receive setup [] (replicate 65 1) uploading).1.service.world
upload-image_example =
    upload-image setup [] (λ d. d) keeper-TakesBlocks config firmware firmware-IsSendable (pos 1)
      uploading (replicate 65 1) (record { empty = refl; no_total = refl; sized = inl refl }) refl
      (bytewise 65) (omega (arith, long_enough)) uploading-IsReady

abbrev connection : Connection
connection = record {
  sent = [];
  writes = [];
  stream = [];
  reads = [];
  waits = [];
  showing_progress = false;
  shown = [];
  data_response = none;
}

send_firmware-Carries_example :
    (request : List ℕ) × Carries request_esp_firmware_update firmware request
    × (send_firmware firmware connection
        ≡ handle_server_responses false (record (connection) { sent = request }))
send_firmware-Carries_example =
    send_firmware-Carries firmware request_esp_firmware_update connection firmware-IsSendable refl
      refl

abbrev debugging : Setup (List ℕ)
debugging = record (setup) { fcp_debug = true }

send_fcp_cmd-served_example :
    (send_fcp_cmd opcode_data_read (8 ∷ 0 ∷ 0 ∷ 0 ∷ 1 ∷ 0 ∷ 0 ∷ 0 ∷ []) 1 connection
      ≡ handle_server_responses true (record (connection) {
        sent = fcp_request opcode_data_read (8 ∷ 0 ∷ 0 ∷ 0 ∷ 1 ∷ 0 ∷ 0 ∷ 0 ∷ []) 1;
      }))
    × (handle_client_command debugging
          (read_header (fcp_request opcode_data_read (8 ∷ 0 ∷ 0 ∷ 0 ∷ 1 ∷ 0 ∷ 0 ∷ 0 ∷ []) 1))
          (fcp_request opcode_data_read (8 ∷ 0 ∷ 0 ∷ 0 ∷ 1 ∷ 0 ∷ 0 ∷ 0 ∷ []) 1 ++ [])
          uploading.service
        ≡ (
          some tt,
          record (uploading.service) {
            world = record { dev = []; events = []; log = respond response_data (1 ∷ []) ∷ [] };
          },
        ))
unfolding fcp_cmd
send_fcp_cmd-served_example =
    send_fcp_cmd-served debugging [] opcode_data_read 1 (8 ∷ 0 ∷ 0 ∷ 0 ∷ 1 ∷ 0 ∷ 0 ∷ 0 ∷ [])
      (omega arith) connection uploading.service refl refl (omega arith) (omega arith) (omega arith)
