-- ===== src/Upload.antt =====
-- client/main.c, server/fcp-socket.c and server/esp-dfu.c together: ESP firmware on its way from the
-- client to the device.
use fcp_support.Base.{ℕ, ◌≤◌, ◌<◌, List, [], ◌∷◌, ◌++◌, All, some, ℤ, pos, ok, length, take, false}
use fcp_support.Base.{◌≡◌, ◌≢◌, refl, sym, ap, ◌∙◌, ◌⊎◌, take-append}
use fcp_support.Protocol.{
  read_header, request_esp_firmware_update, FirmwarePayload, success_message, Effect,
}
use fcp_support.Fcp.Data.{data_read}
use fcp_support.EspDfu.{EspConfig, World}
use fcp_support.EspDfu.Update.{handle_esp_firmware_update, emit}
use fcp_support.EspDfu.Update.Image.{TakesBlocks}
use fcp_support.EspDfu.Update.Gate.{IsAccepted, update-image}
use fcp_support.Firmware.{Firmware}
use fcp_support.Socket.{Service, on_world}
use fcp_support.Socket.Command.{Setup, handle_client_command, answer}
use fcp_support.Socket.Client.{Server, complete, finished}
use fcp_support.Socket.Client.Reassembly.Parts.{IsMessage}
use fcp_support.Socket.Client.Reassembly.{IsIdle, receive, receive-message}
use fcp_support.Client.Send.RoundTrip.{
  IsSendable, firmware_request, firmware_request-IsMessage, firmware_request-read_header,
  firmware_request-read_firmware_payload,
}

-- A server for the ESP firmware: it has the registers and the device of the firmware, whose hash is
-- right, and the ESP reads as on or off.
pub record IsReady {D : Type 0} (env : Setup D) (cfg : EspConfig) (fw : Firmware) (state : ℤ)
    (d : D) : Type 0 where
  pub configured : env.esp_config ≡ some cfg
  pub same_vid : fw.usb_vid ≡ env.usb_vid
  pub same_pid : fw.usb_pid ≡ env.usb_pid
  pub same_hash : env.sha fw.firmware_data ≡ fw.sha256
  pub reads : (data_read env.ioctl cfg.offset_state 1 false d).0 ≡ ok state
  pub nonzero : state ≢ pos 0
  pub known : (state ≡ cfg.state_normal) ⊎ (state ≡ cfg.state_off)

module _ {D : Type 0} (env : Setup D) (beyond : List ℕ) (image : D → List ℕ)
    (laws : TakesBlocks env.ioctl image) (cfg : EspConfig) (fw : Firmware)
    (sendable : IsSendable fw) (state : ℤ) where
  -- The bytes of the client's request.
  abbrev pub request : List ℕ
  request = firmware_request request_esp_firmware_update fw

  -- The payload as the server sees it.
  abbrev received : FirmwarePayload
  received = record {
    size = fw.firmware_length;
    usb_vid = fw.usb_vid;
    usb_pid = fw.usb_pid;
    sha256 = fw.sha256;
    md5 = fw.md5;
    bytes = fw.firmware_data ++ beyond;
  }

  taken : take fw.firmware_length (fw.firmware_data ++ beyond) ≡ fw.firmware_data
  taken =
      ap (λ n. take n (fw.firmware_data ++ beyond)) (sym sendable.whole)
      ∙ take-append fw.firmware_data beyond

  received-IsAccepted :
      (d : D) → IsReady env cfg fw state d → IsAccepted env.sha env.usb_vid env.usb_pid received
  received-IsAccepted d ready = record {
    same_vid = ready.same_vid;
    same_pid = ready.same_pid;
    same_hash = ap env.sha taken ∙ ready.same_hash;
  }

  -- The image has grown by exactly the data of the firmware, and the last message is one of success.
  abbrev pub Uploaded : World D → World D → Type 0
  Uploaded v w =
      (image w.dev ≡ image v.dev ++ fw.firmware_data)
      × ((earlier : List Effect) × (w.log ≡ earlier ++ success_message ∷ []))

  -- What the request does to the device, and that the command returns.
  handled :
      (v : Service D)
      → IsReady env cfg fw state v.world.dev
      → ((handle_client_command env (read_header request) (request ++ beyond) v).0 ≡ some tt)
        × Uploaded v.world
            (handle_client_command env (read_header request) (request ++ beyond) v).1.world
  unfolding handle_client_command on_world answer emit
  handled v ready =
      rw
        (
          firmware_request-read_header request_esp_firmware_update fw sendable,
          firmware_request-read_firmware_payload request_esp_firmware_update fw sendable beyond,
          ready.configured,
          updated.0,
        )
        (refl, (updated.1 ∙ ap (λ t. image v.world.dev ++ t) taken, (_, refl)))
    where
      updated :
          ((handle_esp_firmware_update env.ioctl env.sha env.usb_vid env.usb_pid env.junk
              (some cfg)
              received
              v.world).0
            ≡ pos 0)
          × (image
                (handle_esp_firmware_update env.ioctl env.sha env.usb_vid env.usb_pid env.junk
                  (some cfg)
                  received
                  v.world).1.dev
              ≡ image v.world.dev ++ take fw.firmware_length (fw.firmware_data ++ beyond))
      updated =
          update-image env.ioctl env.sha env.usb_vid env.usb_pid env.junk cfg received image laws
            v.world state (received-IsAccepted v.world.dev ready) ready.reads ready.nonzero
            ready.known

  -- For a sendable ESP firmware, a server that is idle and ready for it, and a device that takes the
  -- blocks: however the bytes of the client's request are split into reads of positive sizes, as many
  -- reads as bytes, the server completes it, the device's image has grown by exactly the data of the
  -- firmware, and the last message to the client is one of success.
  pub upload-image :
      (s : Server D) (ns : List ℕ)
      → IsIdle s
      → s.stream ≡ request
      → All (λ n. 0 < n) ns
      → length s.stream ≤ length ns
      → IsReady env cfg fw state s.service.world.dev
      → ((receive env beyond ns s).0 ≡ complete)
        × Uploaded s.service.world (receive env beyond ns s).1.service.world
  unfolding finished
  upload-image s ns idle stream all long ready =
      rw (receive-message env beyond s ns idle whole all long, stream, returns.0) (refl, returns.1)
    where
      whole : IsMessage s.stream
      whole = rw stream (firmware_request-IsMessage request_esp_firmware_update fw sendable)

      returns :
          ((handle_client_command env (read_header request) (request ++ beyond) s.service).0
            ≡ some tt)
          × Uploaded s.service.world
              (handle_client_command env
                (read_header request)
                (request ++ beyond)
                s.service).1.world
      returns = handled s.service ready
