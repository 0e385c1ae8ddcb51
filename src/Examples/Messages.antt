-- ===== src/Examples/Messages.antt =====
-- server/fcp-socket.c at a reboot request that arrives in pieces.
use fcp_support.Base.{ℕ, List, [], ◌∷◌, ok, Ioctl, ◌≡◌, refl, arith, pos, none, inl, true, false}
use fcp_support.Protocol.{magic_request, request_reboot, read_header}
use fcp_support.Socket.{Service, no_flash_info}
use fcp_support.Socket.Command.{Setup, handle_client_command}
use fcp_support.Socket.Client.{Server, no_client, finished, initial_size}
use fcp_support.Socket.Client.Reassembly.Parts.{IsMessage}
use fcp_support.Socket.Client.Reassembly.{receive, receive-message}

abbrev quiet : Ioctl (Unit {0})
quiet op req size d = (ok [], d)

abbrev env : Setup (Unit {0})
env = record {
  ioctl = quiet;
  sha = λ bs. bs;
  usb_vid = 0x1235;
  usb_pid = 0x821b;
  junk = pos 0;
  esp_config = none;
  fcp_debug = false;
  polls = 0;
}

abbrev request : List ℕ
request = magic_request ∷ request_reboot ∷ 0 ∷ 0 ∷ 0 ∷ 0 ∷ []

abbrev service : Service (Unit {0})
service = record {
  world = record { dev = tt; events = []; log = [] };
  flash = no_flash_info;
  erase_progress = pos 0;
}

abbrev server : Server (Unit {0})
server = record {
  service = service;
  client = record (no_client) { connected = true };
  stream = request;
}

request-IsMessage : IsMessage request
unfolding read_header
request-IsMessage = record { magic = refl; small = omega arith; whole = refl }

receive-message_example :
    receive env [] (4 ∷ 1 ∷ 1 ∷ 9 ∷ 9 ∷ 9 ∷ []) server
    ≡ finished env [] (handle_client_command env (read_header request) request service) (record {
      service = service;
      client = record { connected = true; buffer = request; size = initial_size; total_size = 6 };
      stream = [];
    })
receive-message_example =
    receive-message env [] server (4 ∷ 1 ∷ 1 ∷ 9 ∷ 9 ∷ 9 ∷ [])
      (record { empty = refl; no_total = refl; sized = inl refl }) request-IsMessage
      (omega arith, (omega arith, (omega arith, (omega arith, (omega arith, (omega arith, tt))))))
      (omega arith)
