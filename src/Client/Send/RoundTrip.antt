-- ===== src/Client/Send/RoundTrip.antt =====
-- client/main.c against server/fcp-socket.c: a request that carries firmware, from the client's writes to
-- what the server reads out of the message.
use mathlib.Core.Path.{subst}
use mathlib.Core.List.{append_assoc}
use fcp_support.Base.{ℕ, ◌+◌, ◌%◌, ◌≤◌, ◌<◌, ◌^◌, List, [], ◌++◌, some, false}
use fcp_support.Base.{
  ◌≡◌, refl, sym, ap, ◌∙◌, arith, length, take, drop, length-append, length-take, drop-drop,
  take_all, take-append, drop-append, get_le16-le16, get_le32-le32,
}
use fcp_support.Protocol.{
  read_header, read_firmware_payload, magic_request, max_payload_length, header_size,
}
use fcp_support.Firmware.{Firmware, FirmwareType, container, app, esp, leapfrog}
use fcp_support.Socket.Client.Reassembly.Parts.{IsMessage}
use fcp_support.Client.{Connection}
use fcp_support.Client.Messages.{handle_server_responses}
use fcp_support.Client.Send.{
  request_header, update_request, payload_header, payload_header_size, send_firmware, put, put_some,
}

-- The fields have their widths, the data has the length that is said, and the payload is not too large.
pub record IsSendable (fw : Firmware) : Type 0 where
  pub vid : fw.usb_vid < 2 ^ 16
  pub pid : fw.usb_pid < 2 ^ 16
  pub hash : length fw.sha256 ≡ 32
  pub md5_hash : length fw.md5 ≡ 16
  pub whole : length fw.firmware_data ≡ fw.firmware_length
  pub small : payload_header_size + fw.firmware_length ≤ max_payload_length

-- The bytes of the request.
unfoldable pub firmware_request : ℕ → Firmware → List ℕ
firmware_request command fw =
    request_header command (payload_header_size + fw.firmware_length)
    ++ payload_header fw
    ++ fw.firmware_data

take-cut : (n : ℕ) (xs ys : List ℕ) → length xs ≡ n → take n (take n xs ++ ys) ≡ xs
take-cut n xs ys h =
    ap (λ t. take n (t ++ ys)) (take_all n xs (omega (arith, h)))
    ∙ ap (λ k. take k (xs ++ ys)) (sym h)
    ∙ take-append xs ys

drop-cut : (n : ℕ) (xs ys : List ℕ) → length xs ≡ n → drop n (take n xs ++ ys) ≡ ys
drop-cut n xs ys h =
    ap (λ t. drop n (t ++ ys)) (take_all n xs (omega (arith, h)))
    ∙ ap (λ k. drop k (xs ++ ys)) (sym h)
    ∙ drop-append xs ys

module _ (command : ℕ) (fw : Firmware) (sendable : IsSendable fw) where
  pub firmware_request-read_header : read_header (firmware_request command fw) ≡ record {
    magic = magic_request;
    msg_type = command % 256;
    payload_length = payload_header_size + fw.firmware_length;
  }
  unfolding firmware_request read_header
  firmware_request-read_header = λ i. record {
    magic = magic_request;
    msg_type = same_byte i;
    payload_length = (get_le32-le32 (payload_header_size + fw.firmware_length) [] ∙ fits) i;
  }
    where
      same_byte : command % 256 % 256 ≡ command % 256
      same_byte = omega arith

      fits :
          (payload_header_size + fw.firmware_length) % 2 ^ 32
          ≡ payload_header_size + fw.firmware_length
      fits = omega (arith, sendable.small)

  pub firmware_request-IsMessage : IsMessage (firmware_request command fw)
  unfolding firmware_request payload_header
  firmware_request-IsMessage = record {
    magic = ap (λ h. h.magic) firmware_request-read_header;
    small = rw firmware_request-read_header sendable.small;
    whole = rw firmware_request-read_header request_length;
  }
    where
      request_length :
          length (firmware_request command fw)
          ≡ header_size + (payload_header_size + fw.firmware_length)
      request_length = omega (
        arith,
        length-append (take 32 fw.sha256 ++ take 16 fw.md5) fw.firmware_data,
        length-append (take 32 fw.sha256) (take 16 fw.md5),
        length-take 32 fw.sha256,
        length-take 16 fw.md5,
        sendable.hash,
        sendable.md5_hash,
        sendable.whole,
      )

  -- What the server reads out of the payload, whatever follows it in memory.
  pub firmware_request-read_firmware_payload :
      (beyond : List ℕ)
      → read_firmware_payload (drop header_size (firmware_request command fw ++ beyond)) ≡ record {
        size = fw.firmware_length;
        usb_vid = fw.usb_vid;
        usb_pid = fw.usb_pid;
        sha256 = fw.sha256;
        md5 = fw.md5;
        bytes = fw.firmware_data ++ beyond;
      }
  unfolding firmware_request payload_header read_firmware_payload
  firmware_request-read_firmware_payload beyond = λ i. record {
    size = (get_le32-le32 fw.firmware_length [] ∙ small_length) i;
    usb_vid = (get_le16-le16 fw.usb_vid [] ∙ small_vid) i;
    usb_pid = (get_le16-le16 fw.usb_pid [] ∙ small_pid) i;
    sha256 = (ap (take 32) nested ∙ take-cut 32 fw.sha256 rest sendable.hash) i;
    md5 =
        (ap (λ t. take 16 (drop 32 t)) nested
            ∙ ap (take 16) after_hash
            ∙ take-cut 16 fw.md5 (fw.firmware_data ++ beyond) sendable.md5_hash)
          i;
    bytes =
        (ap (drop 48) nested
            ∙ sym (drop-drop 16 32 (take 32 fw.sha256 ++ rest))
            ∙ ap (drop 16) after_hash
            ∙ drop-cut 16 fw.md5 (fw.firmware_data ++ beyond) sendable.md5_hash)
          i;
  }
    where
      rest : List ℕ
      rest = take 16 fw.md5 ++ (fw.firmware_data ++ beyond)

      nested :
          take 32 fw.sha256 ++ take 16 fw.md5 ++ fw.firmware_data ++ beyond
          ≡ take 32 fw.sha256 ++ rest
      nested =
          append_assoc (take 32 fw.sha256 ++ take 16 fw.md5) fw.firmware_data beyond
          ∙ append_assoc (take 32 fw.sha256) (take 16 fw.md5) (fw.firmware_data ++ beyond)

      after_hash : drop 32 (take 32 fw.sha256 ++ rest) ≡ rest
      after_hash = drop-cut 32 fw.sha256 rest sendable.hash

      small_length : fw.firmware_length % 2 ^ 32 ≡ fw.firmware_length
      small_length = omega (arith, sendable.small)

      small_vid : fw.usb_vid % 2 ^ 16 ≡ fw.usb_vid
      small_vid = omega (arith, sendable.vid)

      small_pid : fw.usb_pid % 2 ^ 16 ≡ fw.usb_pid
      small_pid = omega (arith, sendable.pid)

send_firmware_bytes :
    (fw : Firmware) (command : ℕ) (c : Connection)
    → IsSendable fw
    → update_request fw.firmware_type ≡ some command
    → c.writes ≡ []
    → send_firmware fw c
      ≡ handle_server_responses false (record c { sent = c.sent ++ firmware_request command fw })
unfolding send_firmware firmware_request put put_some
send_firmware_bytes fw command c sendable known all =
    rw (known, all)
      (λ i. handle_server_responses false (record c { sent = all_sent i; writes = [] }))
  where
    header : List ℕ
    header = request_header command (payload_header_size + fw.firmware_length)

    all_sent :
        c.sent ++ header ++ payload_header fw ++ take fw.firmware_length fw.firmware_data
        ≡ c.sent ++ (header ++ payload_header fw ++ fw.firmware_data)
    all_sent =
        ap (λ t. c.sent ++ header ++ payload_header fw ++ t)
          (take_all fw.firmware_length fw.firmware_data (omega (arith, sendable.whole)))
        ∙ append_assoc (c.sent ++ header) (payload_header fw) fw.firmware_data
        ∙ append_assoc c.sent header (payload_header fw ++ fw.firmware_data)
        ∙ ap (λ t. c.sent ++ t) (sym (append_assoc header (payload_header fw) fw.firmware_data))

-- What the server reads in a request, whatever lies behind it: its kind, its length, and the firmware.
pub record Carries (command : ℕ) (fw : Firmware) (request : List ℕ) : Type 0 where
  pub message : IsMessage request
  pub header : read_header request ≡ record {
    magic = magic_request;
    msg_type = command;
    payload_length = 56 + fw.firmware_length;
  }
  pub payload :
      (beyond : List ℕ)
      → read_firmware_payload (drop header_size (request ++ beyond)) ≡ record {
        size = fw.firmware_length;
        usb_vid = fw.usb_vid;
        usb_pid = fw.usb_pid;
        sha256 = fw.sha256;
        md5 = fw.md5;
        bytes = fw.firmware_data ++ beyond;
      }

same_command : {a b : ℕ} → some a ≡ some b → a ≡ b
same_command e = cc e

update_request-byte :
    (t : FirmwareType) (command : ℕ) → update_request t ≡ some command → command % 256 ≡ command
update_request-byte leapfrog command known =
    subst (λ (k : ℕ). k % 256 ≡ k) (same_command known) refl
update_request-byte app command known = subst (λ (k : ℕ). k % 256 ≡ k) (same_command known) refl
update_request-byte esp command known = subst (λ (k : ℕ). k % 256 ≡ k) (same_command known) refl
update_request-byte container command known = absurd cc

-- On a socket that takes all bytes, `send_firmware` of a sendable firmware, of a type that has a command,
-- sends one request and then waits for the answer. In the request the server reads the command, and the
-- IDs, the hashes, the length and the data of this firmware.
pub send_firmware-Carries :
    (fw : Firmware) (command : ℕ) (c : Connection)
    → IsSendable fw
    → update_request fw.firmware_type ≡ some command
    → c.writes ≡ []
    → (request : List ℕ) × Carries command fw request
      × (send_firmware fw c ≡ handle_server_responses false (record c { sent = c.sent ++ request }))
send_firmware-Carries fw command c sendable known all = (
  firmware_request command fw,
  record {
    message = firmware_request-IsMessage command fw sendable;
    header =
        firmware_request-read_header command fw sendable
        ∙ ap
            (λ (k : ℕ). record {
              magic = magic_request;
              msg_type = k;
              payload_length = payload_header_size + fw.firmware_length;
            })
            (update_request-byte fw.firmware_type command known);
    payload = firmware_request-read_firmware_payload command fw sendable;
  },
  send_firmware_bytes fw command c sendable known all,
)
