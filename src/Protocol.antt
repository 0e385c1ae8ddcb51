-- ===== src/Protocol.antt =====
-- shared/fcp-shared.h and the sending half of server/fcp-socket.c: codes, messages and what the
-- server sends. A message counts as sent once `send` is called: its failures are only logged.
use fcp_support.Base.{ℕ, ◌*◌, ◌%◌, List, [], ◌∷◌, ◌++◌, ℤ, pos, to_unsigned, length, drop, take}
use fcp_support.Base.{le16, le32, get_le16, get_le32, byte_at}

-- FCP_SOCKET_ERR_*, as the `int` that the handlers return.
abbrev pub err_invalid_magic : ℤ
err_invalid_magic = pos 1

abbrev pub err_invalid_command : ℤ
err_invalid_command = pos 2

abbrev pub err_invalid_length : ℤ
err_invalid_length = pos 3

abbrev pub err_invalid_hash : ℤ
err_invalid_hash = pos 4

abbrev pub err_invalid_usb_id : ℤ
err_invalid_usb_id = pos 5

abbrev pub err_config : ℤ
err_config = pos 6

abbrev pub err_fcp : ℤ
err_fcp = pos 7

abbrev pub err_timeout : ℤ
err_timeout = pos 8

abbrev pub err_read : ℤ
err_read = pos 9

abbrev pub err_write : ℤ
err_write = pos 10

abbrev pub err_not_leapfrog : ℤ
err_not_leapfrog = pos 11

abbrev pub err_invalid_state : ℤ
err_invalid_state = pos 12

abbrev pub err_debug_disabled : ℤ
err_debug_disabled = pos 13

-- FCP_SOCKET_REQUEST_*
abbrev pub request_reboot : ℕ
request_reboot = 1

abbrev pub request_config_erase : ℕ
request_config_erase = 2

abbrev pub request_app_firmware_erase : ℕ
request_app_firmware_erase = 3

abbrev pub request_app_firmware_update : ℕ
request_app_firmware_update = 4

abbrev pub request_esp_firmware_update : ℕ
request_esp_firmware_update = 5

abbrev pub request_fcp_cmd : ℕ
request_fcp_cmd = 6

-- FCP_SOCKET_RESPONSE_*
abbrev pub response_success : ℕ
response_success = 1

abbrev pub response_error : ℕ
response_error = 2

abbrev pub response_progress : ℕ
response_progress = 3

abbrev pub response_data : ℕ
response_data = 4

abbrev pub magic_request : ℕ
magic_request = 0x53

abbrev pub max_payload_length : ℕ
max_payload_length = 2 * 1024 * 1024

-- sizeof(struct fcp_socket_msg_header)
abbrev pub header_size : ℕ
header_size = 6

pub record MsgHeader : Type 0 where
  pub magic : ℕ
  pub msg_type : ℕ
  pub payload_length : ℕ

-- The packed header at the front of a buffer.
unfoldable pub read_header : List ℕ → MsgHeader
read_header bs = record {
  magic = byte_at bs 0 % 256;
  msg_type = byte_at bs 1 % 256;
  payload_length = get_le32 (drop 2 bs);
}

-- `bytes` is the memory from `payload->data` on, which `size` need not respect.
pub record FirmwarePayload : Type 0 where
  pub size : ℕ
  pub usb_vid : ℕ
  pub usb_pid : ℕ
  pub sha256 : List ℕ
  pub md5 : List ℕ
  pub bytes : List ℕ

-- `(struct firmware_payload *)(header + 1)`
unfoldable pub read_firmware_payload : List ℕ → FirmwarePayload
read_firmware_payload bs = record {
  size = get_le32 bs;
  usb_vid = get_le16 (drop 4 bs);
  usb_pid = get_le16 (drop 6 bs);
  sha256 = take 32 (drop 8 bs);
  md5 = take 16 (drop 40 bs);
  bytes = drop 56 bs;
}

-- What the server does to its sockets: a message with its type and payload to the client, and the
-- rejection of the connections that wait.
pub data Effect : Type 0 where
  respond : ℕ → List ℕ → Effect
  drain_pending : Effect

-- `send_error`: an int16
unfoldable pub error_message : ℤ → Effect
error_message code = respond response_error (le16 (to_unsigned 16 code))

-- `send_progress`: a uint8
unfoldable pub progress_message : ℕ → Effect
progress_message percent = respond response_progress ((percent % 256) ∷ [])

-- `send_response(client_fd, FCP_SOCKET_RESPONSE_SUCCESS, NULL, 0)`
unfoldable pub success_message : Effect
success_message = respond response_success []

-- FCP_SOCKET_MAGIC_RESPONSE
abbrev pub magic_response : ℕ
magic_response = 0x73

-- The bytes of `send_response`, the header and the payload
unfoldable pub response_bytes : ℕ → List ℕ → List ℕ
response_bytes t payload = (magic_response ∷ t % 256 ∷ le32 (length payload)) ++ payload

-- The bytes that an effect puts on the client's socket.
unfoldable pub effect_bytes : Effect → List ℕ
unfolding response_bytes
effect_bytes (respond t payload) = response_bytes t payload
effect_bytes drain_pending = []
