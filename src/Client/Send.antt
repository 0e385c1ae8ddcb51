-- ===== src/Client/Send.antt =====
-- client/main.c: the requests that the client sends, and the wait for their answers.
pub mod RoundTrip
use fcp_support.Base.{ℕ, ◌+◌, ◌%◌, List, [], ◌∷◌, ◌++◌, Bool, true, false, Option, none, some}
use fcp_support.Base.{ℤ, negsuc, le16, le32, length, take, leb, ◌==◌, if◌then◌else◌}
use fcp_support.Protocol.{
  magic_request, request_app_firmware_update, request_esp_firmware_update, request_fcp_cmd,
}
use fcp_support.Firmware.{Firmware, FirmwareType, container, app, esp, leapfrog}
use fcp_support.Client.{Connection}
use fcp_support.Client.Messages.{handle_server_responses}

-- `struct fcp_socket_msg_header` of a request
abbrev pub request_header : ℕ → ℕ → List ℕ
request_header command payload_length = magic_request ∷ command % 256 ∷ le32 payload_length

-- `write`, and whether it took all bytes
unfoldable pub put_some : List ℕ → List ℕ → Connection → Bool × Connection
put_some bytes [] c = (true, record c { sent = c.sent ++ bytes })
put_some bytes (n ∷ ns) c =
    (leb (length bytes) n, record c { sent = c.sent ++ take n bytes; writes = ns })

unfoldable pub put : List ℕ → Connection → Bool × Connection
unfolding put_some
put bytes c = put_some bytes c.writes c

-- A write that did not take all bytes ends the request with -1.
abbrev pub when_put :
    (Connection → Option ℤ × Connection) → Bool × Connection → Option ℤ × Connection
when_put next (true, c) = next c
when_put next (false, c) = (some (negsuc 0), c)

-- `send_simple_command`
unfoldable pub send_simple_command : ℕ → Bool → Connection → Option ℤ × Connection
send_simple_command command quiet c =
    when_put (handle_server_responses quiet) (put (request_header command 0) c)

-- The command for a type of firmware; for a container the program exits.
abbrev pub update_request : FirmwareType → Option ℕ
update_request leapfrog = some request_app_firmware_update
update_request app = some request_app_firmware_update
update_request esp = some request_esp_firmware_update
update_request container = none

-- `struct firmware_payload`, without the data
unfoldable pub payload_header : Firmware → List ℕ
payload_header fw =
    le32 fw.firmware_length
    ++ le16 fw.usb_vid
    ++ le16 fw.usb_pid
    ++ take 32 fw.sha256
    ++ take 16 fw.md5

-- sizeof(struct firmware_payload)
abbrev pub payload_header_size : ℕ
payload_header_size = 56

abbrev pub send_as : Firmware → Option ℕ → Connection → Option ℤ × Connection
send_as fw none c = (none, c)
send_as fw (some command) c =
    when_put
      (λ d.
        when_put
          (λ e.
            when_put (handle_server_responses false)
              (put (take fw.firmware_length fw.firmware_data) e))
          (put (payload_header fw) d))
      (put (request_header command (payload_header_size + fw.firmware_length)) c)

-- `send_firmware`; `none` waits, or the program has exited.
unfoldable pub send_firmware : Firmware → Connection → Option ℤ × Connection
unfolding payload_header
send_firmware fw c = send_as fw (update_request fw.firmware_type) c

-- `send_fcp_cmd`
unfoldable pub send_fcp_cmd : ℕ → List ℕ → ℕ → Connection → Option ℤ × Connection
send_fcp_cmd opcode req_data resp_size c = when_put (handle_server_responses true) (
    put
      (request_header request_fcp_cmd (8 + length req_data)
        ++ le32 opcode
        ++ le32 resp_size
        ++ req_data)
      c)
