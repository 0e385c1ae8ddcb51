-- ===== src/Socket/Command.antt =====
-- server/fcp-socket.c: `handle_fcp_cmd` and `handle_client_command`.
pub mod Refusal
use fcp_support.Base.{ℕ, ◌+◌, ◌-◌, ◌%◌, ◌^◌, List, Bool, not, ◌==◌, if◌then◌else◌}
use fcp_support.Base.{Option, none, some, Res, ok, err, Ioctl, take, drop, get_le32, return_code}
use fcp_support.Base.{ℤ, pos, eqb_ℤ}
use fcp_support.Base.State.{St, pure, ◌>>=◌, ◌>>◌}
use fcp_support.Protocol.{
  MsgHeader, respond, error_message, success_message, response_data, read_firmware_payload,
  err_debug_disabled, err_fcp, err_invalid_command, header_size, request_reboot,
  request_config_erase, request_app_firmware_erase, request_app_firmware_update,
  request_esp_firmware_update, request_fcp_cmd,
}
use fcp_support.Fcp.{fcp_cmd}
use fcp_support.Fcp.Misc.{reboot}
use fcp_support.EspDfu.{World, EspConfig, on_device}
use fcp_support.EspDfu.Update.{emit, handle_esp_firmware_update}
use fcp_support.Socket.{Service, on_world}
use fcp_support.Socket.Flash.{erase_config, erase_app_firmware, handle_app_firmware_update}

-- What the commands need of the rest of the program and of the libraries: the driver, SHA256, the
-- USB IDs, the value of uninitialised integers, the configuration found in the device map, whether
-- FCP_DEBUG is set, and how many times a poll of an erase is modelled.
pub record Setup (D : Type 0) : Type 0 where
  pub ioctl : Ioctl D
  pub sha : List ℕ → List ℕ
  pub usb_vid : ℕ
  pub usb_pid : ℕ
  pub junk : ℤ
  pub esp_config : Option EspConfig
  pub fcp_debug : Bool
  pub polls : ℕ

module _ {D : Type 0} (env : Setup D) where
  unfoldable pub cmd_answered : ℕ → Res (List ℕ) → St (World D) ℤ
  cmd_answered resp_size (err e) = pure err_fcp
  cmd_answered resp_size (ok resp) = do emit (respond response_data resp); pure (pos 0)

  -- `handle_fcp_cmd`. `req_data_size` is a size_t, which wraps for a payload that is too short.
  unfoldable pub handle_fcp_cmd : MsgHeader → List ℕ → St (World D) ℤ
  unfolding cmd_answered emit
  handle_fcp_cmd header payload =
      let req_data_size = (header.payload_length + 2 ^ 64 - 8) % 2 ^ 64 in
      let resp_size = get_le32 (drop 4 payload) in
      if not env.fcp_debug
      then pure err_debug_disabled
      else on_device
          (fcp_cmd env.ioctl (get_le32 payload) (take req_data_size (drop 8 payload)) resp_size)
        >>= cmd_answered resp_size

  -- `if (ret != 0) send_error(...) else send_response(SUCCESS)`; `none` is a command that still runs.
  unfoldable pub answer : Option ℤ → St (Service D) (Option (Unit {0}))
  answer none = pure none
  answer (some ret) = do
    on_world (emit (if eqb_ℤ ret (pos 0) then success_message else error_message ret))
    pure (some tt)

  -- A raw command has sent its response itself.
  unfoldable pub answer_cmd : ℤ → St (Service D) (Option (Unit {0}))
  unfolding answer
  answer_cmd ret = if eqb_ℤ ret (pos 0) then pure (some tt) else answer (some ret)

  -- `handle_client_command`; `message` is the memory from the header on.
  unfoldable pub handle_client_command : MsgHeader → List ℕ → St (Service D) (Option (Unit {0}))
  unfolding answer_cmd answer emit
  handle_client_command header message =
      let payload = drop header_size message in
      if header.msg_type == request_reboot
      then (do r ← on_world (on_device (reboot env.ioctl)); answer (some (return_code r)))
      else if header.msg_type == request_config_erase
      then erase_config env.ioctl env.polls >>= answer
      else if header.msg_type == request_app_firmware_erase
      then erase_app_firmware env.ioctl env.polls >>= answer
      else if header.msg_type == request_app_firmware_update
      then (do
        ret ←
            handle_app_firmware_update env.ioctl env.sha env.usb_vid env.usb_pid
              (read_firmware_payload payload)
        answer (some ret))
      else if header.msg_type == request_esp_firmware_update
      then (do
        ret ← on_world (
            handle_esp_firmware_update env.ioctl env.sha env.usb_vid env.usb_pid env.junk
              env.esp_config (read_firmware_payload payload))
        answer (some ret))
      else if header.msg_type == request_fcp_cmd
      then on_world (handle_fcp_cmd header payload) >>= answer_cmd
      else (do on_world (emit (error_message err_invalid_command)); pure (some tt))
