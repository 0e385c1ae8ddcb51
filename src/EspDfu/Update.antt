-- ===== src/EspDfu/Update.antt =====
-- server/esp-dfu.c: `handle_esp_firmware_update`, and server/hash.c.

pub mod Blind
pub mod Image
pub mod Gate
use fcp_support.Base.{ℕ, zero, suc, ◌+◌, ◌-◌, ◌*◌, ◌/◌, List, [], ◌∷◌, ◌++◌, Bool, true, false}
use fcp_support.Base.{Option, none, some, Res, ok, err, Ioctl, take, drop, min, ◌&&◌, not}
use fcp_support.Base.{ℤ, pos, negsuc, is_neg, eqb_ℤ, ltb, ◌==◌, if◌then◌else◌}
use fcp_support.Base.State.{St, pure, ◌>>=◌, ◌>>◌}
use fcp_support.Protocol.{FirmwarePayload, Effect, drain_pending, progress_message}
use fcp_support.Protocol.{err_config, err_invalid_usb_id, err_invalid_hash, err_not_leapfrog}
use fcp_support.Protocol.{err_invalid_state, err_fcp, err_write}
use fcp_support.Fcp.Misc.{esp_dfu_start, esp_dfu_write}
use fcp_support.EspDfu.{EspConfig, World, on_device, checked, ◌>>?◌}
use fcp_support.EspDfu.Wait.{
  get_state, set_state, check_state, wait_for_notification, wait_for_dfu_notify,
}

-- ESP_FLASH_BLOCK_SIZE
abbrev pub block_size_max : ℕ
block_size_max = 1024

-- `memcmp(a, b, n) == 0` on buffers of one length
abbrev pub same_bytes : List ℕ → List ℕ → Bool
same_bytes [] [] = true
same_bytes (x ∷ xs) (y ∷ ys) = x == y && same_bytes xs ys
same_bytes _ _ = false

-- `verify_sha256`; `sha` is OpenSSL's SHA256.
unfoldable pub verify_sha256 : (List ℕ → List ℕ) → List ℕ → ℕ → List ℕ → Bool
verify_sha256 sha bytes length expected = same_bytes (sha (take length bytes)) expected

unfoldable pub emit : {D : Type 0} → Effect → St (World D) (Unit {0})
emit e w = (tt, record w { log = w.log ++ (e ∷ []) })

-- `if (progress != last_progress) send_progress(...)`
unfoldable pub report : {D : Type 0} → ℕ → ℤ → St (World D) (Unit {0})
unfolding emit
report progress last =
    if eqb_ℤ (pos progress) last then pure tt else emit (progress_message progress)

module _ {D : Type 0} (ioctl : Ioctl D) (cfg : EspConfig) (junk : ℤ) where
  -- What follows the write of a block; `some code` is an early return.
  block_written : ℕ → ℤ → St (World D) (Option ℤ × ℤ) → Res (Unit {0}) → St (World D) (Option ℤ × ℤ)
  block_written progress last next (err e) = pure (some err_write, last)
  block_written progress last next (ok u) =
      checked (wait_for_dfu_notify ioctl cfg junk cfg.notify_next_block)
        (λ code. pure (some code, last)) (do report progress last; emit drain_pending; next)

  -- The `for` loop over the blocks, on fuel, from `offset` on. The results are the early return and
  -- `last_progress`.
  unfoldable pub write_blocks : ℕ → FirmwarePayload → ℕ → ℤ → St (World D) (Option ℤ × ℤ)
  unfolding block_written report emit
  write_blocks zero payload offset last = pure (none, last)
  write_blocks (suc fuel) payload offset last =
      let size = min block_size_max (payload.size - offset) in
      let progress = (offset + size) * 100 / payload.size in
      let next = write_blocks fuel payload (offset + block_size_max) (pos progress) in
      let round =
        on_device (esp_dfu_write ioctl (drop offset payload.bytes) size)
        >>= block_written progress last next in
      if ltb offset payload.size then round else pure (none, last)

  -- The finish notification, then off and on again.
  finish_written : ℤ → Res (Unit {0}) → St (World D) ℤ
  finish_written last (err e) = pure err_write
  finish_written last (ok u) =
      wait_for_dfu_notify ioctl cfg junk cfg.notify_finish
      >>? set_state ioctl cfg junk cfg.state_off
      >>? set_state ioctl cfg junk cfg.state_normal
      >>? (do report 100 last; pure (pos 0))

  -- From the last block on: the final empty write and what follows it.
  unfoldable pub finish_update : ℤ → St (World D) ℤ
  unfolding finish_written report emit
  finish_update last = on_device (esp_dfu_write ioctl [] 0) >>= finish_written last

  blocks_written : Option ℤ × ℤ → St (World D) ℤ
  blocks_written (some code, last) = pure code
  blocks_written (none, last) = finish_update last

  dfu_started : FirmwarePayload → Res (Unit {0}) → St (World D) ℤ
  dfu_started payload (err e) = pure err_fcp
  dfu_started payload (ok u) =
      wait_for_notification ioctl cfg junk
      >>? check_state ioctl cfg junk cfg.state_dfu
      >>? wait_for_dfu_notify ioctl cfg junk cfg.notify_next_block
      >>? (write_blocks payload.size payload 0 (negsuc 0) >>= blocks_written)

  -- From the start of the DFU on. Each round writes a byte at least, so `size` rounds are enough.
  unfoldable pub run_dfu : FirmwarePayload → St (World D) ℤ
  unfolding dfu_started blocks_written
  run_dfu payload = on_device (esp_dfu_start ioctl payload.size payload.md5) >>= dfu_started payload

  -- What follows the first reading of the ESP's state: it is turned off if it is on.
  state_read : FirmwarePayload → ℤ × ℤ → St (World D) ℤ
  state_read payload (code, esp_state) =
      pure code
      >>? (if eqb_ℤ esp_state (pos 0)
          then pure err_not_leapfrog
          else if eqb_ℤ esp_state cfg.state_normal
          then set_state ioctl cfg junk cfg.state_off >>? run_dfu payload
          else if eqb_ℤ esp_state cfg.state_off
          then run_dfu payload
          else pure err_invalid_state)

  -- From the first progress message on.
  unfoldable pub start_update : FirmwarePayload → St (World D) ℤ
  unfolding state_read emit
  start_update payload = do
    emit (progress_message 0)
    get_state ioctl cfg junk junk >>= state_read payload

-- `handle_esp_firmware_update`; `config` is what `get_esp_dfu_config` found.
unfoldable pub handle_esp_firmware_update :
    {D : Type 0}
    → Ioctl D
    → (List ℕ → List ℕ)
    → ℕ
    → ℕ
    → ℤ
    → Option EspConfig
    → FirmwarePayload
    → St (World D) ℤ
handle_esp_firmware_update ioctl sha vid pid junk none payload = pure err_config
handle_esp_firmware_update ioctl sha vid pid junk (some cfg) payload =
    if not (payload.usb_vid == vid && payload.usb_pid == pid)
    then pure err_invalid_usb_id
    else if not (verify_sha256 sha payload.bytes payload.size payload.sha256)
    then pure err_invalid_hash
    else start_update ioctl cfg junk payload
