-- ===== src/Socket/Flash.antt =====
-- server/fcp-socket.c: erasing a flash segment, and writing the application firmware.
pub mod Written
pub mod Erased
use fcp_support.Base.{ℕ, zero, suc, ◌+◌, ◌-◌, ◌*◌, ◌/◌, List, ◌||◌, not, ◌&&◌, ◌==◌}
use fcp_support.Base.{Option, none, some, Res, ok, err, Ioctl, min, drop, ltb, if◌then◌else◌}
use fcp_support.Base.{ℤ, pos, negsuc, is_neg, eqb_ℤ, pos_part, to_unsigned}
use fcp_support.Base.State.{St, pure, ◌>>=◌, ◌>>◌}
use fcp_support.Protocol.{FirmwarePayload, error_message, progress_message, drain_pending}
use fcp_support.Protocol.{
  err_read, err_write, err_invalid_length, err_invalid_hash, err_invalid_usb_id,
}
use fcp_support.Fcp.Flash.{flash_erase, flash_erase_progress, flash_write, flash_write_max}
use fcp_support.EspDfu.{World, on_device}
use fcp_support.EspDfu.Update.{verify_sha256, emit, report}
use fcp_support.Socket.{Service, on_world}
use fcp_support.Socket.Segments.{get_segment_nums}

-- FLASH_BLOCK_SIZE
abbrev pub flash_block_size : ℕ
flash_block_size = 4096

-- C's `a / b` for a positive numeral `b` rounds towards 0: -1 / 4096 is 0.
unfoldable pub blocks_of : ℤ → ℕ
blocks_of size = pos_part size / flash_block_size

-- `if (progress != last_progress) { send_progress(...); last_progress = progress; }`
unfoldable pub report_erase : {D : Type 0} → ℕ → St (Service D) (Unit {0})
unfolding report emit
report_erase progress s = if eqb_ℤ (pos progress) s.erase_progress then (tt, s) else (
  tt,
  record s { world = (emit (progress_message progress) s.world).1; erase_progress = pos progress },
)

-- What is sent if the last progress was not 100; `last_progress` itself stays.
unfoldable pub report_done : {D : Type 0} → ℤ → St (World D) (Unit {0})
unfolding report emit
report_done last = report 100 last

module _ {D : Type 0} (ioctl : Ioctl D) where
  -- The polls of `erase_flash_segment`. The loop ends when the device says so: `none` is a run that
  -- has not returned after as many polls as there is fuel.
  erase_polled : ℕ → St (Service D) (Option ℤ) → Res ℕ → St (Service D) (Option ℤ)
  erase_polled num_blocks next (err e) s = (some err_read, s)
  erase_polled num_blocks next (ok r) s =
      if r == 255
      then (some (pos 0), record s { world = (report_done s.erase_progress s.world).1 })
      else (do report_erase (r * 100 / num_blocks); on_world (emit drain_pending); next) s

  unfoldable pub erase_loop : ℕ → ℕ → ℕ → St (Service D) (Option ℤ)
  unfolding erase_polled emit
  erase_loop zero segment_num num_blocks s = (none, s)
  erase_loop (suc fuel) segment_num num_blocks s =
      (on_world (on_device (flash_erase_progress ioctl segment_num))
          >>= erase_polled num_blocks (erase_loop fuel segment_num num_blocks))
        s

  erase_started : ℕ → ℕ → ℕ → Res (Unit {0}) → St (Service D) (Option ℤ)
  erase_started fuel segment_num num_blocks (err e) = pure (some err_write)
  erase_started fuel segment_num num_blocks (ok u) = erase_loop fuel segment_num num_blocks

  -- `erase_flash_segment`
  unfoldable pub erase_flash_segment : ℕ → ℤ → ℕ → St (Service D) (Option ℤ)
  unfolding erase_started
  erase_flash_segment fuel (negsuc n) num_blocks = pure (some err_read)
  erase_flash_segment fuel (pos n) num_blocks =
      if ltb n 1 || ltb 15 n
      then pure (some err_read)
      else if ltb num_blocks 1 || ltb 255 num_blocks
      then pure (some err_read)
      else on_world (on_device (flash_erase ioctl n)) >>= erase_started fuel n num_blocks

  -- `erase_config` and `erase_app_firmware`
  unfoldable pub erase_config : ℕ → St (Service D) (Option ℤ)
  erase_config fuel = do
    ret ← get_segment_nums ioctl
    if is_neg ret then pure (some err_read) else (λ s.
        erase_flash_segment fuel s.flash.settings_segment_num
          (blocks_of s.flash.settings_segment_size) s)

  unfoldable pub erase_app_firmware : ℕ → St (Service D) (Option ℤ)
  erase_app_firmware fuel = do
    ret ← get_segment_nums ioctl
    if is_neg ret then pure (some err_read) else (λ s.
        erase_flash_segment fuel s.flash.upgrade_segment_num
          (blocks_of s.flash.upgrade_segment_size) s)

  -- `fcp_flash_write` of a segment number that may be -1, which it refuses.
  unfoldable pub write_segment : ℤ → ℕ → ℕ → List ℕ → St (World D) (Res (Unit {0}))
  write_segment (negsuc n) offset size bytes = pure (err 22)
  write_segment (pos n) offset size bytes = on_device (flash_write ioctl n offset size bytes)

  chunk_written : ℕ → ℤ → St (World D) ℤ → Res (Unit {0}) → St (World D) ℤ
  chunk_written progress last next (err e) = pure err_write
  chunk_written progress last next (ok u) = do report progress last; emit drain_pending; next

  -- The `for` loop over the chunks, on fuel, at `i`, and the last message.
  unfoldable pub write_chunks : ℕ → ℤ → FirmwarePayload → ℕ → ℤ → St (World D) ℤ
  unfolding chunk_written emit report
  write_chunks zero segment payload i last = do report_done last; pure (pos 0)
  write_chunks (suc fuel) segment payload i last =
      let size = min flash_write_max (payload.size - i) in
      let progress = i * 100 / payload.size in
      let round =
        write_segment segment i size (drop i payload.bytes)
        >>= chunk_written progress last
            (write_chunks fuel segment payload (i + flash_write_max) (pos progress)) in
      let finish : St (World D) ℤ = (do report_done last; pure (pos 0)) in
      if ltb i payload.size then round else finish

  -- `send_error(client_fd, code); return code;`
  unfoldable pub reject : ℤ → St (Service D) ℤ
  unfolding emit
  reject code = do on_world (emit (error_message code)); pure code

  -- `handle_app_firmware_update`, after the segments are known. The segment size is compared as an
  -- unsigned number, as C does.
  unfoldable pub check_and_write : (List ℕ → List ℕ) → ℕ → ℕ → FirmwarePayload → St (Service D) ℤ
  check_and_write sha vid pid payload s =
      (if ltb payload.size 65536
          then reject err_invalid_length
          else if ltb (to_unsigned 32 s.flash.upgrade_segment_size) payload.size
          then reject err_invalid_length
          else if not (verify_sha256 sha payload.bytes payload.size payload.sha256)
          then reject err_invalid_hash
          else if not (payload.usb_vid == vid && payload.usb_pid == pid)
          then reject err_invalid_usb_id
          else on_world
              (write_chunks payload.size s.flash.upgrade_segment_num payload 0 (negsuc 0)))
        s

  -- `handle_app_firmware_update`
  unfoldable pub handle_app_firmware_update :
      (List ℕ → List ℕ) → ℕ → ℕ → FirmwarePayload → St (Service D) ℤ
  handle_app_firmware_update sha vid pid payload = do
    ret ← get_segment_nums ioctl
    if is_neg ret then pure err_read else check_and_write sha vid pid payload
