-- ===== src/EspDfu/Update/Blind.antt =====
-- server/esp-dfu.c: the update does not act on the waits and state checks that it makes.
use fcp_support.Base.{
  ◌≡◌, ℕ, zero, suc, List, [], Bool, true, false, Res, ok, err, Ioctl, drop, min,
}
use fcp_support.Base.{◌+◌, ◌-◌, ◌*◌, ◌/◌, Option, none, some, ℤ, pos, negsuc, eqb_ℤ, ltb}
use fcp_support.Base.{if◌then◌else◌, arith}
use fcp_support.Base.State.{St, pure, ◌>>=◌, ◌>>◌}
use fcp_support.Protocol.{FirmwarePayload, Effect, progress_message, err_write, drain_pending}
use fcp_support.Fcp.Data.{data_read}
use fcp_support.Fcp.Misc.{esp_dfu_start, esp_dfu_write}
use fcp_support.EspDfu.{EspConfig, World, on_device}
use fcp_support.EspDfu.Wait.{fcp_code, stored, get_state, set_state, wait_for_dfu_notify}
use fcp_support.EspDfu.Wait.Quiet.{
  Blind, pure-Blind, on_device-Blind, bind-Blind, checked-Blind, fcp_code-Quiet, check_state-Quiet,
  wait_for_dfu_notify-Quiet, set_state-Quiet, wait_for_notification-Quiet,
}
use fcp_support.EspDfu.Update.{
  block_size_max, emit, report, block_written, write_blocks, finish_written, finish_update,
  blocks_written, dfu_started, run_dfu, state_read, start_update, handle_esp_firmware_update,
}

module _ {D : Type 0} where
  emit-Blind : (e : Effect) → Blind {D = D} (emit e)
  unfolding emit
  emit-Blind e v w s = ground (arith, s.same_log)

  if-Blind :
      {A : Type 0} (b : Bool) (m k : St (World D) A)
      → Blind m
      → Blind k
      → Blind (if b then m else k)
  if-Blind true m k hm hk = hm
  if-Blind false m k hm hk = hk

  report-Blind : (progress : ℕ) (last : ℤ) → Blind {D = D} (report progress last)
  unfolding report
  report-Blind progress last =
      if-Blind (eqb_ℤ (pos progress) last) _ _ (pure-Blind tt)
        (emit-Blind (progress_message progress))

module _ {D : Type 0} (ioctl : Ioctl D) (cfg : EspConfig) (junk : ℤ) where
  block_written-Blind :
      (progress : ℕ) (last : ℤ) (next : St (World D) (Option ℤ × ℤ))
      → Blind next
      → (r : Res (Unit {0})) → Blind (block_written ioctl cfg junk progress last next r)
  unfolding block_written
  block_written-Blind progress last next h (err e) = pure-Blind (some err_write, last)
  block_written-Blind progress last next h (ok u) =
      checked-Blind (wait_for_dfu_notify ioctl cfg junk cfg.notify_next_block)
        (λ code. pure (some code, last)) _
        (wait_for_dfu_notify-Quiet ioctl cfg junk cfg.notify_next_block)
        (bind-Blind (report progress last) (λ _. emit drain_pending >> next)
          (report-Blind progress last)
          (λ _. bind-Blind (emit drain_pending) (λ _. next) (emit-Blind drain_pending) (λ _. h)))

  write_blocks-Blind :
      (fuel : ℕ) (payload : FirmwarePayload) (offset : ℕ) (last : ℤ)
      → Blind (write_blocks ioctl cfg junk fuel payload offset last)
  unfolding write_blocks
  write_blocks-Blind zero payload offset last = pure-Blind (none, last)
  write_blocks-Blind (suc fuel) payload offset last =
      let size = min block_size_max (payload.size - offset) in
      let progress = (offset + size) * 100 / payload.size in
      let next =
        write_blocks ioctl cfg junk fuel payload (offset + block_size_max) (pos progress) in
      if-Blind (ltb offset payload.size) _ _
        (bind-Blind _ (block_written ioctl cfg junk progress last next)
          (on_device-Blind (esp_dfu_write ioctl (drop offset payload.bytes) size))
          (block_written-Blind progress last next
            (write_blocks-Blind fuel payload (offset + block_size_max) (pos progress))))
        (pure-Blind (none, last))

  finish_written-Blind :
      (last : ℤ) (r : Res (Unit {0})) → Blind (finish_written ioctl cfg junk last r)
  unfolding finish_written
  finish_written-Blind last (err e) = pure-Blind err_write
  finish_written-Blind last (ok u) =
      checked-Blind _ pure _ (wait_for_dfu_notify-Quiet ioctl cfg junk cfg.notify_finish) (
        checked-Blind _ pure _ (set_state-Quiet ioctl cfg junk cfg.state_off) (
          checked-Blind _ pure _ (set_state-Quiet ioctl cfg junk cfg.state_normal) (
            bind-Blind (report 100 last) (λ _. pure (pos 0)) (report-Blind 100 last)
              (λ _. pure-Blind (pos 0)))))

  finish_update-Blind : (last : ℤ) → Blind (finish_update ioctl cfg junk last)
  unfolding finish_update
  finish_update-Blind last =
      bind-Blind _ (finish_written ioctl cfg junk last) (on_device-Blind (esp_dfu_write ioctl [] 0))
        (finish_written-Blind last)

  blocks_written-Blind : (r : Option ℤ × ℤ) → Blind (blocks_written ioctl cfg junk r)
  unfolding blocks_written
  blocks_written-Blind (some code, last) = pure-Blind code
  blocks_written-Blind (none, last) = finish_update-Blind last

  dfu_started-Blind :
      (payload : FirmwarePayload) (r : Res (Unit {0}))
      → Blind (dfu_started ioctl cfg junk payload r)
  unfolding dfu_started
  dfu_started-Blind payload (err e) = pure-Blind (pos 7)
  dfu_started-Blind payload (ok u) =
      checked-Blind _ pure _ (wait_for_notification-Quiet ioctl cfg junk) (
        checked-Blind _ pure _ (check_state-Quiet ioctl cfg junk cfg.state_dfu) (
          checked-Blind _ pure _ (wait_for_dfu_notify-Quiet ioctl cfg junk cfg.notify_next_block) (
            bind-Blind _ (blocks_written ioctl cfg junk)
              (write_blocks-Blind payload.size payload 0 (negsuc 0)) blocks_written-Blind)))

  run_dfu-Blind : (payload : FirmwarePayload) → Blind (run_dfu ioctl cfg junk payload)
  unfolding run_dfu
  run_dfu-Blind payload =
      bind-Blind _ (dfu_started ioctl cfg junk payload)
        (on_device-Blind (esp_dfu_start ioctl payload.size payload.md5)) (dfu_started-Blind payload)

  state_read-Blind :
      (payload : FirmwarePayload) (r : Res ℤ)
      → Blind (state_read ioctl cfg junk payload (fcp_code r, stored junk r))
  unfolding state_read
  state_read-Blind payload r = checked-Blind (pure (fcp_code r)) pure _ (fcp_code-Quiet r) (
      if-Blind _ _ _ (pure-Blind (pos 11)) (
        if-Blind _ _ _
          (checked-Blind (set_state ioctl cfg junk cfg.state_off) pure _
            (set_state-Quiet ioctl cfg junk cfg.state_off) (run_dfu-Blind payload))
          (if-Blind _ _ _ (run_dfu-Blind payload) (pure-Blind (pos 12)))))

  start_update-Blind : (payload : FirmwarePayload) → Blind (start_update ioctl cfg junk payload)
  unfolding start_update get_state
  start_update-Blind payload =
      bind-Blind (emit (progress_message 0))
        (λ _. on_device (data_read ioctl cfg.offset_state 1 false) >>= read)
        (emit-Blind (progress_message 0))
        (λ _.
          bind-Blind (on_device (data_read ioctl cfg.offset_state 1 false)) read
            (on_device-Blind (data_read ioctl cfg.offset_state 1 false)) (state_read-Blind payload))
    where
      read : Res ℤ → St (World D) ℤ
      read r = state_read ioctl cfg junk payload (fcp_code r, stored junk r)

update-Blind :
    {D : Type 0} (ioctl : Ioctl D) (sha : List ℕ → List ℕ) (vid pid : ℕ) (junk : ℤ)
    (config : Option EspConfig) (payload : FirmwarePayload)
    → Blind (handle_esp_firmware_update ioctl sha vid pid junk config payload)
unfolding handle_esp_firmware_update
update-Blind ioctl sha vid pid junk none payload = pure-Blind (pos 6)
update-Blind ioctl sha vid pid junk (some cfg) payload =
    if-Blind _ _ _ (pure-Blind (pos 5))
      (if-Blind _ _ _ (pure-Blind (pos 4)) (start_update-Blind ioctl cfg junk payload))

-- The events that the waits meet (timeouts, failing reads, missing notifications) change nothing:
-- two updates that start with the same device and messages return the same code, leave the same
-- device and have sent the same messages, whatever events each of them meets.
pub update_ignores_events :
    {D : Type 0} (ioctl : Ioctl D) (sha : List ℕ → List ℕ) (vid pid : ℕ) (junk : ℤ)
    (config : Option EspConfig) (payload : FirmwarePayload) (v w : World D)
    → v.dev ≡ w.dev
    → v.log ≡ w.log
    → ((handle_esp_firmware_update ioctl sha vid pid junk config payload v).0
        ≡ (handle_esp_firmware_update ioctl sha vid pid junk config payload w).0)
      × ((handle_esp_firmware_update ioctl sha vid pid junk config payload v).1.dev
          ≡ (handle_esp_firmware_update ioctl sha vid pid junk config payload w).1.dev)
      × ((handle_esp_firmware_update ioctl sha vid pid junk config payload v).1.log
          ≡ (handle_esp_firmware_update ioctl sha vid pid junk config payload w).1.log)
update_ignores_events ioctl sha vid pid junk config payload v w d l =
    let (code, after) =
      update-Blind ioctl sha vid pid junk config payload v w
        (record { same_dev = d; same_log = l }) in
    (code, after.same_dev, after.same_log)
