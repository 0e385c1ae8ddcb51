-- ===== src/EspDfu/Wait.antt =====
-- server/esp-dfu.c: the reads and writes of the ESP's registers, and the waits for a change.
pub mod Quiet
pub mod Keeps
use fcp_support.Base.{
  ℕ, zero, suc, List, [], ◌∷◌, ◌++◌, Bool, true, false, Res, ok, err, Ioctl, bit_and,
}
use fcp_support.Base.{ℤ, pos, is_neg, eqb_ℤ, ◌==◌, if◌then◌else◌}
use fcp_support.Base.State.{St, pure, ◌>>=◌, ◌>>◌}
use fcp_support.Protocol.{err_fcp, err_timeout, err_invalid_state}
use fcp_support.Fcp.Data.{data_read, data_write, data_notify}
use fcp_support.EspDfu.{EspConfig, WaitEvent, World, on_device, checked, ◌>>?◌}
use fcp_support.EspDfu.{
  expired, idle, interrupted, select_failed, not_ready, read_failed, notification,
}

-- `err < 0 ? FCP_SOCKET_ERR_FCP : 0`
abbrev pub fcp_code {ℓ} : {A : Type ℓ} → Res A → ℤ
fcp_code (ok a) = pos 0
fcp_code (err e) = err_fcp

-- What an `int` output argument holds after the call.
abbrev pub stored : ℤ → Res ℤ → ℤ
stored old (ok v) = v
stored old (err e) = old

-- The `while` loop of `wait_for_esp_notification`, and the events that it leaves.
unfoldable pub wait_loop : ℕ → List WaitEvent → ℤ × List WaitEvent
wait_loop mask [] = (err_timeout, [])
wait_loop mask (expired ∷ es) = (err_timeout, es)
wait_loop mask (idle ∷ es) = (err_timeout, es)
wait_loop mask (interrupted ∷ es) = wait_loop mask es
wait_loop mask (select_failed ∷ es) = (err_fcp, es)
wait_loop mask (not_ready ∷ es) = wait_loop mask es
wait_loop mask (read_failed ∷ es) = (err_fcp, es)
wait_loop mask (notification n ∷ es) = elim (bit_and n mask == 0) [
  | true ↦ wait_loop mask es
  | false ↦ (pos 0, es)
]

-- `junk` is what a local `int` holds before it is assigned.
module _ {D : Type 0} (ioctl : Ioctl D) (cfg : EspConfig) (junk : ℤ) where
  -- `fcp_esp_get_state`: the code, and `*state`
  unfoldable pub get_state : ℤ → St (World D) (ℤ × ℤ)
  get_state old = do
    r ← on_device (data_read ioctl cfg.offset_state 1 false)
    pure (fcp_code r, stored old r)

  notify_boot_mode : Res (Unit {0}) → St (World D) ℤ
  notify_boot_mode (err e) = pure err_fcp
  notify_boot_mode (ok u) = do
    n ← on_device (data_notify ioctl cfg.esp_boot_mode)
    pure (fcp_code n)

  -- `fcp_esp_set_boot_mode`
  unfoldable pub set_boot_mode : ℤ → St (World D) ℤ
  unfolding notify_boot_mode
  set_boot_mode mode = on_device (data_write ioctl cfg.offset_boot_mode 1 mode) >>= notify_boot_mode

  -- `fcp_esp_get_dfu_notify`
  unfoldable pub get_dfu_notify : ℤ → St (World D) (ℤ × ℤ)
  get_dfu_notify old = do
    r ← on_device (data_read ioctl cfg.offset_dfu_notify 1 false)
    pure (fcp_code r, stored old r)

  -- `fcp_esp_clear_dfu_notify`
  unfoldable pub clear_dfu_notify : St (World D) ℤ
  clear_dfu_notify = do
    r ← on_device (data_write ioctl cfg.offset_dfu_notify 1 cfg.notify_clear)
    pure (fcp_code r)

  -- `wait_for_esp_notification`
  unfoldable pub wait_for_notification : St (World D) ℤ
  wait_for_notification w =
      let (code, es) = wait_loop cfg.dfu_change w.events in (code, record w { events = es })

  -- `if (value == expected) return 0;`
  abbrev pub until : Bool → St (World D) ℤ → St (World D) ℤ
  until true k = pure (pos 0)
  until false k = k

  -- The `for` loop of `check_esp_state`, with the rounds left.
  unfoldable pub check_state_loop : ℕ → ℤ → ℤ → St (World D) ℤ
  check_state_loop zero expected esp_state = pure err_invalid_state
  check_state_loop (suc left) expected esp_state = do
    (code, now) ← get_state esp_state
    pure code >>? until (eqb_ℤ now expected) (check_state_loop left expected now)

  -- `check_esp_state`
  unfoldable pub check_state : ℤ → St (World D) ℤ
  check_state expected = check_state_loop 5 expected junk

  -- The `for` loop of `wait_for_esp_dfu_notify`.
  unfoldable pub dfu_notify_loop : ℕ → ℤ → ℤ → St (World D) ℤ
  dfu_notify_loop zero expected dfu_notify = pure err_timeout
  dfu_notify_loop (suc left) expected dfu_notify = wait_for_notification >>? (do
    (got, now) ← get_dfu_notify dfu_notify
    checked (pure got) (λ _. pure err_fcp)
        (checked clear_dfu_notify (λ _. pure err_fcp)
          (until (eqb_ℤ now expected) (dfu_notify_loop left expected now))))

  -- `wait_for_esp_dfu_notify`
  unfoldable pub wait_for_dfu_notify : ℤ → St (World D) ℤ
  wait_for_dfu_notify expected = dfu_notify_loop 5 expected junk

  -- `set_esp_state`
  unfoldable pub set_state : ℤ → St (World D) ℤ
  set_state target = set_boot_mode target >>? wait_for_notification >>? check_state target
