-- ===== src/EspDfu.antt =====
-- server/esp-dfu.c: the update of the ESP firmware. Its parts:
-- Config reads the device map, Wait the waits for notifications, Update the update itself.

pub mod Config
pub mod Wait
pub mod Update
use fcp_support.Base.{ℕ, List, Hw, Res, ℤ, is_neg, if◌then◌else◌}
use fcp_support.Base.State.{St, pure, ◌>>=◌}
use fcp_support.Protocol.{Effect}

-- `struct esp_dfu_config`
pub record EspConfig : Type 0 where
  pub state_off : ℤ
  pub state_dfu : ℤ
  pub state_normal : ℤ
  pub notify_clear : ℤ
  pub notify_next_block : ℤ
  pub notify_finish : ℤ
  pub notify_error : ℤ
  pub offset_state : ℕ
  pub offset_boot_mode : ℕ
  pub offset_dfu_notify : ℕ
  pub dfu_change : ℕ
  pub esp_boot_mode : ℕ

-- What one round of `wait_for_esp_notification` meets: the ten seconds are over, `select` times out,
-- is interrupted or fails, the descriptor is not ready, the read fails or gives a notification.
pub data WaitEvent : Type 0 where
  expired idle interrupted select_failed not_ready read_failed : WaitEvent
  notification : ℕ → WaitEvent

-- The device, what the waits to come will meet, and what was done to the sockets so far.
pub record World (D : Type 0) : Type 0 where
  pub dev : D
  pub events : List WaitEvent
  pub log : List Effect

unfoldable pub on_device : {D A : Type 0} → Hw D A → St (World D) (Res A)
on_device m w = let (r, d) = m w.dev in (r, record w { dev = d })

module _ {S : Type 0} where
  -- `err = m; if (err < 0) bail(err); k`
  abbrev pub checked : {A : Type 0} → St S ℤ → (ℤ → St S A) → St S A → St S A
  checked m bail k = m >>= λ code. if is_neg code then bail code else k

  -- `err = m; if (err < 0) return err; k`
  infixr 4 ◌>>?◌
  abbrev pub ◌>>?◌ : St S ℤ → St S ℤ → St S ℤ
  m >>? k = checked m pure k
