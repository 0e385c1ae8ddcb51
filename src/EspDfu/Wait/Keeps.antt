-- ===== src/EspDfu/Wait/Keeps.antt =====
-- server/esp-dfu.c: the waits and state checks against a property of the device that every command
-- but the write of a DFU block keeps.
use fcp_support.Base.{ℕ, zero, suc, List, Bool, true, false, Res, ok, err, Ioctl, Hw}
use fcp_support.Base.{ℤ, pos, is_neg, eqb_ℤ, ◌≡◌, refl, ◌≢◌, arith}
use fcp_support.Fcp.Effects.{data_read_state, data_write_state, data_notify_state}
use fcp_support.Base.State.{St, pure, ◌>>=◌}
use fcp_support.Protocol.{err_fcp}
use fcp_support.Fcp.{opcode_esp_dfu_write}
use fcp_support.Fcp.Data.{data_read, data_write, data_notify}
use fcp_support.EspDfu.{EspConfig, World, on_device, checked}
use fcp_support.EspDfu.Wait.{
  fcp_code, stored, get_state, set_boot_mode, get_dfu_notify, clear_dfu_notify,
  wait_for_notification, check_state_loop, check_state, dfu_notify_loop, wait_for_dfu_notify,
  set_state, notify_boot_mode, until,
}
use fcp_support.EspDfu.Wait.Quiet.{wait_loop_not_neg, state_round, notify_round}

module _ {D : Type 0} (P : D → Type 0) where
  abbrev pub Keeps : {A : Type 0} → St (World D) A → Type 0
  Keeps m = (w : World D) → P w.dev → P (m w).1.dev

  -- It keeps `P`, and its code is not below 0.
  abbrev pub Calm : St (World D) ℤ → Type 0
  Calm m = (w : World D) → P w.dev → (is_neg (m w).0 ≡ false) × P (m w).1.dev

  pub on_device-Keeps :
      {A : Type 0} (m : Hw D A) → ((d : D) → P d → P (m d).1) → Keeps (on_device m)
  unfolding on_device
  on_device-Keeps m h w p = h w.dev p

  pub bind-Calm :
      {A : Type 0} (m : St (World D) A) (f : A → St (World D) ℤ)
      → Keeps m
      → ((a : A) → Calm (f a))
      → Calm (m >>= f)
  bind-Calm m f hm hf w p = hf (m w).0 (m w).1 (hm w p)

  pub checked-Calm :
      (m : St (World D) ℤ) (bail : ℤ → St (World D) ℤ) (k : St (World D) ℤ)
      → Calm m
      → Calm k
      → Calm (checked m bail k)
  checked-Calm m bail k hm hk w p = let (n, p') = hm w p in rw n (hk (m w).1 p')

  pub code-Calm : (n : ℕ) → Calm (pure (pos n))
  code-Calm n w p = (refl, p)

  pub fcp_code-Calm : {A : Type 0} (r : Res A) → Calm (pure (fcp_code r))
  fcp_code-Calm (ok a) = code-Calm 0
  fcp_code-Calm (err e) = code-Calm 7

-- A driver under which `P` outlives every command but the write of a DFU block.
abbrev pub Outlives : {D : Type 0} → Ioctl D → (D → Type 0) → Type 0
Outlives {D} ioctl P =
    (op : ℕ) (req : List ℕ) (size : ℕ) (d : D)
    → op ≢ opcode_esp_dfu_write
    → P d
    → P (ioctl op req size d).1

module _ {D : Type 0} (ioctl : Ioctl D) (P : D → Type 0) (outlives : Outlives ioctl P) where
  read-keeps :
      (offset size : ℕ) (signed : Bool) (d : D) → P d → P (data_read ioctl offset size signed d).1
  read-keeps offset size signed d p =
      rw (data_read_state ioctl offset size signed d) (outlives _ _ _ d (omega arith) p)

  write-keeps : (offset size : ℕ) (v : ℤ) (d : D) → P d → P (data_write ioctl offset size v d).1
  write-keeps offset size v d p =
      rw (data_write_state ioctl offset size v d) (outlives _ _ _ d (omega arith) p)

  notify-keeps : (event : ℕ) (d : D) → P d → P (data_notify ioctl event d).1
  notify-keeps event d p = rw (data_notify_state ioctl event d) (outlives _ _ _ d (omega arith) p)

  module _ (cfg : EspConfig) (junk : ℤ) where
    pub get_state-Keeps : (old : ℤ) → Keeps P (get_state ioctl cfg junk old)
    unfolding get_state
    get_state-Keeps old =
        on_device-Keeps P (data_read ioctl cfg.offset_state 1 false)
          (read-keeps cfg.offset_state 1 false)

    clear_dfu_notify-Calm : Calm P (clear_dfu_notify ioctl cfg junk)
    unfolding clear_dfu_notify
    clear_dfu_notify-Calm =
        bind-Calm P (on_device (data_write ioctl cfg.offset_dfu_notify 1 cfg.notify_clear))
          (λ r. pure (fcp_code r))
          (on_device-Keeps P _ (write-keeps cfg.offset_dfu_notify 1 cfg.notify_clear))
          (fcp_code-Calm P)

    notify_boot_mode-Calm : (r : Res (Unit {0})) → Calm P (notify_boot_mode ioctl cfg junk r)
    unfolding notify_boot_mode
    notify_boot_mode-Calm (err e) = code-Calm P 7
    notify_boot_mode-Calm (ok u) =
        bind-Calm P (on_device (data_notify ioctl cfg.esp_boot_mode)) (λ n. pure (fcp_code n))
          (on_device-Keeps P _ (notify-keeps cfg.esp_boot_mode)) (fcp_code-Calm P)

    set_boot_mode-Calm : (mode : ℤ) → Calm P (set_boot_mode ioctl cfg junk mode)
    unfolding set_boot_mode
    set_boot_mode-Calm mode =
        bind-Calm P (on_device (data_write ioctl cfg.offset_boot_mode 1 mode))
          (notify_boot_mode ioctl cfg junk)
          (on_device-Keeps P _ (write-keeps cfg.offset_boot_mode 1 mode)) notify_boot_mode-Calm

    pub wait_for_notification-Calm : Calm P (wait_for_notification ioctl cfg junk)
    unfolding wait_for_notification
    wait_for_notification-Calm w p = (wait_loop_not_neg cfg.dfu_change w.events, p)

    until-Calm : (b : Bool) (k : St (World D) ℤ) → Calm P k → Calm P (until ioctl cfg junk b k)
    until-Calm true k h = code-Calm P 0
    until-Calm false k h = h

    module _ (expected old : ℤ) (k : ℤ → St (World D) ℤ) (hk : (now : ℤ) → Calm P (k now)) where
      state_round-Calm : Calm P (
          on_device (data_read ioctl cfg.offset_state 1 false)
          >>= state_round ioctl cfg junk expected old k)
      unfolding state_round
      state_round-Calm =
          bind-Calm P _ (state_round ioctl cfg junk expected old k)
            (on_device-Keeps P _ (read-keeps cfg.offset_state 1 false))
            λ r.
              checked-Calm P (pure (fcp_code r)) pure _ (fcp_code-Calm P r)
                (until-Calm (eqb_ℤ (stored old r) expected) (k (stored old r)) (hk (stored old r)))

      notify_round-Calm : Calm P (
          on_device (data_read ioctl cfg.offset_dfu_notify 1 false)
          >>= notify_round ioctl cfg junk expected old k)
      unfolding notify_round
      notify_round-Calm =
          bind-Calm P _ (notify_round ioctl cfg junk expected old k)
            (on_device-Keeps P _ (read-keeps cfg.offset_dfu_notify 1 false))
            λ r.
              checked-Calm P (pure (fcp_code r)) (λ _. pure err_fcp) _ (fcp_code-Calm P r)
                (checked-Calm P (clear_dfu_notify ioctl cfg junk) (λ _. pure err_fcp) _
                  clear_dfu_notify-Calm
                  (until-Calm (eqb_ℤ (stored old r) expected) (k (stored old r))
                    (hk (stored old r))))

    check_state_loop-Calm :
        (left : ℕ) (expected old : ℤ) → Calm P (check_state_loop ioctl cfg junk left expected old)
    unfolding check_state_loop get_state state_round
    check_state_loop-Calm zero expected old = code-Calm P 12
    check_state_loop-Calm (suc left) expected old =
        state_round-Calm expected old (check_state_loop ioctl cfg junk left expected)
          (check_state_loop-Calm left expected)

    pub check_state-Calm : (expected : ℤ) → Calm P (check_state ioctl cfg junk expected)
    unfolding check_state
    check_state-Calm expected = check_state_loop-Calm 5 expected junk

    dfu_notify_loop-Calm :
        (left : ℕ) (expected old : ℤ) → Calm P (dfu_notify_loop ioctl cfg junk left expected old)
    unfolding dfu_notify_loop get_dfu_notify notify_round
    dfu_notify_loop-Calm zero expected old = code-Calm P 8
    dfu_notify_loop-Calm (suc left) expected old =
        checked-Calm P (wait_for_notification ioctl cfg junk) pure _ wait_for_notification-Calm (
          notify_round-Calm expected old (dfu_notify_loop ioctl cfg junk left expected)
            (dfu_notify_loop-Calm left expected))

    pub wait_for_dfu_notify-Calm :
        (expected : ℤ) → Calm P (wait_for_dfu_notify ioctl cfg junk expected)
    unfolding wait_for_dfu_notify
    wait_for_dfu_notify-Calm expected = dfu_notify_loop-Calm 5 expected junk

    pub set_state-Calm : (target : ℤ) → Calm P (set_state ioctl cfg junk target)
    unfolding set_state
    set_state-Calm target =
        checked-Calm P (set_boot_mode ioctl cfg junk target) pure _ (set_boot_mode-Calm target) (
          checked-Calm P (wait_for_notification ioctl cfg junk) pure _ wait_for_notification-Calm
            (check_state-Calm target))
