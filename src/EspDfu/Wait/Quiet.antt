-- ===== src/EspDfu/Wait/Quiet.antt =====
-- server/esp-dfu.c: the waits and state checks, compared on two worlds that differ in the events
-- only.
use fcp_support.Base.{ℕ, zero, suc, List, [], ◌∷◌, Bool, true, false, Res, ok, err, Ioctl, Hw}
use fcp_support.Base.{ℤ, pos, is_neg, eqb_ℤ, ◌≡◌, refl, ap, arith}
use mathlib.Core.Path.{subst}
use fcp_support.Base.State.{St, pure, ◌>>=◌}
use fcp_support.Protocol.{err_fcp}
use fcp_support.Fcp.Data.{data_read, data_write, data_notify}
use fcp_support.EspDfu.{EspConfig, WaitEvent, World, on_device, checked, ◌>>?◌}
use fcp_support.EspDfu.{
  expired, idle, interrupted, select_failed, not_ready, read_failed, notification,
}
use fcp_support.EspDfu.Wait.{
  fcp_code, stored, wait_loop, get_state, set_boot_mode, get_dfu_notify, clear_dfu_notify,
  wait_for_notification, check_state_loop, check_state, dfu_notify_loop, wait_for_dfu_notify,
  set_state, notify_boot_mode, until,
}

module _ {D : Type 0} where
  -- The same device, and the same was sent to the sockets.
  pub record Same (v w : World D) : Type 0 where
    pub same_dev : v.dev ≡ w.dev
    pub same_log : v.log ≡ w.log

  -- The result and all but the events do not depend on the events.
  abbrev pub Blind : {A : Type 0} → St (World D) A → Type 0
  Blind m = (v w : World D) → Same v w → ((m v).0 ≡ (m w).0) × Same (m v).1 (m w).1

  -- The code may depend on the events, but is never below 0.
  pub record IsQuiet (r s : ℤ × World D) : Type 0 where
    pub left_not_neg : is_neg r.0 ≡ false
    pub right_not_neg : is_neg s.0 ≡ false
    pub same : Same r.1 s.1

  abbrev pub Quiet : St (World D) ℤ → Type 0
  Quiet m = (v w : World D) → Same v w → IsQuiet (m v) (m w)

  pub pure-Blind : {A : Type 0} (a : A) → Blind (pure a)
  pure-Blind a v w s = (refl, s)

  pub on_device-Blind : {A : Type 0} (m : Hw D A) → Blind (on_device m)
  unfolding on_device
  on_device-Blind m v w s = ground (arith, ap m s.same_dev)

  pub bind-Blind :
      {A B : Type 0} (m : St (World D) A) (f : A → St (World D) B)
      → Blind m
      → ((a : A) → Blind (f a))
      → Blind (m >>= f)
  bind-Blind m f hm hf v w s =
      let (e, s') = hm v w s in
      subst
        (λ a.
          ((f (m v).0 (m v).1).0 ≡ (f a (m w).1).0) × Same (f (m v).0 (m v).1).1 (f a (m w).1).1)
        e (hf (m v).0 (m v).1 (m w).1 s')

  pub bind-Quiet :
      {A : Type 0} (m : St (World D) A) (f : A → St (World D) ℤ)
      → Blind m
      → ((a : A) → Quiet (f a))
      → Quiet (m >>= f)
  bind-Quiet m f hm hf v w s =
      let (e, s') = hm v w s in
      subst (λ a. IsQuiet (f (m v).0 (m v).1) (f a (m w).1)) e (hf (m v).0 (m v).1 (m w).1 s')

  -- `if (err < 0)` is not taken after a quiet `m`.
  pub checked-Blind :
      {A : Type 0} (m : St (World D) ℤ) (bail : ℤ → St (World D) A) (k : St (World D) A)
      → Quiet m
      → Blind k
      → Blind (checked m bail k)
  checked-Blind m bail k hm hk v w s =
      let q = hm v w s in rw (q.left_not_neg, q.right_not_neg) (hk (m v).1 (m w).1 q.same)

  pub checked-Quiet :
      (m : St (World D) ℤ) (bail : ℤ → St (World D) ℤ) (k : St (World D) ℤ)
      → Quiet m
      → Quiet k
      → Quiet (checked m bail k)
  checked-Quiet m bail k hm hk v w s =
      let q = hm v w s in rw (q.left_not_neg, q.right_not_neg) (hk (m v).1 (m w).1 q.same)

  -- A fixed code that is not negative.
  pub code-Quiet : (n : ℕ) → Quiet (pure (pos n))
  code-Quiet n v w s = record { left_not_neg = refl; right_not_neg = refl; same = s }

  pub fcp_code-Quiet : {A : Type 0} (r : Res A) → Quiet (pure (fcp_code r))
  fcp_code-Quiet (ok a) = code-Quiet 0
  fcp_code-Quiet (err e) = code-Quiet 7

pub wait_loop_not_neg : (mask : ℕ) (es : List WaitEvent) → is_neg (wait_loop mask es).0 ≡ false
unfolding wait_loop
wait_loop_not_neg mask [] = refl
wait_loop_not_neg mask (expired ∷ es) = refl
wait_loop_not_neg mask (idle ∷ es) = refl
wait_loop_not_neg mask (interrupted ∷ es) = wait_loop_not_neg mask es
wait_loop_not_neg mask (select_failed ∷ es) = refl
wait_loop_not_neg mask (not_ready ∷ es) = wait_loop_not_neg mask es
wait_loop_not_neg mask (read_failed ∷ es) = refl
wait_loop_not_neg mask (notification n ∷ es) = ground (arith, wait_loop_not_neg mask es)

module _ {D : Type 0} (ioctl : Ioctl D) (cfg : EspConfig) (junk : ℤ) where
  pub get_state-Blind : (old : ℤ) → Blind (get_state ioctl cfg junk old)
  unfolding get_state
  get_state-Blind old =
      bind-Blind _ _ (on_device-Blind (data_read ioctl cfg.offset_state 1 false))
        (λ r. pure-Blind (fcp_code r, stored old r))

  get_dfu_notify-Blind : (old : ℤ) → Blind (get_dfu_notify ioctl cfg junk old)
  unfolding get_dfu_notify
  get_dfu_notify-Blind old =
      bind-Blind _ _ (on_device-Blind (data_read ioctl cfg.offset_dfu_notify 1 false))
        (λ r. pure-Blind (fcp_code r, stored old r))

  clear_dfu_notify-Quiet : Quiet (clear_dfu_notify ioctl cfg junk)
  unfolding clear_dfu_notify
  clear_dfu_notify-Quiet =
      bind-Quiet _ _ (on_device-Blind (data_write ioctl cfg.offset_dfu_notify 1 cfg.notify_clear))
        fcp_code-Quiet

  notify_boot_mode-Quiet : (r : Res (Unit {0})) → Quiet (notify_boot_mode ioctl cfg junk r)
  unfolding notify_boot_mode
  notify_boot_mode-Quiet (err e) = code-Quiet 7
  notify_boot_mode-Quiet (ok u) =
      bind-Quiet _ (λ n. pure (fcp_code n)) (on_device-Blind (data_notify ioctl cfg.esp_boot_mode))
        fcp_code-Quiet

  set_boot_mode-Quiet : (mode : ℤ) → Quiet (set_boot_mode ioctl cfg junk mode)
  unfolding set_boot_mode
  set_boot_mode-Quiet mode =
      bind-Quiet _ (notify_boot_mode ioctl cfg junk)
        (on_device-Blind (data_write ioctl cfg.offset_boot_mode 1 mode)) notify_boot_mode-Quiet

  pub wait_for_notification-Quiet : Quiet (wait_for_notification ioctl cfg junk)
  unfolding wait_for_notification
  wait_for_notification-Quiet v w s = record {
    left_not_neg = wait_loop_not_neg cfg.dfu_change v.events;
    right_not_neg = wait_loop_not_neg cfg.dfu_change w.events;
    same = record { same_dev = s.same_dev; same_log = s.same_log };
  }

  until-Quiet : (b : Bool) (k : St (World D) ℤ) → Quiet k → Quiet (until ioctl cfg junk b k)
  until-Quiet true k h = code-Quiet 0
  until-Quiet false k h = h

  module _ (expected old : ℤ) (k : ℤ → St (World D) ℤ) where
    -- A round of `check_esp_state`, whatever the rounds after it are.
    unfoldable pub state_round : Res ℤ → St (World D) ℤ
    state_round r =
        pure (fcp_code r)
        >>? until ioctl cfg junk (eqb_ℤ (stored old r) expected) (k (stored old r))

    -- A round of `wait_for_esp_dfu_notify` after its wait.
    unfoldable pub notify_round : Res ℤ → St (World D) ℤ
    notify_round r =
        checked (pure (fcp_code r)) (λ _. pure err_fcp)
          (checked (clear_dfu_notify ioctl cfg junk) (λ _. pure err_fcp)
            (until ioctl cfg junk (eqb_ℤ (stored old r) expected) (k (stored old r))))

  module _ (expected old : ℤ) (k : ℤ → St (World D) ℤ) (hk : (now : ℤ) → Quiet (k now)) where
    state_round-Quiet :
        Quiet (on_device (data_read ioctl cfg.offset_state 1 false) >>= state_round expected old k)
    unfolding state_round
    state_round-Quiet =
        bind-Quiet _ (state_round expected old k)
          (on_device-Blind (data_read ioctl cfg.offset_state 1 false))
          λ r.
            checked-Quiet (pure (fcp_code r)) pure _ (fcp_code-Quiet r)
              (until-Quiet (eqb_ℤ (stored old r) expected) (k (stored old r)) (hk (stored old r)))

    notify_round-Quiet :
        Quiet (
          on_device (data_read ioctl cfg.offset_dfu_notify 1 false) >>= notify_round expected old k)
    unfolding notify_round
    notify_round-Quiet =
        bind-Quiet _ (notify_round expected old k)
          (on_device-Blind (data_read ioctl cfg.offset_dfu_notify 1 false))
          λ r.
            checked-Quiet (pure (fcp_code r)) (λ _. pure err_fcp) _ (fcp_code-Quiet r)
              (checked-Quiet (clear_dfu_notify ioctl cfg junk) (λ _. pure err_fcp) _
                clear_dfu_notify-Quiet
                (until-Quiet (eqb_ℤ (stored old r) expected) (k (stored old r))
                  (hk (stored old r))))

  check_state_loop-Quiet :
      (left : ℕ) (expected old : ℤ) → Quiet (check_state_loop ioctl cfg junk left expected old)
  unfolding check_state_loop get_state state_round
  check_state_loop-Quiet zero expected old = code-Quiet 12
  check_state_loop-Quiet (suc left) expected old =
      state_round-Quiet expected old (check_state_loop ioctl cfg junk left expected)
        (check_state_loop-Quiet left expected)

  pub check_state-Quiet : (expected : ℤ) → Quiet (check_state ioctl cfg junk expected)
  unfolding check_state
  check_state-Quiet expected = check_state_loop-Quiet 5 expected junk

  dfu_notify_loop-Quiet :
      (left : ℕ) (expected old : ℤ) → Quiet (dfu_notify_loop ioctl cfg junk left expected old)
  unfolding dfu_notify_loop get_dfu_notify notify_round
  dfu_notify_loop-Quiet zero expected old = code-Quiet 8
  dfu_notify_loop-Quiet (suc left) expected old =
      checked-Quiet (wait_for_notification ioctl cfg junk) pure _ wait_for_notification-Quiet (
        notify_round-Quiet expected old (dfu_notify_loop ioctl cfg junk left expected)
          (dfu_notify_loop-Quiet left expected))

  pub wait_for_dfu_notify-Quiet :
      (expected : ℤ) → Quiet (wait_for_dfu_notify ioctl cfg junk expected)
  unfolding wait_for_dfu_notify
  wait_for_dfu_notify-Quiet expected = dfu_notify_loop-Quiet 5 expected junk

  pub set_state-Quiet : (target : ℤ) → Quiet (set_state ioctl cfg junk target)
  unfolding set_state
  set_state-Quiet target =
      checked-Quiet (set_boot_mode ioctl cfg junk target) pure _ (set_boot_mode-Quiet target) (
        checked-Quiet (wait_for_notification ioctl cfg junk) pure _ wait_for_notification-Quiet
          (check_state-Quiet target))
