-- ===== src/Controls/Startup/Room.antt =====
-- server/device-ops.c: the table that `device_init_controls` leaves.
use mathlib.Core.Path.{subst}
use fcp_support.Base.{
  ℕ, Bool-cases, Option, none, some, Res, err, ◌≡◌, refl, sym, arith, inl, inr, einval, if_true,
  if_false,
}
use fcp_support.Fcp.Misc.{cap_read}
use fcp_support.Device.{Device, on_dev, init_control_manager}
use fcp_support.Device.Change.{Handled, then_some}
use fcp_support.Device.Table.{IsRoomy}
use fcp_support.Controls.Mixer.{add_sync_control, add_mix_controls}
use fcp_support.Controls.Router.{add_mux_controls}
use fcp_support.Controls.Inputs.{init_input_controls}
use fcp_support.Controls.Outputs.{init_output_controls}
use fcp_support.Controls.Global.{init_global_controls}
use fcp_support.Controls.Kept.{
  IsKept, Keeps, IsKept-trans, then_some-Keeps, init_input_controls-Keeps,
}
use fcp_support.Controls.Kept.Output.{init_output_controls-Keeps}
use fcp_support.Controls.Kept.Optional.{
  same_table-IsKept, add_sync_control-IsKept, add_mix_controls-IsKept,
}
use fcp_support.Controls.Kept.Router.{add_mux_controls-IsKept}
use fcp_support.Controls.Kept.Global.{init_global_controls-Keeps}
use fcp_support.Controls.Startup.{
  Startup, device_init_controls, init_optional, init_configured, configured, emptied, required,
  optional, and_then, is_supported, keep_dev, category_init, category_data, category_sync,
  category_meter, category_mix, category_mux, add_meters,
}

module _ {D : Type 0} (startup : Startup D) where
  -- What a part of the start-up leaves keeps the controls.
  pub record KeepsSome (x : Device D) (o : Option (Device D)) : Type 0 where
    pub keeps : (y : Device D) → o ≡ some y → IsKept x y

  pub injected : {A : Type 0} {a b : A} → some a ≡ some b → a ≡ b
  injected e = cc e

  pub some-KeepsSome : (x y : Device D) → IsKept x y → KeepsSome x (some y)
  some-KeepsSome x y k = record { keeps = λ z e. subst (IsKept x) (injected e) k }

  and_then-KeepsSome :
      (x : Device D) (o : Option (Device D)) (f : Device D → Option (Device D))
      → KeepsSome x o
      → ((y : Device D) → KeepsSome y (f y))
      → KeepsSome x (and_then startup o f)
  and_then-KeepsSome x none f h k = record { keeps = λ y e. absurd cc }
  and_then-KeepsSome x (some z) f h k = record {
    keeps = λ y e. IsKept-trans x z y (h.keeps z refl) ((k z).keeps y e);
  }

  optional-KeepsSome :
      (category : ℕ) (f : Device D → Option (Device D)) (x : Device D)
      → ((y : Device D) → KeepsSome y (f y))
      → KeepsSome x (optional startup category f x)
  unfolding on_dev
  optional-KeepsSome category f x k =
      let q = cap_read (startup.sources.ioctl) category x.backend.dev in
      let y = keep_dev startup x (record (x.backend) { dev = q.1 }) in
      elim (Bool-cases (is_supported startup q.0)) [
        | inl here ↦ subst (KeepsSome x) (sym (if_true (is_supported startup q.0) _ _ here)) (
            and_then-KeepsSome x (some y) f (some-KeepsSome x y (same_table-IsKept x y refl refl))
              k)
        | inr nowhere ↦
            subst (KeepsSome x) (sym (if_false (is_supported startup q.0) _ _ nowhere))
              (some-KeepsSome x y (same_table-IsKept x y refl refl))
      ]

  -- The optional subsystems after the sync status.
  abbrev pub later_optional : Option (Device D) → Option (Device D)
  later_optional o =
      and_then startup
        (and_then startup
          (and_then startup o (optional startup category_meter (λ y. some (add_meters startup y))))
          (optional startup category_mix (λ y. some (add_mix_controls (startup.sources) y))))
        (optional startup category_mux (add_mux_controls (startup.sources)))

  pub later_optional-KeepsSome :
      (x : Device D) (o : Option (Device D)) → KeepsSome x o → KeepsSome x (later_optional o)
  unfolding add_meters
  later_optional-KeepsSome x o h =
      and_then-KeepsSome x _ _
        (and_then-KeepsSome x _ _
          (and_then-KeepsSome x o _ h (λ y. optional-KeepsSome category_meter _ y (λ z.
            some-KeepsSome z (add_meters startup z)
              (same_table-IsKept z (add_meters startup z) refl refl))))
          (λ y.
            optional-KeepsSome category_mix _ y
              (λ z. some-KeepsSome z _ (add_mix_controls-IsKept (startup.sources) z))))
        (λ y.
          optional-KeepsSome category_mux _ y
            (λ z. record { keeps = add_mux_controls-IsKept (startup.sources) z }))

  init_optional-KeepsSome : (x : Device D) → KeepsSome x (init_optional startup x)
  unfolding init_optional
  init_optional-KeepsSome x =
      later_optional-KeepsSome x
        (optional startup category_sync (λ y. some (add_sync_control (startup.sources) y)) x)
        (optional-KeepsSome category_sync _ x
          (λ y. some-KeepsSome y _ (add_sync_control-IsKept (startup.sources) y)))

  init_configured-Keeps : (x : Device D) → Keeps x (init_configured startup x)
  unfolding init_configured
  init_configured-Keeps x =
      then_some-Keeps x
        (then_some (init_input_controls (startup.sources) x)
          (init_output_controls (startup.sources)))
        (init_global_controls (startup.sources))
        (then_some-Keeps x (init_input_controls (startup.sources) x)
          (init_output_controls (startup.sources)) (init_input_controls-Keeps (startup.sources) x)
          (init_output_controls-Keeps (startup.sources)))
        (init_global_controls-Keeps (startup.sources))

  pub configured-Keeps :
      (x : Device D) (o : Option (Device D)) → KeepsSome x o → Keeps x (configured startup o)
  configured-Keeps x none h = record { keeps = λ r y e. absurd cc }
  configured-Keeps x (some z) h = record {
    keeps = λ r y e. IsKept-trans x z y (h.keeps z refl) ((init_configured-Keeps z).keeps r y e);
  }

  returned-Keeps : (x y : Device D) (s : Res (Unit {0})) → IsKept x y → Keeps x (some (s, y))
  returned-Keeps x y s k = record {
    keeps = λ r z e.
        subst (λ (p : Res (Unit {0}) × Device D). IsKept x p.1) {x = (s, y)} {y = (r, z)}
          (injected e) k;
  }

  from-Keeps : (x y : Device D) (h : Handled D) → IsKept x y → Keeps y h → Keeps x h
  from-Keeps x y h k l = record { keeps = λ r z e. IsKept-trans x y z k (l.keeps r z e) }

  required-Keeps :
      (category : ℕ) (f : Device D → Handled D) (x : Device D)
      → ((y : Device D) → Keeps y (f y))
      → Keeps x (required startup category x f)
  unfolding on_dev
  required-Keeps category f x k =
      let q = cap_read (startup.sources.ioctl) category x.backend.dev in
      let y = keep_dev startup x (record (x.backend) { dev = q.1 }) in
      elim (Bool-cases (is_supported startup q.0)) [
        | inl here ↦
            subst (Keeps x) (sym (if_true (is_supported startup q.0) _ _ here))
              (from-Keeps x y (f y) (same_table-IsKept x y refl refl) (k y))
        | inr nowhere ↦
            subst (Keeps x) (sym (if_false (is_supported startup q.0) _ _ nowhere))
              (returned-Keeps x y (err einval) (same_table-IsKept x y refl refl))
      ]

  device_init_controls-Keeps :
      (x : Device D) → Keeps (emptied startup x) (device_init_controls startup x)
  unfolding device_init_controls
  device_init_controls-Keeps x = required-Keeps category_init _ (emptied startup x) (λ y.
      required-Keeps category_data _ y
        (λ z. configured-Keeps z (init_optional startup z) (init_optional-KeepsSome z)))

  -- Whenever `device_init_controls` returns, with success or with an error, whatever the device, the driver,
  -- ALSA and the two maps say, the table of controls has room for all controls that it has.
  pub device_init_controls-IsRoomy :
      (x : Device D) (r : Res (Unit {0})) (y : Device D)
      → device_init_controls startup x ≡ some (r, y)
      → IsRoomy y
  unfolding emptied init_control_manager
  device_init_controls-IsRoomy x r y e =
      ((device_init_controls-Keeps x).keeps r y e).roomy
        (record { room = omega arith; fits = omega arith })
