-- ===== src/Device/Functions.antt =====
-- server/device.h: what the function pointers of a control lead to, in server/control-utils.c,
-- server/mix.c, server/mux.c and server/sync.c.
use fcp_support.Base.{
  ℕ, List, [], ◌∷◌, Option, none, some, Res, ok, err, Hw, Ioctl, ℤ, pos, pos_part,
}
use fcp_support.Base.{pure, ◌>>=◌, if◌then◌else◌}
use fcp_support.Fcp.Misc.{sync_read}
use fcp_support.Control.{
  Props, Func, no_func, data_control, volume_control, bitmap_control, mix_control, mux_control,
  sync_control,
}
use fcp_support.Control.Values.{
  refuse, read_data_control, write_data_control, read_bitmap_data_control,
  write_bitmap_data_control,
}
use fcp_support.Mix.{Mixer, read_mix_control, write_mix_control}
use fcp_support.Mux.{Mux, read_mux_control, write_mux_control}
use fcp_support.Device.{Backend, on_dev}

module _ {D : Type 0} where
  abbrev pub mixer_of : Backend D → Mixer D
  mixer_of x = record { dev = x.dev; input_count = x.mix_input_count; cache = x.mix_cache }

  abbrev pub mux_of : Backend D → Mux D
  mux_of x = record {
    dev = x.dev;
    mux_size = x.mux.mux_size;
    values = x.mux.values;
    input_router_pin = x.mux.input_router_pin;
    output_router_slots = x.mux.output_router_slots;
    output_fixed_input = x.mux.output_fixed_input;
    dirty = x.mux.dirty;
  }

  abbrev pub keep_mixer : {A : Type 0} → Backend D → A × Mixer D → A × Backend D
  keep_mixer x (r, m) = (r, record x { dev = m.dev; mix_cache = m.cache })

  abbrev pub keep_mux : {A : Type 0} → Backend D → A × Mux D → A × Backend D
  keep_mux x (r, m) = (
    r,
    record x {
      dev = m.dev;
      mux = record {
        dev = tt;
        mux_size = m.mux_size;
        values = m.values;
        input_router_pin = m.input_router_pin;
        output_router_slots = m.output_router_slots;
        output_fixed_input = m.output_fixed_input;
        dirty = m.dirty;
      };
    },
  )

  abbrev pub one_value : Res ℕ × Backend D → Res (List ℤ) × Backend D
  one_value (ok v, x) = (ok (pos v ∷ []), x)
  one_value (err e, x) = (err e, x)

  module _ (ioctl : Ioctl D) where
    -- `read_sync_control`
    unfoldable pub read_sync_control : Hw D (List ℤ)
    read_sync_control = do v ← sync_read ioctl; pure (pos (if v then 1 else 0) ∷ [])

    -- `props->read_func(device, props, values)`. Every control but those of type BYTES has one.
    unfoldable pub call_read_func : Func → Props → Hw (Backend D) (List ℤ)
    unfolding on_dev read_sync_control
    call_read_func no_func p = refuse
    call_read_func data_control p = on_dev (read_data_control ioctl p)
    call_read_func volume_control p = on_dev (read_data_control ioctl p)
    call_read_func bitmap_control p = on_dev (read_bitmap_data_control ioctl p)
    call_read_func sync_control p = on_dev read_sync_control
    call_read_func mix_control p =
        λ x. one_value (keep_mixer x (read_mix_control ioctl p.offset (mixer_of x)))
    call_read_func mux_control p =
        λ x. one_value (keep_mux x (read_mux_control ioctl p.offset (mux_of x)))

    abbrev pub keep_some :
        Backend D → Option (Res (Unit {0}) × Mux D) → Option (Res (Unit {0}) × Backend D)
    keep_some x none = none
    keep_some x (some p) = some (keep_mux x p)

    -- `props->write_func(device, props, value)`, but for volumes, which need the table of controls.
    -- `none` is behaviour that C does not define. ALSA keeps the value of a mixer or router control in
    -- its range, from 0 on.
    unfoldable pub call_write_func :
        Func → Props → ℤ → Backend D → Option (Res (Unit {0}) × Backend D)
    unfolding on_dev
    call_write_func no_func p v x = none
    call_write_func data_control p v x = some (on_dev (write_data_control ioctl p v) x)
    call_write_func volume_control p v x = some (on_dev (write_data_control ioctl p v) x)
    call_write_func bitmap_control p v x = some (on_dev (write_bitmap_data_control ioctl p v) x)
    call_write_func sync_control p v x = none
    call_write_func mix_control p v x =
        some (keep_mixer x (write_mix_control ioctl p.offset (pos_part v) (mixer_of x)))
    call_write_func mux_control p v x =
        keep_some x (write_mux_control ioctl p.offset (pos_part v) (mux_of x))
