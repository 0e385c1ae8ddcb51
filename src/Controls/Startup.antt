-- ===== src/Controls/Startup.antt =====
-- server/device-ops.c: `device_init_controls`, which fills the table of controls, and the configuration
-- that it works from.
pub mod Room
pub mod Sync
use Prim.Native.String.{String}
use fcp_support.Base.{
  ℕ, List, [], ◌∷◌, Bool, true, false, Option, none, some, Res, ok, err, Hw, Ioctl, ltb, einval,
  enoent, if◌then◌else◌, length, take, ℤ, ◌==◌,
}
use fcp_support.Fcp.Misc.{cap_read}
use fcp_support.Device.{Backend, Device, Alsa, on_dev, init_control_manager}
use fcp_support.Device.Change.{Handled, then_some}
use fcp_support.Controls.{Sources}
use fcp_support.Controls.Inputs.{init_input_controls}
use fcp_support.Controls.Outputs.{init_output_controls}
use fcp_support.Controls.Global.{init_global_controls}
use fcp_support.Controls.Mixer.{add_sync_control, add_mix_controls}
use fcp_support.Controls.Router.{add_mux_controls}
use fcp_support.Controls.Meters.{MeterIoctls, add_meter_control}

-- FCP_OPCODE_CATEGORY_*
abbrev pub category_init : ℕ
category_init = 0x000

abbrev pub category_meter : ℕ
category_meter = 0x001

abbrev pub category_mix : ℕ
category_mix = 0x002

abbrev pub category_mux : ℕ
category_mux = 0x003

abbrev pub category_sync : ℕ
category_sync = 0x006

abbrev pub category_data : ℕ
category_data = 0x800

-- What the start-up needs of the driver and of ALSA besides the rest: the ioctls of the meters, the
-- control elements of the card, and whether one is a user's. A name stands for an element's id.
pub record Startup (D : Type 0) : Type 1 where
  pub sources : Sources D
  pub meters : MeterIoctls D
  -- `snd_ctl_elem_list`
  pub elem_list : Hw D (List String)
  -- `snd_ctl_elem_info` and `snd_ctl_elem_info_is_user`
  pub elem_is_user : String → Hw D Bool
  -- what `num_meter_slots` holds when it is not set
  pub junk : ℤ

module _ {D : Type 0} (startup : Startup D) where
  open startup use {sources, meters, elem_list, elem_is_user, junk}

  abbrev removed_if : String → Res Bool × D → D
  removed_if id (err e, d) = d
  removed_if id (ok false, d) = d
  removed_if id (ok true, d) = sources.alsa.elem_remove id d

  -- "Remove each mixer control"
  unfoldable pub remove_each : List String → D → D
  remove_each [] d = d
  remove_each (id ∷ ids) d = remove_each ids (removed_if id (elem_is_user id d))

  -- The second list has room for as many ids as the first call counted.
  abbrev listed_again : ℕ → Res (List String) × D → D
  listed_again count (err e, d) = d
  listed_again count (ok ids, d) = remove_each (take count ids) d

  abbrev listed : Res (List String) × D → D
  listed (err e, d) = d
  listed (ok ids, d) = listed_again (length ids) (elem_list d)

  -- `remove_all_user_controls`
  unfoldable pub remove_all_user_controls : D → D
  unfolding remove_each
  remove_all_user_controls d = listed (elem_list d)

  -- `fcp_cap_read(…) > 0`
  abbrev is_supported : Res ℕ → Bool
  is_supported (ok n) = ltb 0 n
  is_supported (err e) = false

  abbrev pub keep_dev : Device D → Backend D → Device D
  keep_dev x b = record x { backend = b }

  -- A category that the device must support; `-EINVAL` otherwise.
  abbrev pub required : ℕ → Device D → (Device D → Handled D) → Handled D
  required category x f =
      let (r, b) = on_dev (cap_read sources.ioctl category) x.backend in
      if is_supported r then f (keep_dev x b) else some (err einval, keep_dev x b)

  -- A category that is initialised if it is supported.
  abbrev pub optional : ℕ → (Device D → Option (Device D)) → Device D → Option (Device D)
  optional category f x =
      let (r, b) = on_dev (cap_read sources.ioctl category) x.backend in
      if is_supported r then f (keep_dev x b) else some (keep_dev x b)

  abbrev pub and_then : Option (Device D) → (Device D → Option (Device D)) → Option (Device D)
  and_then none f = none
  and_then (some x) f = f x

  unfoldable pub add_meters : Device D → Device D
  add_meters x = record x {
    backend = record (x.backend) { dev = add_meter_control sources meters junk x.backend.dev };
  }

  -- "Initialise optional subsystems"
  unfoldable pub init_optional : Device D → Option (Device D)
  unfolding on_dev add_meters
  init_optional x =
      and_then
        (and_then
          (and_then (optional category_sync (λ y. some (add_sync_control sources y)) x)
            (optional category_meter (λ y. some (add_meters y))))
          (optional category_mix (λ y. some (add_mix_controls sources y))))
        (optional category_mux (add_mux_controls sources))

  -- "Initialise input, output, and global controls"
  unfoldable pub init_configured : Device D → Handled D
  init_configured x =
      then_some (then_some (init_input_controls sources x) (init_output_controls sources))
        (init_global_controls sources)

  abbrev pub configured : Option (Device D) → Handled D
  configured none = none
  configured (some x) = init_configured x

  -- The table before anything is added.
  unfoldable pub emptied : Device D → Device D
  emptied x =
      init_control_manager
        (record x { backend = record (x.backend) { dev = remove_all_user_controls x.backend.dev } })

  -- `device_init_controls`; `none` is the end of the program, or what C does not define.
  unfoldable pub device_init_controls : Device D → Handled D
  unfolding init_optional init_configured emptied on_dev
  device_init_controls x =
      required category_init (emptied x)
        (λ y. required category_data y (λ z. configured (init_optional z)))
