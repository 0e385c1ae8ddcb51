-- ===== src/Device/Change.antt =====
-- server/device-ops.c and server/output-controls.c: a change of an ALSA element goes to the device.
-- `none` is behaviour that C does not define.
use Prim.Native.String.{String}
use fcp_support.Base.{
  ℕ, zero, suc, ◌+◌, ◌-◌, ◌%◌, List, [], ◌∷◌, Bool, true, false, not, Option, none, some,
}
use fcp_support.Base.{Ioctl, Res, ok, err, ℤ, pos, eqb_ℤ, get_or, set, ◌==◌, if◌then◌else◌}
use fcp_support.Fcp.Data.{data_notify}
use fcp_support.Control.{Props, ElemType, boolean, integer, enumerated, bytes}
use fcp_support.Control.{
  Func, no_func, data_control, volume_control, bitmap_control, mix_control, mux_control,
  sync_control,
}
use fcp_support.Control.Values.{write_data_control, write_bytes_control}
use fcp_support.Device.{Backend, Device, Elem, Alsa, on_dev}
use fcp_support.Device.Functions.{call_write_func}
use fcp_support.Device.Add.{find_control}
use fcp_support.Device.Notify.{device_handle_notification, ints_of, bytes_of, same_bytes}

-- What the handlers return: the result and the device.
abbrev pub Handled : Type 0 → Type 0
Handled D = Option (Res (Unit {0}) × Device D)

-- The control at an index of the table, if the index is inside.
abbrev pub control_at : List Props → ℕ → Option Props
control_at [] i = none
control_at (p ∷ ps) zero = some p
control_at (p ∷ ps) (suc i) = control_at ps i

-- The neighbour in the table, by the parity of the array index; index -1 is `none`.
abbrev pub linked : ℕ → ℕ → List Props → Option Props
linked array_index i ps =
    if array_index % 2 == 1
    then (if i == 0 then none else control_at ps (i - 1))
    else control_at ps (i + 1)

abbrev pub has_func : Func → Bool
has_func no_func = false
has_func data_control = true
has_func volume_control = true
has_func bitmap_control = true
has_func mix_control = true
has_func mux_control = true
has_func sync_control = true

module _ {D : Type 0} where
  abbrev pub keep_backend : Device D → Res (Unit {0}) × Backend D → Res (Unit {0}) × Device D
  keep_backend x (r, b) = (r, record x { backend = b })

  abbrev pub keep_some_backend : Device D → Option (Res (Unit {0}) × Backend D) → Handled D
  keep_some_backend x none = none
  keep_some_backend x (some p) = some (keep_backend x p)

  abbrev succeeded : Option (Device D) → Handled D
  succeeded none = none
  succeeded (some x) = some (ok tt, x)

  -- `if (err < 0) return err;`, and what follows otherwise
  abbrev pub then_go : Res (Unit {0}) × Device D → (Device D → Handled D) → Handled D
  then_go (err e, x) f = some (err e, x)
  then_go (ok r, x) f = f x

  abbrev pub then_some : Handled D → (Device D → Handled D) → Handled D
  then_some none f = none
  then_some (some p) f = then_go p f

  abbrev pub store : ℕ → Props → Device D → Device D
  store i p x = record x { controls = set x.controls i p }

  module _ (ioctl : Ioctl D) (alsa : Alsa D) where
    abbrev write_one : Props → ℤ → Device D → Res (Unit {0}) × Device D
    write_one p v x = keep_backend x (on_dev (write_data_control ioctl p v) x.backend)

    unfoldable pub write_link : Option Props → ℤ → Device D → Res (Unit {0}) × Device D
    unfolding on_dev
    write_link none v x = (ok tt, x)
    write_link (some p) v x = write_one p v x

    -- `write_data_control_vol`, of the control at index `i`
    unfoldable pub write_data_control_vol : ℕ → Props → ℤ → Device D → Handled D
    unfolding on_dev write_link
    write_data_control_vol i p v x = then_go (write_one p v x) (λ y.
        then_go (if p.link then write_link (linked p.array_index i y.controls) v y else (ok tt, y))
          (λ z. succeeded (device_handle_notification ioctl alsa p.notify_client z)))

    -- `props->write_func(device, props, value)`
    unfoldable pub call_write : Func → ℕ → Props → ℤ → Device D → Handled D
    unfolding write_data_control_vol
    call_write volume_control i p v x = write_data_control_vol i p v x
    call_write no_func i p v x = keep_some_backend x (call_write_func ioctl no_func p v x.backend)
    call_write data_control i p v x =
        keep_some_backend x (call_write_func ioctl data_control p v x.backend)
    call_write bitmap_control i p v x =
        keep_some_backend x (call_write_func ioctl bitmap_control p v x.backend)
    call_write mix_control i p v x =
        keep_some_backend x (call_write_func ioctl mix_control p v x.backend)
    call_write mux_control i p v x =
        keep_some_backend x (call_write_func ioctl mux_control p v x.backend)
    call_write sync_control i p v x =
        keep_some_backend x (call_write_func ioctl sync_control p v x.backend)

    -- `if (props->notify_device)`, after the write
    unfoldable pub notify_device : ℕ → Device D → Handled D
    unfolding on_dev
    notify_device event x =
        if event == 0
        then some (ok tt, x)
        else some (keep_backend x (on_dev (data_notify ioctl event) x.backend))

    -- A control of type BYTES, whose stored bytes are not NULL. They are replaced after the write.
    unfoldable pub change_bytes : ℕ → Props → List ℕ → List ℕ → Device D → Handled D
    unfolding on_dev notify_device
    change_bytes i p old new x =
        if same_bytes new old
        then some (ok tt, x)
        else then_go (keep_backend x (on_dev (write_bytes_control ioctl p new p.size) x.backend))
            (λ y. notify_device p.notify_device (store i (record p { bytes_value = some new }) y))

    abbrev pub bytes_stored : ℕ → Props → Option (List ℕ) → List ℕ → Device D → Handled D
    bytes_stored i p none new x = none
    bytes_stored i p (some old) new x = change_bytes i p old new x

    -- A control of another type. The value is stored before the write.
    unfoldable pub change_value : ℕ → Props → ℤ → Device D → Handled D
    unfolding call_write notify_device
    change_value i p v x =
        if eqb_ℤ v p.value
        then some (ok tt, x)
        else if not (has_func p.write_func)
        then some (ok tt, x)
        else then_some
            (call_write p.write_func i (record p { value = v }) v
              (store i (record p { value = v }) x))
            (λ y. notify_device p.notify_device y)

    unfoldable pub change_control : ElemType → ℕ → Props → Elem → Device D → Handled D
    unfolding change_bytes change_value
    change_control bytes i p v x =
        if p.has_write_bytes then bytes_stored i p p.bytes_value (bytes_of v) x else some (ok tt, x)
    change_control boolean i p v x = change_value i p (get_or (ints_of v) 0 (pos 0)) x
    change_control integer i p v x = change_value i p (get_or (ints_of v) 0 (pos 0)) x
    change_control enumerated i p v x = change_value i p (get_or (ints_of v) 0 (pos 0)) x

    abbrev pub control_found : Option (ℕ × Props) → Elem → Device D → Handled D
    control_found none v x = some (ok tt, x)
    control_found (some (i, p)) v x =
        if p.read_only then some (ok tt, x) else change_control p.elem_type i p v x

    -- `device_handle_control_change`, of the control of this name
    unfoldable pub device_handle_control_change : String → Elem → Device D → Handled D
    unfolding change_control find_control
    device_handle_control_change name v x = control_found (find_control x name) v x
