-- ===== src/Device/Notify.antt =====
-- server/device-ops.c: a notification of the device updates the ALSA elements of the controls.
use fcp_support.Base.{ℕ, List, [], ◌∷◌, Bool, true, ◌&&◌, Option, none, some, Ioctl, Res, ok, err}
use fcp_support.Base.{ℤ, pos, eqb_ℤ, get_or, drop, ◌==◌, if◌then◌else◌, bit_and}
use fcp_support.Control.{Props, ElemType, boolean, integer, enumerated, bytes}
use fcp_support.Control.Values.{read_bytes_control}
use fcp_support.Device.{Backend, Device, Elem, ints, raw, Alsa, on_dev}
use fcp_support.Device.Functions.{call_read_func}
use fcp_support.Device.Add.{At}

abbrev pub ints_of : Elem → List ℤ
ints_of (ints vs) = vs
ints_of (raw b) = []

abbrev pub bytes_of : Elem → List ℕ
bytes_of (ints vs) = []
bytes_of (raw b) = b

-- Whether `values[j] == old_value` for every value.
unfoldable pub same_ints : List ℤ → List ℤ → Bool
same_ints [] old = true
same_ints (v ∷ vs) old = eqb_ℤ v (get_or old 0 (pos 0)) && same_ints vs (drop 1 old)

-- `memcmp(old_buf, new_buf, size) == 0`, for the bytes read.
unfoldable pub same_bytes : List ℕ → List ℕ → Bool
same_bytes [] old = true
same_bytes (b ∷ bs) old = (b == get_or old 0 0) && same_bytes bs (drop 1 old)

-- `memcpy` to the stored bytes. The pointer is NULL when the control's first read failed.
abbrev pub store_bytes : List ℕ → Option (List ℕ) → Props → Option Props
store_bytes b none p = none
store_bytes b (some old) p = some (record p { bytes_value = some b })

module _ {D : Type 0} (ioctl : Ioctl D) (alsa : Alsa D) where
  -- `snd_ctl_elem_write` and the end of the loop's body: an error is only logged.
  abbrev elem_written : Props → Elem → Backend D → At D
  elem_written p v x = (p, record x { dev = (alsa.elem_write p.name v x.dev).1 })

  -- The value read, of a control that is not of type BYTES.
  unfoldable pub ints_read : Props → List ℤ → Res (List ℤ) × Backend D → At D
  ints_read p old (err e, x) = (p, x)
  ints_read p old (ok vs, x) = if same_ints vs old then (p, x) else elem_written p (ints vs) x

  abbrev bytes_changed : List ℕ → Backend D → Option Props → Option (At D)
  bytes_changed b x none = none
  bytes_changed b x (some p) = some (elem_written p (raw b) x)

  -- The bytes read, of a control of type BYTES.
  unfoldable pub bytes_read : Props → List ℕ → Res (List ℕ) × Backend D → Option (At D)
  bytes_read p old (err e, x) = some (p, x)
  bytes_read p old (ok b, x) =
      if same_bytes b old then some (p, x) else bytes_changed b x (store_bytes b p.bytes_value p)

  unfoldable pub read_again : ElemType → Props → Elem → Backend D → Option (At D)
  unfolding ints_read bytes_read on_dev
  read_again bytes p old x =
      bytes_read p (bytes_of old) (on_dev (read_bytes_control ioctl p p.size) x)
  read_again boolean p old x =
      some (ints_read p (ints_of old) (call_read_func ioctl p.read_func p x))
  read_again integer p old x =
      some (ints_read p (ints_of old) (call_read_func ioctl p.read_func p x))
  read_again enumerated p old x =
      some (ints_read p (ints_of old) (call_read_func ioctl p.read_func p x))

  abbrev alsa_read : Props → Res Elem × Backend D → Option (At D)
  alsa_read p (err e, x) = some (p, x)
  alsa_read p (ok old, x) = read_again p.elem_type p old x

  -- The body of the loop, on one control; `none` is behaviour that C does not define.
  unfoldable pub notify_control : ℕ → Props → Backend D → Option (At D)
  unfolding on_dev read_again
  notify_control n p x =
      if bit_and n p.notify_client == 0
      then some (p, x)
      else alsa_read p (on_dev (alsa.elem_read p.name) x)

  abbrev with_rest : Props → Option (List Props × Backend D) → Option (List Props × Backend D)
  with_rest p none = none
  with_rest p (some (ps, x)) = some (p ∷ ps, x)

  abbrev and_then :
      Option (At D)
      → (Backend D → Option (List Props × Backend D))
      → Option (List Props × Backend D)
  and_then none f = none
  and_then (some (p, x)) f = with_rest p (f x)

  -- The loop of `device_handle_notification`
  unfoldable pub notify_controls : ℕ → List Props → Backend D → Option (List Props × Backend D)
  unfolding notify_control
  notify_controls n [] x = some ([], x)
  notify_controls n (p ∷ ps) x = and_then (notify_control n p x) (λ y. notify_controls n ps y)

  abbrev table_kept : Device D → Option (List Props × Backend D) → Option (Device D)
  table_kept x none = none
  table_kept x (some (ps, b)) = some (record x { controls = ps; backend = b })

  -- `device_handle_notification`
  unfoldable pub device_handle_notification : ℕ → Device D → Option (Device D)
  unfolding notify_controls
  device_handle_notification n x = table_kept x (notify_controls n x.controls x.backend)
