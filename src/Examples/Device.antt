-- ===== src/Examples/Device.antt =====
-- server/device-ops.c and server/control-utils.c at a device of one register, and at an empty table.
use Prim.Native.String.{String}
use fcp_support.Base.{
  ℕ, [], ◌∷◌, none, some, Res, ok, err, Ioctl, ◌≡◌, refl, ap, arith, ℤ, pos, true, false, get_le32,
  drop, ◌==◌, if◌then◌else◌,
}
use fcp_support.Fcp.{opcode_data_write}
use fcp_support.Control.{Props, integer, Func, data_control, bitmap_control}
use fcp_support.Device.{Backend, Device, Alsa, ints, init_control_manager}
use fcp_support.Device.Add.{add_user_control, add_control, find_control}
use fcp_support.Base.{◌%◌, to_signed}
use fcp_support.Base.Bits.{bit}
use fcp_support.Control.Values.{
  write_data_control, with_width, value_written, write_bitmap_data_control,
}
use fcp_support.Device.{on_dev}
use fcp_support.Fcp.Data.{data_read, data_write}
use fcp_support.Fcp.{fcp_cmd}
use fcp_support.Device.Functions.{call_write_func}
use fcp_support.Device.Change.{
  change_control, change_value, call_write, device_handle_control_change,
}
use fcp_support.Device.Table.{
  IsRoomy, add_controls, insert_absent, init_control_manager-IsRoomy, add_control-find_control,
}
use fcp_support.Device.Again.{change_again}
use fcp_support.Control.Types.{type_uint8, width_of}
use fcp_support.Control.Values.Bitmap.{IsRegister, write_bitmap_data_control-bit}

-- The device is one byte, wherever it is read or written.
abbrev pub byte_device : Ioctl ℕ
byte_device op req size d =
    if op == opcode_data_write then (ok [], get_le32 (drop 8 req)) else (ok (d ∷ 0 ∷ 0 ∷ 0 ∷ []), d)

abbrev pub alsa : Alsa ℕ
alsa = record {
  elem_remove = λ name d. d;
  elem_add = λ p d. (ok tt, d);
  elem_tlv_write = λ name d. (ok tt, d);
  elem_read = λ name d. (ok (ints (pos 0 ∷ [])), d);
  elem_write = λ name v d. (ok tt, d);
  elem_unlock = λ name d. (ok tt, d);
}

abbrev control : String → Func → Props
control name f = record {
  name = name;
  array_index = 1;
  elem_type = integer;
  data_type = type_uint8;
  low = pos 0;
  high = pos 100;
  step = pos 1;
  link = false;
  has_tlv = false;
  enum_count = 0;
  enum_values = none;
  read_only = false;
  notify_client = 0;
  notify_device = 0;
  offset = 8;
  components = [];
  size = 0;
  value = pos 0;
  bytes_value = none;
  read_func = f;
  write_func = f;
  has_read_bytes = false;
  has_write_bytes = false;
}

abbrev backend : Backend ℕ
backend = record {
  dev = 200;
  mix_output_count = 0;
  mix_input_count = 0;
  mix_cache = none;
  mux = record {
    dev = tt;
    mux_size = [];
    values = [];
    input_router_pin = [];
    output_router_slots = [];
    output_fixed_input = [];
    dirty = false;
  };
}

abbrev pub device : Device ℕ
device = record { backend = backend; controls = control "Gain" data_control ∷ []; capacity = 8 }

init_control_manager-IsRoomy_example : IsRoomy (
    add_controls byte_device alsa
      (control "Gain" data_control ∷ control "Pad" bitmap_control ∷ [])
      (init_control_manager device))
init_control_manager-IsRoomy_example =
    init_control_manager-IsRoomy byte_device alsa
      (control "Gain" data_control ∷ control "Pad" bitmap_control ∷ []) device

add_control-find_control_example :
    find_control (add_control byte_device alsa (control "Pad" bitmap_control) device) "Pad"
    ≡ insert_absent true
        (1, (add_user_control byte_device alsa (control "Pad" bitmap_control, backend)).1.0)
        (find_control device "Pad")
add_control-find_control_example =
    add_control-find_control byte_device alsa (control "Pad" bitmap_control) device "Pad"

-- The device refuses every command.
abbrev refusing : Ioctl ℕ
refusing op req size d = (err 5, d)

-- The table after the change that the device has refused.
abbrev refused : Device ℕ
refused = record (device) { controls = record (control "Gain" data_control) { value = pos 5 } ∷ [] }

change_refused :
    device_handle_control_change refusing alsa "Gain" (ints (pos 5 ∷ [])) device
    ≡ some (err 5, refused)
unfolding device_handle_control_change find_control change_control change_value call_write
    call_write_func on_dev write_data_control with_width width_of value_written data_write fcp_cmd
change_refused = refl

change_again_example :
    device_handle_control_change refusing alsa "Gain" (ints (pos 5 ∷ [])) refused
    ≡ some (ok tt, refused)
unfolding find_control
change_again_example =
    change_again refusing alsa "Gain" 0 (control "Gain" data_control) (pos 5) device (err 5) refused
      refl (λ e. cc) (λ e. cc) refl change_refused

abbrev read_as : ℕ → ℕ → Res ℤ × ℕ
read_as n d = (ok (to_signed 32 n), d)

byte_device-IsRegister : IsRegister byte_device 8 1 (λ d. d % 256)
unfolding data_read data_write fcp_cmd
byte_device-IsRegister = record {
  reads = λ d. ap (λ n. read_as n d) (omega arith);
  writes = λ v d. refl;
  keeps = λ v d. omega arith;
}

write_bitmap_data_control-bit_example :
    let r = write_bitmap_data_control byte_device (control "Pad" bitmap_control) (pos 1) 200 in
    (r.0 ≡ ok tt) × (bit 1 (r.1 % 256) ≡ 1)
unfolding width_of
write_bitmap_data_control-bit_example =
    write_bitmap_data_control-bit byte_device (control "Pad" bitmap_control) 1 (λ d. d % 256)
      (pos 1) 200 1 byte_device-IsRegister refl (λ e. ground arith) refl (omega arith) (omega arith)
      (omega arith)
