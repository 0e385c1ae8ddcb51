-- ===== src/Controls.antt =====
-- server/input-controls.c and server/output-controls.c: the controls that the two JSON maps describe, the
-- device map and the FCP ALSA map. Inputs and Outputs build them, Path finds a member of the device map,
-- Groups builds the controls of the output group; what they share is here. An index is an `int`, as its
-- 32-bit pattern, which is also what goes into a name.
pub mod Inputs
pub mod Outputs
pub mod Path
pub mod Groups
pub mod Kept
pub mod Router
pub mod Mixer
pub mod Global
pub mod Meters
pub mod Startup
use Prim.Native.String.{String}
use text.Mathlib.Text.{◌==◌ as str_eq}
use fcp_support.Base.{
  ℕ, zero, suc, ◌+◌, List, [], ◌∷◌, Bool, true, false, ◌&&◌, Option, none, some, Ioctl, Res, ok,
  err, map,
}
use fcp_support.Base.{ℤ, pos, pos_part, to_unsigned, ◌==◌, if◌then◌else◌}
use fcp_support.Json.{JsonC}
use fcp_support.Control.{Props, Func, boolean, integer, enumerated, no_func}
use fcp_support.Control.Types.{devmap_type_to_data_type}
use fcp_support.Device.{Device, Alsa}
use fcp_support.Device.Add.{add_control}
use fcp_support.Device.Change.{Handled, then_some}

-- What the code before `add_control` comes to: properties, `return -1`, or the end of the program.
pub data Built : Type 0 where
  built : Props → Built
  refused exits : Built

-- What the functions use: json-c, `snprintf` with a format for one number and for two, the tokens that `strtok_r`
-- finds between dots, the driver, ALSA, and the two maps of the device.
pub record Sources (D : Type 0) : Type 1 where
  pub json : JsonC
  pub format : String → ℕ → String
  pub format2 : String → ℕ → ℕ → String
  pub split : String → List String
  pub ioctl : Ioctl D
  pub alsa : Alsa D
  pub devmap : json.Json
  pub fam : json.Json

abbrev pub is_some {ℓ} : {A : Type ℓ} → Option A → Bool
is_some none = false
is_some (some a) = true

-- What the initialisers of the two `struct control_props` have in common.
abbrev pub data_props : String → ℕ → ℕ → ℕ → ℕ → ℕ → Bool → Func → Props
data_props name index data_type notify_client notify_device offset link write_func = record {
  name = name;
  array_index = index;
  elem_type = boolean;
  data_type = data_type;
  low = pos 0;
  high = pos 0;
  step = pos 1;
  link = link;
  has_tlv = false;
  enum_count = 0;
  enum_values = none;
  read_only = false;
  notify_client = notify_client;
  notify_device = notify_device;
  offset = offset;
  components = [];
  size = 0;
  value = pos 0;
  bytes_value = none;
  read_func = Func.data_control;
  write_func = write_func;
  has_read_bytes = false;
  has_write_bytes = false;
}

-- The numbers from `i` on, `n` of them.
abbrev pub counted : ℕ → ℕ → List ℕ
counted zero i = []
counted (suc n) i = i ∷ counted n (i + 1)

-- `return -1` without a value.
abbrev pub need : {A : Type 0} → Option A → (A → Built) → Built
need none f = refused
need (some a) f = f a

-- The end of the program without a value.
abbrev pub need_or_exit : {A : Type 0} → Option A → (A → Built) → Built
need_or_exit none f = exits
need_or_exit (some a) f = f a

-- `continue` without a value.
abbrev pub or_skip : {A D : Type 0} → Option A → (A → Device D → Handled D) → Device D → Handled D
or_skip none f x = some (ok tt, x)
or_skip (some a) f x = f a x

-- `return -1` without a value.
abbrev pub or_fail : {A D : Type 0} → Option A → (A → Device D → Handled D) → Device D → Handled D
or_fail none f x = some (err 1, x)
or_fail (some a) f x = f a x

module _ {D : Type 0} (sources : Sources D) where
  abbrev pub get : sources.json.Json → String → Option sources.json.Json
  get = sources.json.get_ex

  -- `json_object_get_int` of a member, which is 0 for NULL, as a 32-bit pattern
  abbrev pub number : Option sources.json.Json → ℕ
  number none = 0
  number (some j) = to_unsigned 32 (sources.json.get_int j)

  -- How many rounds a loop up to the number has: none if it is negative.
  abbrev pub count_of : sources.json.Json → ℕ
  count_of j = pos_part (sources.json.get_int j)

  -- The items of an array, in order.
  abbrev pub items : sources.json.Json → List sources.json.Json
  items j = map (sources.json.array_get_idx j) (counted (sources.json.array_length j) 0)

  -- The range of a control of the type `int`.
  abbrev pub with_range : Option sources.json.Json → Option sources.json.Json → Bool → Props → Built
  with_range none high tlv p = refused
  with_range (some low) none tlv p = refused
  with_range (some low) (some high) tlv p = built (record p {
    elem_type = integer;
    low = sources.json.get_int low;
    high = sources.json.get_int high;
    has_tlv = tlv;
  })

  -- The values of a control of the type `enum`, which are names.
  abbrev pub with_values : Option sources.json.Json → Props → Built
  with_values none p = refused
  with_values (some values) p =
      if sources.json.array_length values == 0
      then refused
      else built
          (record p { elem_type = enumerated; enum_count = sources.json.array_length values })

  -- The properties that depend on the type in the FCP ALSA map.
  unfoldable pub with_type : sources.json.Json → String → Props → Built
  with_type config t p =
      if str_eq t "bool"
      then built (record p { elem_type = boolean; low = pos 0; high = pos 1 })
      else if str_eq t "int"
      then with_range (get config "min") (get config "max")
          (is_some (get config "db-min") && is_some (get config "db-max")) p
      else if str_eq t "enum"
      then with_values (get config "values") p
      else refused

  -- `return add_control(device, &props)`
  unfoldable pub add_built : Built → Device D → Handled D
  add_built (built p) x = some (ok tt, add_control sources.ioctl sources.alsa p x)
  add_built refused x = some (err 1, x)
  add_built exits x = none

  -- A loop over items, each of which may end it with an error.
  unfoldable pub for_each :
      {A : Type 0} → (A → Device D → Handled D) → List A → Device D → Handled D
  for_each f [] x = some (ok tt, x)
  for_each f (a ∷ rest) x = then_some (f a x) (for_each f rest)
