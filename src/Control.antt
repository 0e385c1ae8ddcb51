-- ===== src/Control.antt =====
-- server/device.h and server/control-utils.h: the controls, and what reads and writes of them share.
pub mod Types
pub mod Values
use Prim.Native.String.{String}
use fcp_support.Base.{ℕ, List, Bool, Option, ℤ}

-- SND_CTL_ELEM_TYPE_*, as far as the server uses them.
pub data ElemType : Type 0 where
  boolean integer enumerated bytes : ElemType

-- What `read_func` and `write_func` may point to; `no_func` is NULL.
pub data Func : Type 0 where
  no_func data_control volume_control bitmap_control mix_control mux_control sync_control : Func

-- `struct control_props`. An offset is its 32-bit pattern, which is what goes out to the device;
-- `offsets` and `data_types` of the components stand together, and `component_count` is how many there
-- are. `enum_values` is `none` where the pointer is NULL.
pub record Props : Type 0 where
  pub name : String
  pub array_index : ℕ
  pub elem_type : ElemType
  pub data_type : ℕ
  pub low : ℤ
  pub high : ℤ
  pub step : ℤ
  pub link : Bool
  pub has_tlv : Bool
  pub enum_count : ℕ
  pub enum_values : Option (List ℤ)
  pub read_only : Bool
  pub notify_client : ℕ
  pub notify_device : ℕ
  pub offset : ℕ
  pub components : List (ℕ × ℕ)
  pub size : ℕ
  pub value : ℤ
  pub bytes_value : Option (List ℕ)
  pub read_func : Func
  pub write_func : Func
  pub has_read_bytes : Bool
  pub has_write_bytes : Bool
