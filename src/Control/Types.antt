-- ===== src/Control/Types.antt =====
-- server/device.h and server/control-utils.c: the data types of controls and their widths.
use Prim.Native.String.{String}
use text.Mathlib.Text.{starts_with, ◌==◌ as str_eq}
use fcp_support.Base.{ℕ, ◌+◌, ◌%◌, Bool, Option, none, some, if◌then◌else◌, ◌||◌, ◌==◌}

abbrev pub type_uint8 : ℕ
type_uint8 = 2

abbrev pub type_int8 : ℕ
type_int8 = 3

abbrev pub type_uint16 : ℕ
type_uint16 = 4

abbrev pub type_int16 : ℕ
type_int16 = 5

abbrev pub type_uint32 : ℕ
type_uint32 = 8

-- The width of a data type in bytes; `none` is an invalid data type.
unfoldable pub width_of : ℕ → Option ℕ
width_of t =
    if t == type_uint8 || t == type_int8
    then some 1
    else if t == type_uint16 || t == type_int16
    then some 2
    else if t == type_uint32
    then some 4
    else none

-- `data_type & 1`
unfoldable pub is_signed : ℕ → Bool
is_signed t = t % 2 == 1

-- `devmap_type_to_data_type`; `none` ends the program.
unfoldable pub devmap_type_to_data_type : String → Option ℕ
devmap_type_to_data_type t =
    if str_eq t "bool"
    then some type_uint8
    else if str_eq t "uint8"
    then some type_uint8
    else if str_eq t "uint16"
    then some type_uint16
    else if str_eq t "uint32"
    then some type_uint32
    else if str_eq t "int8"
    then some type_int8
    else if str_eq t "int16"
    then some type_int16
    else none

-- `devmap_type_to_data_type_with_width`; `none` ends the program. `ret |= 1` adds to an even number.
unfoldable pub devmap_type_to_data_type_with_width : String → ℕ → Option ℕ
devmap_type_to_data_type_with_width t width =
    let sign = if starts_with t "int" then 1 else 0 in
    if width == 1
    then some (type_uint8 + sign)
    else if width == 2
    then some (type_uint16 + sign)
    else if width == 4
    then some (type_uint32 + sign)
    else none
