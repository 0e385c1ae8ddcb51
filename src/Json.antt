-- ===== src/Json.antt =====
-- What the code calls of json-c: a value's members, its readings as a number and a string, and the
-- items of an array. The library is a parameter of every function that reads a JSON file.
use Prim.Native.String.{String}
pub use fcp_support.Base.Options.{◌>>=◌}
use fcp_support.Base.{ℕ, List, Bool, Option, some, ℤ}

pub record JsonC : Type 1 where
  pub Json : Type 0
  -- `json_object_object_get_ex`
  pub get_ex : Json → String → Option Json
  -- `json_object_get_int`
  pub get_int : Json → ℤ
  -- `json_object_get_boolean`
  pub get_boolean : Json → Bool
  -- `json_object_get_string`
  pub get_string : Json → String
  -- `json_object_array_length`
  pub array_length : Json → ℕ
  -- `json_object_array_get_idx`
  pub array_get_idx : Json → ℕ → Json
  -- whether a value is `null`, which json-c gives as NULL, or of type string
  pub is_null : Json → Bool
  pub is_string : Json → Bool
  -- what `json_object_object_foreach` goes through
  pub members : Json → List (String × Json)

module _ {A : Type 0} where
  abbrev pub pure : A → Option A
  pure = some
