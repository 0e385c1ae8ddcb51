-- ===== src/Controls/Global/Specs.antt =====
-- server/global-controls.c: the components of a control, by their specs `path`, or
-- `path:offset:width`.
use Prim.Native.String.{String, len, slice}
use text.Mathlib.Text.{find?}
use fcp_support.Base.{
  ℕ, ◌+◌, ◌%◌, ◌^◌, List, [], ◌∷◌, Option, none, some, pos, negsuc, ℤ, to_unsigned, length, not,
  ◌==◌, ◌&&◌, if◌then◌else◌,
}
use fcp_support.Base.Chars.{atoi}
use fcp_support.Control.Types.{devmap_type_to_data_type_with_width}
use fcp_support.Controls.{Sources, get}
use fcp_support.Controls.Path.{Search, found, missing, undefined, find_member_by_path}

-- An offset and a data type.
abbrev pub Component : Type 0
Component = ℕ × ℕ

-- A spec: its path, what is added to the offset, and the width, 0 for that of the device map.
pub record Spec : Type 0 where
  pub path : String
  pub offset_adjust : ℤ
  pub width : ℤ

-- The text after position `i`.
abbrev after : String → ℕ → String
after s i = slice s (i + 1) (len s)

abbrev second_colon : String → String → Option ℕ → Option Spec
second_colon path rest none = none
second_colon path rest (some j) =
    some (record { path = path; offset_adjust = atoi rest; width = atoi (after rest j) })

abbrev first_colon : String → Option ℕ → Option Spec
first_colon spec none = some (record { path = spec; offset_adjust = pos 0; width = pos 0 })
first_colon spec (some i) = second_colon (slice spec 0 i) (after spec i) (find? (after spec i) ":")

-- `parse_component_path`; `none` is -1, for one colon.
unfoldable pub parse_component_path : String → Option Spec
parse_component_path spec = first_colon spec (find? spec ":")

-- What a spec comes to: the member, its type and the component; a component to skip; or the end of the
-- program, or what C does not define.
pub data Part (J : Type 0) : Type 0 where
  part : J → String → Component → Part J
  skip lost : Part J

-- What the specs come to: the first member, its type and the components; -1; or no return.
pub data Chosen (J : Type 0) : Type 0 where
  chosen : J → String → List Component → Chosen J
  no_choice no_return : Chosen J

module _ {D : Type 0} (sources : Sources D) where
  abbrev J : Type 0
  J = sources.json.Json

  -- The width in bytes: the spec's, or the size in the device map, which is 0 for none.
  abbrev size_of : Option J → ℤ
  size_of none = pos 0
  size_of (some j) = sources.json.get_int j

  abbrev width_or : ℤ → ℤ → ℤ
  width_or (pos n) size = if n == 0 then size else pos n
  width_or (negsuc n) size = negsuc n

  -- The data type of a width that is not negative.
  abbrev data_type_of : String → ℤ → Option ℕ
  data_type_of t (pos n) = devmap_type_to_data_type_with_width t n
  data_type_of t (negsuc n) = none

  abbrev part_of : J → String → ℕ → Option ℕ → Part J
  part_of member t offset none = lost
  part_of member t offset (some data_type) = part member t (offset, data_type)

  abbrev part_found : Spec → Search J → Part J
  part_found spec missing = skip
  part_found spec undefined = lost
  part_found spec (found member t offset nd nc) =
      part_of member t ((offset + to_unsigned 32 spec.offset_adjust) % 2 ^ 32)
        (data_type_of t (width_or spec.width (size_of (get sources member "size"))))

  abbrev part_parsed : Option Spec → Part J
  part_parsed none = skip
  part_parsed (some spec) = part_found spec (find_member_by_path sources spec.path)

  -- `get_component_info`, with the data type that its caller works out
  unfoldable pub get_component_info : String → Part J
  unfolding parse_component_path
  get_component_info spec = part_parsed (parse_component_path spec)

  -- A component before those of the later specs. The first one gives the member.
  abbrev pub before : Part J → Chosen J → Chosen J
  before lost later = no_return
  before skip later = later
  before (part member t c) no_return = no_return
  before (part member t c) no_choice = chosen member t (c ∷ [])
  before (part member t c) (chosen m u cs) = chosen member t (c ∷ cs)

  -- The loop over the specs; `no_choice` is the end without a valid component.
  unfoldable pub collect : List J → Chosen J
  unfolding get_component_info
  collect [] = no_choice
  collect (spec ∷ specs) =
      before (get_component_info (sources.json.get_string spec)) (collect specs)

  -- With an expected count, there must be as many.
  abbrev counted_choice : ℕ → Chosen J → Chosen J
  counted_choice expected no_choice = no_choice
  counted_choice expected no_return = no_return
  counted_choice expected (chosen member t cs) =
      if not (expected == 0) && not (length cs == expected) then no_choice else chosen member t cs

  -- The components of a control; an array without specs is invalid.
  unfoldable pub choose_components : ℕ → List J → Chosen J
  unfolding collect
  choose_components expected specs = counted_choice expected (collect specs)
