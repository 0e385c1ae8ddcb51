-- ===== src/Controls/Global.antt =====
-- server/global-controls.c: the controls of the device as a whole. Specs has the components of a control.
pub mod Specs
use Prim.Native.String.{String}
use text.Mathlib.Text.{◌==◌ as str_eq}
use fcp_support.Base.{
  ℕ, ◌+◌, List, [], ◌∷◌, true, false, Bool, ◌&&◌, not, Option, none, some, Res, ok, err, pos,
  negsuc, ℤ, length, ◌==◌, if◌then◌else◌,
}
use fcp_support.Control.{Props, data_control, bitmap_control, integer, enumerated, boolean, bytes}
use fcp_support.Control.Types.{
  devmap_type_to_data_type, type_uint8, type_int8, type_uint16, type_int16, type_uint32,
}
use fcp_support.Device.{Device}
use fcp_support.Device.Change.{Handled}
use fcp_support.Controls.{
  Sources, Built, built, refused, exits, data_props, is_some, get, number, count_of, items, counted,
  need, need_or_exit, add_built, for_each, or_fail,
}
use fcp_support.Controls.Path.{Search, found, missing, undefined, find_member_by_path}
use fcp_support.Controls.Global.Specs.{
  Component, Chosen, chosen, no_choice, no_return, choose_components,
}

module _ {D : Type 0} (sources : Sources D) where
  abbrev J : Type 0
  J = sources.json.Json

  -- The range of a data type.
  abbrev type_range : ℕ → Option (ℤ × ℤ)
  type_range t =
      if t == type_uint8
      then some (pos 0, pos 255)
      else if t == type_int8
      then some (negsuc 127, pos 127)
      else if t == type_uint16
      then some (pos 0, pos 65535)
      else if t == type_uint32
      then some (pos 0, pos 2147483647)
      else if t == type_int16
      then some (negsuc 32767, pos 32767)
      else none

  abbrev int_or : Option J → ℤ → ℤ
  int_or none v = v
  int_or (some j) v = sources.json.get_int j

  -- Only the interfaces `mixer` and `card` are known.
  abbrev known_interface : Option J → Bool
  known_interface none = true
  known_interface (some j) =
      if str_eq (sources.json.get_string j) "mixer"
      then true
      else str_eq (sources.json.get_string j) "card"

  -- Whether the access makes the control read-only; `none` is an access that is not known.
  abbrev access_read_only : Option J → Option Bool
  access_read_only none = some false
  access_read_only (some j) =
      if str_eq (sources.json.get_string j) "readonly"
      then some true
      else if str_eq (sources.json.get_string j) "readwrite"
      then some false
      else none

  abbrev with_access : Option Bool → Bool → ℤ → ℤ → Bool → Props → Built
  with_access none known low high tlv p = refused
  with_access (some ro) false low high tlv p = refused
  with_access (some ro) true low high tlv p =
      built
        (record p { elem_type = integer; low = low; high = high; has_tlv = tlv; read_only = ro })

  -- The type `int`.
  abbrev int_type : J → Option (ℤ × ℤ) → Props → Built
  int_type config none p = refused
  int_type config (some (low, high)) p =
      with_access (access_read_only (get sources config "access"))
        (known_interface (get sources config "interface")) (int_or (get sources config "min") low)
        (int_or (get sources config "max") high)
        (is_some (get sources config "db-min") && is_some (get sources config "db-max")) p

  -- The value of an item of `values`, by default its place.
  abbrev item_value : J → ℕ → ℤ
  item_value item i = int_or (get sources item "value") (pos i)

  -- The values of items with names; an item without one ends the program.
  unfoldable pub item_values : ℕ → List J → Option (List ℤ)
  item_values i [] = some []
  item_values i (item ∷ rest) =
      let later = item_values (i + 1) rest in
      elim (get sources item "name") [
        | none ↦ none
        | some name ↦ elim (later) [ none ↦ none | some vs ↦ some (item_value item i ∷ vs) ]
      ]

  abbrev enum_props : ℕ → Option (List ℤ) → Props → Props
  enum_props count vs p = record p { elem_type = enumerated; enum_count = count; enum_values = vs }

  -- The names in `values` are texts, or the first is none and they are items with a name and a value.
  abbrev enum_items : List J → Props → Built
  enum_items [] p = built (enum_props 0 (some []) p)
  enum_items (first ∷ rest) p =
      if sources.json.is_string first
      then built (enum_props (length (first ∷ rest)) none p)
      else need_or_exit (item_values 0 (first ∷ rest))
          (λ vs. built (enum_props (length (first ∷ rest)) (some vs) p))

  -- Numbered values, as many as the enumerators of the device map say.
  abbrev enum_numbered : J → J → J → Props → Built
  enum_numbered enums config max_from p =
      need (get sources enums "maximum_array_sizes") (λ max_sizes.
        need (get sources max_sizes "enumerators") (λ enumerators.
          need (get sources enumerators (sources.json.get_string max_from)) (λ count.
            need (get sources config "label-format")
              (λ label_format. built (enum_props (count_of sources count) none p)))))

  abbrev enum_type : J → J → Option J → Option J → Props → Built
  enum_type enums config (some values) max_from p = enum_items (items sources values) p
  enum_type enums config none none p = refused
  enum_type enums config none (some max_from) p = enum_numbered enums config max_from p

  -- The properties that depend on the type.
  unfoldable pub global_type : J → J → J → String → Props → Built
  unfolding item_values
  global_type enums config member t p =
      if str_eq t "enum"
      then enum_type enums config (get sources config "values") (get sources config "max-from") p
      else if str_eq t "bool"
      then built (record p { elem_type = boolean; low = pos 0; high = pos 1 })
      else if str_eq t "bytes"
      then built (record p {
        elem_type = bytes;
        size = number sources (get sources member "size");
        has_read_bytes = true;
        has_write_bytes = true;
      })
      else if str_eq t "int"
      then int_type config (type_range p.data_type) p
      else refused

  abbrev is_set : Option J → Bool
  is_set none = false
  is_set (some j) = sources.json.get_boolean j

  abbrev flash_notify : Option J → ℕ → ℕ
  flash_notify none notify = notify
  flash_notify (some j) notify = number sources (some j)

  -- A control that is saved notifies the device of it, unless it notifies it of something else.
  unfoldable pub notify_for : J → J → ℕ → ℕ
  notify_for config fcp_notify_enums notify =
      if is_set (get sources config "save") && (notify == 0)
      then flash_notify (get sources fcp_notify_enums "eMSG_FLASH_CTRL") notify
      else notify

  -- The properties of a control, once its member is known.
  unfoldable pub with_member : J → J → J → String → String → J → String → ℕ → List Component → Built
  unfolding global_type notify_for
  with_member enums fcp_notify_enums config name t member member_type offset components =
      need_or_exit (devmap_type_to_data_type member_type) (λ data_type.
        global_type enums config member t
          (record (data_props name 0 data_type (number sources (get sources member "notify-client"))
            (notify_for config fcp_notify_enums
              (number sources (get sources member "notify-device")))
            offset false data_control) { components = components }))

  abbrev with_search : J → J → J → String → String → Search J → Built
  with_search enums fcp_notify_enums config name t missing = refused
  with_search enums fcp_notify_enums config name t undefined = exits
  with_search enums fcp_notify_enums config name t (found member member_type offset nd nc) =
      with_member enums fcp_notify_enums config name t member member_type offset []

  abbrev with_choice : J → J → J → String → String → Chosen J → Built
  with_choice enums fcp_notify_enums config name t no_choice = refused
  with_choice enums fcp_notify_enums config name t no_return = exits
  with_choice enums fcp_notify_enums config name t (chosen member member_type components) =
      with_member enums fcp_notify_enums config name t member member_type 0 components

  abbrev with_components : J → J → J → String → String → String → Option J → Built
  with_components enums fcp_notify_enums config path name t none =
      with_search enums fcp_notify_enums config name t (find_member_by_path sources path)
  with_components enums fcp_notify_enums config path name t (some specs) =
      with_choice enums fcp_notify_enums config name t (
        choose_components sources (number sources (get sources config "component-count"))
          (items sources specs))

  -- A switch for each output of the mixer.
  abbrev mixer_switch : String → J → ℕ → ℕ → ℕ → Props
  mixer_switch name member data_type offset i =
      record (data_props (sources.format name (65 + i)) i data_type
        (number sources (get sources member "notify-client"))
        (number sources (get sources member "notify-device")) offset false bitmap_control) {
          elem_type = boolean;
          high = pos 1;
          read_func = bitmap_control;
        }

  abbrev pub mixer_switches : String → Search J → Device D → Handled D
  mixer_switches name missing x = some (err 1, x)
  mixer_switches name undefined x = none
  mixer_switches name (found member member_type offset nd nc) x =
      for_each sources
        (λ i. add_built sources (
          need_or_exit (devmap_type_to_data_type member_type)
            (λ data_type. built (mixer_switch name member data_type offset i))))
        (counted x.backend.mix_output_count 0) x

  -- `create_bool_mixer_outputs_controls`
  unfoldable pub create_bool_mixer_outputs_controls : String → String → Device D → Handled D
  unfolding add_built for_each find_member_by_path
  create_bool_mixer_outputs_controls name path x =
      mixer_switches name (find_member_by_path sources path) x

  -- A control of the name and the type that its configuration gives.
  unfoldable pub create_named : J → J → J → String → String → String → Device D → Handled D
  unfolding create_bool_mixer_outputs_controls add_built with_member choose_components
  create_named enums fcp_notify_enums config path name t x =
      if str_eq t "bool-mixer-outputs"
      then create_bool_mixer_outputs_controls name path x
      else add_built sources
          (with_components enums fcp_notify_enums config path name t
            (get sources config "components"))
          x

  -- `create_global_control`
  unfoldable pub create_global_control : J → String × J → Device D → Handled D
  unfolding create_named
  create_global_control enums (path, config) x =
      or_fail (get sources enums "eDEV_FCP_USER_MESSAGE_TYPE")
        (λ fcp_notify. or_fail (get sources fcp_notify "enumerators") (λ fcp_notify_enums.
          or_fail (get sources config "name") (λ name. or_fail (get sources config "type") (λ t.
            create_named enums fcp_notify_enums config path (sources.json.get_string name)
              (sources.json.get_string t)))))
        x

  -- The result of a control is not looked at.
  abbrev pub ignored : Handled D → Handled D
  ignored none = none
  ignored (some (r, x)) = some (ok tt, x)

  -- `init_global_controls`
  unfoldable pub init_global_controls : Device D → Handled D
  unfolding create_global_control for_each
  init_global_controls x =
      or_fail (get sources sources.fam "global-controls")
        (λ global_controls. or_fail (get sources sources.devmap "enums") (λ enums.
          for_each sources (λ item y. ignored (create_global_control enums item y))
            (sources.json.members global_controls)))
        x
