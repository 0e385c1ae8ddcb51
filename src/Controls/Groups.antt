-- ===== src/Controls/Groups.antt =====
-- server/output-controls.c: the controls of the output group.
use Prim.Native.String.{String}
use text.Mathlib.Text.{starts_with, ◌==◌ as str_eq}
use fcp_support.Base.{
  ℕ, ◌+◌, List, [], ◌∷◌, Bool, false, not, ◌&&◌, Option, none, some, ok, err, length, ℤ, pos,
  if◌then◌else◌,
}
use fcp_support.Control.{Props, data_control, bitmap_control, boolean, integer, enumerated}
use fcp_support.Control.Types.{devmap_type_to_data_type}
use fcp_support.Device.{Device}
use fcp_support.Device.Add.{add_control}
use fcp_support.Device.Change.{Handled}
use fcp_support.Controls.{Sources, data_props, is_some, for_each, counted, get, count_of}
use fcp_support.Controls.Path.{Search, found, missing, undefined, find_member_by_path_with_notify}

-- What the body of the inner loop comes to, up to `add_control`: properties, `continue`, `return`, or what
-- C does not define and the end of the program.
pub data Step : Type 0 where
  add : Props → Step
  skipped returns exits : Step

module _ {D : Type 0} (sources : Sources D) where
  abbrev J : Type 0
  J = sources.json.Json

  -- `build_source_enum`, without the names: the places of the entries that are names.
  unfoldable pub source_values : J → List ℕ → List ℤ
  source_values entries [] = []
  source_values entries (i ∷ is) =
      let entry = sources.json.array_get_idx entries i in
      let rest = source_values entries is in
      if sources.json.is_string entry && not (str_eq (sources.json.get_string entry) "")
      then pos i ∷ rest
      else rest

  abbrev with_sources : Option J → Props → Step
  with_sources none p = returns
  with_sources (some entries) p =
      let values = source_values entries (counted (sources.json.array_length entries) 0) in
      add
        (record p { elem_type = enumerated; enum_count = length values; enum_values = some values })

  abbrev values_from : Option J → Props → Step
  values_from none p = skipped
  values_from (some name) p =
      if str_eq (sources.json.get_string name) "output-group-sources"
      then with_sources (get sources sources.fam "output-group-sources") p
      else skipped

  abbrev in_range : Option J → Option J → Bool → Props → Step
  in_range none high tlv p = skipped
  in_range (some low) none tlv p = skipped
  in_range (some low) (some high) tlv p = add (record p {
    elem_type = integer;
    low = sources.json.get_int low;
    high = sources.json.get_int high;
    has_tlv = tlv;
  })

  -- The properties that depend on the type.
  unfoldable pub group_type : J → String → Props → Step
  unfolding source_values
  group_type config t p =
      if str_eq t "bool-bitmap"
      then add (record p {
        elem_type = boolean;
        low = pos 0;
        high = pos 1;
        read_func = bitmap_control;
        write_func = bitmap_control;
      })
      else if str_eq t "enum"
      then values_from (get sources config "values-from") p
      else if str_eq t "int"
      then in_range (get sources config "min") (get sources config "max")
          (is_some (get sources config "db-min") && is_some (get sources config "db-max")) p
      else skipped

  -- `add_control`, and on to the next one
  unfoldable pub add_step : Step → Device D → Handled D
  add_step (add p) x = some (ok tt, add_control sources.ioctl sources.alsa p x)
  add_step skipped x = some (ok tt, x)
  add_step returns x = some (err 1, x)
  add_step exits x = none

  abbrev typed : J → String → Option ℕ → (ℕ → Props) → Step
  typed config t none props = exits
  typed config t (some data_type) props = group_type config t (props data_type)

  -- The inner loop: one control for each output.
  unfoldable pub create_group_member : J → String → String → ℕ → Search J → Device D → Handled D
  unfolding add_step group_type for_each
  create_group_member config name t count missing x = some (ok tt, x)
  create_group_member config name t count undefined x = none
  create_group_member config name t count (found member member_type offset nd nc) x =
      for_each sources
        (λ i. add_step (
          typed config t (devmap_type_to_data_type member_type) (λ data_type.
            data_props (sources.format name (i + 1)) i data_type nc nd offset false data_control)))
        (counted count 0) x

  abbrev pub named : String → J → ℕ → Option J → Option J → Device D → Handled D
  named path config count none t x = some (ok tt, x)
  named path config count (some name) none x = some (ok tt, x)
  named path config count (some name) (some t) x =
      create_group_member config (sources.json.get_string name) (sources.json.get_string t) count
        (find_member_by_path_with_notify sources path) x

  -- The outer loop: one entry of the configuration.
  unfoldable pub create_group : ℕ → String × J → Device D → Handled D
  unfolding create_group_member find_member_by_path_with_notify
  create_group count (path, config) x =
      if starts_with path "outputGroup"
      then named path config count (get sources config "name") (get sources config "type") x
      else some (ok tt, x)

  -- `create_output_group_controls`, whose missing enumerators are no error
  abbrev pub counted_outputs : J → Option J → Device D → Handled D
  counted_outputs output_controls none x = some (ok tt, x)
  counted_outputs output_controls (some count) x =
      for_each sources (create_group (count_of sources count))
        (sources.json.members output_controls) x

  abbrev pub member_of : Option J → String → Option J
  member_of none key = none
  member_of (some j) key = get sources j key

  unfoldable pub create_output_group_controls : J → J → Device D → Handled D
  unfolding create_group for_each
  create_output_group_controls output_controls enums x =
      counted_outputs output_controls
        (member_of (member_of (get sources enums "maximum_array_sizes") "enumerators")
          "kMAX_NUMBER_OUTPUTS")
        x
