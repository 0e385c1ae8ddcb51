-- ===== src/Controls/Inputs.antt =====
-- server/input-controls.c: the controls of the inputs.
use Prim.Native.String.{String}
use fcp_support.Base.{◌%◌, ◌^◌, ℕ, ◌+◌, false, some}
use fcp_support.Control.{data_control}
use fcp_support.Control.Types.{devmap_type_to_data_type}
use fcp_support.Device.{Device}
use fcp_support.Device.Change.{Handled, then_some}
use fcp_support.Controls.{
  Sources, Built, data_props, with_type, add_built, for_each, counted, need, need_or_exit, or_skip,
  or_fail, get, number, count_of,
}

module _ {D : Type 0} (sources : Sources D) where
  abbrev J : Type 0
  J = sources.json.Json

  -- `create_input_control`, up to `add_control`
  unfoldable pub input_built : ℕ → J → J → Built
  unfolding with_type
  input_built i member config = need (get sources member "offset") (λ offset.
      need (get sources member "type") (λ devmap_type. need (get sources config "name") (λ name.
        need (get sources config "type") (λ t.
          need_or_exit (devmap_type_to_data_type (sources.json.get_string devmap_type))
            (λ data_type. with_type sources config (sources.json.get_string t) (
              data_props (sources.format (sources.json.get_string name) ((i + 1) % 2 ^ 32)) i
                data_type (number sources (get sources member "notify-client"))
                (number sources (get sources member "notify-device")) (number sources (some offset))
                false data_control))))))

  -- `create_input_control`
  unfoldable pub create_input_control : ℕ → J → J → Device D → Handled D
  unfolding add_built
  create_input_control i member config x = add_built sources (input_built i member config) x

  -- The inner loop of `create_input_controls`: one control type of one input.
  unfoldable pub create_configured : J → J → String × J → Device D → Handled D
  unfolding create_input_control
  create_configured members controls (control_type, config) x =
      or_skip (get sources controls control_type)
        (λ control. or_skip (get sources control "index") (λ index.
          or_skip (get sources control "member") (λ member_name.
            or_skip (get sources members (sources.json.get_string member_name))
              (λ member. create_input_control (number sources (some index)) member config))))
        x

  -- The outer loop of `create_input_controls`: one input.
  unfoldable pub create_input : J → J → J → Device D → Handled D
  unfolding create_configured for_each
  create_input members input_controls input x =
      or_skip (get sources input "controls")
        (λ controls. or_skip (get sources input "name") (λ name.
          for_each sources (create_configured members controls)
            (sources.json.members input_controls)))
        x

  -- `create_input_controls`
  unfoldable pub create_input_controls : J → J → J → Device D → Handled D
  unfolding create_input for_each
  create_input_controls inputs members input_controls x =
      for_each sources
        (λ i. create_input members input_controls (sources.json.array_get_idx inputs i))
        (counted (sources.json.array_length inputs) 0) x

  -- `create_global_input_array_controls`
  unfoldable pub create_global_input_array_controls : J → J → Device D → Handled D
  unfolding create_input_control for_each
  create_global_input_array_controls members input_controls x =
      or_skip (get sources members "inputMutes")
        (λ member. or_skip (get sources input_controls "mute") (λ config.
          or_skip (get sources member "array-shape") (λ shape.
            for_each sources (λ i. create_input_control i member config)
              (counted (count_of sources (sources.json.array_get_idx shape 0)) 0))))
        x

  -- `init_input_controls`
  unfoldable pub init_input_controls : Device D → Handled D
  unfolding create_input_controls create_global_input_array_controls
  init_input_controls x =
      or_fail (get sources sources.fam "input-controls")
        (λ input_controls. or_fail (get sources sources.devmap "device-specification") (λ spec.
          or_fail (get sources spec "physical-inputs") (λ inputs.
            or_fail (get sources sources.devmap "structs") (λ structs.
              or_fail (get sources structs "APP_SPACE") (λ app_space.
                or_fail (get sources app_space "members") (λ members y.
                  then_some (create_input_controls inputs members input_controls y)
                    (create_global_input_array_controls members input_controls)))))))
        x
