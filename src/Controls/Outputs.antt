-- ===== src/Controls/Outputs.antt =====
-- server/output-controls.c: the controls of the outputs.
use Prim.Native.String.{String}
use fcp_support.Base.{
  ◌%◌, ◌^◌, ◌==◌, ℕ, ◌+◌, List, [], ◌∷◌, Bool, true, false, Option, none, some, ok, if◌then◌else◌,
}
use fcp_support.Control.{volume_control}
use fcp_support.Control.Types.{devmap_type_to_data_type}
use fcp_support.Device.{Device}
use fcp_support.Device.Change.{Handled, then_some}
use fcp_support.Controls.{
  Sources, Built, data_props, with_type, add_built, for_each, counted, need, need_or_exit, or_skip,
  or_fail, get, number, count_of,
}
use fcp_support.Controls.Groups.{create_output_group_controls}

module _ {D : Type 0} (sources : Sources D) where
  abbrev J : Type 0
  J = sources.json.Json

  -- Whether an index is among the first `n` links.
  unfoldable pub is_linked : J → List ℕ → ℕ → Bool
  is_linked links [] index = false
  is_linked links (i ∷ is) index =
      let rest = is_linked links is index in
      if number sources (some (sources.json.array_get_idx links i)) == index then true else rest

  abbrev link_of : Option J → ℕ → Bool
  link_of none index = false
  link_of (some links) index = is_linked links (counted (sources.json.array_length links) 0) index

  -- `create_output_control`, up to `add_control`
  unfoldable pub output_built : Option J → ℕ → J → J → Built
  unfolding with_type is_linked
  output_built output_link i member config = need (get sources member "offset") (λ offset.
      need (get sources member "type") (λ devmap_type.
        need (get sources member "notify-device") (λ nd.
          need (get sources member "notify-client") (λ nc. need (get sources config "name") (λ name.
            need (get sources config "type") (λ t.
              need_or_exit (devmap_type_to_data_type (sources.json.get_string devmap_type))
                (λ data_type. with_type sources config (sources.json.get_string t) (
                  data_props (sources.format (sources.json.get_string name) ((i + 1) % 2 ^ 32)) i
                    data_type (number sources (some nc)) (number sources (some nd))
                    (number sources (some offset)) (link_of output_link i) volume_control))))))))

  -- `create_output_control`
  unfoldable pub create_output_control : Option J → ℕ → J → J → Device D → Handled D
  unfolding add_built
  create_output_control output_link i member config x =
      add_built sources (output_built output_link i member config) x

  -- The inner loop of `create_output_controls`: one control type of one output.
  unfoldable pub create_configured_output : Option J → J → J → String × J → Device D → Handled D
  unfolding create_output_control
  create_configured_output output_link members controls (control_type, config) x =
      or_skip (get sources controls control_type)
        (λ control. or_skip (get sources control "index") (λ index.
          or_skip (get sources control "member") (λ member_name.
            or_skip (get sources members (sources.json.get_string member_name)) (λ member.
              create_output_control output_link (number sources (some index)) member config))))
        x

  -- The outer loop of `create_output_controls`: one output.
  unfoldable pub create_output : Option J → J → J → J → Device D → Handled D
  unfolding create_configured_output for_each
  create_output output_link members output_controls output x =
      or_skip (get sources output "controls")
        (λ controls. or_skip (get sources output "name") (λ name.
          for_each sources (create_configured_output output_link members controls)
            (sources.json.members output_controls)))
        x

  -- `create_output_controls`
  unfoldable pub create_output_controls : J → J → J → Option J → Device D → Handled D
  unfolding create_output for_each
  create_output_controls outputs members output_controls output_link x =
      for_each sources
        (λ i.
          create_output output_link members output_controls (sources.json.array_get_idx outputs i))
        (counted (sources.json.array_length outputs) 0) x

  -- `create_global_output_array_controls`
  unfoldable pub create_global_output_array_controls : J → J → Device D → Handled D
  unfolding create_output_control for_each
  create_global_output_array_controls members output_controls x =
      or_skip (get sources members "outputMute")
        (λ member. or_skip (get sources output_controls "mute") (λ config.
          or_skip (get sources member "array-shape") (λ shape.
            for_each sources (λ i. create_output_control none i member config)
              (counted (count_of sources (sources.json.array_get_idx shape 0)) 0))))
        x

  -- The controls of the output group, if the device map has enums.
  abbrev pub with_enums : J → Option J → Device D → Handled D
  with_enums output_controls none x = some (ok tt, x)
  with_enums output_controls (some enums) x =
      create_output_group_controls sources output_controls enums x

  -- `init_output_controls`
  unfoldable pub init_output_controls : Device D → Handled D
  unfolding create_output_controls create_global_output_array_controls create_output_group_controls
  init_output_controls x =
      or_fail (get sources sources.fam "output-controls")
        (λ output_controls. or_fail (get sources sources.devmap "device-specification") (λ spec.
          or_fail (get sources spec "physical-outputs") (λ outputs.
            or_fail (get sources sources.devmap "structs") (λ structs.
              or_fail (get sources structs "APP_SPACE") (λ app_space.
                or_fail (get sources app_space "members") (λ members y.
                  then_some
                    (then_some
                      (create_output_controls outputs members output_controls
                        (get sources sources.fam "output-link") y)
                      (create_global_output_array_controls members output_controls))
                    (with_enums output_controls (get sources sources.devmap "enums"))))))))
        x
