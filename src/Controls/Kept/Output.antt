-- ===== src/Controls/Kept/Output.antt =====
-- server/output-controls.c: what the new controls leave as it was.
use Prim.Native.String.{String}
use text.Mathlib.Text.{starts_with}
use fcp_support.Base.{ℕ, Option, none, some, ok, err, Bool-cases, inl, inr}
use fcp_support.Device.{Device}
use fcp_support.Device.Change.{then_some}
use fcp_support.Controls.{Sources, counted, count_of, number, get}
use fcp_support.Controls.Outputs.{
  init_output_controls, create_output_controls, create_global_output_array_controls, create_output,
  create_configured_output, create_output_control, output_built, with_enums,
}
use fcp_support.Controls.Groups.{
  Step, add, skipped, returns, exits, create_output_group_controls, create_group,
  create_group_member, add_step, counted_outputs, named,
}
use fcp_support.Controls.Path.{Search, found, missing, undefined, find_member_by_path_with_notify}
use fcp_support.Controls.Kept.{
  Keeps, unchanged-Keeps, then_some-Keeps, or_skip-Keeps, or_fail-Keeps, returned-IsKept,
  add_control-IsKept, add_built-Keeps, for_each-Keeps,
}

module _ {D : Type 0} (sources : Sources D) where
  abbrev J : Type 0
  J = sources.json.Json

  create_configured_output-Keeps :
      (link : Option J) (members controls : J) (item : String × J) (x : Device D)
      → Keeps x (create_configured_output sources link members controls item x)
  unfolding create_configured_output create_output_control
  create_configured_output-Keeps link members controls (t, config) x =
      or_skip-Keeps (get sources controls t) _ x (λ control.
        or_skip-Keeps (get sources control "index") _ x (λ index.
          or_skip-Keeps (get sources control "member") _ x (λ member_name.
            or_skip-Keeps (get sources members (sources.json.get_string member_name)) _ x (λ member.
              add_built-Keeps sources
                (output_built sources link (number sources (some index)) member config) x))))

  create_output_controls-Keeps :
      (outputs members config : J) (link : Option J) (x : Device D)
      → Keeps x (create_output_controls sources outputs members config link x)
  unfolding create_output_controls create_output
  create_output_controls-Keeps outputs members config link x =
      for_each-Keeps sources _
        (λ i z.
          let output = sources.json.array_get_idx outputs i in
          or_skip-Keeps (get sources output "controls") _ z (λ controls.
            or_skip-Keeps (get sources output "name") _ z (λ name.
              for_each-Keeps sources (create_configured_output sources link members controls)
                (create_configured_output-Keeps link members controls) (sources.json.members config)
                z)))
        (counted (sources.json.array_length outputs) 0) x

  create_global_output_array_controls-Keeps :
      (members config : J) (x : Device D)
      → Keeps x (create_global_output_array_controls sources members config x)
  unfolding create_global_output_array_controls create_output_control
  create_global_output_array_controls-Keeps members config x =
      or_skip-Keeps (get sources members "outputMute") _ x (λ member.
        or_skip-Keeps (get sources config "mute") _ x (λ c.
          or_skip-Keeps (get sources member "array-shape") _ x (λ shape.
            for_each-Keeps sources (λ i. create_output_control sources none i member c)
              (λ i z. add_built-Keeps sources (output_built sources none i member c) z)
              (counted (count_of sources (sources.json.array_get_idx shape 0)) 0) x)))

  add_step-Keeps : (s : Step) (x : Device D) → Keeps x (add_step sources s x)
  unfolding add_step
  add_step-Keeps (add p) x = record {
    keeps = λ r y e. returned-IsKept x _ (r, y) (add_control-IsKept sources p x) e;
  }
  add_step-Keeps skipped x = unchanged-Keeps x (ok tt)
  add_step-Keeps returns x = unchanged-Keeps x (err 1)
  add_step-Keeps exits x = record { keeps = λ r y e. absurd cc }

  create_group_member-Keeps :
      (config : J) (name t : String) (count : ℕ) (s : Search J) (x : Device D)
      → Keeps x (create_group_member sources config name t count s x)
  unfolding create_group_member
  create_group_member-Keeps config name t count missing x = unchanged-Keeps x (ok tt)
  create_group_member-Keeps config name t count undefined x = record { keeps = λ r y e. absurd cc }
  create_group_member-Keeps config name t count (found m t' offset nd nc) x =
      for_each-Keeps sources _ (λ i z. add_step-Keeps _ z) (counted count 0) x

  named-Keeps :
      (path : String) (config : J) (count : ℕ) (name t : Option J) (x : Device D)
      → Keeps x (named sources path config count name t x)
  named-Keeps path config count none t x = unchanged-Keeps x (ok tt)
  named-Keeps path config count (some name) none x = unchanged-Keeps x (ok tt)
  named-Keeps path config count (some name) (some t) x =
      create_group_member-Keeps config (sources.json.get_string name) (sources.json.get_string t)
        count (find_member_by_path_with_notify sources path) x

  create_group-Keeps :
      (count : ℕ) (item : String × J) (x : Device D) → Keeps x (create_group sources count item x)
  unfolding create_group
  create_group-Keeps count (path, config) x = elim (Bool-cases (starts_with path "outputGroup")) [
    | inl grouped ↦
        rw grouped
          (named-Keeps path config count (get sources config "name") (get sources config "type") x)
    | inr other ↦ rw other (unchanged-Keeps x (ok tt))
  ]

  counted_outputs-Keeps :
      (config : J) (count : Option J) (x : Device D)
      → Keeps x (counted_outputs sources config count x)
  counted_outputs-Keeps config none x = unchanged-Keeps x (ok tt)
  counted_outputs-Keeps config (some count) x =
      for_each-Keeps sources (create_group sources (count_of sources count))
        (create_group-Keeps (count_of sources count)) (sources.json.members config) x

  with_enums-Keeps :
      (config : J) (enums : Option J) (x : Device D) → Keeps x (with_enums sources config enums x)
  unfolding create_output_group_controls
  with_enums-Keeps config none x = unchanged-Keeps x (ok tt)
  with_enums-Keeps config (some enums) x = counted_outputs-Keeps config _ x

  pub init_output_controls-Keeps : (x : Device D) → Keeps x (init_output_controls sources x)
  unfolding init_output_controls
  init_output_controls-Keeps x =
      or_fail-Keeps (get sources sources.fam "output-controls") _ x (λ config.
        or_fail-Keeps (get sources sources.devmap "device-specification") _ x (λ spec.
          or_fail-Keeps (get sources spec "physical-outputs") _ x (λ outputs.
            or_fail-Keeps (get sources sources.devmap "structs") _ x (λ structs.
              or_fail-Keeps (get sources structs "APP_SPACE") _ x (λ app_space.
                or_fail-Keeps (get sources app_space "members") _ x (λ members.
                  let link = get sources sources.fam "output-link" in
                  then_some-Keeps x
                    (then_some (create_output_controls sources outputs members config link x)
                      (create_global_output_array_controls sources members config))
                    (with_enums sources config (get sources sources.devmap "enums"))
                    (then_some-Keeps x
                      (create_output_controls sources outputs members config link x)
                      (create_global_output_array_controls sources members config)
                      (create_output_controls-Keeps outputs members config link x)
                      (create_global_output_array_controls-Keeps members config))
                    (with_enums-Keeps config (get sources sources.devmap "enums"))))))))
