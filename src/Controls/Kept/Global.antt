-- ===== src/Controls/Kept/Global.antt =====
-- server/global-controls.c: what the new controls leave as it was.
use Prim.Native.String.{String}
use text.Mathlib.Text.{◌==◌ as str_eq}
use fcp_support.Base.{none, some, ok, err, refl, Bool-cases, inl, inr}
use fcp_support.Device.{Device}
use fcp_support.Device.Change.{Handled}
use fcp_support.Controls.{Sources, get, counted}
use fcp_support.Controls.Path.{Search, found, missing, undefined, find_member_by_path}
use fcp_support.Controls.Global.{
  init_global_controls, create_global_control, create_named, create_bool_mixer_outputs_controls,
  mixer_switches, ignored,
}
use fcp_support.Controls.Kept.{
  Keeps, unchanged-Keeps, or_fail-Keeps, returned-IsKept, add_built-Keeps, for_each-Keeps,
}

module _ {D : Type 0} (sources : Sources D) where
  abbrev J : Type 0
  J = sources.json.Json

  mixer_switches-Keeps :
      (name : String) (s : Search J) (x : Device D) → Keeps x (mixer_switches sources name s x)
  mixer_switches-Keeps name missing x = unchanged-Keeps x (err 1)
  mixer_switches-Keeps name undefined x = record { keeps = λ r y e. absurd cc }
  mixer_switches-Keeps name (found member t offset nd nc) x =
      for_each-Keeps sources _ (λ i z. add_built-Keeps sources _ z)
        (counted x.backend.mix_output_count 0) x

  create_named-Keeps :
      (enums fcp_notify_enums config : J) (path name t : String) (x : Device D)
      → Keeps x (create_named sources enums fcp_notify_enums config path name t x)
  unfolding create_named create_bool_mixer_outputs_controls
  create_named-Keeps enums fcp_notify_enums config path name t x =
      elim (Bool-cases (str_eq t "bool-mixer-outputs")) [
        | inl outputs ↦ rw outputs (mixer_switches-Keeps name (find_member_by_path sources path) x)
        | inr other ↦ rw other (add_built-Keeps sources _ x)
      ]

  ignored-Keeps : (x : Device D) (h : Handled D) → Keeps x h → Keeps x (ignored sources h)
  ignored-Keeps x none k = record { keeps = λ r y e. absurd cc }
  ignored-Keeps x (some (s, z)) k = record {
    keeps = λ r y e. returned-IsKept x (ok tt, z) (r, y) (k.keeps s z refl) e;
  }

  create_global_control-Keeps :
      (enums : J) (item : String × J) (x : Device D)
      → Keeps x (create_global_control sources enums item x)
  unfolding create_global_control
  create_global_control-Keeps enums (path, config) x =
      or_fail-Keeps (get sources enums "eDEV_FCP_USER_MESSAGE_TYPE") _ x (λ fcp_notify.
        or_fail-Keeps (get sources fcp_notify "enumerators") _ x (λ notify_enums.
          or_fail-Keeps (get sources config "name") _ x (λ name.
            or_fail-Keeps (get sources config "type") _ x (λ t.
              create_named-Keeps enums notify_enums config path (sources.json.get_string name)
                (sources.json.get_string t) x))))

  pub init_global_controls-Keeps : (x : Device D) → Keeps x (init_global_controls sources x)
  unfolding init_global_controls
  init_global_controls-Keeps x =
      or_fail-Keeps (get sources sources.fam "global-controls") _ x (λ global_controls.
        or_fail-Keeps (get sources sources.devmap "enums") _ x (λ enums.
          for_each-Keeps sources _
            (λ item z.
              ignored-Keeps z (create_global_control sources enums item z)
                (create_global_control-Keeps enums item z))
            (sources.json.members global_controls) x))
