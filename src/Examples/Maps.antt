-- ===== src/Examples/Maps.antt =====
-- server/input-controls.c and server/output-controls.c at maps with one input and one output. A JSON value
-- is the number of a node.
use Prim.Native.String.{String}
use text.Mathlib.Text.{◌==◌ as str_eq}
use fcp_support.Base.{
  ℕ, List, [], ◌∷◌, true, false, ◌&&◌, Option, none, some, ok, ◌≡◌, refl, pos, ◌==◌, if◌then◌else◌,
}
use fcp_support.Json.{JsonC}
use fcp_support.Control.{Props, Func, data_control, volume_control}
use fcp_support.Control.Types.{type_uint8, devmap_type_to_data_type}
use fcp_support.Device.{Device}
use fcp_support.Device.Add.{add_control}
use fcp_support.Controls.{Sources, data_props, with_type, add_built, for_each}
use fcp_support.Controls.Inputs.{
  init_input_controls, create_input_controls, create_global_input_array_controls, create_input,
  create_configured, create_input_control, input_built,
}
use fcp_support.Controls.Outputs.{
  init_output_controls, create_output_controls,
  create_global_output_array_controls as create_arrays, create_output, create_configured_output,
  create_output_control, output_built,
}
use fcp_support.Examples.Device.{byte_device, alsa, device}

abbrev edges : List (ℕ × (String × ℕ))
edges =
    (0, ("device-specification", 1))
    ∷ (0, ("structs", 3))
    ∷ (1, ("physical-inputs", 2))
    ∷ (1, ("physical-outputs", 2))
    ∷ (3, ("APP_SPACE", 4))
    ∷ (4, ("members", 5))
    ∷ (5, ("gain", 13))
    ∷ (6, ("input-controls", 7))
    ∷ (6, ("output-controls", 7))
    ∷ (8, ("controls", 9))
    ∷ (8, ("name", 20))
    ∷ (9, ("level", 10))
    ∷ (10, ("index", 20))
    ∷ (10, ("member", 12))
    ∷ (13, ("offset", 40))
    ∷ (13, ("type", 15))
    ∷ (13, ("notify-device", 20))
    ∷ (13, ("notify-client", 20))
    ∷ (16, ("name", 17))
    ∷ (16, ("type", 15))
    ∷ []

abbrev pub edge : List (ℕ × (String × ℕ)) → ℕ → String → Option ℕ
edge [] n key = none
edge ((m, (k, to)) ∷ rest) n key =
    let later = edge rest n key in if (m == n) && str_eq k key then some to else later

abbrev text_of : ℕ → String
text_of n = if n == 12 then "gain" else if n == 15 then "bool" else "Level"

abbrev json : JsonC
json = record {
  Json = ℕ;
  get_ex = edge edges;
  get_int = λ n. pos (if n == 40 then 8 else 0);
  get_string = text_of;
  array_length = λ n. if n == 2 then 1 else 0;
  array_get_idx = λ n i. 8;
  get_boolean = λ n. true;
  is_null = λ n. false;
  is_string = λ n. true;
  members = λ n. if n == 7 then ("level", 16) ∷ [] else [];
}

abbrev sources : Sources ℕ
sources = record {
  json = json;
  format = λ f n. f;
  format2 = λ f m n. f;
  split = λ path. path ∷ [];
  ioctl = byte_device;
  alsa = alsa;
  devmap = 0;
  fam = 6;
}

abbrev level : Func → Props
level f = record (data_props "Level" 0 type_uint8 0 0 8 false f) { low = pos 0; high = pos 1 }

abbrev with_level : Func → Device ℕ
with_level f = add_control byte_device alsa (level f) device

input_added : init_input_controls sources device ≡ some (ok tt, with_level data_control)
unfolding init_input_controls create_input_controls create_global_input_array_controls create_input
    create_configured create_input_control input_built with_type add_built for_each
    devmap_type_to_data_type
input_added = refl

output_added : init_output_controls sources device ≡ some (ok tt, with_level volume_control)
unfolding init_output_controls create_output_controls create_arrays create_output
    create_configured_output create_output_control output_built with_type add_built for_each
    devmap_type_to_data_type
output_added = refl
