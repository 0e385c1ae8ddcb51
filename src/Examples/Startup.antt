-- ===== src/Examples/Startup.antt =====
-- server/device-ops.c, server/mux.c, server/mix.c and server/meter.c at maps with one source and two sinks,
-- one of them with a static source. A JSON value is the number of a node.
use Prim.Native.String.{String}
use fcp_support.Base.{
  ℕ, List, [], ◌∷◌, All, true, false, ◌||◌, Option, none, some, ok, Ioctl, ◌≡◌, refl, arith, pos,
  ◌==◌, if◌then◌else◌, ◌++◌,
}
use fcp_support.Fcp.{fcp_cmd}
use fcp_support.Fcp.Misc.{cap_read}
use fcp_support.Fcp.Tables.{mux_info, mux_read}
use fcp_support.Base.Flow.{each}
use fcp_support.Base.Chars.{number_of}
use fcp_support.Controls.Inputs.{init_input_controls}
use fcp_support.Controls.Outputs.{init_output_controls}
use fcp_support.Controls.Global.{init_global_controls}
use fcp_support.Mux.{
  add_input_name, invalidate_mux_cache, find_router_slot, refresh_tables, read_mux_control,
}
use fcp_support.Device.Functions.{call_read_func}
use fcp_support.Device.Add.{add_control, add_user_control}
use fcp_support.Fcp.{opcode_cap_read, opcode_mix_info, opcode_mux_info, opcode_mux_read}
use fcp_support.Json.{JsonC}
use fcp_support.Control.{Props}
use fcp_support.Device.{Device}
use fcp_support.Device.Change.{Handled}
use fcp_support.Device.Table.{IsRoomy}
use fcp_support.Device.Add.{find_control}
use fcp_support.Controls.{Sources}
use fcp_support.Controls.Router.{add_mux_controls}
use fcp_support.Controls.Router.Bound.{IsBound}
use fcp_support.Controls.Router.Bound.Added.{add_mux_controls-AddsBound}
use fcp_support.Controls.Meters.{meter_entries}
use fcp_support.Controls.Meters.Bounds.{IsInside, meter_entries-IsInside}
use fcp_support.Controls.Startup.{Startup, device_init_controls, remove_all_user_controls}
use fcp_support.Controls.Startup.Room.{device_init_controls-IsRoomy}
use fcp_support.Controls.Startup.Sync.{IsSync, device_init_controls-IsSync}
use fcp_support.Examples.Device.{alsa, device}
use fcp_support.Examples.Maps.{edge}

abbrev edges : List (ℕ × (String × ℕ))
edges =
    (0, ("device-specification", 1))
    ∷ (0, ("structs", 5))
    ∷ (0, ("enums", 9))
    ∷ (1, ("sources", 2))
    ∷ (1, ("destinations", 3))
    ∷ (1, ("physical-inputs", 10))
    ∷ (1, ("physical-outputs", 10))
    ∷ (5, ("APP_SPACE", 5))
    ∷ (5, ("members", 5))
    ∷ (6, ("sources", 7))
    ∷ (6, ("sinks", 8))
    ∷ (6, ("input-controls", 9))
    ∷ (6, ("output-controls", 9))
    ∷ (6, ("global-controls", 9))
    ∷ (30, ("name", 31))
    ∷ (30, ("router-pin", 32))
    ∷ (30, ("peak-index", 33))
    ∷ (40, ("name", 42))
    ∷ (40, ("router-pin", 43))
    ∷ (41, ("name", 44))
    ∷ (41, ("router-pin", 45))
    ∷ (41, ("static-source", 31))
    ∷ (41, ("mixer-input-index", 33))
    ∷ (41, ("peak-index", 34))
    ∷ (50, ("device_name", 31))
    ∷ (50, ("alsa_name", 31))
    ∷ (51, ("device_name", 42))
    ∷ (51, ("alsa_name", 42))
    ∷ (52, ("device_name", 44))
    ∷ (52, ("alsa_name", 44))
    ∷ []

abbrev text_at : List (ℕ × String) → ℕ → String
text_at [] n = ""
text_at ((m, t) ∷ rest) n = let later = text_at rest n in if m == n then t else later

abbrev item_at : ℕ → ℕ → ℕ
item_at n i =
    if n == 2
    then 30
    else if n == 3
    then (if i == 0 then 40 else 41)
    else if n == 7
    then 50
    else if i == 0
    then 51
    else 52

abbrev json : JsonC
json = record {
  Json = ℕ;
  get_ex = edge edges;
  get_int = λ n. pos (if n == 34 then 3 else 0);
  get_boolean = λ n. true;
  get_string = text_at (
      (31, "Analogue 1")
      ∷ (32, "1024")
      ∷ (42, "PCM 1")
      ∷ (43, "512")
      ∷ (44, "Mixer 1")
      ∷ (45, "768")
      ∷ []);
  array_length = λ n. if n == 2 || n == 7 then 1 else if n == 3 || n == 8 then 2 else 0;
  array_get_idx = item_at;
  is_null = λ n. false;
  is_string = λ n. true;
  members = λ n. [];
}

-- Every category is supported; there are one mixer and a table of two entries at the first rate.
abbrev answer : ℕ → List ℕ
answer op =
    if op == opcode_cap_read
    then 1 ∷ []
    else if op == opcode_mix_info
    then 1 ∷ 1 ∷ 0 ∷ 0 ∷ 0 ∷ 0 ∷ 0 ∷ 0 ∷ []
    else if op == opcode_mux_info
    then 2 ∷ 0 ∷ 0 ∷ 0 ∷ 0 ∷ 0 ∷ 0 ∷ 0 ∷ 0 ∷ 0 ∷ 0 ∷ 0 ∷ []
    else if op == opcode_mux_read
    then 0 ∷ 3 ∷ 0 ∷ 0 ∷ 0 ∷ 2 ∷ 64 ∷ 0 ∷ []
    else 4 ∷ 0 ∷ 0 ∷ 0 ∷ []

abbrev driver : Ioctl ℕ
driver op req size d = (ok (answer op), d)

abbrev sources : Sources ℕ
sources = record {
  json = json;
  format = λ f n. f;
  format2 = λ f m n. f;
  split = λ path. path ∷ [];
  ioctl = driver;
  alsa = alsa;
  devmap = 0;
  fam = 6;
}

abbrev startup : Startup ℕ
startup = record {
  sources = sources;
  meters = record { set_meter_map = λ m d. (ok tt, d); set_meter_labels = λ l d. (ok tt, d) };
  elem_list = λ d. (ok ("Old" ∷ []), d);
  elem_is_user = λ id d. (ok true, d);
  junk = pos 0;
}

-- The device that is left, where the call returns.
abbrev returned : Option (Device ℕ) → Device ℕ
returned none = device
returned (some y) = y

abbrev routed : Device ℕ
routed = returned (add_mux_controls sources device)

two_routed : add_mux_controls sources device ≡ some routed
unfolding add_mux_controls mux_info fcp_cmd each number_of refresh_tables mux_read add_control
    add_user_control call_read_func read_mux_control add_input_name invalidate_mux_cache
    find_router_slot
two_routed = refl

add_mux_controls-AddsBound_example :
    (added : List Props) × (routed.controls ≡ device.controls ++ added)
    × All (IsBound sources routed.backend.mux) added
add_mux_controls-AddsBound_example = add_mux_controls-AddsBound sources device routed two_routed

two_meters : meter_entries sources (pos 4) ≡ (0, "Source Analogue 1") ∷ (3, "Sink Mixer 1") ∷ []
unfolding meter_entries
two_meters = refl

meter_entries-IsInside_example : IsInside (pos 4) 3 (meter_entries sources (pos 4))
meter_entries-IsInside_example = meter_entries-IsInside sources (pos 4) 7 8 refl refl

abbrev handled : Handled ℕ → Device ℕ
handled none = device
handled (some (r, y)) = y

abbrev started : Device ℕ
started = handled (device_init_controls startup device)

start_returns : device_init_controls startup device ≡ some (ok tt, started)
unfolding device_init_controls cap_read mux_info fcp_cmd each number_of refresh_tables mux_read
    add_control add_user_control call_read_func read_mux_control add_mux_controls add_input_name
    invalidate_mux_cache find_router_slot init_input_controls init_output_controls
    init_global_controls
start_returns = refl

device_init_controls-IsRoomy_example : IsRoomy started
device_init_controls-IsRoomy_example =
    device_init_controls-IsRoomy startup device (ok tt) started start_returns

device_init_controls-IsSync_example :
    (p : Props) × (find_control started "Sync Status" ≡ some (0, p)) × IsSync startup p
unfolding cap_read fcp_cmd remove_all_user_controls
device_init_controls-IsSync_example =
    device_init_controls-IsSync startup device 1 1 1 200 200 200 (ok tt) started refl (omega arith)
      refl (omega arith) refl (omega arith) start_returns
