-- ===== src/Controls/Mixer.antt =====
-- server/mix.c and server/sync.c: the mixer controls, from the destinations and sinks of the two JSON maps,
-- and the control of the sync status.
use Prim.Native.String.{String}
use text.Mathlib.Text.{◌==◌ as str_eq}
use fcp_support.Base.{
  ℕ, ◌+◌, ◌*◌, ◌%◌, ◌^◌, List, [], ◌∷◌, true, false, ◌||◌, Option, none, some, Res, ok, err, pos, ℤ,
  is_neg, pos_part, ltb, ◌==◌, if◌then◌else◌,
}
use fcp_support.Base.Chars.{codes, number_of, from_digit}
use fcp_support.Fcp.Tables.{mix_info}
use fcp_support.Mix.{init_mix_cache}
use fcp_support.Control.{Props, no_func, mix_control, sync_control, integer, enumerated}
use fcp_support.Device.{Backend, Device, on_dev}
use fcp_support.Device.Functions.{mixer_of, keep_mixer}
use fcp_support.Device.Add.{add_control}
use fcp_support.Controls.{Sources, data_props, is_some, get, number, items, counted}

-- `num <= 0 || num > num_inputs` is an error.
abbrev pub valid_input : ℕ → ℤ → Option ℕ
valid_input inputs v =
    if is_neg v || pos_part v == 0 || ltb inputs (pos_part v) then none else some (pos_part v)

-- The control of a mixer input, by its name and its place in the cache.
unfoldable pub mix_props : String → ℕ → Props
mix_props name offset = record (data_props name 0 0 0 0 offset false mix_control) {
  elem_type = integer;
  high = pos 32613;
  has_tlv = true;
  read_func = mix_control;
}

-- The control of the sync status.
abbrev pub sync_props : Props
sync_props = record (data_props "Sync Status" 0 0 8 0 0 false no_func) {
  elem_type = enumerated;
  step = pos 0;
  enum_count = 2;
  read_only = true;
  read_func = sync_control;
}

module _ {D : Type 0} (sources : Sources D) where
  abbrev J : Type 0
  J = sources.json.Json

  -- `add_sync_control`
  unfoldable pub add_sync_control : Device D → Device D
  add_sync_control x = add_control sources.ioctl sources.alsa sync_props x

  -- `find_destination_by_name`
  unfoldable pub find_destination_by_name : List J → String → Option J
  find_destination_by_name [] name = none
  find_destination_by_name (d ∷ rest) name =
      let later = find_destination_by_name rest name in
      elim (get sources d "name") [
        | none ↦ later
        | some n ↦ if str_eq (sources.json.get_string n) name then some d else later
      ]

  abbrev index_of : Option J → Option J
  index_of none = none
  index_of (some dest) = get sources dest "mixer-input-index"

  -- The index of the mixer input that a sink's device name leads to.
  abbrev pub mixer_index : List J → Option J → Option J
  mixer_index dests none = none
  mixer_index dests (some name) =
      index_of (find_destination_by_name dests (sources.json.get_string name))

  -- The loop of `count_mixer_inputs`.
  unfoldable pub count_inputs : List J → List J → ℕ
  unfolding find_destination_by_name
  count_inputs dests [] = 0
  count_inputs dests (sink ∷ rest) =
      (if is_some (mixer_index dests (get sources sink "device_name")) then 1 else 0)
      + count_inputs dests rest

  -- The destinations and the sinks of the maps.
  abbrev and_sinks : Option J → Option J → Option (List J × List J)
  and_sinks none sinks = none
  and_sinks (some dests) none = none
  and_sinks (some dests) (some sinks) = some (items sources dests, items sources sinks)

  abbrev destinations_of : Option J → Option J
  destinations_of none = none
  destinations_of (some spec) = get sources spec "destinations"

  unfoldable pub mixer_maps : Option (List J × List J)
  mixer_maps =
      and_sinks (destinations_of (get sources sources.devmap "device-specification"))
        (get sources sources.fam "sinks")

  -- The body of the inner loop, for output `i` and a sink of a mixer input.
  abbrev pub add_numbered : ℕ → ℕ → J → Option ℕ → Device D → Device D
  add_numbered inputs i index none x = x
  add_numbered inputs i index (some num) x =
      add_control sources.ioctl sources.alsa
        (mix_props (sources.format2 "Mix %c Input %02d Playback Volume" (65 + i) num)
          ((i * inputs + number sources (some index)) % 2 ^ 32))
        x

  abbrev pub add_input : ℕ → ℕ → Option J → Option J → Device D → Device D
  add_input inputs i none index x = x
  add_input inputs i (some alsa_name) none x = x
  add_input inputs i (some alsa_name) (some index) x =
      add_numbered inputs i index
        (valid_input inputs (number_of (from_digit (codes (sources.json.get_string alsa_name))))) x

  -- The inner loop of `add_mix_controls`, for output `i`.
  unfoldable pub add_inputs : ℕ → List J → ℕ → List J → Device D → Device D
  unfolding find_destination_by_name mix_props
  add_inputs inputs dests i [] x = x
  add_inputs inputs dests i (sink ∷ rest) x = add_inputs inputs dests i rest (
      add_input inputs i (get sources sink "alsa_name")
        (mixer_index dests (get sources sink "device_name")) x)

  -- The outer loop.
  unfoldable pub add_outputs : ℕ → List J → List J → List ℕ → Device D → Device D
  unfolding add_inputs
  add_outputs inputs dests sinks [] x = x
  add_outputs inputs dests sinks (i ∷ is) x =
      add_outputs inputs dests sinks is (add_inputs inputs dests i sinks x)

  abbrev pub set_counts : Device D → ℕ → ℕ → Device D
  set_counts x outputs inputs = record x {
    backend = record (x.backend) { mix_output_count = outputs; mix_input_count = inputs };
  }

  abbrev pub set_cache : ℕ → Device D → Device D
  set_cache outputs x = record x {
    backend =
        (keep_mixer {A = Unit {0}} x.backend (tt, init_mix_cache outputs (mixer_of x.backend))).1;
  }

  -- With the counts known: nothing without a mixer input in the maps.
  unfoldable pub add_counted : ℕ → ℕ → Option (List J × List J) → Device D → Device D
  unfolding add_outputs count_inputs init_mix_cache
  add_counted outputs inputs none x = x
  add_counted outputs inputs (some (dests, sinks)) x =
      if count_inputs dests sinks == 0
      then x
      else add_outputs inputs dests sinks (counted outputs 0) (set_cache outputs x)

  abbrev pub info_read : Device D → Res (ℕ × ℕ) × Backend D → Device D
  info_read x (err e, b) = record x { backend = b }
  info_read x (ok (outputs, inputs), b) =
      add_counted outputs inputs mixer_maps (set_counts (record x { backend = b }) outputs inputs)

  -- `add_mix_controls`
  unfoldable pub add_mix_controls : Device D → Device D
  unfolding add_counted mixer_maps on_dev
  add_mix_controls x = info_read x (on_dev (mix_info sources.ioctl) x.backend)
