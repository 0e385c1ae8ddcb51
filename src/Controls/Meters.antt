-- ===== src/Controls/Meters.antt =====
-- server/meter.c: the map from the meters of ALSA to the device's slots, and its labels.
pub mod Bounds
use Prim.Native.String.{String, ◌++◌ as str_append}
use fcp_support.Base.{
  ℕ, ◌+◌, ◌%◌, ◌^◌, List, [], ◌∷◌, ◌++◌, Bool, true, false, ◌||◌, Option, none, some, Res, ok, err,
  Hw, ℤ, pos, negsuc, is_neg, pos_part, ltb_ℤ, to_unsigned, length, map, if◌then◌else◌,
}
use fcp_support.Base.Chars.{codes}
use fcp_support.Base.Flow.{Flow, going, returned, and_go, or_return, each, left}
use fcp_support.Fcp.Tables.{meter_info}
use fcp_support.Controls.{Sources, get, items}
use fcp_support.Controls.Mixer.{find_destination_by_name}

-- `struct fcp_meter_map`
pub record MeterMap : Type 0 where
  pub map_size : ℕ
  pub meter_slots : ℕ
  pub slots : List ℕ

-- `struct fcp_meter_labels`
pub record MeterLabels : Type 0 where
  pub labels_size : ℕ
  pub labels : List ℕ

-- FCP_IOCTL_SET_METER_MAP and FCP_IOCTL_SET_METER_LABELS
pub record MeterIoctls (D : Type 0) : Type 0 where
  pub set_meter_map : MeterMap → Hw D (Unit {0})
  pub set_meter_labels : MeterLabels → Hw D (Unit {0})

-- A slot and its label.
abbrev pub Meter : Type 0
Meter = ℕ × String

-- The labels, each with the 0 at its end.
unfoldable pub label_bytes : List Meter → List ℕ
label_bytes [] = []
label_bytes ((slot, label) ∷ rest) = codes label ++ (0 ∷ label_bytes rest)

module _ {D : Type 0} (sources : Sources D) where
  abbrev J : Type 0
  J = sources.json.Json

  abbrev string_of : J → String
  string_of = sources.json.get_string

  -- `idx < 0 || idx >= num_meter_slots` ends the function.
  unfoldable pub append_meter : ℤ → String → ℤ → List Meter → Flow (List Meter)
  append_meter num_slots label idx meters =
      if is_neg idx || (if ltb_ℤ idx num_slots then false else true)
      then returned []
      else going (meters ++ (pos_part idx, label) ∷ [])

  abbrev pub add_indexed : ℤ → String → Option J → List Meter → Flow (List Meter)
  add_indexed num_slots label none = going
  add_indexed num_slots label (some peak_index) =
      append_meter num_slots label (sources.json.get_int peak_index)

  -- The first item of the name, if there is one, and its meter, if it has one.
  abbrev pub add_found : ℤ → String → Option J → List Meter → Flow (List Meter)
  add_found num_slots label none = going
  add_found num_slots label (some item) =
      add_indexed num_slots label (get sources item "peak-index")

  -- The body of a loop, at a source or sink of the FCP ALSA map. `returned []` is `goto done` with an error.
  abbrev pub fail_without :
      {A : Type 0}
      → Option A
      → (A → List Meter → Flow (List Meter))
      → List Meter
      → Flow (List Meter)
  fail_without none f meters = returned []
  fail_without (some a) f meters = f a meters

  unfoldable pub map_one : ℤ → String → List J → J → List Meter → Flow (List Meter)
  unfolding append_meter find_destination_by_name
  map_one num_slots prefix devmap_items control =
      fail_without (get sources control "device_name") (λ device_name.
        fail_without (get sources control "alsa_name") (λ alsa_name.
          add_found num_slots (str_append prefix (string_of alsa_name))
            (find_destination_by_name sources devmap_items (string_of device_name))))

  -- "Map sources" and "Map sinks".
  unfoldable pub map_all : ℤ → List J → List J → List J → List J → Flow (List Meter)
  unfolding map_one each
  map_all num_slots devmap_sources devmap_sinks control_sources control_sinks =
      and_go (each (map_one num_slots "Source " devmap_sources) control_sources [])
        (each (map_one num_slots "Sink " devmap_sinks) control_sinks)

  -- The four arrays of the maps.
  abbrev pub Arrays : Type 0
  Arrays = List J × List J × List J × List J

  abbrev pub need : {A : Type 0} → Option J → (J → Option A) → Option A
  need none f = none
  need (some j) f = f j

  unfoldable pub arrays : Option Arrays
  arrays = need (get sources sources.devmap "device-specification") (λ spec.
      need (get sources spec "sources") (λ devmap_sources.
        need (get sources spec "destinations") (λ devmap_sinks.
          need (get sources sources.fam "sources") (λ control_sources.
            need (get sources sources.fam "sinks") (λ control_sinks. some (
              items sources devmap_sources,
              items sources devmap_sinks,
              items sources control_sources,
              items sources control_sinks,
            ))))))

  -- The meters, none after an error.
  abbrev pub entries_of : Option (List Meter) → List Meter
  entries_of none = []
  entries_of (some meters) = meters

  abbrev pub mapped : ℤ → Option Arrays → List Meter
  mapped num_slots none = []
  mapped num_slots (some (ds, dk, cs, ck)) = entries_of (left (map_all num_slots ds dk cs ck))

  unfoldable pub meter_entries : ℤ → List Meter
  unfolding arrays map_all
  meter_entries num_slots = mapped num_slots arrays

  -- What goes to the driver; the result of the map is not looked at, and the program goes on without
  -- labels too.
  unfoldable pub meter_map : ℤ → List Meter → MeterMap
  meter_map num_slots meters = record {
    map_size = length meters % 2 ^ 16;
    meter_slots = to_unsigned 16 num_slots;
    slots = map (λ (m : Meter). m.0 % 2 ^ 16) meters;
  }

  -- `add_meter_mapping_info`
  unfoldable pub add_meter_mapping_info : MeterIoctls D → List Meter → Hw D (Unit {0})
  unfolding label_bytes
  add_meter_mapping_info driver meters =
      driver.set_meter_labels
        (record { labels_size = length (label_bytes meters) % 2 ^ 16; labels = label_bytes meters })

  abbrev send_meters : MeterIoctls D → ℤ → List Meter → D → D
  send_meters driver num_slots [] d = d
  send_meters driver num_slots (m ∷ ms) d =
      (add_meter_mapping_info driver (m ∷ ms)
        (driver.set_meter_map (meter_map num_slots (m ∷ ms)) d).1).1

  -- The number of slots, or what the variable happens to hold when the command fails.
  abbrev slots_or : ℤ → Res ℕ → ℤ
  slots_or junk (ok n) = pos n
  slots_or junk (err e) = junk

  -- `add_meter_control`
  unfoldable pub add_meter_control : MeterIoctls D → ℤ → D → D
  unfolding meter_entries add_meter_mapping_info meter_map
  add_meter_control driver junk d =
      let (r, d') = meter_info sources.ioctl d in
      send_meters driver (slots_or junk r) (meter_entries (slots_or junk r)) d'
