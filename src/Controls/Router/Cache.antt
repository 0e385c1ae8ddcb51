-- ===== src/Controls/Router/Cache.antt =====
-- server/mux.c: the cache of the router, and its inputs from the sources of the two JSON maps. A source's
-- name only goes to ALSA.
use Prim.Native.String.{String}
use text.Mathlib.Text.{◌==◌ as str_eq}
use fcp_support.Base.{ℕ, List, [], false, not, ◌||◌, Option, none, some, map, replicate}
use fcp_support.Base.{Res, ok, err, ℤ, is_neg, pos_part, ltb, ◌==◌, if◌then◌else◌}
use fcp_support.Base.Chars.{atoi}
use fcp_support.Base.Flow.{Flow, going, or_return, each, left}
use fcp_support.Fcp.Tables.{mux_info}
use fcp_support.Mux.{Mux, add_input_name, invalidate_mux_cache}
use fcp_support.Device.{Backend, Device, on_dev}
use fcp_support.Controls.{Sources, get, items}

-- `router_pin <= 0 || router_pin > 0xFFF` is an error.
abbrev pub valid_pin : ℤ → Option ℕ
valid_pin v =
    if is_neg v || pos_part v == 0 || ltb 0xfff (pos_part v) then none else some (pos_part v)

module _ {D : Type 0} (sources : Sources D) where
  abbrev J : Type 0
  J = sources.json.Json

  abbrev string_of : J → String
  string_of = sources.json.get_string

  -- What the inner loop of `init_mux_cache` does with a source of the device map.
  unfoldable pub note_source : String → J → Mux (Unit {0}) → Flow (Mux (Unit {0}))
  note_source device_name source = or_return (get sources source "name") (λ name m.
      if not (str_eq (string_of name) device_name)
      then going m
      else or_return (get sources source "router-pin")
          (λ pin. or_return (valid_pin (atoi (string_of pin))) (λ p n. going (add_input_name p n)))
          m)

  -- The outer loop, at a source of the FCP ALSA map.
  unfoldable pub note_control_source : List J → J → Mux (Unit {0}) → Flow (Mux (Unit {0}))
  unfolding note_source
  note_control_source devmap_sources control =
      or_return (get sources control "device_name") (λ device_name.
        or_return (get sources control "alsa_name")
          (λ alsa_name. each (note_source (string_of device_name)) devmap_sources))

  -- The inputs of the router.
  unfoldable pub note_sources : Mux (Unit {0}) → Flow (Mux (Unit {0}))
  unfolding note_control_source
  note_sources = or_return (get sources sources.fam "sources") (λ control_sources.
      or_return (get sources sources.devmap "device-specification") (λ spec.
        or_return (get sources spec "sources") (λ devmap_sources.
          each (note_control_source (items sources devmap_sources))
            (items sources control_sources))))

  -- The cache before the sources are noted: the tables of these sizes, dirty, and the input Off.
  unfoldable pub new_cache : List ℕ → Mux (Unit {0})
  new_cache sizes = add_input_name 0 (
      invalidate_mux_cache (record {
        dev = tt;
        mux_size = sizes;
        values = map (λ n. replicate n 0) sizes;
        input_router_pin = [];
        output_router_slots = [];
        output_fixed_input = [];
        dirty = false;
      }))

  abbrev pub set_mux : Device D → Mux (Unit {0}) → Device D
  set_mux x m = record x { backend = record (x.backend) { mux = m } }

  abbrev pub with_cache : Device D → Option (Mux (Unit {0})) → Option (Device D)
  with_cache x none = none
  with_cache x (some m) = some (set_mux x m)

  abbrev pub info_read : Device D → Res (List ℕ) × Backend D → Option (Device D)
  info_read x (err e, b) = none
  info_read x (ok sizes, b) =
      with_cache (record x { backend = b }) (left (note_sources (new_cache sizes)))

  -- `init_mux_cache`; `none` is the end of the program.
  unfoldable pub init_mux_cache : Device D → Option (Device D)
  unfolding note_sources new_cache on_dev
  init_mux_cache x = info_read x (on_dev (mux_info sources.ioctl) x.backend)
