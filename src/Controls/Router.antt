-- ===== src/Controls/Router.antt =====
-- server/mux.c: the router controls, from the sources, destinations and sinks of the two JSON maps. A
-- source's name only goes to ALSA.
pub mod Cache
pub mod Route
pub mod Bound
use Prim.Native.String.{String, ◌++◌ as str_append}
use text.Mathlib.Text.{starts_with, ◌==◌ as str_eq}
use fcp_support.Base.{
  ℕ, zero, suc, ◌+◌, ◌*◌, List, [], ◌∷◌, Bool, true, false, not, ◌||◌, Option, none, some, map,
  replicate, set, get_or, length,
}
use fcp_support.Base.{Res, ok, err, ℤ, pos, negsuc, is_neg, pos_part, ltb, leb, ◌==◌, if◌then◌else◌}
use fcp_support.Base.Chars.{atoi}
use fcp_support.Base.Flow.{Flow, going, returned, undefined, and_go, or_return, each, left}
use fcp_support.Fcp.Tables.{mux_info}
use fcp_support.Mux.{
  Mux, add_input_name, invalidate_mux_cache, refresh_tables, find_router_slot, router_pin_to_input,
}
use fcp_support.Control.{Props, mux_control, enumerated}
use fcp_support.Device.{Backend, Device, on_dev}
use fcp_support.Device.Functions.{mux_of, keep_mux}
use fcp_support.Device.Add.{add_control}
use fcp_support.Controls.{Sources, data_props, get, items}
use fcp_support.Controls.Router.Cache.{valid_pin, set_mux, init_mux_cache}

-- The state of the loops of `add_mux_controls`: the device, `output_count`, and the template's `read_only`.
pub record Routing (D : Type 0) : Type 0 where
  pub device : Device D
  pub output_count : ℕ
  pub read_only : Bool

-- The slots of output `i` at the three rates.
abbrev pub set_slots : List ℤ → ℕ → ℤ → ℤ → ℤ → List ℤ
set_slots slots i s0 s1 s2 = set (set (set slots (i * 3) s0) (i * 3 + 1) s1) (i * 3 + 2) s2

-- What output `i` is bound to: a fixed input, or slots.
abbrev pub bind_output : Mux (Unit {0}) → ℕ → ℤ → ℤ → ℤ → ℤ → Mux (Unit {0})
bind_output m i fixed s0 s1 s2 = record m {
  output_router_slots = set_slots m.output_router_slots i s0 s1 s2;
  output_fixed_input = set m.output_fixed_input i fixed;
}

-- The name of the control of a sink.
unfoldable pub sink_name : String → String
sink_name alsa_name = str_append alsa_name (
    if starts_with alsa_name "PCM" || starts_with alsa_name "Mixer"
    then " Capture Enum"
    else " Playback Enum")

-- The control of output `i`, from the template.
unfoldable pub mux_props : String → ℕ → Bool → ℕ → Props
unfolding sink_name
mux_props alsa_name i read_only input_count =
    record (data_props (sink_name alsa_name) 0 0 0 0 i false mux_control) {
      elem_type = enumerated;
      enum_count = input_count;
      read_only = read_only;
      read_func = mux_control;
    }

-- The slot of a destination at a rate.
abbrev pub slot_of : Mux (Unit {0}) → ℕ → ℕ → ℤ
slot_of m rate pin = find_router_slot (get_or m.values rate []) pin 0

-- Output `i` has the input of the pin, and no slots.
abbrev pub bind_input : ℕ → ℕ → Mux (Unit {0}) → Mux (Unit {0})
unfolding router_pin_to_input
bind_input pin i m =
    bind_output m i (pos (router_pin_to_input m pin)) (negsuc 0) (negsuc 0) (negsuc 0)

-- The slots of output `i` are those of the destination `pin`.
abbrev pub bind_slots : ℕ → ℕ → Mux (Unit {0}) → Mux (Unit {0})
bind_slots pin i m =
    bind_output m i (negsuc 0) (slot_of m 0 pin) (slot_of m 1 pin) (slot_of m 2 pin)

module _ {D : Type 0} (sources : Sources D) where
  abbrev J : Type 0
  J = sources.json.Json

  abbrev string_of : J → String
  string_of = sources.json.get_string

  -- `get_source_by_name`
  unfoldable pub get_source_by_name : List J → String → Option J
  get_source_by_name [] name = none
  get_source_by_name (s ∷ rest) name =
      let later = get_source_by_name rest name in
      elim (get sources s "name") [
        | none ↦ none
        | some n ↦ if str_eq (string_of n) name then some s else later
      ]

  -- The control of the next output, which the cache binds.
  unfoldable pub output_added :
      String → Bool → (Mux (Unit {0}) → Mux (Unit {0})) → Routing D → Routing D
  unfolding mux_props
  output_added alsa_name read_only bound b =
      let input_count = length b.device.backend.mux.input_router_pin in
      record {
        device =
            add_control sources.ioctl sources.alsa
              (mux_props alsa_name b.output_count read_only input_count)
              (set_mux sources b.device (bound b.device.backend.mux));
        output_count = b.output_count + 1;
        read_only = read_only;
      }

  -- From the binding of the next output on, if the allocated arrays have room for it.
  unfoldable pub add_output :
      ℕ → String → Bool → (Mux (Unit {0}) → Mux (Unit {0})) → Routing D → Flow (Routing D)
  unfolding output_added
  add_output room alsa_name read_only bound b =
      if leb room b.output_count
      then undefined
      else going (output_added alsa_name read_only bound b)

  -- A static source.
  unfoldable pub add_static : ℕ → List J → String → J → Routing D → Flow (Routing D)
  unfolding add_output get_source_by_name
  add_static room devmap_sources alsa_name static =
      or_return (get_source_by_name devmap_sources (string_of static)) (λ source.
        or_return (get sources source "router-pin") (λ pin.
          or_return (valid_pin (atoi (string_of pin)))
            (λ p b. add_output room alsa_name true (bind_input p b.output_count) b)))

  -- A destination that can be routed; it must have a slot at the first rate.
  unfoldable pub add_routed : ℕ → String → ℕ → Routing D → Flow (Routing D)
  unfolding add_output
  add_routed room alsa_name pin b =
      if is_neg (slot_of b.device.backend.mux 0 pin)
      then returned b
      else add_output room alsa_name b.read_only (bind_slots pin b.output_count) b

  abbrev pub add_static_or_routed :
      ℕ → List J → String → ℕ → Option J → Routing D → Flow (Routing D)
  add_static_or_routed room devmap_sources alsa_name pin none = add_routed room alsa_name pin
  add_static_or_routed room devmap_sources alsa_name pin (some s) =
      add_static room devmap_sources alsa_name s

  -- A destination of the sink's name.
  unfoldable pub add_dest : ℕ → List J → String → J → Routing D → Flow (Routing D)
  unfolding add_static add_routed
  add_dest room devmap_sources alsa_name dest = or_return (get sources dest "router-pin") (λ pin.
      or_return (valid_pin (atoi (string_of pin))) (λ p b.
        add_static_or_routed room devmap_sources alsa_name p (get sources dest "static-source") b))

  -- The inner loop of `add_mux_controls`.
  unfoldable pub try_dest : ℕ → List J → String → String → J → Routing D → Flow (Routing D)
  unfolding add_dest
  try_dest room devmap_sources device_name alsa_name dest =
      or_return (get sources dest "name") (λ name b.
        if not (str_eq (string_of name) device_name)
        then going b
        else add_dest room devmap_sources alsa_name dest b)

  -- The outer loop, at a sink.
  unfoldable pub add_sink : ℕ → List J → List J → J → Routing D → Flow (Routing D)
  unfolding try_dest
  add_sink room devmap_sources dests sink =
      or_return (get sources sink "device_name") (λ device_name.
        or_return (get sources sink "alsa_name") (λ alsa_name.
          each (try_dest room devmap_sources (string_of device_name) (string_of alsa_name)) dests))

  -- The arrays for as many outputs as the FCP ALSA map has sinks.
  abbrev pub outputs_allocated : ℕ → Device D → Routing D
  outputs_allocated room x = record {
    device = set_mux sources x (record (x.backend.mux) {
      output_router_slots = replicate (room * 3) (pos 0);
      output_fixed_input = replicate room (pos 0);
    });
    output_count = 0;
    read_only = false;
  }

  abbrev add_sinks : List J → List J → List J → Device D → Flow (Routing D)
  add_sinks sinks devmap_sources dests x =
      each (add_sink (length sinks) devmap_sources dests) sinks (outputs_allocated (length sinks) x)

  -- A device that is left as it is, with a `return`.
  abbrev pub unbound : Device D → Flow (Routing D)
  unbound x = returned (record { device = x; output_count = 0; read_only = false })

  abbrev pub need_or_return : Option J → Device D → (J → Flow (Routing D)) → Flow (Routing D)
  need_or_return none x f = unbound x
  need_or_return (some j) x f = f j

  -- From the control template on.
  unfoldable pub add_bound : Device D → Flow (Routing D)
  unfolding add_sink
  add_bound x = need_or_return (get sources sources.fam "sinks") x (λ sinks.
      need_or_return (get sources sources.devmap "device-specification") x (λ spec.
        need_or_return (get sources spec "sources") x (λ devmap_sources.
          need_or_return (get sources spec "destinations") x (λ dests.
            add_sinks (items sources sinks) (items sources devmap_sources) (items sources dests)
              x))))

  -- `get_cached_mux_values`, and what follows when it succeeds.
  abbrev pub cached :
      Device D → Res (Unit {0}) × Backend D → (Device D → Flow (Routing D)) → Flow (Routing D)
  cached x (err e, b) f = unbound (record x { backend = b })
  cached x (ok u, b) f = f (record x { backend = b })

  abbrev pub refreshed : Device D → Res (Unit {0}) × Backend D
  refreshed x = keep_mux x.backend (refresh_tables sources.ioctl (mux_of x.backend))

  -- With the cache, the tables of the three rates are read.
  unfoldable pub read_and_add : Device D → Flow (Routing D)
  unfolding add_bound
  read_and_add x =
      cached x (refreshed x) (λ y. cached y (refreshed y) (λ z. cached z (refreshed z) add_bound))

  abbrev pub device_left : Option (Routing D) → Option (Device D)
  device_left none = none
  device_left (some b) = some (b.device)

  abbrev pub cache_ready : Option (Device D) → Option (Device D)
  cache_ready none = none
  cache_ready (some x) = device_left (left (read_and_add x))

  -- `add_mux_controls`; `none` is the end of the program, or a write outside the allocated arrays, which C
  -- does not define.
  unfoldable pub add_mux_controls : Device D → Option (Device D)
  unfolding init_mux_cache read_and_add
  add_mux_controls x = cache_ready (init_mux_cache sources x)
