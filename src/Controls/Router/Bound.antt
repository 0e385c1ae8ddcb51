-- ===== src/Controls/Router/Bound.antt =====
-- server/mux.c: what the router controls are bound to. Built adds one output, Sinks goes through the sinks,
-- Added has the controls that `add_mux_controls` adds.
pub mod Built
pub mod Sinks
pub mod Added
use Prim.Native.String.{String}
use text.Mathlib.Text.{◌==◌ as str_eq}
use mathlib.Core.Path.{subst}
use mathlib.Core.List.{append_assoc, append-nil}
use fcp_support.Base.{
  ℕ, zero, suc, ◌+◌, ◌-◌, ◌*◌, ◌<◌, ◌≤◌, List, [], ◌∷◌, ◌++◌, Bool, true, false, not, Option, none,
  some, replicate, set, get_or, length, All,
}
use fcp_support.Base.{
  Res, ok, err, Ioctl, ◌≡◌, ◌≢◌, refl, sym, ap, ◌∙◌, arith, ◌⊎◌, inl, inr, ℤ, pos, negsuc, is_neg,
  if_true, if_false, Bool-cases, ltb_false→le, leb, length-set, get_or-set_self, get_or-set_ne,
  length-append,
}
use fcp_support.Base.Flow.{
  Flow, going, returned, undefined, left, Leaves, or_return-Leaves, each-Leaves, each,
}
use fcp_support.Base.Flow.{Member}
use fcp_support.Base.Chars.{atoi}
use fcp_support.Mux.{
  Mux, tables_ready, refresh_tables, read_mux_control, pin_index, router_pin_to_input,
}
use fcp_support.Mux.Entry.{IsSlot, find_router_slot_lem}
use fcp_support.Control.{
  Props, Func, no_func, data_control, volume_control, bitmap_control, mix_control, mux_control,
  sync_control, boolean, integer, enumerated, bytes, ElemType,
}
use fcp_support.Device.{Backend, Device, Alsa}
use fcp_support.Device.Functions.{call_read_func, mux_of, keep_mux, one_value}
use fcp_support.Device.Add.{At, add_control, add_user_control, save_value, save_bytes, set_range}
use fcp_support.Device.Steps.{IsAllowed, add_user_control-Respects}
use fcp_support.Controls.{Sources, items, get}
use fcp_support.Controls.Router.{
  Routing, add_mux_controls, read_and_add, add_bound, need_or_return, cached, unbound, refreshed,
  add_sink, try_dest, add_dest, add_routed, add_static_or_routed, add_static, get_source_by_name,
  sink_name, add_output, output_added, slot_of, bind_slots, bind_input, mux_props, bind_output,
  set_slots,
}
use fcp_support.Controls.Router.Cache.{valid_pin}

module _ {D : Type 0} (sources : Sources D) where
  abbrev J : Type 0
  J = sources.json.Json

  abbrev string_of : J → String
  string_of = sources.json.get_string

  -- A sink of the FCP ALSA map.
  abbrev pub IsSink : J → Type 0
  IsSink sink = (l : J) × (get sources sources.fam "sinks" ≡ some l) × Member sink (items sources l)

  -- The array of the device specification.
  abbrev pub IsSpec : String → J → Type 0
  IsSpec key l =
      (spec : J) × (get sources sources.devmap "device-specification" ≡ some spec)
      × (get sources spec key ≡ some l)

  -- A destination of the device map that has the device name of a sink, whose control has the name.
  pub record IsDestination (control_name : String) (dest : J) : Type 0 where
    pub sink : J
    pub all : J
    pub name : J
    pub device_name : J
    pub alsa_name : J
    pub sink_listed : IsSink sink
    pub all_listed : IsSpec "destinations" all
    pub listed : Member dest (items sources all)
    pub has_name : get sources dest "name" ≡ some name
    pub has_device_name : get sources sink "device_name" ≡ some device_name
    pub has_alsa_name : get sources sink "alsa_name" ≡ some alsa_name
    pub same : str_eq (string_of name) (string_of device_name) ≡ true
    pub control : control_name ≡ sink_name (string_of alsa_name)

  -- The pin of a source or a destination.
  abbrev pub HasPin : J → ℕ → Type 0
  HasPin j pin =
      (text : J) × (get sources j "router-pin" ≡ some text)
      × (valid_pin (atoi (string_of text)) ≡ some pin)

  -- The pin of the destination of a control, which can be routed.
  abbrev pub RoutedTo : String → ℕ → Type 0
  RoutedTo control_name pin =
      (dest : J) × IsDestination control_name dest
      × HasPin dest pin
      × (get sources dest "static-source" ≡ none)

  -- The pin of the static source of the destination of a control.
  abbrev pub FixedTo : String → ℕ → Type 0
  FixedTo control_name pin =
      (dest : J) × (static : J) × (all : J) × (source : J) × IsDestination control_name dest
      × (get sources dest "static-source" ≡ some static)
      × IsSpec "sources" all
      × (get_source_by_name sources (items sources all) (string_of static) ≡ some source)
      × HasPin source pin

-- What a control of the router is bound to: the input of its destination's static source, and then it is
-- read-only; or the first entry for its destination's pin in the table of the first rate. In both cases the
-- cache has an input to show.
pub record IsBound {D : Type 0} (sources : Sources D) (m : Mux (Unit {0})) (p : Props)
    : Type 0 where
  pub reads : p.read_func ≡ mux_control
  pub writes : p.write_func ≡ mux_control
  pub inputs : p.enum_count ≡ length m.input_router_pin
  pub bound :
      ((pin : ℕ) × FixedTo sources p.name pin
        × (get_or m.output_fixed_input p.offset (negsuc 0) ≡ pos (router_pin_to_input m pin))
        × (router_pin_to_input m pin < length m.input_router_pin)
        × (p.read_only ≡ true))
      ⊎ ((k : ℕ) × (pin : ℕ) × RoutedTo sources p.name pin
          × (get_or m.output_fixed_input p.offset (negsuc 0) ≡ negsuc 0)
          × (get_or m.output_router_slots (p.offset * 3) (negsuc 0) ≡ pos k)
          × IsSlot (get_or m.values 0 []) pin k)

-- The binding of a later output leaves the bindings of the earlier ones.
pub bind_output-IsBound :
    {D : Type 0} (sources : Sources D) (m : Mux (Unit {0})) (p : Props) (i : ℕ) (f s0 s1 s2 : ℤ)
    → p.offset < i
    → IsBound sources m p
    → IsBound sources (bind_output m i f s0 s1 s2) p
unfolding router_pin_to_input
bind_output-IsBound sources m p i f s0 s1 s2 earlier h = record {
  reads = h.reads;
  writes = h.writes;
  inputs = h.inputs;
  bound = elim (h.bound) [
    | inl (pin, to, at, inside, ro) ↦ inl (pin, to, fixed_same ∙ at, inside, ro)
    | inr (k, pin, to, none_fixed, at, slot) ↦
        inr (k, pin, to, fixed_same ∙ none_fixed, slots_same ∙ at, slot)
  ];
}
  where
    fixed_same :
        get_or (set m.output_fixed_input i f) p.offset (negsuc 0)
        ≡ get_or m.output_fixed_input p.offset (negsuc 0)
    fixed_same = get_or-set_ne m.output_fixed_input i p.offset f (negsuc 0) (λ e. omega arith)

    slots_same :
        get_or (set_slots m.output_router_slots i s0 s1 s2) (p.offset * 3) (negsuc 0)
        ≡ get_or m.output_router_slots (p.offset * 3) (negsuc 0)
    slots_same =
        get_or-set_ne _ (i * 3 + 2) (p.offset * 3) s2 (negsuc 0) (λ e. omega arith)
        ∙ get_or-set_ne _ (i * 3 + 1) (p.offset * 3) s1 (negsuc 0) (λ e. omega arith)
        ∙ get_or-set_ne m.output_router_slots (i * 3) (p.offset * 3) s0 (negsuc 0)
            (λ e. omega arith)

pub length-set_slots :
    (slots : List ℤ) (i : ℕ) (s0 s1 s2 : ℤ) → length (set_slots slots i s0 s1 s2) ≡ length slots
length-set_slots slots i s0 s1 s2 =
    length-set _ (i * 3 + 2) s2 ∙ length-set _ (i * 3 + 1) s1 ∙ length-set slots (i * 3) s0

-- The first slot of an output that was just bound.
pub first_slot :
    (slots : List ℤ) (i : ℕ) (s0 s1 s2 : ℤ)
    → i * 3 < length slots
    → get_or (set_slots slots i s0 s1 s2) (i * 3) (negsuc 0) ≡ s0
first_slot slots i s0 s1 s2 h =
    get_or-set_ne _ (i * 3 + 2) (i * 3) s2 (negsuc 0) (λ e. omega arith)
    ∙ get_or-set_ne _ (i * 3 + 1) (i * 3) s1 (negsuc 0) (λ e. omega arith)
    ∙ get_or-set_self slots (i * 3) s0 (negsuc 0) h
