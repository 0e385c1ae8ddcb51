-- ===== src/Controls/Router/Bound/Sinks.antt =====
-- server/mux.c: the loops over the sinks keep every control bound.
use Prim.Native.String.{String}
use text.Mathlib.Text.{◌==◌ as str_eq}
use mathlib.Core.Path.{subst}
use fcp_support.Base.{ℕ, ◌+◌, ◌<◌, List, [], ◌∷◌, Bool, true, Option, none, some, get_or, length}
use fcp_support.Base.{
  ◌≡◌, refl, sym, ap, ◌∙◌, arith, inl, inr, pos, negsuc, is_neg, if_true, if_false, Bool-cases, leb,
  get_or-set_self,
}
use fcp_support.Base.Flow.{Flow, Leaves, Member, or_return-Leaves_from, each-Leaves_among}
use fcp_support.Base.Chars.{atoi}
use fcp_support.Mux.{Mux, pin_index, router_pin_to_input}
use fcp_support.Mux.Entry.{find_router_slot_lem}
use fcp_support.Device.{Device}
use fcp_support.Controls.{Sources, get, items}
use fcp_support.Controls.Router.{
  sink_name, Routing, add_sink, try_dest, add_dest, add_routed, add_static_or_routed, add_static,
  get_source_by_name, add_output, output_added, slot_of, bind_slots, bind_input, bind_output,
}
use fcp_support.Controls.Router.Cache.{valid_pin}
use fcp_support.Controls.Router.Bound.{
  first_slot, HasPin, FixedTo, RoutedTo, IsDestination, IsSpec, IsSink,
}
use fcp_support.Controls.Router.Bound.Built.{IsBuilt, output_added-IsBuilt}

pin_index-lt : (ps : List ℕ) (pin k : ℕ) → 0 < k + length ps → pin_index ps pin k < k + length ps
unfolding pin_index
pin_index-lt [] pin k h = omega arith
pin_index-lt (p ∷ ps) pin k h = ground (arith, pin_index-lt ps pin (k + 1))

module _ {D : Type 0} (sources : Sources D) (x : Device D) (room : ℕ) where
  abbrev J : Type 0
  J = sources.json.Json

  abbrev Good : Flow (Routing D) → Type 0
  Good = Leaves (IsBuilt sources x room)

  add_output-Good :
      (name : String) (ro : Bool) (bind : Mux (Unit {0}) → Mux (Unit {0})) (b : Routing D)
      → (b.output_count < room → IsBuilt sources x room (output_added sources name ro bind b))
      → Good (add_output sources room name ro bind b)
  unfolding add_output
  add_output-Good name ro bind b built = elim (Bool-cases (leb room b.output_count)) [
    | inl full ↦ rw full tt
    | inr free ↦ rw free (built (ground arith))
  ]

  add_static-Good :
      (all : List J) (name : String) (static : J) (b : Routing D)
      → ((source : J) (pin : ℕ)
          → get_source_by_name sources all (sources.json.get_string static) ≡ some source
          → HasPin sources source pin
          → FixedTo sources (sink_name name) pin)
      → IsBuilt sources x room b
      → Good (add_static sources room all name static b)
  unfolding add_static router_pin_to_input
  add_static-Good all name static b to h =
      or_return-Leaves_from (IsBuilt sources x room)
        (get_source_by_name sources all (sources.json.get_string static)) _ b h
        (λ source found.
          or_return-Leaves_from (IsBuilt sources x room) (get sources source "router-pin") _ b h
            (λ pin has.
              or_return-Leaves_from (IsBuilt sources x room)
                (valid_pin (atoi (sources.json.get_string pin))) _ b h
                (λ p valid.
                  let m = b.device.backend.mux in
                  let input = pin_index m.input_router_pin p 0 in
                  add_output-Good name true (bind_input p b.output_count) b (λ free.
                    output_added-IsBuilt sources x room name true (bind_input p b.output_count) b
                      (pos input) (negsuc 0) (negsuc 0) (negsuc 0) refl h
                      (λ q named at ro count reads writes. record {
                        reads = reads;
                        writes = writes;
                        inputs = count;
                        bound = inl (
                          p,
                          subst (λ n. FixedTo sources n p) (sym named)
                              (to source p found (pin, has, valid)),
                          rw at (
                              get_or-set_self m.output_fixed_input b.output_count (pos input)
                                (negsuc 0) (rw (h.fixed) free)),
                          omega (
                            arith,
                            pin_index-lt m.input_router_pin p 0 (omega (arith, h.inputs)),
                          ),
                          ro,
                        );
                      })))))

  add_routed-Good :
      (name : String) (pin : ℕ) (b : Routing D)
      → RoutedTo sources (sink_name name) pin
      → IsBuilt sources x room b
      → Good (add_routed sources room name pin b)
  unfolding add_routed
  add_routed-Good name pin b to h =
      let m = b.device.backend.mux in
      elim (find_router_slot_lem (get_or m.values 0 []) pin 0) [
        | inl (k, e, slot) ↦
            subst Good (sym (if_false (is_neg (slot_of m 0 pin)) _ _ (ap is_neg e))) (
              add_output-Good name b.read_only (bind_slots pin b.output_count) b (λ free.
                output_added-IsBuilt sources x room name b.read_only (bind_slots pin b.output_count)
                  b (negsuc 0) (pos k) (slot_of m 1 pin) (slot_of m 2 pin)
                  (ap
                    (λ s0.
                      bind_output m b.output_count (negsuc 0) s0 (slot_of m 1 pin)
                        (slot_of m 2 pin))
                    (e ∙ ap pos (omega arith)))
                  h
                  (λ q named at ro count reads writes. record {
                    reads = reads;
                    writes = writes;
                    inputs = count;
                    bound = inr (
                      k,
                      pin,
                      subst (λ n. RoutedTo sources n pin) (sym named) to,
                      rw at (
                          get_or-set_self m.output_fixed_input b.output_count (negsuc 0) (negsuc 0)
                            (rw (h.fixed) free)),
                      rw at (
                          first_slot m.output_router_slots b.output_count (pos k) (slot_of m 1 pin)
                            (slot_of m 2 pin) (rw (h.slots) (omega arith))),
                      slot,
                    );
                  })))
        | inr (e, absent) ↦
            subst Good (sym (if_true (is_neg (slot_of m 0 pin)) _ _ (ap is_neg e))) h
      ]

  -- The sources of the device specification.
  abbrev AreSources : List J → Type 0
  AreSources all = (l : J) × IsSpec sources "sources" l × (all ≡ items sources l)

  add_dest-Good :
      (all : List J) (name : String) (dest : J) (b : Routing D)
      → AreSources all
      → IsDestination sources (sink_name name) dest
      → IsBuilt sources x room b
      → Good (add_dest sources room all name dest b)
  unfolding add_dest
  add_dest-Good all name dest b (l, spec, are) d h =
      or_return-Leaves_from (IsBuilt sources x room) (get sources dest "router-pin") _ b h
        (λ pin has.
          or_return-Leaves_from (IsBuilt sources x room)
            (valid_pin (atoi (sources.json.get_string pin))) _ b h
            (λ p valid.
              static_or_routed p (pin, has, valid) (get sources dest "static-source") refl))
    where
      static_or_routed :
          (p : ℕ)
          → HasPin sources dest p
          → (o : Option J) → get sources dest "static-source" ≡ o
          → Good (add_static_or_routed sources room all name p o b)
      static_or_routed p pin none e = add_routed-Good name p b (dest, d, pin, e) h
      static_or_routed p pin (some s) e =
          add_static-Good all name s b
            (λ source q found has. (
              dest,
              s,
              l,
              source,
              d,
              e,
              spec,
              subst (λ t. get_source_by_name sources t (sources.json.get_string s) ≡ some source)
                  are found,
              has,
            ))
            h

  try_dest-Good :
      (all : List J) (device_name name : String) (dest : J) (b : Routing D)
      → AreSources all
      → ((n : J)
          → get sources dest "name" ≡ some n
          → str_eq (sources.json.get_string n) device_name ≡ true
          → IsDestination sources (sink_name name) dest)
      → IsBuilt sources x room b
      → Good (try_dest sources room all device_name name dest b)
  unfolding try_dest
  try_dest-Good all device_name name dest b are d h =
      or_return-Leaves_from (IsBuilt sources x room) (get sources dest "name") _ b h (λ n e.
        elim (Bool-cases (str_eq (sources.json.get_string n) device_name)) [
          | inr other ↦ rw other h
          | inl same ↦ rw same (add_dest-Good all name dest b are (d n e same) h)
        ])

  pub add_sink-Good :
      (all dests : List J) (l : J) (sink : J) (b : Routing D)
      → AreSources all
      → IsSpec sources "destinations" l
      → dests ≡ items sources l
      → IsSink sources sink
      → IsBuilt sources x room b
      → Good (add_sink sources room all dests sink b)
  unfolding add_sink
  add_sink-Good all dests l sink b are spec listed is_sink h =
      or_return-Leaves_from (IsBuilt sources x room) (get sources sink "device_name") _ b h
        (λ device_name d.
          or_return-Leaves_from (IsBuilt sources x room) (get sources sink "alsa_name") _ b h
            (λ name a.
              each-Leaves_among (IsBuilt sources x room) _ dests
                (λ dest c among k.
                  try_dest-Good all (sources.json.get_string device_name)
                    (sources.json.get_string name) dest c are
                    (λ n e same. record {
                      sink = sink;
                      all = l;
                      name = n;
                      device_name = device_name;
                      alsa_name = name;
                      sink_listed = is_sink;
                      all_listed = spec;
                      listed = subst (Member dest) listed among;
                      has_name = e;
                      has_device_name = d;
                      has_alsa_name = a;
                      same = same;
                      control = refl;
                    })
                    k)
                dests (λ t m. m) b h))
