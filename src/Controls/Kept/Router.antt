-- ===== src/Controls/Kept/Router.antt =====
-- server/mux.c: what the new controls leave as it was.
use Prim.Native.String.{String}
use text.Mathlib.Text.{◌==◌ as str_eq}
use mathlib.Core.Path.{subst}
use fcp_support.Base.{
  ℕ, List, Option, none, some, Res, ok, err, ◌≡◌, refl, Bool, Bool-cases, inl, inr, true, not,
  is_neg, leb, length,
}
use fcp_support.Base.Chars.{atoi}
use fcp_support.Base.Flow.{
  Flow, going, returned, undefined, left, Leaves, or_return-Leaves, each-Leaves,
}
use fcp_support.Mux.{Mux}
use fcp_support.Fcp.Tables.{mux_info}
use fcp_support.Device.{Backend, Device, on_dev}
use fcp_support.Controls.{Sources, get, items}
use fcp_support.Controls.Kept.{IsKept, IsKept-trans, add_control-IsKept}
use fcp_support.Controls.Kept.Optional.{same_table-IsKept}
use fcp_support.Controls.Router.{
  Routing, add_mux_controls, read_and_add, add_bound, add_sink, try_dest, add_dest,
  add_static_or_routed, add_static, add_routed, add_output, output_added, get_source_by_name,
  slot_of, bind_input, bind_slots, need_or_return, cached, refreshed, cache_ready, device_left,
}
use fcp_support.Controls.Router.Cache.{
  valid_pin, init_mux_cache, info_read, with_cache, note_sources, new_cache, set_mux,
}

module _ {D : Type 0} (sources : Sources D) (x : Device D) where
  abbrev J : Type 0
  J = sources.json.Json

  -- The table that the loop has found so far is kept.
  abbrev Kept : Routing D → Type 0
  Kept b = IsKept x b.device

  add_output-Kept :
      (room : ℕ) (name : String) (ro : Bool) (bind : Mux (Unit {0}) → Mux (Unit {0}))
      (b : Routing D)
      → Kept b
      → Leaves Kept (add_output sources room name ro bind b)
  unfolding add_output output_added
  add_output-Kept room name ro bind b h = elim (Bool-cases (leb room b.output_count)) [
    | inl full ↦ rw full tt
    | inr free ↦ rw free (
        let y = set_mux sources b.device (bind b.device.backend.mux) in
        IsKept-trans x y _ (IsKept-trans x b.device y h (same_table-IsKept b.device y refl refl))
          (add_control-IsKept sources _ y))
  ]

  add_static-Kept :
      (room : ℕ) (all : List J) (name : String) (static : J) (b : Routing D)
      → Kept b
      → Leaves Kept (add_static sources room all name static b)
  unfolding add_static
  add_static-Kept room all name static b h =
      or_return-Leaves Kept (get_source_by_name sources all (sources.json.get_string static)) _ b h
        (λ source. or_return-Leaves Kept (get sources source "router-pin") _ b h (λ pin.
          or_return-Leaves Kept (valid_pin (atoi (sources.json.get_string pin))) _ b h
            (λ p. add_output-Kept room name true (bind_input p b.output_count) b h)))

  add_routed-Kept :
      (room : ℕ) (name : String) (pin : ℕ) (b : Routing D)
      → Kept b
      → Leaves Kept (add_routed sources room name pin b)
  unfolding add_routed
  add_routed-Kept room name pin b h =
      elim (Bool-cases (is_neg (slot_of b.device.backend.mux 0 pin))) [
        | inl absent ↦ rw absent h
        | inr there ↦
            rw there (add_output-Kept room name b.read_only (bind_slots pin b.output_count) b h)
      ]

  static_or_routed-Kept :
      (room : ℕ) (all : List J) (name : String) (p : ℕ) (o : Option J) (b : Routing D)
      → Kept b
      → Leaves Kept (add_static_or_routed sources room all name p o b)
  static_or_routed-Kept room all name p none b h = add_routed-Kept room name p b h
  static_or_routed-Kept room all name p (some s) b h = add_static-Kept room all name s b h

  try_dest-Kept :
      (room : ℕ) (all : List J) (device_name name : String) (dest : J) (b : Routing D)
      → Kept b
      → Leaves Kept (try_dest sources room all device_name name dest b)
  unfolding try_dest add_dest
  try_dest-Kept room all device_name name dest b h =
      or_return-Leaves Kept (get sources dest "name") _ b h (λ n.
        elim (Bool-cases (not (str_eq (sources.json.get_string n) device_name))) [
          | inl other ↦ rw other h
          | inr same ↦ rw same (
              or_return-Leaves Kept (get sources dest "router-pin") _ b h (λ pin.
                or_return-Leaves Kept (valid_pin (atoi (sources.json.get_string pin))) _ b h (λ p.
                  static_or_routed-Kept room all name p (get sources dest "static-source") b h)))
        ])

  add_sink-Kept :
      (room : ℕ) (all dests : List J) (sink : J) (b : Routing D)
      → Kept b
      → Leaves Kept (add_sink sources room all dests sink b)
  unfolding add_sink
  add_sink-Kept room all dests sink b h =
      or_return-Leaves Kept (get sources sink "device_name") _ b h (λ device_name.
        or_return-Leaves Kept (get sources sink "alsa_name") _ b h (λ name.
          each-Leaves Kept _
            (try_dest-Kept room all (sources.json.get_string device_name)
              (sources.json.get_string name))
            dests b h))

  need_or_return-Kept :
      (o : Option J) (y : Device D) (f : J → Flow (Routing D))
      → IsKept x y
      → ((j : J) → Leaves Kept (f j))
      → Leaves Kept (need_or_return sources o y f)
  need_or_return-Kept none y f h rest = h
  need_or_return-Kept (some j) y f h rest = rest j

  add_bound-Kept : (y : Device D) → IsKept x y → Leaves Kept (add_bound sources y)
  unfolding add_bound
  add_bound-Kept y h = need_or_return-Kept (get sources sources.fam "sinks") y _ h (λ sinks.
      need_or_return-Kept (get sources sources.devmap "device-specification") y _ h (λ spec.
        need_or_return-Kept (get sources spec "sources") y _ h (λ all.
          need_or_return-Kept (get sources spec "destinations") y _ h (λ dests.
            each-Leaves Kept _
              (add_sink-Kept (length (items sources sinks)) (items sources all)
                (items sources dests))
              (items sources sinks) _ (IsKept-trans x y _ h (same_table-IsKept y _ refl refl))))))

  cached-Kept :
      (y : Device D) (q : Res (Unit {0}) × Backend D) (f : Device D → Flow (Routing D))
      → IsKept x y
      → ((z : Device D) → IsKept x z → Leaves Kept (f z))
      → Leaves Kept (cached sources y q f)
  cached-Kept y (err e, b) f h rest = IsKept-trans x y _ h (same_table-IsKept y _ refl refl)
  cached-Kept y (ok u, b) f h rest =
      rest (record y { backend = b })
        (IsKept-trans x y (record y { backend = b }) h (same_table-IsKept y _ refl refl))

  read_and_add-Kept : (y : Device D) → IsKept x y → Leaves Kept (read_and_add sources y)
  unfolding read_and_add
  read_and_add-Kept y h = cached-Kept y (refreshed sources y) _ h (λ z k.
      cached-Kept z (refreshed sources z) _ k
        (λ w l. cached-Kept w (refreshed sources w) _ l add_bound-Kept))

  injected : {A : Type 0} {a b : A} → some a ≡ some b → a ≡ b
  injected e = cc e

  with_cache-Kept :
      (y : Device D) (o : Option (Mux (Unit {0}))) (z : Device D)
      → IsKept x y
      → with_cache sources y o ≡ some z
      → IsKept x z
  with_cache-Kept y none z h e = absurd cc
  with_cache-Kept y (some m) z h e =
      subst (IsKept x) (injected e) (IsKept-trans x y _ h (same_table-IsKept y _ refl refl))

  info_read-Kept :
      (q : Res (List ℕ) × Backend D) (z : Device D) → info_read sources x q ≡ some z → IsKept x z
  info_read-Kept (err n, b) z e = absurd cc
  info_read-Kept (ok sizes, b) z e =
      with_cache-Kept (record x { backend = b })
        (left (note_sources sources (new_cache sources sizes))) z (same_table-IsKept x _ refl refl)
        e

  left-Kept :
      (r : Flow (Routing D)) (y : Device D)
      → Leaves Kept r
      → device_left sources (left r) ≡ some y
      → IsKept x y
  left-Kept (going b) y h e = subst (IsKept x) (injected e) h
  left-Kept (returned b) y h e = subst (IsKept x) (injected e) h
  left-Kept undefined y h e = absurd cc

  cache_ready-Kept :
      (o : Option (Device D)) (y : Device D)
      → ((z : Device D) → o ≡ some z → IsKept x z)
      → cache_ready sources o ≡ some y
      → IsKept x y
  cache_ready-Kept none y h e = absurd cc
  cache_ready-Kept (some z) y h e =
      left-Kept (read_and_add sources z) y (read_and_add-Kept z (h z refl)) e

  pub add_mux_controls-IsKept : (y : Device D) → add_mux_controls sources x ≡ some y → IsKept x y
  unfolding add_mux_controls init_mux_cache
  add_mux_controls-IsKept y e =
      cache_ready-Kept (init_mux_cache sources x) y
        (info_read-Kept (on_dev (mux_info sources.ioctl) x.backend)) e
