-- ===== src/Controls/Kept/Optional.antt =====
-- server/mix.c: what the new controls leave as it was.
use fcp_support.Base.{
  ℕ, List, [], ◌∷◌, Option, none, some, Res, ok, err, ◌≡◌, refl, Bool-cases, inl, inr, ◌==◌,
}
use fcp_support.Base.Flow.{}
use fcp_support.Device.{Backend, Device, on_dev}
use fcp_support.Device.Add.{find_control}
use fcp_support.Fcp.Tables.{mix_info}
use fcp_support.Controls.{Sources, get, counted}
use fcp_support.Controls.Kept.{IsKept, same-IsKept, IsKept-trans, add_control-IsKept}
use fcp_support.Controls.Mixer.{
  add_sync_control, sync_props, add_mix_controls, info_read, add_counted, add_outputs, add_inputs,
  add_input, add_numbered, mixer_index, set_cache, set_counts, mixer_maps, count_inputs,
}

-- A device with the same table.
pub same_table-IsKept :
    {D : Type 0} (x y : Device D) → y.controls ≡ x.controls → y.capacity ≡ x.capacity → IsKept x y
unfolding find_control
same_table-IsKept x y e f = record {
  finds = λ name c h. rw e h;
  roomy = λ r. record { room = rw f (r.room); fits = rw (e, f) (r.fits) };
}

module _ {D : Type 0} (sources : Sources D) where
  abbrev J : Type 0
  J = sources.json.Json

  pub add_sync_control-IsKept : (x : Device D) → IsKept x (add_sync_control sources x)
  unfolding add_sync_control
  add_sync_control-IsKept x = add_control-IsKept sources sync_props x

  add_numbered-IsKept :
      (inputs i : ℕ) (index : J) (num : Option ℕ) (x : Device D)
      → IsKept x (add_numbered sources inputs i index num x)
  add_numbered-IsKept inputs i index none x = same-IsKept x
  add_numbered-IsKept inputs i index (some num) x = add_control-IsKept sources _ x

  add_input-IsKept :
      (inputs i : ℕ) (alsa_name index : Option J) (x : Device D)
      → IsKept x (add_input sources inputs i alsa_name index x)
  add_input-IsKept inputs i none index x = same-IsKept x
  add_input-IsKept inputs i (some n) none x = same-IsKept x
  add_input-IsKept inputs i (some n) (some index) x = add_numbered-IsKept inputs i index _ x

  add_inputs-IsKept :
      (inputs : ℕ) (dests : List J) (i : ℕ) (sinks : List J) (x : Device D)
      → IsKept x (add_inputs sources inputs dests i sinks x)
  unfolding add_inputs
  add_inputs-IsKept inputs dests i [] x = same-IsKept x
  add_inputs-IsKept inputs dests i (sink ∷ rest) x =
      let y =
        add_input sources inputs i (get sources sink "alsa_name")
          (mixer_index sources dests (get sources sink "device_name")) x in
      IsKept-trans x y (add_inputs sources inputs dests i rest y)
        (add_input-IsKept inputs i (get sources sink "alsa_name")
          (mixer_index sources dests (get sources sink "device_name")) x)
        (add_inputs-IsKept inputs dests i rest y)

  add_outputs-IsKept :
      (inputs : ℕ) (dests sinks : List J) (is : List ℕ) (x : Device D)
      → IsKept x (add_outputs sources inputs dests sinks is x)
  unfolding add_outputs
  add_outputs-IsKept inputs dests sinks [] x = same-IsKept x
  add_outputs-IsKept inputs dests sinks (i ∷ is) x =
      let y = add_inputs sources inputs dests i sinks x in
      IsKept-trans x y (add_outputs sources inputs dests sinks is y)
        (add_inputs-IsKept inputs dests i sinks x) (add_outputs-IsKept inputs dests sinks is y)

  add_counted-IsKept :
      (outputs inputs : ℕ) (maps : Option (List J × List J)) (x : Device D)
      → IsKept x (add_counted sources outputs inputs maps x)
  unfolding add_counted
  add_counted-IsKept outputs inputs none x = same-IsKept x
  add_counted-IsKept outputs inputs (some (dests, sinks)) x =
      elim (Bool-cases (count_inputs sources dests sinks == 0)) [
        | inl nothing ↦ rw nothing (same-IsKept x)
        | inr more ↦ rw more (
            IsKept-trans x (set_cache sources outputs x) _ (same_table-IsKept x _ refl refl) (
              add_outputs-IsKept inputs dests sinks (counted outputs 0)
                (set_cache sources outputs x)))
      ]

  info_read-IsKept : (x : Device D) (q : Res (ℕ × ℕ) × Backend D) → IsKept x (info_read sources x q)
  info_read-IsKept x (err e, b) = same_table-IsKept x _ refl refl
  info_read-IsKept x (ok (outputs, inputs), b) =
      let y = set_counts sources (record x { backend = b }) outputs inputs in
      IsKept-trans x y (add_counted sources outputs inputs (mixer_maps sources) y)
        (same_table-IsKept x y refl refl) (add_counted-IsKept outputs inputs (mixer_maps sources) y)

  pub add_mix_controls-IsKept : (x : Device D) → IsKept x (add_mix_controls sources x)
  unfolding add_mix_controls
  add_mix_controls-IsKept x = info_read-IsKept x (on_dev (mix_info sources.ioctl) x.backend)
