-- ===== src/Controls/Meters/Bounds.antt =====
-- server/meter.c: the meters stay inside the allocated array, and their slots inside the device's.
use Prim.Native.String.{String}
use mathlib.Core.Path.{subst}
use fcp_support.Base.{
  ℕ, suc, zero, ◌+◌, ◌≤◌, List, [], ◌∷◌, ◌++◌, Bool-cases, true, Option, none, some, ◌≡◌, refl, ap,
  ap₂, ◌∙◌, arith, inl, inr, ℤ, pos, negsuc, ltb_ℤ, length, length-append, length-map, All,
}
use fcp_support.Base.Flow.{Flow, going, returned, undefined, and_go, each, left, Leaves}
use fcp_support.Controls.{Sources, get, items, counted}
use fcp_support.Controls.Mixer.{find_destination_by_name}
use fcp_support.Controls.Meters.{
  Meter, append_meter, add_indexed, add_found, fail_without, map_one, map_all, arrays, entries_of,
  mapped, need, Arrays, meter_entries,
}

-- The meters are at most `room`, and their slots are below `num_slots`.
pub record IsInside (num_slots : ℤ) (room : ℕ) (meters : List Meter) : Type 0 where
  pub few : length meters ≤ room
  pub inside : All (λ m. ltb_ℤ (pos m.0) num_slots ≡ true) meters

All-snoc :
    {A : Type 0} (P : A → Type 0) (xs : List A) (y : A) → All P xs → P y → All P (xs ++ y ∷ [])
All-snoc P [] y h k = (k, tt)
All-snoc P (x ∷ xs) y h k = (h.0, All-snoc P xs y h.1 k)

none-IsInside : (num_slots : ℤ) (room : ℕ) → IsInside num_slots room []
none-IsInside num_slots room = record { few = omega arith; inside = tt }

module _ {D : Type 0} (sources : Sources D) (num_slots : ℤ) where
  abbrev J : Type 0
  J = sources.json.Json

  more-IsInside :
      (room : ℕ) (meters : List Meter)
      → IsInside num_slots room meters
      → IsInside num_slots (suc room) meters
  more-IsInside room meters h = record { few = omega (arith, h.few); inside = h.inside }

  append_meter-Leaves :
      (room : ℕ) (label : String) (idx : ℤ) (meters : List Meter)
      → IsInside num_slots room meters
      → Leaves (IsInside num_slots (suc room)) (append_meter sources num_slots label idx meters)
  unfolding append_meter
  append_meter-Leaves room label (pos i) meters h = elim (Bool-cases (ltb_ℤ (pos i) num_slots)) [
    | inl below ↦ rw below (record {
      few = omega (arith, length-append meters ((i, label) ∷ []), h.few);
      inside = All-snoc _ meters (i, label) h.inside below;
    })
    | inr above ↦ rw above (none-IsInside num_slots (suc room))
  ]
  append_meter-Leaves room label (negsuc i) meters h = none-IsInside num_slots (suc room)

  add_found-Leaves :
      (room : ℕ) (label : String) (found : Option J) (meters : List Meter)
      → IsInside num_slots room meters
      → Leaves (IsInside num_slots (suc room)) (add_found sources num_slots label found meters)
  add_found-Leaves room label none meters h = more-IsInside room meters h
  add_found-Leaves room label (some item) meters h = indexed (get sources item "peak-index")
    where
      indexed :
          (o : Option J)
          → Leaves (IsInside num_slots (suc room)) (add_indexed sources num_slots label o meters)
      indexed none = more-IsInside room meters h
      indexed (some i) = append_meter-Leaves room label (sources.json.get_int i) meters h

  fail_without-Leaves :
      {A : Type 0} (room : ℕ) (o : Option A) (f : A → List Meter → Flow (List Meter))
      (meters : List Meter)
      → ((a : A) → Leaves (IsInside num_slots room) (f a meters))
      → Leaves (IsInside num_slots room) (fail_without sources o f meters)
  fail_without-Leaves room none f meters h = none-IsInside num_slots room
  fail_without-Leaves room (some a) f meters h = h a

  map_one-Leaves :
      (room : ℕ) (prefix : String) (devmap_items : List J) (control : J) (meters : List Meter)
      → IsInside num_slots room meters
      → Leaves
          (IsInside num_slots (suc room))
          (map_one sources num_slots prefix devmap_items control meters)
  unfolding map_one
  map_one-Leaves room prefix devmap_items control meters h =
      fail_without-Leaves (suc room) (get sources control "device_name") _ meters (λ device_name.
        fail_without-Leaves (suc room) (get sources control "alsa_name") _ meters (λ alsa_name.
          add_found-Leaves room _
            (find_destination_by_name sources devmap_items (sources.json.get_string device_name))
            meters h))

  then-Leaves :
      (room n : ℕ) (r : Flow (List Meter)) (f : List Meter → Flow (List Meter))
      → Leaves (IsInside num_slots room) r
      → ((ms : List Meter)
          → IsInside num_slots room ms
          → Leaves (IsInside num_slots (room + n)) (f ms))
      → Leaves (IsInside num_slots (room + n)) (and_go r f)
  then-Leaves room n (going ms) f h rest = rest ms h
  then-Leaves room n (returned ms) f h rest = record {
    few = omega (arith, h.few);
    inside = h.inside;
  }
  then-Leaves room n undefined f h rest = tt

  -- A loop with as many rounds as there are controls.
  each-Leaves :
      (prefix : String) (devmap_items controls : List J) (room : ℕ) (meters : List Meter)
      → IsInside num_slots room meters
      → Leaves
          (IsInside num_slots (room + length controls))
          (each (map_one sources num_slots prefix devmap_items) controls meters)
  unfolding each
  each-Leaves prefix devmap_items [] room meters h = record {
    few = omega (arith, h.few);
    inside = h.inside;
  }
  each-Leaves prefix devmap_items (c ∷ cs) room meters h =
      let one = map_one sources num_slots prefix devmap_items in
      subst (λ n. Leaves (IsInside num_slots n) (and_go (one c meters) (each one cs)))
        {x = suc room + length cs} (omega arith)
        (then-Leaves (suc room) (length cs) (one c meters) (each one cs)
          (map_one-Leaves room prefix devmap_items c meters h)
          (each-Leaves prefix devmap_items cs (suc room)))

  map_all-Leaves :
      (ds dk cs ck : List J)
      → Leaves (IsInside num_slots (length cs + length ck)) (map_all sources num_slots ds dk cs ck)
  unfolding map_all
  map_all-Leaves ds dk cs ck =
      then-Leaves (length cs) (length ck) (each (map_one sources num_slots "Source " ds) cs []) _
        (subst
          (λ n. Leaves (IsInside num_slots n) (each (map_one sources num_slots "Source " ds) cs []))
          {x = 0 + length cs} (omega arith)
          (each-Leaves "Source " ds cs 0 [] (none-IsInside num_slots 0)))
        (each-Leaves "Sink " dk ck (length cs))

  entries_of-IsInside :
      (room : ℕ) (r : Flow (List Meter))
      → Leaves (IsInside num_slots room) r
      → IsInside num_slots room (entries_of sources (left r))
  entries_of-IsInside room (going ms) h = h
  entries_of-IsInside room (returned ms) h = h
  entries_of-IsInside room undefined h = none-IsInside num_slots room

  length-counted : (n i : ℕ) → length (counted n i) ≡ n
  length-counted zero i = refl
  length-counted (suc n) i = ap suc (length-counted n (i + 1))

  length-items : (j : J) → length (items sources j) ≡ sources.json.array_length j
  length-items j =
      length-map (sources.json.array_get_idx j) (counted (sources.json.array_length j) 0)
      ∙ length-counted (sources.json.array_length j) 0

  need-IsInside :
      (room : ℕ) (o : Option J) (f : J → Option (Arrays sources))
      → ((j : J) → IsInside num_slots room (mapped sources num_slots (f j)))
      → IsInside num_slots room (mapped sources num_slots (need sources o f))
  need-IsInside room none f h = none-IsInside num_slots room
  need-IsInside room (some j) f h = h j

  -- The map has at most as many meters as the arrays that are allocated for it, one for each source and each
  -- sink of the FCP ALSA map, and every slot in it is below the number of slots, whatever the two maps say.
  pub meter_entries-IsInside :
      (control_sources control_sinks : J)
      → get sources sources.fam "sources" ≡ some control_sources
      → get sources sources.fam "sinks" ≡ some control_sinks
      → IsInside num_slots
          (sources.json.array_length control_sources + sources.json.array_length control_sinks)
          (meter_entries sources num_slots)
  unfolding meter_entries arrays
  meter_entries-IsInside cs ck e f =
      let room = sources.json.array_length cs + sources.json.array_length ck in
      rw (e, f)
        (need-IsInside room (get sources sources.devmap "device-specification") _ (λ spec.
          need-IsInside room (get sources spec "sources") _ (λ ds.
            need-IsInside room (get sources spec "destinations") _ (λ dk.
              let all =
                map_all sources num_slots (items sources ds) (items sources dk) (items sources cs)
                  (items sources ck) in
              subst (λ n. IsInside num_slots n (entries_of sources (left all)))
                (ap₂ (λ (a b : ℕ). a + b) (length-items cs) (length-items ck))
                (entries_of-IsInside (length (items sources cs) + length (items sources ck)) all (
                  map_all-Leaves (items sources ds) (items sources dk) (items sources cs)
                    (items sources ck)))))))
