-- ===== src/Mux.antt =====
-- server/mux.c: the cache of the router's tables, and the router controls.
pub mod Entry
pub mod Write
pub mod ReadBack
use fcp_support.Base.{ℕ, zero, suc, ◌+◌, ◌*◌, ◌/◌, ◌%◌, ◌^◌, List, [], ◌∷◌, ◌++◌, Bool, true, false}
use fcp_support.Base.{
  Option, none, some, Res, ok, err, Hw, Ioctl, get_or, set, length, ◌==◌, bit_and, bit_or,
}
use fcp_support.Base.{ℤ, pos, negsuc, ltb_ℤ, if◌then◌else◌, einval, is_neg, ltb, leb, ◌||◌}
use fcp_support.Fcp.Tables.{mux_read, mux_write}

-- `struct mux_cache`: a table for each of the three rates, the router pin of each input, and for each
-- output its slot at each rate and its fixed input (-1 where there is none).
pub record Mux (D : Type 0) : Type 0 where
  pub dev : D
  pub mux_size : List ℕ
  pub values : List (List ℕ)
  pub input_router_pin : List ℕ
  pub output_router_slots : List ℤ
  pub output_fixed_input : List ℤ
  pub dirty : Bool

-- The 32-bit table entry `source << 12 | destination`.
abbrev pub entry_source : ℕ → ℕ
entry_source v = v / 2 ^ 12

abbrev pub entry_sink : ℕ → ℕ
entry_sink v = bit_and v 0xfff

-- `(values[slot_num] & 0xFFF) | (router_pin << 12)`
unfoldable pub set_source : ℕ → ℕ → ℕ
set_source v pin = bit_or (bit_and v 0xfff) (pin * 4096)

-- `invalidate_mux_cache`
unfoldable pub invalidate_mux_cache : {D : Type 0} → Mux D → Mux D
invalidate_mux_cache m = record m { dirty = true }

-- `add_input_name`; the name itself only goes to ALSA.
unfoldable pub add_input_name : {D : Type 0} → ℕ → Mux D → Mux D
add_input_name router_pin m = record m {
  input_router_pin = m.input_router_pin ++ ((router_pin % 2 ^ 16) ∷ []);
}

-- The loop of `router_pin_to_input` at input `i`.
unfoldable pub pin_index : List ℕ → ℕ → ℕ → ℕ
pin_index [] pin i = 0
pin_index (p ∷ ps) pin i = if p == pin then i else pin_index ps pin (i + 1)

-- `router_pin_to_input`: input 0, Off, for a pin that no input has.
unfoldable pub router_pin_to_input : {D : Type 0} → Mux D → ℕ → ℕ
unfolding pin_index
router_pin_to_input m pin = pin_index m.input_router_pin pin 0

-- The search of `add_mux_controls` for the slot of a destination pin, -1 if there is none.
unfoldable pub find_router_slot : List ℕ → ℕ → ℕ → ℤ
find_router_slot [] pin k = negsuc 0
find_router_slot (v ∷ vs) pin k =
    let rest = find_router_slot vs pin (k + 1) in if entry_sink v == pin then pos k else rest

module _ {D : Type 0} (ioctl : Ioctl D) where
  -- `fcp_mux_read` of table `i`, into the cache.
  unfoldable pub read_table : ℕ → Mux D → Res (Unit {0}) × Mux D
  read_table i m =
      let (r, d) = mux_read ioctl i (get_or m.mux_size i 0) m.dev in
      elim r [
        | err e ↦ (err e, record m { dev = d })
        | ok table ↦ (ok tt, record m { dev = d; values = set m.values i table })
      ]

  unfoldable pub and_then :
      Res (Unit {0}) × Mux D → (Mux D → Res (Unit {0}) × Mux D) → Res (Unit {0}) × Mux D
  and_then (err e, m) k = (err e, m)
  and_then (ok u, m) k = k m

  -- All three tables are read.
  unfoldable pub tables_read : Mux D → Res (Unit {0}) × Mux D
  unfolding read_table and_then
  tables_read m = and_then (read_table 0 m) (λ m1.
      and_then (read_table 1 m1)
        (λ m2. and_then (read_table 2 m2) (λ m3. (ok tt, record m3 { dirty = false }))))

  -- The refresh of `get_cached_mux_values`, for a cache that was initialised: all three tables, if the cache is dirty.
  unfoldable pub refresh_tables : Mux D → Res (Unit {0}) × Mux D
  unfolding tables_read
  refresh_tables m = if m.dirty then tables_read m else (ok tt, m)

  -- Every control that add_mux_controls makes has a fixed input or a slot at the first rate.
  input_of : ℕ → Mux D → ℕ
  input_of offset m = elim (get_or m.output_fixed_input offset (negsuc 0)) [
    | pos fixed ↦ fixed
    | negsuc n ↦ elim (get_or m.output_router_slots (offset * 3) (negsuc 0)) [
      | pos slot ↦ router_pin_to_input m (entry_source (get_or (get_or m.values 0 []) slot 0))
      | negsuc k ↦ 0
    ]
  ]

  unfoldable pub tables_ready : ℕ → Res (Unit {0}) × Mux D → Res ℕ × Mux D
  unfolding input_of
  tables_ready offset (err e, m) = (err e, m)
  tables_ready offset (ok u, m) = (ok (input_of offset m), m)

  -- `read_mux_control`: the fixed input, or the input whose pin the slot at the first rate holds.
  unfoldable pub read_mux_control : ℕ → Mux D → Res ℕ × Mux D
  unfolding tables_ready
  read_mux_control offset m = tables_ready offset (refresh_tables m)

  -- What `values[slot_num] = …` and the write of the table do at one rate.
  store_and_write : ℕ → ℕ → ℕ → Mux D → Res (Unit {0}) × Mux D
  store_and_write rate slot pin m =
      let table = get_or m.values rate [] in
      let table' = set table slot (set_source (get_or table slot 0) pin) in
      let (r, d) = mux_write ioctl rate (get_or m.mux_size rate 0) table' m.dev in
      (r, record m { dev = d; values = set m.values rate table' })

  -- A round of the loop of `write_mux_control`. `none` is the write to `values[-1]`, outside the table,
  -- that a missing slot at a higher rate leads to: what it does is not defined.
  unfoldable pub write_rate : ℕ → ℕ → ℕ → Mux D → Option (Res (Unit {0}) × Mux D)
  unfolding store_and_write
  write_rate offset pin rate m = elim (get_or m.output_fixed_input offset (negsuc 0)) [
    | pos fixed ↦ some (err einval, m)
    | negsuc n ↦ elim (get_or m.output_router_slots (offset * 3 + rate) (negsuc 0)) [
      | pos slot ↦ some (store_and_write rate slot pin m)
      | negsuc k ↦ if rate == 0 then some (err einval, m) else none
    ]
  ]

  next_rate :
      (Mux D → Option (Res (Unit {0}) × Mux D))
      → Option (Res (Unit {0}) × Mux D)
      → Option (Res (Unit {0}) × Mux D)
  next_rate k none = none
  next_rate k (some (err e, m)) = some (err e, m)
  next_rate k (some (ok u, m)) = k m

  -- `write_mux_control` of an input's number
  unfoldable pub write_mux_control : ℕ → ℕ → Mux D → Option (Res (Unit {0}) × Mux D)
  unfolding next_rate
  write_mux_control offset value m =
      let pin = get_or m.input_router_pin value 0 in
      next_rate (λ m1. next_rate (write_rate offset pin 2) (write_rate offset pin 1 m1))
        (write_rate offset pin 0 m)
