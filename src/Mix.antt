-- ===== src/Mix.antt =====
-- server/mix.c: the cache of the mixer's values, and the mixer controls.
pub mod ReadBack
use fcp_support.Base.{
  ℕ, zero, suc, ◌+◌, ◌*◌, ◌/◌, ◌%◌, List, [], ◌∷◌, Bool, true, false, Res, ok, err,
}
use fcp_support.Base.{Option, none, some, Hw, Ioctl, pure, fail, ◌>>=◌, ◌>>◌, continue, get_or, set}
use fcp_support.Base.{leb, if◌then◌else◌, einval, replicate, length, map}
use fcp_support.Fcp.Tables.{mix_read, mix_write}

-- `struct mix_cache_entry`. A control's value is at least 0 (ALSA keeps it in [0, 32613]).
pub record MixEntry : Type 0 where
  pub values : List ℕ
  pub dirty : Bool

-- The mixer's part of `struct fcp_device`, with the device; the cache has an entry for each output.
pub record Mixer (D : Type 0) : Type 0 where
  pub dev : D
  pub input_count : ℕ
  pub cache : Option (List MixEntry)

unfoldable pub on_mixer : {D A : Type 0} → Hw D A → Hw (Mixer D) A
on_mixer m x = let (r, d) = m x.dev in (r, record x { dev = d })

abbrev pub no_entry : MixEntry
no_entry = record { values = []; dirty = true }

-- `invalidate_mix_cache`
unfoldable pub invalidate_mix_cache : {D : Type 0} → Mixer D → Mixer D
invalidate_mix_cache x = elim (x.cache) [
  | none ↦ x
  | some es ↦ record x { cache = some (map (λ (e : MixEntry). record e { dirty = true }) es) }
]

-- `init_mix_cache`
unfoldable pub init_mix_cache : {D : Type 0} → ℕ → Mixer D → Mixer D
unfolding invalidate_mix_cache
init_mix_cache outputs x = invalidate_mix_cache (record x {
  cache = some (replicate outputs (record { values = replicate x.input_count 0; dirty = false }));
})

module _ {D : Type 0} (ioctl : Ioctl D) where
  -- The row of an output is read again if it is dirty, and is then clean.
  refresh : ℕ → List MixEntry → Res (List ℕ) → Mixer D → Res (List ℕ) × Mixer D
  refresh output es (err e) x = (err e, x)
  refresh output es (ok row) x =
      (ok row, record x { cache = some (set es output (record { values = row; dirty = false })) })

  cached_row : ℕ → List MixEntry → Hw (Mixer D) (List ℕ)
  unfolding refresh
  cached_row output es x =
      let read = on_mixer (mix_read ioctl output x.input_count) x in
      if leb (length es) output
      then (err einval, x)
      else if (get_or es output no_entry).dirty
      then refresh output es read.0 read.1
      else (ok (get_or es output no_entry).values, x)

  from_cache : Option (List MixEntry) → ℕ → Hw (Mixer D) (List ℕ)
  from_cache none output x = (err einval, x)
  from_cache (some es) output x = cached_row output es x

  -- `get_cached_mix_values`
  unfoldable pub get_cached_mix_values : ℕ → Hw (Mixer D) (List ℕ)
  unfolding from_cache cached_row on_mixer
  get_cached_mix_values output x = from_cache x.cache output x

  -- `read_mix_control`, for the control with this offset
  unfoldable pub read_mix_control : ℕ → Hw (Mixer D) ℕ
  read_mix_control offset x =
      (do
        row ← get_cached_mix_values (offset / x.input_count)
        pure (get_or row (offset % x.input_count) 0))
        x

  -- `values[mix_input] = value`, in the cached row
  unfoldable pub store_row : ℕ → List ℕ → Mixer D → Mixer D
  store_row output row x = elim (x.cache) [
    | none ↦ x
    | some es ↦ record x {
      cache = some (set es output (record (get_or es output no_entry) { values = row }));
    }
  ]

  -- `write_mix_control`
  unfoldable pub write_mix_control : ℕ → ℕ → Hw (Mixer D) (Unit {0})
  unfolding on_mixer store_row
  write_mix_control offset value x =
      let output = offset / x.input_count in
      (do
        row ← get_cached_mix_values output
        (λ y.
            let row' = set row (offset % x.input_count) value in
            on_mixer (mix_write ioctl output x.input_count row') (store_row output row' y)))
        x
