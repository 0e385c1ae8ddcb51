-- ===== src/Mix/ReadBack.antt =====
-- server/mix.c: what `write_mix_control` leaves in the cache, and what is then read.
use fcp_support.Base.{
  if_true, if_false, ℕ, ◌/◌, ◌%◌, ◌<◌, List, true, false, Res, ok, err, Option, none, some, Ioctl,
}
use fcp_support.Base.{
  ◌≡◌, refl, sym, ap, ◌∙◌, arith, get_or, set, length, length-set, get_or-set_self, leb,
}
use fcp_support.Base.{Bool-cases, inl, inr, continue, einval}
use fcp_support.Fcp.Tables.{mix_read, mix_write}
use fcp_support.Mix.{
  MixEntry, Mixer, no_entry, on_mixer, refresh, cached_row, from_cache, get_cached_mix_values,
}
use fcp_support.Mix.{read_mix_control, store_row, write_mix_control}

-- The cache has `row` for this output, and holds it for up to date.
pub record IsCached {D : Type 0} (x : Mixer D) (output : ℕ) (row : List ℕ) : Type 0 where
  pub entries : List MixEntry
  pub cache : x.cache ≡ some entries
  pub inside : output < length entries
  pub values : (get_or entries output no_entry).values ≡ row
  pub dirty : (get_or entries output no_entry).dirty ≡ false

leb_outside : (a b : ℕ) → a < b → leb b a ≡ false
leb_outside a b h = ground arith

inside_leb : (a b : ℕ) → leb b a ≡ false → a < b
inside_leb a b h = ground arith

err_not_ok : {S A : Type 0} (e : ℕ) (a : A) (x z : S) → ¬ Path (Res A × S) (err e, x) (ok a, z)
err_not_ok e a x z h = absurd cc

ok_value : {S A : Type 0} (a b : A) (x z : S) → Path (Res A × S) (ok a, x) (ok b, z) → a ≡ b
ok_value a b x z h = cc

module _ {D : Type 0} (ioctl : Ioctl D) where
  abbrev Cached : ℕ → Mixer D → List ℕ → Mixer D → Type 0
  Cached output x row y = IsCached y output row × (y.input_count ≡ x.input_count)

  moved :
      (output : ℕ) (x y z : Mixer D) (row row' : List ℕ)
      → Cached output x row y
      → y ≡ z
      → row ≡ row'
      → Cached output x row' z
  moved output x y z row row' h e e' = rw (← e, ← e') h

  refresh-Cached :
      (output : ℕ) (es : List MixEntry) (r : Res (List ℕ)) (x y z : Mixer D) (row : List ℕ)
      → output < length es
      → y.input_count ≡ x.input_count
      → refresh ioctl output es r y ≡ (ok row, z)
      → Cached output x row z
  unfolding refresh
  refresh-Cached output es (err c) x y z row l n e = absurd cc
  refresh-Cached output es (ok row0) x y z row l n e =
      let clean : MixEntry = record { values = row0; dirty = false } in
      let filled = get_or-set_self es output clean no_entry l in
      moved output x (record y { cache = some (set es output clean) }) z row0 row
        (
          record {
            entries = set es output clean;
            cache = refl;
            inside = omega (arith, length-set es output clean);
            values = ap (λ (t : MixEntry). t.values) filled;
            dirty = ap (λ (t : MixEntry). t.dirty) filled;
          },
          n,
        )
        same_mixer same_row
    where
      same_row : row0 ≡ row
      same_row = cc

      same_mixer :
          record y { cache = some (set es output (record { values = row0; dirty = false })) } ≡ z
      same_mixer = cc

  cached_row_outside :
      (output : ℕ) (es : List MixEntry) (x : Mixer D)
      → leb (length es) output ≡ true
      → cached_row ioctl output es x ≡ (err einval, x)
  unfolding cached_row
  cached_row_outside output es x h = if_true _ _ _ h

  cached_row_stale :
      (output : ℕ) (es : List MixEntry) (x : Mixer D)
      → leb (length es) output ≡ false
      → (get_or es output no_entry).dirty ≡ true
      → cached_row ioctl output es x
        ≡ refresh ioctl output es
            (on_mixer (mix_read ioctl output x.input_count) x).0
            (on_mixer (mix_read ioctl output x.input_count) x).1
  unfolding cached_row
  cached_row_stale output es x l h = if_false _ _ _ l ∙ if_true _ _ _ h

  cached_row_clean :
      (output : ℕ) (es : List MixEntry) (x : Mixer D)
      → leb (length es) output ≡ false
      → (get_or es output no_entry).dirty ≡ false
      → cached_row ioctl output es x ≡ (ok (get_or es output no_entry).values, x)
  unfolding cached_row
  cached_row_clean output es x l h = if_false _ _ _ l ∙ if_false _ _ _ h

  cached_row-Cached :
      (output : ℕ) (es : List MixEntry) (x z : Mixer D) (row : List ℕ)
      → x.cache ≡ some es
      → cached_row ioctl output es x ≡ (ok row, z)
      → Cached output x row z
  unfolding on_mixer
  cached_row-Cached output es x z row c e = elim (Bool-cases (leb (length es) output)) [
    | inl out ↦ absurd (err_not_ok einval row x z (sym (cached_row_outside output es x out) ∙ e))
    | inr l ↦ elim (Bool-cases ((get_or es output no_entry).dirty)) [
      | inl old ↦
          refresh-Cached output es (mix_read ioctl output x.input_count x.dev).0 x
            (record x { dev = (mix_read ioctl output x.input_count x.dev).1 }) z row
            (inside_leb _ _ l) refl (sym (cached_row_stale output es x l old) ∙ e)
      | inr clean ↦
          let w : (ok (get_or es output no_entry).values, x) ≡ (ok row, z) =
            sym (cached_row_clean output es x l clean) ∙ e in
          moved output x x z (get_or es output no_entry).values row
            (
              record {
                entries = es;
                cache = c;
                inside = inside_leb _ _ l;
                values = refl;
                dirty = clean;
              },
              refl,
            )
            (ap (λ (p : Res (List ℕ) × Mixer D). p.1) w) (ok_value _ row x z w)
    ]
  ]

  from_cache-Cached :
      (c : Option (List MixEntry)) (output : ℕ) (x z : Mixer D) (row : List ℕ)
      → x.cache ≡ c
      → from_cache ioctl c output x ≡ (ok row, z)
      → Cached output x row z
  unfolding from_cache
  from_cache-Cached none output x z row h e = absurd cc
  from_cache-Cached (some es) output x z row h e = cached_row-Cached output es x z row h e

  -- A row that the cache has for up to date is read from it, without the device.
  cached-read :
      (output : ℕ) (x : Mixer D) (row : List ℕ)
      → IsCached x output row
      → get_cached_mix_values ioctl output x ≡ (ok row, x)
  unfolding get_cached_mix_values from_cache
  cached-read output x row h =
      ap (λ c. from_cache ioctl c output x) h.cache
      ∙ cached_row_clean output h.entries x (leb_outside _ _ h.inside) h.dirty
      ∙ ap (λ (v : List ℕ). (ok v, x)) h.values

  store_row-IsCached :
      (output : ℕ) (row row' : List ℕ) (x : Mixer D)
      → IsCached x output row
      → IsCached (store_row ioctl output row' x) output row'
  unfolding store_row
  store_row-IsCached output row row' x h =
      let es = h.entries in
      let entry : MixEntry = record (get_or es output no_entry) { values = row' } in
      let filled = get_or-set_self es output entry no_entry h.inside in
      record {
        entries = set es output entry;
        cache = rw (h.cache, store_row) refl;
        inside = omega (arith, length-set es output entry, h.inside);
        values = ap (λ (t : MixEntry). t.values) filled;
        dirty = ap (λ (t : MixEntry). t.dirty) filled ∙ h.dirty;
      }

  -- The state that `write_mix_control` leaves, once it has the row.
  write_mix_control_state :
      (offset value : ℕ) (x x1 : Mixer D) (row : List ℕ)
      → get_cached_mix_values ioctl (offset / x.input_count) x ≡ (ok row, x1)
      → write_mix_control ioctl offset value x
        ≡ on_mixer
            (mix_write ioctl
              (offset / x.input_count)
              x.input_count
              (set row (offset % x.input_count) value))
            (store_row ioctl (offset / x.input_count) (set row (offset % x.input_count) value) x1)
  unfolding write_mix_control
  write_mix_control_state offset value x x1 row h =
      ap
        (λ (p : Res (List ℕ) × Mixer D).
          continue
            (λ a. λ d.
              let a' = set a (offset % x.input_count) value in
              on_mixer (mix_write ioctl (offset / x.input_count) x.input_count a')
                (store_row ioctl (offset / x.input_count) a' d))
            p.0 p.1)
        h

  read_mix_control_cached :
      (offset n : ℕ) (y : Mixer D) (row : List ℕ)
      → y.input_count ≡ n
      → IsCached y (offset / n) row
      → read_mix_control ioctl offset y ≡ (ok (get_or row (offset % n) 0), y)
  unfolding read_mix_control
  read_mix_control_cached offset n y row e h =
      ap (λ k. reading k (get_cached_mix_values ioctl (offset / k) y)) e
      ∙ ap (reading n) (cached-read (offset / n) y row h)
    where
      reading : ℕ → Res (List ℕ) × Mixer D → Res ℕ × Mixer D
      reading k p = continue (λ r. λ d. (ok (get_or r (offset % k) 0), d)) p.0 p.1

  store_row-count :
      (output : ℕ) (row row' : List ℕ) (x : Mixer D)
      → IsCached x output row
      → (store_row ioctl output row' x).input_count ≡ x.input_count
  unfolding store_row
  store_row-count output row row' x h = rw (h.cache, store_row) refl

  -- Once the row of the output can be had, from the cache or from the device, and has the input: whatever
  -- the device answers to the write, `read_mix_control` of the control then gives the value written,
  -- without asking the device.
  pub write-read_mix_control :
      (offset value : ℕ) (x x1 : Mixer D) (row : List ℕ)
      → get_cached_mix_values ioctl (offset / x.input_count) x ≡ (ok row, x1)
      → offset % x.input_count < length row
      → read_mix_control ioctl offset (write_mix_control ioctl offset value x).1
        ≡ (ok value, (write_mix_control ioctl offset value x).1)
  unfolding get_cached_mix_values on_mixer
  write-read_mix_control offset value x x1 row h l =
      rw (write_mix_control_state offset value x x1 row h) (
        read_mix_control_cached offset x.input_count after row'
          (store_row-count _ row row' x1 cached.0 ∙ cached.1)
          (record {
            entries = stored.entries;
            cache = stored.cache;
            inside = stored.inside;
            values = stored.values;
            dirty = stored.dirty;
          })
        ∙ ap (λ (v : ℕ). (ok v, after)) (get_or-set_self row (offset % x.input_count) value 0 l))
    where
      output : ℕ
      output = offset / x.input_count

      row' : List ℕ
      row' = set row (offset % x.input_count) value

      cached : Cached output x row x1
      cached = from_cache-Cached x.cache output x x1 row refl h

      stored : IsCached (store_row ioctl output row' x1) output row'
      stored = store_row-IsCached output row row' x1 cached.0

      after : Mixer D
      after =
          (on_mixer (mix_write ioctl output x.input_count row') (store_row ioctl output row' x1)).1
