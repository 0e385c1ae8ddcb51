-- ===== src/Mux/ReadBack.antt =====
-- server/mux.c: what is read of a router control that was written.
use fcp_support.Base.{if_false, ℕ, suc, ◌+◌, ◌*◌, ◌<◌, [], get_or, length, ◌≢◌, false}
use fcp_support.Base.{
  ◌≡◌, refl, ap, ◌∙◌, arith, pos, negsuc, Option, none, some, Res, ok, err, Ioctl,
}
use fcp_support.Base.{◌==◌, get_or-set_self, get_or-set_ne, ℤ-cases, inl, inr}
use fcp_support.Mux.{
  Mux, pin_index, entry_source, set_source, router_pin_to_input, refresh_tables, read_mux_control,
}
use fcp_support.Mux.{
  write_rate, write_mux_control, store_and_write, next_rate, input_of, tables_ready,
}
use fcp_support.Mux.Entry.{set_source_lem, pin_index_lem}

module _ {D : Type 0} (ioctl : Ioctl D) where
  -- The table of the first rate and what the control is bound to are not touched by the later rates.
  record Binds (m m' : Mux D) : Type 0 where
    same_table : get_or m'.values 0 [] ≡ get_or m.values 0 []
    same_dirty : m'.dirty ≡ m.dirty
    same_pins : m'.input_router_pin ≡ m.input_router_pin
    same_slots : m'.output_router_slots ≡ m.output_router_slots
    same_fixed : m'.output_fixed_input ≡ m.output_fixed_input

  Binds-refl : (m : Mux D) → Binds m m
  Binds-refl m = record {
    same_table = refl;
    same_dirty = refl;
    same_pins = refl;
    same_slots = refl;
    same_fixed = refl;
  }

  Later : Mux D → Option (Res (Unit {0}) × Mux D) → Type 0
  Later m none = Unit
  Later m (some (r, m')) = Binds m m'

  write_rate-Later :
      (offset pin rate : ℕ) (m : Mux D) → Later m (write_rate ioctl offset pin (suc rate) m)
  unfolding Later write_rate store_and_write
  write_rate-Later offset pin rate m =
      elim (ℤ-cases (get_or m.output_fixed_input offset (negsuc 0))) [
        | inl (fixed, e) ↦ rw (e, write_rate) (Binds-refl m)
        | inr (n, e) ↦
            elim (ℤ-cases (get_or m.output_router_slots (offset * 3 + suc rate) (negsuc 0))) [
              | inl (slot, e') ↦
                  rw (e, e', write_rate)
                    (record {
                      same_table = get_or-set_ne m.values (suc rate) 0 _ [] (omega arith);
                      same_dirty = refl;
                      same_pins = refl;
                      same_slots = refl;
                      same_fixed = refl;
                    })
              | inr (k, e') ↦
                  let later : (suc rate == 0) ≡ false = ground arith in
                  rw (e, e', later, write_rate) tt
            ]
      ]

  next_rate-Later :
      (k : Mux D → Option (Res (Unit {0}) × Mux D)) (p : Res (Unit {0}) × Mux D)
      → ((n : Mux D) → Later n (k n))
      → Later p.1 (next_rate ioctl k (some p))
  unfolding Later next_rate
  next_rate-Later k (err e, n) hk = Binds-refl n
  next_rate-Later k (ok u, n) hk = hk n

  Binds-trans : (m n o : Mux D) → Binds m n → Binds n o → Binds m o
  Binds-trans m n o a b = record {
    same_table = b.same_table ∙ a.same_table;
    same_dirty = b.same_dirty ∙ a.same_dirty;
    same_pins = b.same_pins ∙ a.same_pins;
    same_slots = b.same_slots ∙ a.same_slots;
    same_fixed = b.same_fixed ∙ a.same_fixed;
  }

  Later-trans :
      (m n : Mux D) (x : Option (Res (Unit {0}) × Mux D)) → Binds m n → Later n x → Later m x
  unfolding Later
  Later-trans m n none a h = tt
  Later-trans m n (some (r, o)) a h = Binds-trans m n o a h

  some-Later :
      (m : Mux D) (x : Option (Res (Unit {0}) × Mux D)) (r : Res (Unit {0})) (m' : Mux D)
      → Later m x
      → x ≡ some (r, m')
      → Binds m m'
  unfolding Later
  some-Later m none r m' h e = absurd cc
  some-Later m (some (r2, m2)) r m' h e = moved cc
    where
      moved : m2 ≡ m' → Binds m m'
      moved same = rw (← same) h

  twice-Later :
      (offset pin : ℕ) (m : Mux D)
      → Later m (next_rate ioctl (write_rate ioctl offset pin 2) (write_rate ioctl offset pin 1 m))
  unfolding Later next_rate
  twice-Later offset pin m = go (write_rate ioctl offset pin 1 m) (write_rate-Later offset pin 0 m)
    where
      go :
          (x : Option (Res (Unit {0}) × Mux D))
          → Later m x
          → Later m (next_rate ioctl (write_rate ioctl offset pin 2) x)
      go none h = tt
      go (some (err e, n)) h = h
      go (some (ok u, n)) h = Later-trans m n _ h (write_rate-Later offset pin 1 n)

  -- The control at `offset` is bound to entry `slot` of the first table, and the cache is up to date.
  pub record IsRouted (offset slot : ℕ) (m : Mux D) : Type 0 where
    pub clean : m.dirty ≡ false
    pub not_fixed : get_or m.output_fixed_input offset (negsuc 0) ≡ negsuc 0
    pub bound : get_or m.output_router_slots (offset * 3) (negsuc 0) ≡ pos slot
    pub cached : 0 < length m.values
    pub inside : slot < length (get_or m.values 0 [])

  refresh_tables_clean : (m : Mux D) → m.dirty ≡ false → refresh_tables ioctl m ≡ (ok tt, m)
  unfolding refresh_tables
  refresh_tables_clean m h = if_false m.dirty _ _ h

  read_mux_control_clean :
      (offset : ℕ) (m : Mux D)
      → m.dirty ≡ false
      → read_mux_control ioctl offset m ≡ (ok (input_of ioctl offset m), m)
  unfolding read_mux_control tables_ready
  read_mux_control_clean offset m h = ap (tables_ready ioctl offset) (refresh_tables_clean m h)

  input_of_routed :
      (offset slot : ℕ) (m : Mux D)
      → get_or m.output_fixed_input offset (negsuc 0) ≡ negsuc 0
      → get_or m.output_router_slots (offset * 3) (negsuc 0) ≡ pos slot
      → input_of ioctl offset m
        ≡ router_pin_to_input m (entry_source (get_or (get_or m.values 0 []) slot 0))
  unfolding input_of
  input_of_routed offset slot m h h' = rw (h, h', input_of) refl

  write_rate_routed :
      (offset slot pin : ℕ) (m : Mux D)
      → get_or m.output_fixed_input offset (negsuc 0) ≡ negsuc 0
      → get_or m.output_router_slots (offset * 3 + 0) (negsuc 0) ≡ pos slot
      → write_rate ioctl offset pin 0 m ≡ some (store_and_write ioctl 0 slot pin m)
  unfolding write_rate
  write_rate_routed offset slot pin m h h' = rw (h, h', write_rate) refl

  -- For a control bound to an entry of an up-to-date cache, and an input whose pin no earlier input has:
  -- whenever `write_mux_control` of the input returns, even with the device's error, `read_mux_control`
  -- of the control then gives that input, without asking the device.
  pub write-read_mux_control :
      (offset slot value : ℕ) (m : Mux D) (r : Res (Unit {0})) (m' : Mux D)
      → IsRouted offset slot m
      → value < length m.input_router_pin
      → ((j : ℕ) → j < value → get_or m.input_router_pin j 0 ≢ get_or m.input_router_pin value 0)
      → write_mux_control ioctl offset value m ≡ some (r, m')
      → read_mux_control ioctl offset m' ≡ (ok value, m')
  unfolding router_pin_to_input write_mux_control store_and_write
  write-read_mux_control offset slot value m r m' routed l first e =
      read_mux_control_clean offset m' (b.same_dirty ∙ routed.clean)
      ∙ ap (λ (v : ℕ). (ok v, m')) (bound_input ∙ found)
    where
      pin : ℕ
      pin = get_or m.input_router_pin value 0

      stored : Res (Unit {0}) × Mux D
      stored = store_and_write ioctl 0 slot pin m

      first_round : write_rate ioctl offset pin 0 m ≡ some stored
      first_round = write_rate_routed offset slot pin m routed.not_fixed (
          ap (λ (k : ℕ). get_or m.output_router_slots k (negsuc 0)) {y = offset * 3} (omega arith)
          ∙ routed.bound)

      b : Binds stored.1 m'
      b =
          some-Later stored.1
            (next_rate ioctl
              (λ m1.
                next_rate ioctl (write_rate ioctl offset pin 2) (write_rate ioctl offset pin 1 m1))
              (some stored))
            r m' (next_rate-Later _ stored (twice-Later offset pin)) (rw (← first_round) e)

      fixed : get_or m'.output_fixed_input offset (negsuc 0) ≡ negsuc 0
      fixed = ap (λ t. get_or t offset (negsuc 0)) b.same_fixed ∙ routed.not_fixed

      slots : get_or m'.output_router_slots (offset * 3) (negsuc 0) ≡ pos slot
      slots = ap (λ t. get_or t (offset * 3) (negsuc 0)) b.same_slots ∙ routed.bound

      bound_input :
          input_of ioctl offset m'
          ≡ router_pin_to_input m' (entry_source (get_or (get_or m'.values 0 []) slot 0))
      bound_input = input_of_routed offset slot m' fixed slots

      old : ℕ
      old = get_or (get_or m.values 0 []) slot 0

      entry : get_or (get_or m'.values 0 []) slot 0 ≡ set_source old pin
      entry =
          ap (λ t. get_or t slot 0) (b.same_table ∙ get_or-set_self m.values 0 _ [] routed.cached)
          ∙ get_or-set_self (get_or m.values 0 []) slot (set_source old pin) 0 routed.inside

      found : router_pin_to_input m' (entry_source (get_or (get_or m'.values 0 []) slot 0)) ≡ value
      found =
          ap (λ (v : ℕ). router_pin_to_input m' (entry_source v)) entry
          ∙ ap (router_pin_to_input m') ((set_source_lem old pin).0)
          ∙ ap (λ ps. pin_index ps pin 0) b.same_pins
          ∙ pin_index_lem m.input_router_pin value 0 l first
          ∙ omega arith
