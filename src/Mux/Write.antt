-- ===== src/Mux/Write.antt =====
-- server/mux.c: what `write_mux_control` leaves of the tables.
use fcp_support.Base.{ℕ, ◌+◌, ◌*◌, List, [], get_or, map}
use fcp_support.Base.{◌≡◌, refl, ◌∙◌, negsuc, Option, none, some, Res, ok, err, Ioctl}
use fcp_support.Base.{◌==◌, ℤ-cases, inl, inr, Bool-cases, einval}
use fcp_support.Mux.{Mux, entry_sink}
use fcp_support.Mux.{write_rate, write_mux_control, store_and_write, next_rate}
use fcp_support.Mux.Entry.{set_source_lem, map-set_same}

-- The destinations of all entries of all tables.
abbrev pub sinks : {D : Type 0} → Mux D → List (List ℕ)
sinks m = map (map entry_sink) m.values

module _ {D : Type 0} (ioctl : Ioctl D) where
  store_and_write-sinks :
      (rate slot pin : ℕ) (m : Mux D) → sinks (store_and_write ioctl rate slot pin m).1 ≡ sinks m
  unfolding store_and_write
  store_and_write-sinks rate slot pin m = map-set_same (map entry_sink) [] m.values rate _ (
      map-set_same entry_sink 0 (get_or m.values rate []) slot _
        (set_source_lem (get_or (get_or m.values rate []) slot 0) pin).1)

  abbrev Keeps : Mux D → Option (Res (Unit {0}) × Mux D) → Type 0
  Keeps m x = (r : Res (Unit {0})) (m' : Mux D) → x ≡ some (r, m') → sinks m' ≡ sinks m

  some-Keeps : (m : Mux D) (x : Res (Unit {0}) × Mux D) → sinks x.1 ≡ sinks m → Keeps m (some x)
  some-Keeps m x h r m' e = cc

  none-Keeps : (m : Mux D) → Keeps m none
  none-Keeps m r m' e = absurd cc

  write_rate-Keeps :
      (offset pin rate : ℕ) (m : Mux D) → Keeps m (write_rate ioctl offset pin rate m)
  unfolding write_rate
  write_rate-Keeps offset pin rate m =
      elim (ℤ-cases (get_or m.output_fixed_input offset (negsuc 0))) [
        | inl (fixed, e) ↦ rw (e, write_rate) (some-Keeps m (err einval, m) refl)
        | inr (n, e) ↦
            elim (ℤ-cases (get_or m.output_router_slots (offset * 3 + rate) (negsuc 0))) [
              | inl (slot, e') ↦
                  rw (e, e', write_rate)
                    (some-Keeps m (store_and_write ioctl rate slot pin m)
                      (store_and_write-sinks rate slot pin m))
              | inr (k, e') ↦ elim (Bool-cases (rate == 0)) [
                | inl first ↦ rw (e, e', first, write_rate) (some-Keeps m (err einval, m) refl)
                | inr later ↦ rw (e, e', later, write_rate) (none-Keeps m)
              ]
            ]
      ]

  next_rate-Keeps :
      (k : Mux D → Option (Res (Unit {0}) × Mux D)) (m : Mux D)
      (x : Option (Res (Unit {0}) × Mux D))
      → ((n : Mux D) → Keeps n (k n))
      → Keeps m x
      → Keeps m (next_rate ioctl k x)
  unfolding next_rate
  next_rate-Keeps k m none hk h r m' e = h r m' e
  next_rate-Keeps k m (some (err c, n)) hk h r m' e = h r m' e
  next_rate-Keeps k m (some (ok u, n)) hk h r m' e = hk n r m' e ∙ h (ok u) n refl

  -- Whenever `write_mux_control` returns, with success or with an error, the destination of every entry
  -- of every cached table is what it was.
  pub write_mux_control-sinks :
      (offset value : ℕ) (m : Mux D) (r : Res (Unit {0})) (m' : Mux D)
      → write_mux_control ioctl offset value m ≡ some (r, m')
      → sinks m' ≡ sinks m
  unfolding write_mux_control
  write_mux_control-sinks offset value m =
      let pin = get_or m.input_router_pin value 0 in
      next_rate-Keeps _ m _
        (λ m1.
          next_rate-Keeps _ m1 _ (write_rate-Keeps offset pin 2) (write_rate-Keeps offset pin 1 m1))
        (write_rate-Keeps offset pin 0 m)
