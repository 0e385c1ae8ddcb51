-- ===== src/Control/Values/Bitmap.antt =====
-- server/control-utils.c: a bitmap control at a device that keeps what is written.
use fcp_support.Base.{
  ℕ, ◌-◌, ◌*◌, ◌%◌, ◌^◌, ◌≤◌, ◌<◌, false, Bool-cases, some, Ioctl, ok, ◌==◌, if◌then◌else◌,
}
use fcp_support.Base.{ℤ, pos, eqb_ℤ, to_unsigned, to_signed, ◌≡◌, ◌≢◌, ap, ◌∙◌, inl, inr, arith}
use native.Mathlib.Nat.{pow-le-pow_right}
use fcp_support.Base.Bits.{bit, bit-mod, bit-bit_or, bit-bit_and, bit-pow, bit-not, bit-lt}
use fcp_support.Fcp.Data.{data_read, data_write}
use fcp_support.Control.{Props}
use fcp_support.Control.Types.{width_of}
use fcp_support.Control.Values.{set_bit, with_width, write_bitmap_data_control}

-- A register of the device's data space: reads give its bits and change nothing, and a write keeps as
-- many bits as it has.
pub record IsRegister {D : Type 0} (ioctl : Ioctl D) (offset w : ℕ) (value : D → ℕ) : Type 0 where
  pub reads : (d : D) → data_read ioctl offset w false d ≡ (ok (to_signed 32 (value d)), d)
  pub writes : (v : ℤ) (d : D) → (data_write ioctl offset w v d).0 ≡ ok tt
  pub keeps :
      (v : ℤ) (d : D) → value (data_write ioctl offset w v d).1 ≡ to_unsigned 32 v % 2 ^ (8 * w)

set_bit-bit :
    (i k x : ℕ) (v : ℤ)
    → i < 32
    → k < 32
    → bit k (set_bit i v x) ≡ (if k == i then (if eqb_ℤ v (pos 0) then 0 else 1) else bit k x)
unfolding set_bit
set_bit-bit i k x v hi hk = elim (Bool-cases (eqb_ℤ v (pos 0))) [
  | inl zero_value ↦
      rw
        (
          zero_value,
          bit-bit_and k x (2 ^ 32 - 1 - 2 ^ i),
          bit-not 32 k (2 ^ i) hk power,
          bit-pow k i,
        )
        (grind (arith, bit-lt k x))
  | inr nonzero ↦ rw (nonzero, bit-bit_or k x (2 ^ i), bit-pow k i) (grind (arith, bit-lt k x))
]
  where
    power : 2 ^ i < 2 ^ 32
    power = omega (arith, pow-le-pow_right {n = 2} (omega arith) {i = i} {j = 31} (omega arith))

pattern_back : (x : ℕ) → to_unsigned 32 (to_signed 32 x) ≡ x % 2 ^ 32
pattern_back x = ground arith

-- For a writable bitmap control on a register of at most 32 bits, at a bit of the register: the write
-- gives the control's own bit the value's truth, and leaves every other bit of the register as it was.
pub write_bitmap_data_control-bit :
    {D : Type 0} (ioctl : Ioctl D) (p : Props) (w : ℕ) (value : D → ℕ) (v : ℤ) (d : D) (k : ℕ)
    → IsRegister ioctl p.offset w value
    → p.read_only ≡ false
    → p.offset ≢ 0
    → width_of p.data_type ≡ some w
    → w ≤ 4
    → p.array_index < 8 * w
    → k < 8 * w
    → ((write_bitmap_data_control ioctl p v d).0 ≡ ok tt)
      × (bit k (value (write_bitmap_data_control ioctl p v d).1)
          ≡ (if k == p.array_index then (if eqb_ℤ v (pos 0) then 0 else 1) else bit k (value d)))
unfolding write_bitmap_data_control with_width
write_bitmap_data_control-bit ioctl p w value v d k register writable placed width narrow own
      inside =
    (
      ap (λ r. r.0) run ∙ register.writes (to_signed 32 changed) d,
      ap (λ r. bit k (value r.1)) run
          ∙ ap (bit k) (
              register.keeps (to_signed 32 changed) d
              ∙ ap (λ n. n % 2 ^ (8 * w)) (pattern_back changed))
          ∙ bit-mod (8 * w) k (changed % 2 ^ 32) inside
          ∙ bit-mod 32 k changed (omega (arith, inside, narrow))
          ∙ set_bit-bit p.array_index k before v (omega (arith, own, narrow))
              (omega (arith, inside, narrow))
          ∙ ap (λ n. if k == p.array_index then (if eqb_ℤ v (pos 0) then 0 else 1) else n)
              (ap (bit k) (pattern_back (value d))
                ∙ bit-mod 32 k (value d) (omega (arith, inside, narrow))),
    )
  where
    before : ℕ
    before = to_unsigned 32 (to_signed 32 (value d))

    changed : ℕ
    changed = set_bit p.array_index v before

    is_placed : (p.offset == 0) ≡ false
    is_placed = ground (arith, placed)

    run :
        write_bitmap_data_control ioctl p v d ≡ data_write ioctl p.offset w (to_signed 32 changed) d
    run = simp (writable, is_placed, width, register.reads d)
