-- ===== src/Control/Values.antt =====
-- server/control-utils.c: the reads and writes of data, bitmap and byte controls.
pub mod Bitmap
use fcp_support.Base.{
  ℕ, zero, suc, ◌+◌, ◌-◌, ◌*◌, ◌%◌, ◌^◌, List, [], ◌∷◌, Bool, true, false, Option, none, some, not,
}
use fcp_support.Base.{
  Hw, Ioctl, Res, ok, err, pure, fail, ◌>>=◌, ◌>>◌, continue, fail_if, ltb, ◌==◌, if◌then◌else◌,
  length, take,
}
use fcp_support.Base.{
  ℤ, pos, negsuc, eqb_ℤ, is_neg, pos_part, leb, to_unsigned, to_signed, get_or, bit_and, bit_or,
  ◌||◌,
}
use fcp_support.Base.Bits.{bit}
use fcp_support.Fcp.Data.{data_read, data_write, data_read_buf, data_write_buf}
use fcp_support.Control.{Props, ElemType, boolean, integer, enumerated, bytes}
use fcp_support.Control.Types.{width_of, is_signed}

-- The index of a value among the values of an enumeration.
unfoldable pub enum_index : List ℤ → ℤ → ℕ → Option ℕ
enum_index [] v i = none
enum_index (x ∷ xs) v i = let rest = enum_index xs v (i + 1) in if eqb_ℤ x v then some i else rest

-- `props->type == SND_CTL_ELEM_TYPE_ENUMERATED && props->enum_values`
abbrev pub explicit_values : ElemType → Option (List ℤ) → Option (List ℤ)
explicit_values enumerated vs = vs
explicit_values boolean vs = none
explicit_values integer vs = none
explicit_values bytes vs = none

-- `return -1`
abbrev pub refuse : {D A : Type 0} → Hw D A
refuse = fail 1

-- `value ? read_value | mask : read_value & ~mask`, on the 32-bit pattern
unfoldable pub set_bit : ℕ → ℤ → ℕ → ℕ
set_bit i value v = if eqb_ℤ value (pos 0) then bit_and v (2 ^ 32 - 1 - 2 ^ i) else bit_or v (2 ^ i)

module _ {D : Type 0} (ioctl : Ioctl D) where
  unfoldable pub with_width : {A : Type 0} → Option ℕ → (ℕ → Hw D A) → Hw D A
  with_width none f = refuse
  with_width (some w) f = f w

  -- `read_single_data_control`
  unfoldable pub read_single_data_control : Props → ℕ → ℕ → Hw D ℤ
  unfolding with_width is_signed
  read_single_data_control p data_type offset =
      with_width (width_of data_type)
        (λ w. data_read ioctl ((offset + p.array_index * w) % 2 ^ 32) w (is_signed data_type))

  index_found : Option ℕ → Hw D (List ℤ)
  index_found none = refuse
  index_found (some i) = pure (pos i ∷ [])

  -- What the value that was read stands for: its index, if the control has explicit values.
  unfoldable pub value_read : Option (List ℤ) → ℕ → ℤ → Hw D (List ℤ)
  unfolding enum_index index_found
  value_read none count v = pure (v ∷ [])
  value_read (some vs) count v = index_found (enum_index (take count vs) v 0)

  -- The loop of `read_data_control` over the components.
  unfoldable pub read_components : Props → List (ℕ × ℕ) → Hw D (List ℤ)
  read_components p [] = pure []
  read_components p ((offset, data_type) ∷ cs) = do
    v ← read_single_data_control p data_type offset
    vs ← read_components p cs
    pure (v ∷ vs)

  -- `read_data_control`: one value, or one for each component.
  unfoldable pub read_data_control : Props → Hw D (List ℤ)
  unfolding value_read
  read_data_control p = elim (p.components) [
    | [] ↦ do
      v ← read_single_data_control p p.data_type p.offset
      value_read (explicit_values p.elem_type p.enum_values) p.enum_count v
    | c ∷ cs ↦ read_components p (c ∷ cs)
  ]

  -- The value that goes to the device for an index, if the control has explicit values.
  unfoldable pub value_written : Option (List ℤ) → ℕ → ℤ → Hw D ℤ
  value_written none count v = pure v
  value_written (some vs) count v =
      if is_neg v || leb count (pos_part v) then refuse else pure (get_or vs (pos_part v) (pos 0))

  -- `write_data_control`
  unfoldable pub write_data_control : Props → ℤ → Hw D (Unit {0})
  unfolding value_written with_width
  write_data_control p value = do
    fail_if p.read_only 1
    fail_if (p.offset == 0) 1
    fail_if (not (length p.components == 0)) 1
    v ← value_written (explicit_values p.elem_type p.enum_values) p.enum_count value
    with_width (width_of p.data_type)
        (λ w. data_write ioctl ((p.offset + p.array_index * w) % 2 ^ 32) w v)

  -- `read_bitmap_data_control`. The index is a shift count, which C wants below 32.
  unfoldable pub read_bitmap_data_control : Props → Hw D (List ℤ)
  unfolding with_width
  read_bitmap_data_control p = do
    fail_if (p.offset == 0) 1
    with_width (width_of p.data_type) (λ w. do
      v ← data_read ioctl p.offset w false
      pure (pos (bit p.array_index (to_unsigned 32 v)) ∷ []))

  -- `write_bitmap_data_control`
  unfoldable pub write_bitmap_data_control : Props → ℤ → Hw D (Unit {0})
  unfolding with_width set_bit
  write_bitmap_data_control p value = do
    fail_if p.read_only 1
    fail_if (p.offset == 0) 1
    with_width (width_of p.data_type) (λ w. do
      v ← data_read ioctl p.offset w false
      data_write ioctl p.offset w (to_signed 32 (set_bit p.array_index value (to_unsigned 32 v))))

  -- `read_bytes_control`
  unfoldable pub read_bytes_control : Props → ℕ → Hw D (List ℕ)
  read_bytes_control p size = do
    fail_if (p.offset == 0) 1
    fail_if (not (size == p.size)) 1
    data_read_buf ioctl p.offset size

  -- `write_bytes_control`
  unfoldable pub write_bytes_control : Props → List ℕ → ℕ → Hw D (Unit {0})
  write_bytes_control p buf size = do
    fail_if p.read_only 1
    fail_if (p.offset == 0) 1
    fail_if (not (size == p.size)) 1
    data_write_buf ioctl p.offset size buf
