-- ===== src/Fcp/Data.antt =====
-- server/fcp.c: reads and writes of the device's data space, and notifications.
use fcp_support.Base.{ℕ, ◌+◌, List, ◌++◌, Hw, Ioctl, pure, fail, ◌>>=◌, take}
use fcp_support.Base.{Bool, ◌==◌, if◌then◌else◌, le32, get_le32, ℤ, to_signed, to_unsigned, einval}
use fcp_support.Fcp.{fcp_cmd, opcode_data_read, opcode_data_write, opcode_data_notify}

-- The two's complement of the size read; `none` is the `default` of the `switch`.
unfoldable pub sign_extend : {D : Type 0} → ℕ → ℕ → Hw D ℤ
sign_extend size raw =
    if size == 1
    then pure (to_signed 8 raw)
    else if size == 2
    then pure (to_signed 16 raw)
    else if size == 4
    then pure (to_signed 32 raw)
    else fail einval

module _ {D : Type 0} (ioctl : Ioctl D) where
  -- `fcp_data_read`. An unsigned value is stored into an `int`, which keeps its 32-bit pattern.
  unfoldable pub data_read : ℕ → ℕ → Bool → Hw D ℤ
  unfolding sign_extend
  data_read offset size is_signed = do
    resp ← fcp_cmd ioctl opcode_data_read (le32 offset ++ le32 size) size
    let raw = get_le32 resp
    if is_signed then sign_extend size raw else pure (to_signed 32 raw)

  -- `fcp_data_write`: the request is cut after `size` bytes of the value.
  unfoldable pub data_write : ℕ → ℕ → ℤ → Hw D (Unit {0})
  data_write offset size value = do
    _ ←
        fcp_cmd ioctl opcode_data_write
          (take (8 + size) (le32 offset ++ le32 size ++ le32 (to_unsigned 32 value))) 0
    pure tt

  -- `fcp_data_read_buf`
  unfoldable pub data_read_buf : ℕ → ℕ → Hw D (List ℕ)
  data_read_buf offset size = fcp_cmd ioctl opcode_data_read (le32 offset ++ le32 size) size

  -- `fcp_data_write_buf`, of the first `size` bytes of `buf`.
  unfoldable pub data_write_buf : ℕ → ℕ → List ℕ → Hw D (Unit {0})
  data_write_buf offset size buf = do
    _ ← fcp_cmd ioctl opcode_data_write (le32 offset ++ le32 size ++ take size buf) 0
    pure tt

  -- `fcp_data_notify`
  unfoldable pub data_notify : ℕ → Hw D (Unit {0})
  data_notify event = do _ ← fcp_cmd ioctl opcode_data_notify (le32 event) 0; pure tt
