-- ===== src/Fcp/Flash.antt =====
-- server/fcp.c: the flash commands, and what they refuse without asking the device.
use fcp_support.Base.{ℕ, ◌%◌, List, [], ◌∷◌, ◌++◌, Hw, Ioctl, pure, ◌>>=◌, ◌>>◌, fail_if}
use fcp_support.Base.{ltb, ◌||◌, take, drop, replicate, byte_at, le32, get_le32, einval, eoverflow}
use fcp_support.Base.{if◌then◌else◌, ◌==◌}
use fcp_support.Fcp.{fcp_cmd, opcode_flash_info, opcode_flash_segment_info, opcode_flash_erase}
use fcp_support.Fcp.{opcode_flash_erase_progress, opcode_flash_write, opcode_flash_read}

-- FCP_FLASH_WRITE_MAX
abbrev pub flash_write_max : ℕ
flash_write_max = 1012

abbrev pub max_flash_size : ℕ
max_flash_size = 16777216

-- A C string in a buffer: the bytes before the first 0.
abbrev pub c_string : List ℕ → List ℕ
c_string [] = []
c_string (c ∷ cs) = let rest = c_string cs in if c == 0 then [] else c ∷ rest

pub record SegmentInfo : Type 0 where
  pub size : ℕ
  pub flags : ℕ
  pub name : List ℕ

module _ {D : Type 0} (ioctl : Ioctl D) where
  -- `fcp_flash_info`: the size and the number of segments
  unfoldable pub flash_info : Hw D (ℕ × ℕ)
  flash_info = do
    resp ← fcp_cmd ioctl opcode_flash_info [] 16
    let size = get_le32 resp
    let count = get_le32 (drop 4 resp)
    fail_if (ltb max_flash_size size) eoverflow
    fail_if (ltb 16 count) eoverflow
    pure (size, count)

  -- `fcp_flash_segment_info`: the name field has 16 bytes, of which the last is made 0.
  unfoldable pub flash_segment_info : ℕ → Hw D SegmentInfo
  flash_segment_info segment_num = do
    resp ← fcp_cmd ioctl opcode_flash_segment_info (le32 segment_num) 24
    let size = get_le32 resp
    fail_if (ltb max_flash_size size) eoverflow
    pure (record {
      size = size;
      flags = get_le32 (drop 4 resp);
      name = c_string (take 15 (drop 8 resp));
    })

  -- `fcp_flash_erase`
  unfoldable pub flash_erase : ℕ → Hw D (Unit {0})
  flash_erase segment_num = do
    fail_if (ltb segment_num 1 || ltb 16 segment_num) einval
    _ ← fcp_cmd ioctl opcode_flash_erase ((segment_num % 256) ∷ replicate 7 0) 0
    pure tt

  -- `fcp_flash_erase_progress`
  unfoldable pub flash_erase_progress : ℕ → Hw D ℕ
  flash_erase_progress segment_num = do
    resp ← fcp_cmd ioctl opcode_flash_erase_progress (le32 segment_num ++ le32 0) 1
    pure (byte_at resp 0)

  -- `fcp_flash_write`, of the first `size` bytes at `bytes`
  unfoldable pub flash_write : ℕ → ℕ → ℕ → List ℕ → Hw D (Unit {0})
  flash_write segment_num offset size bytes = do
    fail_if (ltb flash_write_max size) einval
    fail_if (ltb segment_num 1 || ltb 16 segment_num) einval
    _ ←
        fcp_cmd ioctl opcode_flash_write
          (le32 segment_num ++ le32 offset ++ le32 0 ++ take size bytes) 0
    pure tt

  -- `fcp_flash_read`
  unfoldable pub flash_read : ℕ → ℕ → ℕ → Hw D (List ℕ)
  flash_read segment_num offset size = do
    fail_if (ltb 16 segment_num) einval
    fcp_cmd ioctl opcode_flash_read (le32 segment_num ++ le32 offset ++ le32 size) size
