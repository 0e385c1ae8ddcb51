-- ===== src/Fcp/Devmap.antt =====
-- server/fcp.c: `fcp_devmap_read`, which fetches the device map block by block.
pub mod Whole
use fcp_support.Base.{ℕ, zero, suc, ◌+◌, ◌-◌, ◌/◌, List, [], ◌++◌, Hw, Ioctl, pure, ◌>>=◌}
use fcp_support.Base.{ltb, true, false, if◌then◌else◌, drop, le32, get_le16}
use fcp_support.Fcp.{fcp_cmd, opcode_devmap_info, opcode_devmap_read}

-- FCP_DEVMAP_BLOCK_SIZE
abbrev pub devmap_block_size : ℕ
devmap_block_size = 1024

module _ {D : Type 0} (ioctl : Ioctl D) where
  -- The loop at `offset`, on fuel; `acc` is what `*buf` holds below `offset`.
  pub devmap_blocks : ℕ → ℕ → ℕ → List ℕ → Hw D (List ℕ)
  devmap_blocks zero size offset acc = pure acc
  devmap_blocks (suc fuel) size offset acc = elim (ltb offset size) [
    | true ↦ do
      block ←
          fcp_cmd ioctl opcode_devmap_read (le32 (offset / devmap_block_size))
            (if ltb size (offset + devmap_block_size) then size - offset else devmap_block_size)
      devmap_blocks fuel size (offset + devmap_block_size) (acc ++ block)
    | false ↦ pure acc
  ]

  -- `fcp_devmap_read`. A size is below 2 ^ 16, so 65 rounds are enough.
  unfoldable pub devmap_read : Hw D (List ℕ)
  devmap_read = do
    info ← fcp_cmd ioctl opcode_devmap_info [] 4
    devmap_blocks 65 (get_le16 (drop 2 info)) 0 []
