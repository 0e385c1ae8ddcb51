-- ===== src/Fcp/Misc.antt =====
-- server/fcp.c: capabilities, reboot, sync status and the commands of the ESP firmware update.
use fcp_support.Base.{ℕ, List, [], ◌++◌, Hw, Ioctl, pure, ◌>>=◌}
use fcp_support.Base.{Bool, not, ◌==◌, take, byte_at, le16, le32, get_le32}
use fcp_support.Fcp.{fcp_cmd, opcode_cap_read, opcode_reboot, opcode_sync_read}
use fcp_support.Fcp.{opcode_esp_dfu_start, opcode_esp_dfu_write}

module _ {D : Type 0} (ioctl : Ioctl D) where
  -- `fcp_cap_read`
  unfoldable pub cap_read : ℕ → Hw D ℕ
  cap_read category = do
    resp ← fcp_cmd ioctl opcode_cap_read (le16 category) 1
    pure (byte_at resp 0)

  -- `fcp_reboot`
  unfoldable pub reboot : Hw D (Unit {0})
  reboot = do _ ← fcp_cmd ioctl opcode_reboot [] 0; pure tt

  -- `fcp_sync_read`: whether the status word is not 0
  unfoldable pub sync_read : Hw D Bool
  sync_read = do resp ← fcp_cmd ioctl opcode_sync_read [] 4; pure (not (get_le32 resp == 0))

  -- `fcp_esp_dfu_start`
  unfoldable pub esp_dfu_start : ℕ → List ℕ → Hw D (Unit {0})
  esp_dfu_start length md5_hash = do
    _ ← fcp_cmd ioctl opcode_esp_dfu_start (le32 0 ++ le32 length ++ take 16 md5_hash) 0
    pure tt

  -- `fcp_esp_dfu_write`, of the first `count` bytes at `bytes`
  unfoldable pub esp_dfu_write : List ℕ → ℕ → Hw D (Unit {0})
  esp_dfu_write bytes count = do
    _ ← fcp_cmd ioctl opcode_esp_dfu_write (take count bytes) 0
    pure tt
