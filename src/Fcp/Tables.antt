-- ===== src/Fcp/Tables.antt =====
-- server/fcp.c: the mixer, router and meter tables.
use fcp_support.Base.{ℕ, ◌*◌, List, [], ◌++◌, Hw, Ioctl, pure, ◌>>=◌, take}
use fcp_support.Base.{le16, byte_at, encode16, encode32, decode16, decode32, ◌∷◌, ◌%◌}
use fcp_support.Fcp.{
  fcp_cmd, opcode_meter_info, opcode_meter_read, opcode_mix_info, opcode_mix_read,
}
use fcp_support.Fcp.{opcode_mix_write, opcode_mux_info, opcode_mux_read, opcode_mux_write}

module _ {D : Type 0} (ioctl : Ioctl D) where
  -- `fcp_meter_info`: the number of slots
  unfoldable pub meter_info : Hw D ℕ
  meter_info = do resp ← fcp_cmd ioctl opcode_meter_info [] 4; pure (byte_at resp 0)

  -- `fcp_meter_read`
  unfoldable pub meter_read : ℕ → Hw D (List ℕ)
  meter_read count = do
    resp ← fcp_cmd ioctl opcode_meter_read (le16 0 ++ le16 count ++ encode32 (0 ∷ [])) (4 * count)
    pure (decode32 count resp)

  -- `fcp_mix_info`: the numbers of outputs and inputs
  unfoldable pub mix_info : Hw D (ℕ × ℕ)
  mix_info = do resp ← fcp_cmd ioctl opcode_mix_info [] 8; pure (byte_at resp 0, byte_at resp 1)

  -- `fcp_mix_read`
  unfoldable pub mix_read : ℕ → ℕ → Hw D (List ℕ)
  mix_read mix_num count = do
    resp ← fcp_cmd ioctl opcode_mix_read (le16 mix_num ++ le16 count) (2 * count)
    pure (decode16 count resp)

  -- `fcp_mix_write`, of the first `count` of `values`
  unfoldable pub mix_write : ℕ → ℕ → List ℕ → Hw D (Unit {0})
  mix_write mix_num count values = do
    _ ← fcp_cmd ioctl opcode_mix_write (le16 mix_num ++ encode16 (take count values)) 0
    pure tt

  -- `fcp_mux_info`: the three table sizes
  unfoldable pub mux_info : Hw D (List ℕ)
  mux_info = do resp ← fcp_cmd ioctl opcode_mux_info [] 12; pure (decode16 3 resp)

  -- `fcp_mux_read`. The count and the table number go out as single bytes.
  unfoldable pub mux_read : ℕ → ℕ → Hw D (List ℕ)
  mux_read mux_num count = do
    resp ← fcp_cmd ioctl opcode_mux_read (0 ∷ 0 ∷ (count % 256) ∷ (mux_num % 256) ∷ []) (4 * count)
    pure (decode32 count resp)

  -- `fcp_mux_write`, of the first `count` of `values`
  unfoldable pub mux_write : ℕ → ℕ → List ℕ → Hw D (Unit {0})
  mux_write mux_num count values = do
    _ ← fcp_cmd ioctl opcode_mux_write (le16 0 ++ le16 mux_num ++ encode32 (take count values)) 0
    pure tt
