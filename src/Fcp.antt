-- ===== src/Fcp.antt =====
-- server/fcp.c: the FCP commands, each one request and response of the kernel driver.
-- The driver (FCP_IOCTL_CMD) is the parameter `ioctl` of every function; its state is `D`.
pub mod Data
pub mod Tables
pub mod Flash
pub mod Devmap
pub mod Misc
pub mod Init
pub mod Effects
use fcp_support.Base.{
  ℕ, ◌+◌, ◌*◌, List, Hw, Ioctl, pure, ◌>>=◌, continue, take, drop, length, replicate, ◌++◌, ◌%◌,
  ◌^◌, ltb, if◌then◌else◌,
}

-- `category << 12 | n`
abbrev pub opcode : ℕ → ℕ → ℕ
opcode category n = category * 4096 + n

abbrev pub opcode_init_1 : ℕ
opcode_init_1 = opcode 0x000 0x000

abbrev pub opcode_init_2 : ℕ
opcode_init_2 = opcode 0x000 0x002

abbrev pub opcode_cap_read : ℕ
opcode_cap_read = opcode 0x000 0x001

abbrev pub opcode_reboot : ℕ
opcode_reboot = opcode 0x000 0x003

abbrev pub opcode_meter_info : ℕ
opcode_meter_info = opcode 0x001 0x000

abbrev pub opcode_meter_read : ℕ
opcode_meter_read = opcode 0x001 0x001

abbrev pub opcode_mix_info : ℕ
opcode_mix_info = opcode 0x002 0x000

abbrev pub opcode_mix_read : ℕ
opcode_mix_read = opcode 0x002 0x001

abbrev pub opcode_mix_write : ℕ
opcode_mix_write = opcode 0x002 0x002

abbrev pub opcode_mux_info : ℕ
opcode_mux_info = opcode 0x003 0x000

abbrev pub opcode_mux_read : ℕ
opcode_mux_read = opcode 0x003 0x001

abbrev pub opcode_mux_write : ℕ
opcode_mux_write = opcode 0x003 0x002

abbrev pub opcode_flash_info : ℕ
opcode_flash_info = opcode 0x004 0x000

abbrev pub opcode_flash_segment_info : ℕ
opcode_flash_segment_info = opcode 0x004 0x001

abbrev pub opcode_flash_erase : ℕ
opcode_flash_erase = opcode 0x004 0x002

abbrev pub opcode_flash_erase_progress : ℕ
opcode_flash_erase_progress = opcode 0x004 0x003

abbrev pub opcode_flash_write : ℕ
opcode_flash_write = opcode 0x004 0x004

abbrev pub opcode_flash_read : ℕ
opcode_flash_read = opcode 0x004 0x005

abbrev pub opcode_sync_read : ℕ
opcode_sync_read = opcode 0x006 0x004

abbrev pub opcode_esp_dfu_start : ℕ
opcode_esp_dfu_start = opcode 0x009 0x000

abbrev pub opcode_esp_dfu_write : ℕ
opcode_esp_dfu_write = opcode 0x009 0x001

abbrev pub opcode_data_read : ℕ
opcode_data_read = opcode 0x800 0x000

abbrev pub opcode_data_write : ℕ
opcode_data_write = opcode 0x800 0x001

abbrev pub opcode_data_notify : ℕ
opcode_data_notify = opcode 0x800 0x002

abbrev pub opcode_devmap_info : ℕ
opcode_devmap_info = opcode 0x800 0x00c

abbrev pub opcode_devmap_read : ℕ
opcode_devmap_read = opcode 0x800 0x00d

-- The buffer of the command after the response: the driver has overwritten the request with as many bytes as
-- the 16-bit `resp_size` of the command says.
abbrev pub received : ℕ → List ℕ → List ℕ → List ℕ
received resp_size req resp =
    if ltb resp_size (2 ^ 16)
    then take resp_size resp
    else take resp_size
        (take (resp_size % 2 ^ 16) resp ++ drop (resp_size % 2 ^ 16) (req ++ replicate resp_size 0))

-- The request that the driver sees: `req_size` has 16 bits too.
abbrev pub requested : List ℕ → List ℕ
requested req = if ltb (length req) (2 ^ 16) then req else take (length req % 2 ^ 16) req

-- `fcp_cmd`: on success the caller's buffer gets `resp_size` bytes of the command's.
unfoldable pub fcp_cmd : {D : Type 0} → Ioctl D → ℕ → List ℕ → ℕ → Hw D (List ℕ)
fcp_cmd ioctl op req resp_size = do
  resp ← ioctl op (requested req) (resp_size % 2 ^ 16)
  pure (received resp_size req resp)
