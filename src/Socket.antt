-- ===== src/Socket.antt =====
-- server/fcp-socket.c: the server's socket, its one client, and the commands that a client sends.
-- Segments finds the flash segments, Flash erases and writes them, Command carries a message out,
-- Client reassembles messages from what the socket delivers.
pub mod Segments
pub mod Flash
pub mod Command
pub mod Client
use fcp_support.Base.{ℕ, List, Bool, true, false, ℤ, pos, negsuc, Hw, Res, ok, err, ltb_ℤ}
use fcp_support.Base.State.{St}
use fcp_support.Protocol.{Effect}
use fcp_support.EspDfu.{World}

-- The `static` segment numbers and sizes, -1 where none is known.
pub record FlashInfo : Type 0 where
  pub have_flash_info : Bool
  pub upgrade_segment_num : ℤ
  pub upgrade_segment_size : ℤ
  pub settings_segment_num : ℤ
  pub settings_segment_size : ℤ
  pub disk_segment_num : ℤ
  pub disk_segment_size : ℤ
  pub env_segment_num : ℤ
  pub env_segment_size : ℤ

abbrev pub no_flash_info : FlashInfo
no_flash_info = record {
  have_flash_info = false;
  upgrade_segment_num = negsuc 0;
  upgrade_segment_size = negsuc 0;
  settings_segment_num = negsuc 0;
  settings_segment_size = negsuc 0;
  disk_segment_num = negsuc 0;
  disk_segment_size = negsuc 0;
  env_segment_num = negsuc 0;
  env_segment_size = negsuc 0;
}

-- What the commands work on: the device and the sockets, the segments, and the `last_progress` that
-- `erase_flash_segment` keeps from one call to the next.
pub record Service (D : Type 0) : Type 0 where
  pub world : World D
  pub flash : FlashInfo
  pub erase_progress : ℤ

unfoldable pub on_world : {D A : Type 0} → St (World D) A → St (Service D) A
on_world m s = let (a, w) = m s.world in (a, record s { world = w })
