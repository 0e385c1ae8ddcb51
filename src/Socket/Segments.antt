-- ===== src/Socket/Segments.antt =====
-- server/fcp-socket.c: `get_segment_nums`.
pub mod Safe
use fcp_support.Base.{ℕ, zero, suc, List, [], ◌∷◌, Bool, true, ◌||◌, Res, ok, err, Ioctl}
use fcp_support.Base.{ℤ, pos, negsuc, ltb, eqb_ℤ, if◌then◌else◌, ◌+◌}
use fcp_support.Base.State.{St, pure, ◌>>=◌}
use fcp_support.EspDfu.{on_device}
use fcp_support.EspDfu.Update.{same_bytes}
use fcp_support.Fcp.Flash.{flash_info, flash_segment_info, SegmentInfo}
use fcp_support.Socket.{FlashInfo, Service, on_world}

abbrev pub app_upgrade : List ℕ
app_upgrade = b'A' ∷ b'p' ∷ b'p' ∷ b'_' ∷ b'U' ∷ b'p' ∷ b'g' ∷ b'r' ∷ b'a' ∷ b'd' ∷ b'e' ∷ []

abbrev pub app_settings : List ℕ
app_settings =
    b'A' ∷ b'p' ∷ b'p' ∷ b'_' ∷ b'S' ∷ b'e' ∷ b't' ∷ b't' ∷ b'i' ∷ b'n' ∷ b'g' ∷ b's' ∷ []

abbrev pub app_disk : List ℕ
app_disk = b'A' ∷ b'p' ∷ b'p' ∷ b'_' ∷ b'D' ∷ b'i' ∷ b's' ∷ b'k' ∷ []

abbrev pub app_env : List ℕ
app_env = b'A' ∷ b'p' ∷ b'p' ∷ b'_' ∷ b'E' ∷ b'n' ∷ b'v' ∷ []

-- The `strcmp` ladder for segment `i`.
unfoldable pub note_segment : ℕ → SegmentInfo → FlashInfo → FlashInfo
note_segment i info f =
    if same_bytes info.name app_upgrade
    then record f { upgrade_segment_num = pos i; upgrade_segment_size = pos info.size }
    else if same_bytes info.name app_settings
    then record f { settings_segment_num = pos i; settings_segment_size = pos info.size }
    else if same_bytes info.name app_disk
    then record f { disk_segment_num = pos i; disk_segment_size = pos info.size }
    else if same_bytes info.name app_env
    then record f { env_segment_num = pos i; env_segment_size = pos info.size }
    else f

unfoldable pub some_segment_is_zero : FlashInfo → Bool
some_segment_is_zero f =
    eqb_ℤ f.upgrade_segment_num (pos 0)
    || eqb_ℤ f.settings_segment_num (pos 0)
    || eqb_ℤ f.disk_segment_num (pos 0)
    || eqb_ℤ f.env_segment_num (pos 0)

module _ {D : Type 0} (ioctl : Ioctl D) where
  -- `segment`, with the segment's information; -1 ends the loop.
  segment_read : ℕ → St (Service D) ℤ → Res SegmentInfo → St (Service D) ℤ
  segment_read i next (err e) s = (negsuc 0, s)
  segment_read i next (ok info) s = next (record s { flash = note_segment i info s.flash })

  -- The `for` loop at segment `i`, with the segments left.
  unfoldable pub scan_segments : ℕ → ℕ → St (Service D) ℤ
  unfolding segment_read
  scan_segments zero i s =
      if some_segment_is_zero s.flash
      then (negsuc 0, s)
      else (pos 0, record s { flash = record (s.flash) { have_flash_info = true } })
  scan_segments (suc left) i s =
      (on_world (on_device (flash_segment_info ioctl i))
          >>= segment_read i (scan_segments left (i + 1)))
        s

  flash_info_read : Res (ℕ × ℕ) → St (Service D) ℤ
  flash_info_read (err e) = pure (negsuc 0)
  flash_info_read (ok (size, count)) =
      if ltb count 1 || ltb 15 count then pure (negsuc 0) else scan_segments count 0

  -- `get_segment_nums`
  unfoldable pub get_segment_nums : St (Service D) ℤ
  unfolding flash_info_read
  get_segment_nums s =
      if s.flash.have_flash_info
      then (pos 0, s)
      else (on_world (on_device (flash_info ioctl)) >>= flash_info_read) s
