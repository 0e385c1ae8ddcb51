-- ===== src/Socket/Segments/Safe.antt =====
-- server/fcp-socket.c: the segments that `get_segment_nums` settles on.
use fcp_support.Base.{ℕ, zero, suc, ◌+◌, true, false, Bool-cases, Res, ok, err, Ioctl, ltb, ◌||◌}
use fcp_support.Base.{◌≡◌, refl, inl, inr, ℤ, pos, eqb_ℤ, ◌≢◌, arith, if_true, if_false}
use fcp_support.Base.State.{St, ◌>>=◌}
use fcp_support.Fcp.Flash.{flash_info, flash_segment_info, SegmentInfo}
use fcp_support.EspDfu.{on_device}
use fcp_support.Socket.{FlashInfo, Service, on_world}
use fcp_support.Socket.Segments.{
  some_segment_is_zero, segment_read, scan_segments, flash_info_read, get_segment_nums,
}

-- None of the four segments is segment 0, which holds the factory firmware.
pub record HasNoZero (f : FlashInfo) : Type 0 where
  pub upgrade : f.upgrade_segment_num ≢ pos 0
  pub settings : f.settings_segment_num ≢ pos 0
  pub disk : f.disk_segment_num ≢ pos 0
  pub env : f.env_segment_num ≢ pos 0

zero_test : (z : ℤ) → z ≡ pos 0 → eqb_ℤ z (pos 0) ≡ true
zero_test z e = rw e refl

some_segment_is_zero-HasNoZero :
    (f : FlashInfo)
    → some_segment_is_zero f ≡ false
    → HasNoZero (record f { have_flash_info = true })
unfolding some_segment_is_zero
some_segment_is_zero-HasNoZero f good = record {
  upgrade = λ e. ground (arith, good, zero_test f.upgrade_segment_num e);
  settings = λ e. ground (arith, good, zero_test f.settings_segment_num e);
  disk = λ e. ground (arith, good, zero_test f.disk_segment_num e);
  env = λ e. ground (arith, good, zero_test f.env_segment_num e);
}

module _ {D : Type 0} where
  -- The segments are known, and none of them is segment 0.
  abbrev pub IsSafe : Service D → Type 0
  IsSafe s = (s.flash.have_flash_info ≡ true) × HasNoZero s.flash

  abbrev Safely : ℤ × Service D → Type 0
  Safely r = r.0 ≡ pos 0 → IsSafe r.1

  module _ (ioctl : Ioctl D) where
    segment_read-Safely :
        (i : ℕ) (next : St (Service D) ℤ) (r : Res SegmentInfo) (s : Service D)
        → ((t : Service D) → Safely (next t))
        → Safely (segment_read ioctl i next r s)
    unfolding segment_read
    segment_read-Safely i next (err e) s k h = absurd cc
    segment_read-Safely i next (ok info) s k h = k _ h

    scan_segments-Safely : (left i : ℕ) (s : Service D) → Safely (scan_segments ioctl left i s)
    unfolding scan_segments
    scan_segments-Safely zero i s = elim (Bool-cases (some_segment_is_zero s.flash)) [
      | inl bad ↦ rw bad (λ h. absurd cc)
      | inr good ↦ rw good (λ h. (refl, some_segment_is_zero-HasNoZero s.flash good))
    ]
    scan_segments-Safely (suc left) i s =
        let r = on_world (on_device (flash_segment_info ioctl i)) s in
        segment_read-Safely i (scan_segments ioctl left (i + 1)) r.0 r.1
          (λ t. scan_segments-Safely left (i + 1) t)

    flash_info_read-Safely : (r : Res (ℕ × ℕ)) (s : Service D) → Safely (flash_info_read ioctl r s)
    unfolding flash_info_read
    flash_info_read-Safely (err e) s = λ h. absurd cc
    flash_info_read-Safely (ok (size, count)) s = elim (Bool-cases (ltb count 1 || ltb 15 count)) [
      | inl bad ↦ rw bad (λ h. absurd cc)
      | inr good ↦ rw good (scan_segments-Safely count 0 s)
    ]

    -- If the segments that are known already have no segment 0 among them, then whenever `get_segment_nums` returns 0 the
    -- segments are known and none of the four is segment 0, whatever the device has answered.
    pub get_segment_nums-IsSafe :
        (s : Service D)
        → (s.flash.have_flash_info ≡ true → HasNoZero s.flash)
        → (get_segment_nums ioctl s).0 ≡ pos 0
        → IsSafe (get_segment_nums ioctl s).1
    unfolding get_segment_nums
    get_segment_nums-IsSafe s known = elim (Bool-cases (s.flash.have_flash_info)) [
      | inl have ↦ kept have
      | inr fresh ↦ read fresh
    ]
      where
        asked : ℤ × Service D
        asked = (on_world (on_device (flash_info ioctl)) >>= flash_info_read ioctl) s

        kept : s.flash.have_flash_info ≡ true → Safely (get_segment_nums ioctl s)
        kept have =
            rw (if_true s.flash.have_flash_info (pos 0, s) asked have) (λ h. (have, known have))

        read : s.flash.have_flash_info ≡ false → Safely (get_segment_nums ioctl s)
        read fresh = rw (if_false s.flash.have_flash_info (pos 0, s) asked fresh) (
            flash_info_read-Safely (on_world (on_device (flash_info ioctl)) s).0
              (on_world (on_device (flash_info ioctl)) s).1)
