-- ===== src/Socket/Flash/Written.antt =====
-- server/fcp-socket.c: what the application firmware update writes to the flash.
use fcp_support.Base.{
  length-take, ◌<◌, ◌^◌, ℕ, zero, suc, ◌+◌, ◌-◌, ◌*◌, ◌/◌, ◌<◌, ◌≤◌, List, [], ◌++◌, true, false,
  Bool-cases,
}
use fcp_support.Base.{
  ok, Ioctl, min, take, drop, length, ltb, ◌||◌, ◌==◌, ◌&&◌, if◌then◌else◌, le32,
}
use fcp_support.Base.{
  ◌≡◌, refl, sym, ap, ◌∙◌, inl, inr, arith, tests, ℤ, pos, negsuc, is_neg, to_unsigned,
}
use fcp_support.Base.{length-take, take-add, if_true, ltb→lt}
use fcp_support.Base.State.{St, pure, ◌>>=◌}
use fcp_support.Protocol.{FirmwarePayload, err_read}
use fcp_support.Fcp.Effects.{requested_small}
use fcp_support.Fcp.{fcp_cmd, opcode_flash_write}
use fcp_support.Fcp.Flash.{flash_write, flash_write_max}
use fcp_support.EspDfu.{World, on_device}
use fcp_support.EspDfu.Update.{verify_sha256, emit}
use fcp_support.EspDfu.Update.Image.{report_dev}
use fcp_support.EspDfu.Update.Gate.{IsAccepted, same_bytes_iff}
use fcp_support.Socket.{Service, on_world}
use fcp_support.Socket.Segments.{get_segment_nums}
use fcp_support.Socket.Flash.{
  check_and_write, write_segment, chunk_written, write_chunks, report_done,
  handle_app_firmware_update,
}

-- The flash takes every write to the segment `n`, and a write right behind what the segment holds so far
-- is added to it.
pub record StoresChunks {D : Type 0} (ioctl : Ioctl D) (n : ℕ) (image : D → List ℕ) : Type 0 where
  pub accepts : (req : List ℕ) (d : D) → (ioctl opcode_flash_write req 0 d).0 ≡ ok []
  pub stores :
      (bytes : List ℕ) (d : D)
      → image
          (ioctl opcode_flash_write (le32 n ++ le32 (length (image d)) ++ le32 0 ++ bytes) 0 d).1
        ≡ image d ++ bytes

module _ {D : Type 0} (ioctl : Ioctl D) (n : ℕ) (image : D → List ℕ)
    (laws : StoresChunks ioctl n image) (low : 0 < n) (high : n ≤ 16) where
  chunk_small :
      (segment offset size : ℕ) (bytes : List ℕ)
      → size ≤ flash_write_max
      → length (le32 segment ++ le32 offset ++ le32 0 ++ take size bytes) < 2 ^ 16
  chunk_small segment offset size bytes h = omega (arith, h, length-take size bytes)

  write_segment_lem :
      (i size : ℕ) (bytes : List ℕ) (w : World D)
      → size ≤ flash_write_max
      → length (image w.dev) ≡ i
      → let r = write_segment ioctl (pos n) i size bytes w in
        (r.0 ≡ ok tt) × (image r.1.dev ≡ image w.dev ++ take size bytes)
  unfolding write_segment on_device flash_write fcp_cmd
  write_segment_lem i size bytes w h e =
      let fits : ltb flash_write_max size ≡ false = ground arith in
      let known : (ltb n 1 || ltb 16 n) ≡ false = ground arith in
      rw
        (
          ← e,
          fits,
          known,
          requested_small (le32 n ++ le32 (length (image w.dev)) ++ le32 0 ++ take size bytes)
              (chunk_small n (length (image w.dev)) size bytes h),
          laws.accepts (le32 n ++ le32 (length (image w.dev)) ++ le32 0 ++ take size bytes) w.dev,
        )
        (refl, laws.stores (take size bytes) w.dev)

  chunk_next :
      (progress : ℕ) (last : ℤ) (next : St (World D) ℤ) (w : World D) (P : ℤ × World D → Type 0)
      → ((v : World D) → image v.dev ≡ image w.dev → P (next v))
      → P (chunk_written ioctl progress last next (ok tt) w)
  unfolding chunk_written emit
  chunk_next progress last next w P k = k _ (ap image (report_dev progress last w))

  chunk_step :
      (i size progress : ℕ) (bytes : List ℕ) (last : ℤ) (next : St (World D) ℤ) (w : World D)
      (P : ℤ × World D → Type 0)
      → size ≤ flash_write_max
      → length (image w.dev) ≡ i
      → ((v : World D) → image v.dev ≡ image w.dev ++ take size bytes → P (next v))
      → P ((write_segment ioctl (pos n) i size bytes >>= chunk_written ioctl progress last next) w)
  chunk_step i size progress bytes last next w P h e k =
      let (sent, grown) = write_segment_lem i size bytes w h e in
      rw sent (
        chunk_next progress last next (write_segment ioctl (pos n) i size bytes w).1 P
          (λ v same. k v (same ∙ grown)))

  -- The segment holds the first `i` bytes of the firmware.
  abbrev Reached : FirmwarePayload → ℕ → World D → Type 0
  Reached payload i w = image w.dev ≡ take (min i payload.size) payload.bytes

  abbrev Written : FirmwarePayload → ℤ × World D → Type 0
  Written payload r = (r.0 ≡ pos 0) × (image r.1.dev ≡ take payload.size payload.bytes)

  done-Written :
      (payload : FirmwarePayload) (i : ℕ) (last : ℤ) (w : World D)
      → payload.size ≤ i
      → Reached payload i w
      → Written payload (pos 0, (report_done last w).1)
  unfolding report_done
  done-Written payload i last w h r = (
    refl,
    ap image (report_dev 100 last w)
        ∙ r
        ∙ ap (λ (k : ℕ). take k payload.bytes) {x = min i payload.size} {y = payload.size}
            (omega arith),
  )

  Reached-length :
      (payload : FirmwarePayload) (i : ℕ) (w : World D)
      → payload.size ≤ length payload.bytes
      → Reached payload i w
      → i < payload.size
      → length (image w.dev) ≡ i
  Reached-length payload i w l r more =
      ap length r ∙ length-take (min i payload.size) payload.bytes ∙ omega arith

  write_chunks-Written :
      (fuel : ℕ) (payload : FirmwarePayload) (i : ℕ) (last : ℤ) (w : World D)
      → payload.size ≤ i + fuel
      → payload.size ≤ length payload.bytes
      → Reached payload i w
      → Written payload (write_chunks ioctl fuel (pos n) payload i last w)
  unfolding write_chunks
  write_chunks-Written zero payload i last w h l r = done-Written payload i last w (omega arith) r
  write_chunks-Written (suc fuel) payload i last w h l r = elim (Bool-cases (ltb i payload.size)) [
    | inr over ↦ rw over (done-Written payload i last w (omega tests) r)
    | inl more ↦ rw more (
        chunk_step i size (i * 100 / payload.size) (drop i payload.bytes) last
          (write_chunks ioctl fuel (pos n) payload (i + flash_write_max)
            (pos (i * 100 / payload.size)))
          w (Written payload) (omega arith) (Reached-length payload i w l r (ltb→lt _ _ more))
          (λ v e.
            write_chunks-Written fuel payload (i + flash_write_max) (pos (i * 100 / payload.size)) v
              (omega arith) l (grown v (ltb→lt _ _ more) e)))
  ]
    where
      size : ℕ
      size = min flash_write_max (payload.size - i)

      grown :
          (v : World D)
          → i < payload.size
          → image v.dev ≡ image w.dev ++ take size (drop i payload.bytes)
          → Reached payload (i + flash_write_max) v
      grown v more e =
          e
          ∙ ap (λ t. t ++ take size (drop i payload.bytes))
              (r
                ∙ ap (λ (k : ℕ). take k payload.bytes) {x = min i payload.size} {y = i}
                    (omega arith))
          ∙ sym (take-add i size payload.bytes)
          ∙ ap (λ (k : ℕ). take k payload.bytes) {x = i + size}
              {y = min (i + flash_write_max) payload.size} (omega arith)

  checks_passed :
      (sha : List ℕ → List ℕ) (vid pid : ℕ) (payload : FirmwarePayload) (s : Service D)
      → s.flash.upgrade_segment_num ≡ pos n
      → IsAccepted sha vid pid payload
      → 65536 ≤ payload.size
      → payload.size ≤ to_unsigned 32 s.flash.upgrade_segment_size
      → check_and_write ioctl sha vid pid payload s
        ≡ on_world (write_chunks ioctl payload.size (pos n) payload 0 (negsuc 0)) s
  unfolding check_and_write verify_sha256
  checks_passed sha vid pid payload s num a large small =
      let large' : ltb payload.size 65536 ≡ false = ground arith in
      let small' : ltb (to_unsigned 32 s.flash.upgrade_segment_size) payload.size ≡ false =
        ground arith in
      let intact =
        (same_bytes_iff (sha (take payload.size payload.bytes)) payload.sha256).1 a.same_hash in
      let ours : (payload.usb_vid == vid && payload.usb_pid == pid) ≡ true =
        ground (arith, a.same_vid, a.same_pid) in
      rw (large', small', intact, ours)
        (ap (λ (k : ℤ). on_world (write_chunks ioctl payload.size k payload 0 (negsuc 0)) s) num)

  segments_known :
      (s : Service D) → s.flash.have_flash_info ≡ true → get_segment_nums ioctl s ≡ (pos 0, s)
  unfolding get_segment_nums
  segments_known s h = if_true _ _ _ h

  -- With the segments known, for an accepted payload of at least 64 KiB that fits the segment and is
  -- there in full, and a flash that takes the writes and was erased: the update returns 0 and the
  -- segment holds exactly the first `size` bytes of the payload.
  pub app_update-image :
      (sha : List ℕ → List ℕ) (vid pid : ℕ) (payload : FirmwarePayload) (s : Service D)
      → s.flash.have_flash_info ≡ true
      → s.flash.upgrade_segment_num ≡ pos n
      → IsAccepted sha vid pid payload
      → 65536 ≤ payload.size
      → payload.size ≤ to_unsigned 32 s.flash.upgrade_segment_size
      → payload.size ≤ length payload.bytes
      → image s.world.dev ≡ []
      → let r = handle_app_firmware_update ioctl sha vid pid payload s in
        (r.0 ≡ pos 0) × (image r.1.world.dev ≡ take payload.size payload.bytes)
  unfolding handle_app_firmware_update on_world
  app_update-image sha vid pid payload s known num a large small whole erased =
      rw
        (ap (after_segments sha vid pid payload) (segments_known s known)
          ∙ checks_passed sha vid pid payload s num a large small)
        (write_chunks-Written payload.size payload 0 (negsuc 0) s.world (omega arith) whole start)
    where
      after_segments : (List ℕ → List ℕ) → ℕ → ℕ → FirmwarePayload → ℤ × Service D → ℤ × Service D
      after_segments h v p t (ret, r) =
          (if is_neg ret then pure err_read else check_and_write ioctl h v p t) r

      start : Reached payload 0 s.world
      start =
          erased
          ∙ ap (λ (k : ℕ). take k payload.bytes) {x = 0} {y = min 0 payload.size} (omega arith)
