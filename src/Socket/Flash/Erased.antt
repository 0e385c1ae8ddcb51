-- ===== src/Socket/Flash/Erased.antt =====
-- server/fcp-socket.c: the erase of a flash segment comes to its end.
use fcp_support.Base.{ℕ, zero, suc, ◌≤◌, ◌<◌, false, Bool-cases, ◌||◌, ltb, some, ok, Ioctl, ◌==◌}
use fcp_support.Base.{pos, eqb_ℤ, ◌≡◌, ◌⊎◌, inl, inr, sym, arith}
use mathlib.Core.Path.{subst}
use fcp_support.Fcp.Flash.{flash_erase, flash_erase_progress}
use fcp_support.EspDfu.{on_device}
use fcp_support.EspDfu.Update.{emit}
use fcp_support.Socket.{Service, on_world}
use fcp_support.Socket.Flash.{
  erase_loop, erase_polled, report_erase, erase_flash_segment, erase_started,
}

-- A device that erases a segment: it answers every question about the progress, and each answer but the
-- last, which is 255, leaves it with less to do.
pub record IsErasing {D : Type 0} (ioctl : Ioctl D) (segment_num : ℕ) (left : D → ℕ) : Type 0 where
  pub answer : D → ℕ
  pub answers : (d : D) → (flash_erase_progress ioctl segment_num d).0 ≡ ok (answer d)
  pub moves_on :
      (d : D) → (answer d ≡ 255) ⊎ (left (flash_erase_progress ioctl segment_num d).1 < left d)

module _ {D : Type 0} (ioctl : Ioctl D) (left : D → ℕ) (segment_num num_blocks : ℕ)
    (erasing : IsErasing ioctl segment_num left) where
  report_erase-dev :
      (progress : ℕ) (s : Service D) → (report_erase progress s).1.world.dev ≡ s.world.dev
  unfolding report_erase emit
  report_erase-dev progress s = elim (Bool-cases (eqb_ℤ (pos progress) s.erase_progress)) [
    | inl same ↦ rw same
    | inr new ↦ rw new
  ]

  still_less :
      (s : Service D) (fuel : ℕ)
      → (erasing.answer s.world.dev == 255) ≡ false
      → left s.world.dev < suc fuel
      → left (flash_erase_progress ioctl segment_num s.world.dev).1 < fuel
  still_less s fuel more h = elim (erasing.moves_on s.world.dev) [
    | inl last ↦ absurd (ground (arith, last, more))
    | inr less ↦ omega (arith, less, h)
  ]

  erase_loop-returns :
      (fuel : ℕ) (s : Service D)
      → left s.world.dev < fuel
      → (erase_loop ioctl fuel segment_num num_blocks s).0 ≡ some (pos 0)
  unfolding erase_loop on_world on_device erase_polled emit
  erase_loop-returns zero s h = absurd (omega arith)
  erase_loop-returns (suc fuel) s h = elim (Bool-cases (erasing.answer s.world.dev == 255)) [
    | inl last ↦ rw (erasing.answers s.world.dev, last)
    | inr more ↦
        rw (erasing.answers s.world.dev, more)
          (erase_loop-returns fuel _
            (subst (λ d. left d < fuel) (sym (report_erase-dev _ _)) (still_less s fuel more h)))
  ]

  -- For a segment from 1 to 15, up to 255 blocks, and a device that takes the command and erases: the
  -- erase returns 0, after no more polls than the device then has steps left, and one.
  pub erase_flash_segment-returns :
      (fuel : ℕ) (s : Service D)
      → 1 ≤ segment_num
      → segment_num ≤ 15
      → 1 ≤ num_blocks
      → num_blocks ≤ 255
      → (flash_erase ioctl segment_num s.world.dev).0 ≡ ok tt
      → left (flash_erase ioctl segment_num s.world.dev).1 < fuel
      → (erase_flash_segment ioctl fuel (pos segment_num) num_blocks s).0 ≡ some (pos 0)
  unfolding erase_flash_segment on_world on_device erase_started
  erase_flash_segment-returns fuel s h1 h2 h3 h4 started h =
      rw (segment_known, size_known, started) (erase_loop-returns fuel _ h)
    where
      segment_known : (ltb segment_num 1 || ltb 15 segment_num) ≡ false
      segment_known = ground (arith, h1, h2)

      size_known : (ltb num_blocks 1 || ltb 255 num_blocks) ≡ false
      size_known = ground (arith, h3, h4)
