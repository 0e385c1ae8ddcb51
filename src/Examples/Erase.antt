-- ===== src/Examples/Erase.antt =====
-- server/fcp-socket.c at a flash that needs three polls to erase a segment.
use fcp_support.Base.{
  ℕ, zero, suc, ◌<◌, [], ◌∷◌, ◌==◌, if◌then◌else◌, ok, Ioctl, ◌≡◌, ◌⊎◌, inl, inr, refl, arith, pos,
  some,
}
use fcp_support.Fcp.{opcode_flash_erase_progress, fcp_cmd}
use fcp_support.Fcp.Flash.{flash_erase, flash_erase_progress}
use fcp_support.Socket.{Service, no_flash_info}
use fcp_support.Socket.Flash.{erase_flash_segment}
use fcp_support.Socket.Flash.Erased.{IsErasing, erase_flash_segment-returns}

-- The device is the number of polls that are left; 255 is given when there are none.
abbrev slow : Ioctl ℕ
slow op req size zero = (ok (255 ∷ []), zero)
slow op req size (suc d) =
    if op == opcode_flash_erase_progress then (ok (1 ∷ []), d) else (ok [], suc d)

abbrev slow_answer : ℕ → ℕ
slow_answer zero = 255
slow_answer (suc d) = 1

slow-IsErasing : IsErasing slow 1 (λ d. d)
unfolding flash_erase_progress fcp_cmd
slow-IsErasing = record { answer = slow_answer; answers = answered; moves_on = moved }
  where
    answered : (d : ℕ) → (flash_erase_progress slow 1 d).0 ≡ ok (slow_answer d)
    answered zero = refl
    answered (suc d) = refl

    moved : (d : ℕ) → (slow_answer d ≡ 255) ⊎ ((flash_erase_progress slow 1 d).1 < d)
    moved zero = inl refl
    moved (suc d) = inr (omega arith)

abbrev service : Service ℕ
service = record {
  world = record { dev = 3; events = []; log = [] };
  flash = no_flash_info;
  erase_progress = pos 0;
}

erase_flash_segment-returns_example :
    (erase_flash_segment slow 4 (pos 1) 200 service).0 ≡ some (pos 0)
unfolding flash_erase fcp_cmd
erase_flash_segment-returns_example =
    erase_flash_segment-returns slow (λ d. d) 1 200 slow-IsErasing 4 service (omega arith)
      (omega arith) (omega arith) (omega arith) refl (omega arith)
