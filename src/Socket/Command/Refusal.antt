-- ===== src/Socket/Command/Refusal.antt =====
-- server/fcp-socket.c: what a client is told of an application firmware that is refused.
use fcp_support.Base.{
  ℕ, List, [], ◌∷◌, ◌++◌, true, false, Bool-cases, take, drop, ltb, ltb_false→le, ◌≤◌, ◌&&◌, ◌==◌,
}
use fcp_support.Base.{
  ◌≡◌, refl, ap, ◌∙◌, inl, inr, arith, ℤ, pos, eqb_ℤ, is_neg, to_unsigned, if◌then◌else◌,
}
use fcp_support.Base.{some, Ioctl, if_true}
use fcp_support.Base.State.{pure}
use fcp_support.Protocol.{
  MsgHeader, FirmwarePayload, read_firmware_payload, header_size, error_message, err_read,
  err_invalid_length, err_invalid_hash, err_invalid_usb_id, request_app_firmware_update,
}
use fcp_support.EspDfu.Update.{verify_sha256, same_bytes, emit}
use fcp_support.EspDfu.Update.Gate.{IsAccepted, same_bytes_iff}
use fcp_support.Socket.{Service, on_world}
use fcp_support.Socket.Segments.{get_segment_nums}
use fcp_support.Socket.Flash.{check_and_write, reject, handle_app_firmware_update}
use fcp_support.Socket.Command.{Setup, handle_client_command, answer}

-- The payload is accepted, has 64 KiB at least and fits the segment.
pub record IsWritable (sha : List ℕ → List ℕ) (vid pid : ℕ) (room : ℤ) (payload : FirmwarePayload)
    : Type 0 where
  pub accepted : IsAccepted sha vid pid payload
  pub large : 65536 ≤ payload.size
  pub small : payload.size ≤ to_unsigned 32 room

module _ {D : Type 0} where
  -- An error message is sent to the client.
  abbrev pub told : ℤ → Service D → Service D
  told code s = record s {
    world = record (s.world) { log = s.world.log ++ (error_message code ∷ []) };
  }

  module _ (ioctl : Ioctl D) (sha : List ℕ → List ℕ) (vid pid : ℕ) (payload : FirmwarePayload) where
    abbrev Refuses : Service D → Type 0
    Refuses s =
        (code : ℤ) × (eqb_ℤ code (pos 0) ≡ false)
        × (check_and_write ioctl sha vid pid payload s ≡ (code, told code s))

    check_and_write-Refuses :
        (s : Service D) → ¬ IsWritable sha vid pid s.flash.upgrade_segment_size payload → Refuses s
    unfolding check_and_write verify_sha256 reject emit on_world
    check_and_write-Refuses s n = elim (Bool-cases (ltb payload.size 65536)) [
      | inl b ↦ (err_invalid_length, refl, rw b refl)
      | inr large ↦
          elim (Bool-cases (ltb (to_unsigned 32 s.flash.upgrade_segment_size) payload.size)) [
            | inl b ↦ (err_invalid_length, refl, rw (large, b) refl)
            | inr small ↦
                elim (Bool-cases
                  (same_bytes (sha (take payload.size payload.bytes)) payload.sha256)) [
                    | inr b ↦ (err_invalid_hash, refl, rw (large, small, b) refl)
                    | inl intact ↦
                        elim (Bool-cases (payload.usb_vid == vid && payload.usb_pid == pid)) [
                          | inr b ↦ (err_invalid_usb_id, refl, rw (large, small, intact, b) refl)
                          | inl ours ↦ absurd (
                              n (record {
                                accepted = record {
                                  same_vid = ground arith;
                                  same_pid = ground arith;
                                  same_hash = (same_bytes_iff _ _).0 intact;
                                };
                                large = ltb_false→le _ _ large;
                                small = ltb_false→le _ _ small;
                              }))
                        ]
                  ]
          ]
    ]

    handle_app_firmware_update-Refuses :
        (s : Service D)
        → s.flash.have_flash_info ≡ true
        → ¬ IsWritable sha vid pid s.flash.upgrade_segment_size payload
        → (code : ℤ) × (eqb_ℤ code (pos 0) ≡ false)
          × (handle_app_firmware_update ioctl sha vid pid payload s ≡ (code, told code s))
    unfolding handle_app_firmware_update get_segment_nums
    handle_app_firmware_update-Refuses s known n =
        let (code, error, e) = check_and_write-Refuses s n in
        (code, error, ap checked_segments (if_true _ _ _ known) ∙ e)
      where
        checked_segments : ℤ × Service D → ℤ × Service D
        checked_segments (ret, r) =
            (if is_neg ret then pure err_read else check_and_write ioctl sha vid pid payload) r

module _ {D : Type 0} (env : Setup D) where
  answer_error :
      (code : ℤ) (s : Service D)
      → eqb_ℤ code (pos 0) ≡ false
      → answer env (some code) s ≡ (some tt, told code s)
  unfolding answer emit on_world
  answer_error code s h = rw h refl

  -- With the segments known, a request to write a firmware that is not writable touches neither the
  -- device nor the segments, and sends the client the same error message twice.
  pub app_refusal_sent_twice :
      (header : MsgHeader) (message : List ℕ) (s : Service D)
      → header.msg_type ≡ request_app_firmware_update
      → s.flash.have_flash_info ≡ true
      → ¬ IsWritable env.sha env.usb_vid env.usb_pid s.flash.upgrade_segment_size
          (read_firmware_payload (drop header_size message))
      → (code : ℤ) × (handle_client_command env header message s
          ≡ (some tt, told code (told code s)))
  unfolding handle_client_command
  app_refusal_sent_twice header message s t known n =
      let (code, error, e) =
        handle_app_firmware_update-Refuses env.ioctl env.sha env.usb_vid env.usb_pid
          (read_firmware_payload (drop header_size message)) s known n in
      (
        code,
        rw t (
            ap (λ (p : ℤ × Service D). answer env (some p.0) p.1) e
            ∙ answer_error code (told code s) error),
      )
