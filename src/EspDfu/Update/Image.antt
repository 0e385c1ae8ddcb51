-- ===== src/EspDfu/Update/Image.antt =====
-- server/esp-dfu.c: what the update leaves in the ESP's flash.
use mathlib.Core.List.{append-nil, append_assoc}
use fcp_support.Base.{length-take, ◌≤◌, ℕ, zero, suc, List, [], ◌++◌, Bool-cases, ok, Ioctl}
use fcp_support.Base.{◌+◌, ◌-◌, ◌*◌, ◌/◌, ◌≤◌, Option, none, ℤ, pos, negsuc, eqb_ℤ, ltb, drop}
use fcp_support.Base.{◌≡◌, ◌≢◌, refl, sym, ap, ◌∙◌, inl, inr, arith, take, min, take-add}
use fcp_support.Base.{drop-drop, tests}
use fcp_support.Base.State.{St, pure, ◌>>=◌, ◌>>◌}
use fcp_support.Protocol.{FirmwarePayload}
use fcp_support.Fcp.{fcp_cmd, requested, opcode_esp_dfu_start, opcode_esp_dfu_write}
use fcp_support.Fcp.Misc.{esp_dfu_start, esp_dfu_write}
use fcp_support.Fcp.Effects.{requested_small, esp_dfu_start_state, esp_dfu_write_state}
use fcp_support.EspDfu.{EspConfig, World, on_device, ◌>>?◌}
use fcp_support.EspDfu.Wait.{set_state, check_state, wait_for_notification, wait_for_dfu_notify}
use fcp_support.EspDfu.Wait.Keeps.{
  Outlives, Calm, check_state-Calm, wait_for_dfu_notify-Calm, set_state-Calm,
  wait_for_notification-Calm,
}
use fcp_support.EspDfu.Update.{
  block_size_max, emit, report, block_written, write_blocks, finish_written, finish_update,
  blocks_written, dfu_started, run_dfu,
}

-- A device that takes the blocks of an update: it answers the DFU commands with success, appends
-- each block to its image, and no other command touches the image.
pub record TakesBlocks {D : Type 0} (ioctl : Ioctl D) (image : D → List ℕ) : Type 0 where
  pub starts : (req : List ℕ) (d : D) → (ioctl opcode_esp_dfu_start req 0 d).0 ≡ ok []
  pub accepts : (bytes : List ℕ) (d : D) → (ioctl opcode_esp_dfu_write bytes 0 d).0 ≡ ok []
  pub appends :
      (bytes : List ℕ) (d : D) → image (ioctl opcode_esp_dfu_write bytes 0 d).1 ≡ image d ++ bytes
  pub leaves :
      (op : ℕ) (req : List ℕ) (size : ℕ) (d : D)
      → op ≢ opcode_esp_dfu_write
      → image (ioctl op req size d).1 ≡ image d

pub report_dev :
    {D : Type 0} (progress : ℕ) (last : ℤ) (w : World D) → (report progress last w).1.dev ≡ w.dev
unfolding report emit
report_dev progress last w = elim (Bool-cases (eqb_ℤ (pos progress) last)) [
  | inl e ↦ rw e
  | inr e ↦ rw e
]

module _ {D : Type 0} (ioctl : Ioctl D) (image : D → List ℕ) (laws : TakesBlocks ioctl image) where
  abbrev pub Holds : List ℕ → D → Type 0
  Holds img d = image d ≡ img

  pub Holds-Outlives : (img : List ℕ) → Outlives ioctl (Holds img)
  Holds-Outlives img op req size d ne h = laws.leaves op req size d ne ∙ h

  esp_dfu_write_ok : (bytes : List ℕ) (n : ℕ) (d : D) → (esp_dfu_write ioctl bytes n d).0 ≡ ok tt
  unfolding esp_dfu_write fcp_cmd
  esp_dfu_write_ok bytes n d = rw (laws.accepts (requested (take n bytes)) d)

  esp_dfu_start_ok : (n : ℕ) (md5 : List ℕ) (d : D) → (esp_dfu_start ioctl n md5 d).0 ≡ ok tt
  unfolding esp_dfu_start fcp_cmd
  esp_dfu_start_ok n md5 d = rw (laws.starts _ d)

  module _ (cfg : EspConfig) (junk : ℤ) where
    -- After a block the loop goes on with the block in the image.
    block_written_next :
        (progress : ℕ) (last : ℤ) (next : St (World D) (Option ℤ × ℤ)) (w : World D)
        (P : (Option ℤ × ℤ) × World D → Type 0)
        → ((v : World D) → image v.dev ≡ image w.dev → P (next v))
        → P (block_written ioctl cfg junk progress last next (ok tt) w)
    unfolding block_written emit
    block_written_next progress last next w P k =
        let (calm, kept) =
          wait_for_dfu_notify-Calm ioctl (Holds (image w.dev)) (Holds-Outlives (image w.dev)) cfg
            junk cfg.notify_next_block w refl in
        rw calm (k _ (ap image (report_dev progress last _) ∙ kept))

    block_step :
        (bytes : List ℕ) (n progress : ℕ) (last : ℤ) (next : St (World D) (Option ℤ × ℤ))
        (w : World D) (P : (Option ℤ × ℤ) × World D → Type 0)
        → n ≤ block_size_max
        → ((v : World D) → image v.dev ≡ image w.dev ++ take n bytes → P (next v))
        → P (
            (on_device (esp_dfu_write ioctl bytes n)
                >>= block_written ioctl cfg junk progress last next)
              w)
    unfolding on_device
    block_step bytes n progress last next w P small k = rw (esp_dfu_write_ok bytes n w.dev) (
        block_written_next progress last next _ P λ v e. k v (
          e
          ∙ ap image (esp_dfu_write_state ioctl bytes n w.dev)
          ∙ laws.appends _ w.dev
          ∙ ap (λ t. image w.dev ++ t)
              (requested_small (take n bytes) (omega (arith, small, length-take n bytes)))))

    -- A block, and then the rest from the next block on.
    blocks_joined :
        (size offset : ℕ) (bytes img : List ℕ)
        → (img ++ take (min block_size_max (size - offset)) (drop offset bytes))
            ++ take (size - (offset + block_size_max)) (drop (offset + block_size_max) bytes)
          ≡ img ++ take (size - offset) (drop offset bytes)
    blocks_joined size offset bytes img =
        let left = size - offset in
        elim (Bool-cases (ltb block_size_max left)) [
          | inl more ↦
              let e : min block_size_max left ≡ block_size_max = omega tests in
              let e' : left ≡ block_size_max + (size - (offset + block_size_max)) = omega tests in
              rw e (
                append_assoc img _ _
                ∙ ap (λ t. img ++ t)
                    (ap
                        (λ t.
                          take block_size_max (drop offset bytes)
                          ++ take (size - (offset + block_size_max)) t)
                        (sym (drop-drop block_size_max offset bytes))
                      ∙ sym (
                          take-add block_size_max (size - (offset + block_size_max))
                            (drop offset bytes))
                      ∙ ap (λ (t : ℕ). take t (drop offset bytes)) (sym e')))
          | inr done ↦
              let e : min block_size_max left ≡ left = omega tests in
              let e' : size - (offset + block_size_max) ≡ 0 = omega tests in
              rw (e, e') (append-nil _)
        ]

    -- With a round for every byte left, the loop returns nothing early and appends the rest.
    write_blocks-image :
        (fuel : ℕ) (payload : FirmwarePayload) (offset : ℕ) (last : ℤ) (w : World D)
        → payload.size ≤ offset + fuel
        → let (r, w') = write_blocks ioctl cfg junk fuel payload offset last w in
          (r.0 ≡ none)
          × (image w'.dev ≡ image w.dev ++ take (payload.size - offset) (drop offset payload.bytes))
    unfolding write_blocks
    write_blocks-image zero payload offset last w h =
        let e : payload.size - offset ≡ 0 = omega arith in
        (refl, rw e (sym (append-nil (image w.dev))))
    write_blocks-image (suc fuel) payload offset last w h =
        let rest = drop offset payload.bytes in
        let left = payload.size - offset in
        let progress = (offset + min block_size_max left) * 100 / payload.size in
        let next =
          write_blocks ioctl cfg junk fuel payload (offset + block_size_max) (pos progress) in
        elim (Bool-cases (ltb offset payload.size)) [
          | inl more ↦ rw more (
              block_step rest (min block_size_max left) progress last next w
                (λ r. (r.0.0 ≡ none) × (image r.1.dev ≡ image w.dev ++ take left rest))
                (omega tests)
                λ v e.
                  let (n, i) =
                    write_blocks-image fuel payload (offset + block_size_max) (pos progress) v
                      (omega tests) in
                  (
                    n,
                    i
                        ∙ ap
                            (λ t.
                              t
                              ++ take (payload.size - (offset + block_size_max))
                                  (drop (offset + block_size_max) payload.bytes))
                            e
                        ∙ blocks_joined payload.size offset payload.bytes _,
                  ))
          | inr done ↦
              let e : payload.size - offset ≡ 0 = omega tests in
              rw done (refl, rw e (sym (append-nil (image w.dev))))
        ]

    -- A check that does not fail is passed, with the image as it was.
    pub past :
        (m : St (World D) ℤ) (k : St (World D) ℤ) (w : World D) (P : ℤ × World D → Type 0)
        → ((img : List ℕ) → Calm (Holds img) m)
        → ((v : World D) → image v.dev ≡ image w.dev → P (k v))
        → P ((m >>? k) w)
    past m k w P calm next = let (n, kept) = calm (image w.dev) w refl in rw n (next (m w).1 kept)

    finish_update-image :
        (last : ℤ) (w : World D)
        → ((finish_update ioctl cfg junk last w).0 ≡ pos 0)
          × (image (finish_update ioctl cfg junk last w).1.dev ≡ image w.dev)
    unfolding finish_update finish_written on_device emit
    finish_update-image last w = rw (esp_dfu_write_ok [] 0 w.dev) (
        past (wait_for_dfu_notify ioctl cfg junk cfg.notify_finish) off _ Done
          (λ img.
            wait_for_dfu_notify-Calm ioctl (Holds img) (Holds-Outlives img) cfg junk
              cfg.notify_finish)
          λ v e.
            past (set_state ioctl cfg junk cfg.state_off) on v Done
              (λ img. set_state-Calm ioctl (Holds img) (Holds-Outlives img) cfg junk cfg.state_off)
              λ v' e'.
                past (set_state ioctl cfg junk cfg.state_normal) end v' Done
                  (λ img.
                    set_state-Calm ioctl (Holds img) (Holds-Outlives img) cfg junk cfg.state_normal)
                  λ v'' e''.
                    (refl, ap image (report_dev 100 last v'') ∙ e'' ∙ e' ∙ e ∙ empty_block))
      where
        end : St (World D) ℤ
        end = do report 100 last; pure (pos 0)

        on : St (World D) ℤ
        on = set_state ioctl cfg junk cfg.state_normal >>? end

        off : St (World D) ℤ
        off = set_state ioctl cfg junk cfg.state_off >>? on

        Done : ℤ × World D → Type 0
        Done r = (r.0 ≡ pos 0) × (image r.1.dev ≡ image w.dev)

        empty_block : image (esp_dfu_write ioctl [] 0 w.dev).1 ≡ image w.dev
        empty_block =
            ap image (esp_dfu_write_state ioctl [] 0 w.dev)
            ∙ laws.appends [] w.dev
            ∙ append-nil (image w.dev)

    -- With a device that takes the blocks, the DFU returns 0 and the image has grown by exactly the
    -- first `size` bytes of the payload, in order.
    pub run_dfu-image :
        (payload : FirmwarePayload) (w : World D)
        → ((run_dfu ioctl cfg junk payload w).0 ≡ pos 0)
          × (image (run_dfu ioctl cfg junk payload w).1.dev
              ≡ image w.dev ++ take payload.size payload.bytes)
    unfolding run_dfu dfu_started blocks_written on_device
    run_dfu-image payload w = rw (esp_dfu_start_ok payload.size payload.md5 w.dev) (
        past (wait_for_notification ioctl cfg junk) check _ Done
          (λ img. wait_for_notification-Calm ioctl (Holds img) (Holds-Outlives img) cfg junk)
          λ v e.
            past (check_state ioctl cfg junk cfg.state_dfu) ready v Done
              (λ img.
                check_state-Calm ioctl (Holds img) (Holds-Outlives img) cfg junk cfg.state_dfu)
              λ v' e'.
                past (wait_for_dfu_notify ioctl cfg junk cfg.notify_next_block) blocks v' Done
                  (λ img.
                    wait_for_dfu_notify-Calm ioctl (Holds img) (Holds-Outlives img) cfg junk
                      cfg.notify_next_block)
                  λ v'' e''.
                    let (n, i) =
                      write_blocks-image payload.size payload 0 (negsuc 0) v'' (omega arith) in
                    let r = write_blocks ioctl cfg junk payload.size payload 0 (negsuc 0) v'' in
                    let (c, i') = finish_update-image r.0.1 r.1 in
                    rw (n, blocks_written)
                      (
                        c,
                        i'
                            ∙ i
                            ∙ whole v''.dev
                            ∙ ap (λ t. t ++ take payload.size payload.bytes) (e'' ∙ e' ∙ e ∙ start),
                      ))
      where
        blocks : St (World D) ℤ
        blocks =
            write_blocks ioctl cfg junk payload.size payload 0 (negsuc 0)
            >>= blocks_written ioctl cfg junk

        ready : St (World D) ℤ
        ready = wait_for_dfu_notify ioctl cfg junk cfg.notify_next_block >>? blocks

        check : St (World D) ℤ
        check = check_state ioctl cfg junk cfg.state_dfu >>? ready

        Done : ℤ × World D → Type 0
        Done r = (r.0 ≡ pos 0) × (image r.1.dev ≡ image w.dev ++ take payload.size payload.bytes)

        whole :
            (d : D)
            → image d ++ take (payload.size - 0) payload.bytes
              ≡ image d ++ take payload.size payload.bytes
        whole d = ap (λ (k : ℕ). image d ++ take k payload.bytes) (omega arith)

        start : image (esp_dfu_start ioctl payload.size payload.md5 w.dev).1 ≡ image w.dev
        start =
            ap image (esp_dfu_start_state ioctl payload.size payload.md5 w.dev)
            ∙ laws.leaves opcode_esp_dfu_start _ 0 w.dev (omega arith)
