-- ===== src/EspDfu/Update/Gate.antt =====
-- server/esp-dfu.c: which payloads are let through to the device, and what then happens.
use mathlib.Core.Path.{subst}
use fcp_support.Base.{
  ℕ, List, [], ◌∷◌, ◌++◌, true, false, Option, none, Bool-cases, ok, Ioctl, take,
}
use fcp_support.Base.{◌⊎◌, inl, inr, ◌≡◌, ◌≢◌, refl, sym, ap, ◌∙◌, arith, some, ℤ, pos, eqb_ℤ}
use fcp_support.Base.{◌==◌, ◌&&◌}
use fcp_support.Base.State.{St}
use fcp_support.Protocol.{FirmwarePayload, err_config, err_invalid_usb_id, err_invalid_hash}
use fcp_support.Fcp.Data.{data_read}
use fcp_support.Fcp.{opcode_data_read}
use fcp_support.Fcp.Effects.{data_read_state}
use fcp_support.EspDfu.{EspConfig, World, on_device}
use fcp_support.EspDfu.Wait.{get_state, set_state}
use fcp_support.EspDfu.Wait.Keeps.{set_state-Calm}
use fcp_support.EspDfu.Update.{same_bytes, verify_sha256, handle_esp_firmware_update}
use fcp_support.EspDfu.Update.{start_update, state_read, run_dfu, emit}
use fcp_support.EspDfu.Update.Image.{TakesBlocks, Holds, Holds-Outlives, past, run_dfu-image}

pub same_bytes_iff :
    (xs ys : List ℕ) → (same_bytes xs ys ≡ true → xs ≡ ys) × (xs ≡ ys → same_bytes xs ys ≡ true)
same_bytes_iff [] [] = (λ e. refl, λ e. refl)
same_bytes_iff [] (y ∷ ys) = (λ e. cc, λ e. cc)
same_bytes_iff (x ∷ xs) [] = (λ e. cc, λ e. cc)
same_bytes_iff (x ∷ xs) (y ∷ ys) =
    let (f, g) = same_bytes_iff xs ys in (λ e. ground (arith, f), λ e. ground (arith, g))

pub eqb_ℤ_iff : (a b : ℤ) → (eqb_ℤ a b ≡ true → a ≡ b) × (a ≡ b → eqb_ℤ a b ≡ true)
eqb_ℤ_iff a b = ground arith

-- The payload is for this device and its hash is that of its data.
pub record IsAccepted (sha : List ℕ → List ℕ) (vid pid : ℕ) (payload : FirmwarePayload)
    : Type 0 where
  pub same_vid : payload.usb_vid ≡ vid
  pub same_pid : payload.usb_pid ≡ pid
  pub same_hash : sha (take payload.size payload.bytes) ≡ payload.sha256

-- The payload is for another product.
abbrev pub IsForeign : ℕ → ℕ → FirmwarePayload → Type 0
IsForeign vid pid payload = (payload.usb_vid ≢ vid) ⊎ (payload.usb_pid ≢ pid)

-- The payload is for this product, and its hash is not that of its data.
pub record IsCorrupt (sha : List ℕ → List ℕ) (vid pid : ℕ) (payload : FirmwarePayload)
    : Type 0 where
  pub same_vid : payload.usb_vid ≡ vid
  pub same_pid : payload.usb_pid ≡ pid
  pub other_hash : sha (take payload.size payload.bytes) ≢ payload.sha256

module _ {D : Type 0} (ioctl : Ioctl D) (sha : List ℕ → List ℕ) (vid pid : ℕ) (junk : ℤ)
    (payload : FirmwarePayload) where
  -- What comes of a payload. Refused, it leaves everything as it was: no command, no wait, no message.
  abbrev pub Gated : Option EspConfig → World D → ℤ × World D → Type 0
  Gated config w r =
      ((cfg : EspConfig) × (config ≡ some cfg)
        × IsAccepted sha vid pid payload
        × (r ≡ start_update ioctl cfg junk payload w))
      ⊎ ((config ≡ none) × (r ≡ (err_config, w)))
      ⊎ ((config ≢ none) × IsForeign vid pid payload × (r ≡ (err_invalid_usb_id, w)))
      ⊎ ((config ≢ none) × IsCorrupt sha vid pid payload × (r ≡ (err_invalid_hash, w)))

  -- An ESP update starts if the configuration was found, the payload is for this device, and its hash is
  -- that of its data. Otherwise nothing at all is done, and the update returns FCP_SOCKET_ERR_CONFIG
  -- without a configuration, FCP_SOCKET_ERR_INVALID_USB_ID for another vendor or product, and
  -- FCP_SOCKET_ERR_INVALID_HASH for another hash.
  pub update_gate :
      (config : Option EspConfig) (w : World D)
      → Gated config w (handle_esp_firmware_update ioctl sha vid pid junk config payload w)
  unfolding handle_esp_firmware_update verify_sha256
  update_gate none w = inr (inl (refl, refl))
  update_gate (some cfg) w = elim (Bool-cases (payload.usb_vid == vid && payload.usb_pid == pid)) [
    | inr other ↦ rw other (inr (inr (inl (λ e. absurd cc, foreign other, refl))))
    | inl same ↦
        elim (Bool-cases (same_bytes (sha (take payload.size payload.bytes)) payload.sha256)) [
          | inr corrupt ↦
              rw (same, corrupt)
                (inr (
                  inr (
                    inr (
                      λ e. absurd cc,
                      record {
                        same_vid = ground (arith, same);
                        same_pid = ground (arith, same);
                        other_hash = λ e. cc ((same_bytes_iff _ _).1 e);
                      },
                      refl,
                    ))))
          | inl intact ↦
              rw (same, intact)
                (inl (cfg, refl, accepted same ((same_bytes_iff _ _).0 intact), refl))
        ]
  ]
    where
      foreign :
          (payload.usb_vid == vid && payload.usb_pid == pid) ≡ false → IsForeign vid pid payload
      foreign h = elim (Bool-cases (payload.usb_vid == vid)) [
        | inl v ↦ inr (λ e. ground arith)
        | inr v ↦ inl (λ e. ground arith)
      ]

      accepted :
          (payload.usb_vid == vid && payload.usb_pid == pid) ≡ true
          → sha (take payload.size payload.bytes) ≡ payload.sha256
          → IsAccepted sha vid pid payload
      accepted e h = record { same_vid = ground arith; same_pid = ground arith; same_hash = h }

module _ {D : Type 0} (ioctl : Ioctl D) (sha : List ℕ → List ℕ) (vid pid : ℕ) (junk : ℤ)
    (cfg : EspConfig) (payload : FirmwarePayload) where
  abbrev handle : St (World D) ℤ
  handle = handle_esp_firmware_update ioctl sha vid pid junk (some cfg) payload

  module _ (image : D → List ℕ) (laws : TakesBlocks ioctl image) where
    abbrev Updated : World D → ℤ × World D → Type 0
    Updated w r = (r.0 ≡ pos 0) × (image r.1.dev ≡ image w.dev ++ take payload.size payload.bytes)

    run_dfu-Updated :
        (w v : World D) → image v.dev ≡ image w.dev → Updated w (run_dfu ioctl cfg junk payload v)
    run_dfu-Updated w v e =
        let (c, i) = run_dfu-image ioctl image laws cfg junk payload v in
        (c, i ∙ ap (λ t. t ++ take payload.size payload.bytes) e)

    state_read-Updated :
        (state : ℤ) (w v : World D)
        → image v.dev ≡ image w.dev
        → state ≢ pos 0
        → (state ≡ cfg.state_normal) ⊎ (state ≡ cfg.state_off)
        → Updated w (state_read ioctl cfg junk payload (pos 0, state) v)
    unfolding state_read
    state_read-Updated state w v e nonzero known = elim (Bool-cases (eqb_ℤ state (pos 0))) [
      | inl zero ↦ absurd (nonzero ((eqb_ℤ_iff state (pos 0)).0 zero))
      | inr z ↦ elim (Bool-cases (eqb_ℤ state cfg.state_normal)) [
        | inl on ↦
            rw (z, on)
              (past ioctl image laws cfg junk (set_state ioctl cfg junk cfg.state_off)
                (run_dfu ioctl cfg junk payload) v (Updated w)
                (λ img.
                  set_state-Calm ioctl (Holds ioctl image laws img)
                    (Holds-Outlives ioctl image laws img) cfg junk cfg.state_off)
                (λ v' e'. run_dfu-Updated w v' (e' ∙ e)))
        | inr not_on ↦
            let off : eqb_ℤ state cfg.state_off ≡ true = is_off known not_on in
            rw (z, not_on, off) (run_dfu-Updated w v e)
      ]
    ]
      where
        is_off :
            (state ≡ cfg.state_normal) ⊎ (state ≡ cfg.state_off)
            → eqb_ℤ state cfg.state_normal ≡ false
            → eqb_ℤ state cfg.state_off ≡ true
        is_off (inl h) n = cc ((eqb_ℤ_iff state cfg.state_normal).1 h)
        is_off (inr h) n = (eqb_ℤ_iff state cfg.state_off).1 h

    start_update-Updated :
        (w : World D) (state : ℤ)
        → (data_read ioctl cfg.offset_state 1 false w.dev).0 ≡ ok state
        → state ≢ pos 0
        → (state ≡ cfg.state_normal) ⊎ (state ≡ cfg.state_off)
        → Updated w (start_update ioctl cfg junk payload w)
    unfolding start_update get_state on_device emit
    start_update-Updated w state reads nonzero known =
        rw reads (state_read-Updated state w _ unread nonzero known)
      where
        unread : image (data_read ioctl cfg.offset_state 1 false w.dev).1 ≡ image w.dev
        unread =
            ap image (data_read_state ioctl cfg.offset_state 1 false w.dev)
            ∙ laws.leaves opcode_data_read _ 1 w.dev (omega arith)

    started :
        (w : World D) (state : ℤ)
        → IsAccepted sha vid pid payload
        → (data_read ioctl cfg.offset_state 1 false w.dev).0 ≡ ok state
        → state ≢ pos 0
        → (state ≡ cfg.state_normal) ⊎ (state ≡ cfg.state_off)
        → Gated ioctl sha vid pid junk payload (some cfg) w (handle w)
        → Updated w (handle w)
    started w state a reads nonzero known (inl (c, same, ok_payload, e)) =
        subst (Updated w) (sym e) (
          subst (λ (c : EspConfig). Updated w (start_update ioctl c junk payload w)) (cc same)
            (start_update-Updated w state reads nonzero known))
    started w state a reads nonzero known (inr (inl (missing, e))) = absurd cc
    started w state a reads nonzero known (inr (inr (inl (found, inl v, e)))) =
        absurd (v a.same_vid)
    started w state a reads nonzero known (inr (inr (inl (found, inr p, e)))) =
        absurd (p a.same_pid)
    started w state a reads nonzero known (inr (inr (inr (found, corrupt, e)))) =
        absurd (corrupt.other_hash a.same_hash)

    -- For an accepted payload, an ESP that reads as on or off, and a device that takes the blocks,
    -- the update returns 0 and the image has grown by exactly the first `size` bytes of the payload.
    pub update-image :
        (w : World D) (state : ℤ)
        → IsAccepted sha vid pid payload
        → (data_read ioctl cfg.offset_state 1 false w.dev).0 ≡ ok state
        → state ≢ pos 0
        → (state ≡ cfg.state_normal) ⊎ (state ≡ cfg.state_off)
        → Updated w (handle w)
    update-image w state accepted reads nonzero known =
        started w state accepted reads nonzero known
          (update_gate ioctl sha vid pid junk payload (some cfg) w)
