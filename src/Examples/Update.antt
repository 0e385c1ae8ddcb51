-- ===== src/Examples/Update.antt =====
-- server/esp-dfu.c at a device that keeps the blocks it is sent.
use fcp_support.Base.{ℕ, List, [], ◌∷◌, ◌++◌, Bool-cases, ==_iff, ◌==◌, if◌then◌else◌, ok, Ioctl}
use fcp_support.Base.{◌≡◌, ◌≢◌, refl, arith, ℤ, pos, some, inl, inr}
use fcp_support.Fcp.{opcode_esp_dfu_write, opcode_data_read}
use fcp_support.Protocol.{FirmwarePayload}
use fcp_support.EspDfu.{EspConfig, World, expired}
use fcp_support.EspDfu.Update.{handle_esp_firmware_update, run_dfu}
use fcp_support.EspDfu.Update.Blind.{update_ignores_events}
use fcp_support.EspDfu.Update.Image.{TakesBlocks, run_dfu-image}
use fcp_support.EspDfu.Update.Gate.{IsAccepted, Gated, update_gate, update-image}

-- The device is the bytes that it was sent; every register reads as 1.
abbrev pub esp : Ioctl (List ℕ)
esp op req size d =
    if op == opcode_esp_dfu_write
    then (ok [], d ++ req)
    else if op == opcode_data_read
    then (ok (1 ∷ 0 ∷ 0 ∷ 0 ∷ []), d)
    else (ok [], d)

pub esp-TakesBlocks : TakesBlocks esp (λ d. d)
esp-TakesBlocks = record {
  starts = λ req d. refl;
  accepts = λ bytes d. refl;
  appends = λ bytes d. refl;
  leaves = stays;
}
  where
    stays :
        (op : ℕ) (req : List ℕ) (size : ℕ) (d : List ℕ)
        → op ≢ opcode_esp_dfu_write
        → (esp op req size d).1 ≡ d
    stays op req size d n = elim (Bool-cases (op == opcode_esp_dfu_write)) [
      | inl e ↦ absurd (n ((==_iff _ _).0 e))
      | inr e ↦ elim (Bool-cases (op == opcode_data_read)) [ inl r ↦ rw (e, r) | inr r ↦ rw (e, r) ]
    ]

abbrev pub config : EspConfig
config = record {
  state_off = pos 1;
  state_dfu = pos 2;
  state_normal = pos 3;
  notify_clear = pos 0;
  notify_next_block = pos 1;
  notify_finish = pos 2;
  notify_error = pos 3;
  offset_state = 100;
  offset_boot_mode = 101;
  offset_dfu_notify = 102;
  dfu_change = 8;
  esp_boot_mode = 9;
}

abbrev payload : FirmwarePayload
payload = record {
  size = 3;
  usb_vid = 0x1235;
  usb_pid = 0x821b;
  sha256 = 10 ∷ 20 ∷ 30 ∷ [];
  md5 = [];
  bytes = 10 ∷ 20 ∷ 30 ∷ 40 ∷ [];
}

abbrev world : World (List ℕ)
world = record { dev = 7 ∷ []; events = []; log = [] }

accepted : IsAccepted (λ bs. bs) 0x1235 0x821b payload
accepted = record { same_vid = refl; same_pid = refl; same_hash = refl }

update-image_example :
    let r =
      handle_esp_firmware_update esp (λ bs. bs) 0x1235 0x821b (pos 0) (some config) payload world in
    (r.0 ≡ pos 0) × (r.1.dev ≡ 7 ∷ 10 ∷ 20 ∷ 30 ∷ [])
unfolding fcp_support.Fcp.Data.data_read fcp_support.Fcp.fcp_cmd
update-image_example =
    update-image esp (λ bs. bs) 0x1235 0x821b (pos 0) config payload (λ d. d) esp-TakesBlocks world
      (pos 1) accepted refl (λ e. ground arith) (inr refl)

run_dfu-image_example :
    let r = run_dfu esp config (pos 0) payload world in
    (r.0 ≡ pos 0) × (r.1.dev ≡ 7 ∷ 10 ∷ 20 ∷ 30 ∷ [])
run_dfu-image_example = run_dfu-image esp (λ d. d) esp-TakesBlocks config (pos 0) payload world

abbrev update : World (List ℕ) → ℤ × World (List ℕ)
update = handle_esp_firmware_update esp (λ bs. bs) 0x1235 0x821b (pos 0) (some config) payload

update_gate_example :
    Gated esp (λ bs. bs) 0x1235 0x821b (pos 0) payload (some config) world (update world)
update_gate_example = update_gate esp (λ bs. bs) 0x1235 0x821b (pos 0) payload (some config) world

abbrev late : World (List ℕ)
late = record { dev = 7 ∷ []; events = expired ∷ expired ∷ []; log = [] }

update_ignores_events_example :
    ((update world).0 ≡ (update late).0)
    × ((update world).1.dev ≡ (update late).1.dev)
    × ((update world).1.log ≡ (update late).1.log)
update_ignores_events_example =
    update_ignores_events esp (λ bs. bs) 0x1235 0x821b (pos 0) (some config) payload world late refl
      refl
