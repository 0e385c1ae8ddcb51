-- ===== src/Fcp/Effects.antt =====
-- server/fcp.c: the state that a command leaves is the driver's, whatever is made of the response.
use fcp_support.Base.{ℕ, ◌+◌, List, ◌++◌, Bool, true, false, Res, ok, err, Ioctl, Hw, continue}
use fcp_support.Base.{
  ℤ, ◌≡◌, refl, ap, ◌∙◌, arith, length, ◌<◌, ◌^◌, ◌%◌, ltb, if_true, lt→ltb, pure, take, le32,
  to_unsigned,
}
use fcp_support.Fcp.{
  fcp_cmd, requested, received, opcode_data_read, opcode_data_write, opcode_data_notify,
}
use fcp_support.Fcp.{opcode_esp_dfu_start, opcode_esp_dfu_write}
use fcp_support.Fcp.Data.{data_read, data_write, data_notify, sign_extend}
use fcp_support.Fcp.Misc.{esp_dfu_start, esp_dfu_write}

continue_state :
    {D A B : Type 0} (g : A → Hw D B)
    → ((a : A) (d : D) → (g a d).1 ≡ d)
    → (r : Res A) (d : D) → (continue g r d).1 ≡ d
continue_state g still (ok a) d = still a d
continue_state g still (err e) d = refl

sign_extend_state : {D : Type 0} (size raw : ℕ) (d : D) → (sign_extend size raw d).1 ≡ d
unfolding sign_extend
sign_extend_state size raw d = ground arith

-- A request and a response whose sizes fit into 16 bits go through as they are.
pub requested_small : (req : List ℕ) → length req < 2 ^ 16 → requested req ≡ req
requested_small req h = if_true (ltb (length req) (2 ^ 16)) _ _ (lt→ltb _ _ h)

pub received_small : (n : ℕ) (req resp : List ℕ) → n < 2 ^ 16 → received n req resp ≡ take n resp
received_small n req resp h = if_true (ltb n (2 ^ 16)) _ _ (lt→ltb _ _ h)

module _ {D : Type 0} (ioctl : Ioctl D) where
  pub fcp_cmd_small :
      (op : ℕ) (req : List ℕ) (size : ℕ) (d : D)
      → length req < 2 ^ 16
      → size < 2 ^ 16
      → fcp_cmd ioctl op req size d
        ≡ continue (λ resp. pure (take size resp)) (ioctl op req size d).0 (ioctl op req size d).1
  unfolding fcp_cmd
  fcp_cmd_small op req size d small fits =
      ap
        (λ q.
          continue (λ resp. pure (received size req resp)) (ioctl op q (size % 2 ^ 16) d).0
            (ioctl op q (size % 2 ^ 16) d).1)
        (requested_small req small)
      ∙ ap
          (λ n.
            continue (λ resp. pure (received size req resp)) (ioctl op req n d).0
              (ioctl op req n d).1)
          {x = size % 2 ^ 16} {y = size} (omega (arith, fits))
      ∙ ap
          (λ (g : List ℕ → List ℕ).
            continue (λ resp. pure (g resp)) (ioctl op req size d).0 (ioctl op req size d).1)
          (λ i resp. received_small size req resp fits i)

  pub fcp_cmd_state :
      (op : ℕ) (req : List ℕ) (size : ℕ) (d : D)
      → (fcp_cmd ioctl op req size d).1 ≡ (ioctl op (requested req) (size % 2 ^ 16) d).1
  unfolding fcp_cmd
  fcp_cmd_state op req size d =
      continue_state _ (λ r e. refl) (ioctl op (requested req) (size % 2 ^ 16) d).0 _

  pub data_read_state :
      (offset size : ℕ) (signed : Bool) (d : D)
      → (data_read ioctl offset size signed d).1
        ≡ (ioctl opcode_data_read (le32 offset ++ le32 size) (size % 2 ^ 16) d).1
  unfolding data_read
  data_read_state offset size true d =
      continue_state _ (λ r e. sign_extend_state size _ e) _ _ ∙ fcp_cmd_state _ _ _ d
  data_read_state offset size false d = continue_state _ (λ r e. refl) _ _ ∙ fcp_cmd_state _ _ _ d

  pub data_write_state :
      (offset size : ℕ) (value : ℤ) (d : D)
      → (data_write ioctl offset size value d).1
        ≡ (ioctl opcode_data_write
            (requested (take (8 + size) (le32 offset ++ le32 size ++ le32 (to_unsigned 32 value))))
            0
            d).1
  unfolding data_write
  data_write_state offset size value d = continue_state _ (λ r e. refl) _ _ ∙ fcp_cmd_state _ _ _ d

  pub data_notify_state :
      (event : ℕ) (d : D)
      → (data_notify ioctl event d).1 ≡ (ioctl opcode_data_notify (le32 event) 0 d).1
  unfolding data_notify
  data_notify_state event d = continue_state _ (λ r e. refl) _ _ ∙ fcp_cmd_state _ _ _ d

  pub esp_dfu_start_state :
      (length : ℕ) (md5 : List ℕ) (d : D)
      → (esp_dfu_start ioctl length md5 d).1
        ≡ (ioctl opcode_esp_dfu_start (requested (le32 0 ++ le32 length ++ take 16 md5)) 0 d).1
  unfolding esp_dfu_start
  esp_dfu_start_state length md5 d = continue_state _ (λ r e. refl) _ _ ∙ fcp_cmd_state _ _ _ d

  pub esp_dfu_write_state :
      (bytes : List ℕ) (count : ℕ) (d : D)
      → (esp_dfu_write ioctl bytes count d).1
        ≡ (ioctl opcode_esp_dfu_write (requested (take count bytes)) 0 d).1
  unfolding esp_dfu_write
  esp_dfu_write_state bytes count d = continue_state _ (λ r e. refl) _ _ ∙ fcp_cmd_state _ _ _ d
