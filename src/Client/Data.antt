-- ===== src/Client/Data.antt =====
-- client/data-cmd.c: the command for the device's data space, from its arguments' values on. What is
-- printed is left out.
pub mod Served
pub mod Args
use fcp_support.Base.{ℕ, ◌+◌, ◌*◌, List, [], ◌∷◌, ◌++◌, ◌||◌, not, Option, none, some}
use fcp_support.Base.{
  ℤ, pos, negsuc, eqb_ℤ, to_unsigned, le32, length, take, ltb, ◌==◌, if◌then◌else◌,
}
use fcp_support.Fcp.{opcode_data_read, opcode_data_write, opcode_data_notify}
use fcp_support.Client.{Connection}
use fcp_support.Client.Send.{send_fcp_cmd}

-- The response is freed once it was printed.
abbrev pub printed : Option ℤ × Connection → Option ℤ × Connection
printed (none, c) = (none, c)
printed (some r, c) =
    if eqb_ℤ r (pos 0) then (some r, record c { data_response = none }) else (some r, c)

-- `data_read`
unfoldable pub data_read : ℕ → ℕ → Connection → Option ℤ × Connection
data_read offset size c =
    if ltb size 1 || ltb 1024 size
    then (some (negsuc 0), c)
    else printed (send_fcp_cmd opcode_data_read (le32 offset ++ le32 size) size c)

-- The value of a write: a number, or so many hexadecimal digits and the bytes that they are read as.
pub data Value : Type 0 where
  decimal : ℤ → Value
  hex : ℕ → Option (List ℕ) → Value

-- The bytes of a value; `none` is `return -1`.
unfoldable pub value_bytes : ℕ → Value → Option (List ℕ)
value_bytes len (decimal v) = some (take len (le32 (to_unsigned 32 v)))
value_bytes len (hex digits bytes) = if digits == len * 2 then bytes else none

abbrev pub write_value : ℕ → ℕ → Option (List ℕ) → Connection → Option ℤ × Connection
write_value offset len none c = (some (negsuc 0), c)
write_value offset len (some bytes) c =
    send_fcp_cmd opcode_data_write (le32 offset ++ le32 len ++ bytes) 0 c

-- `data_write`
unfoldable pub data_write : ℕ → ℕ → Value → Connection → Option ℤ × Connection
unfolding value_bytes
data_write offset len v c =
    if ltb len 1 || ltb 4 len
    then (some (negsuc 0), c)
    else write_value offset len (value_bytes len v) c

-- `data_notify`
unfoldable pub data_notify : ℕ → Connection → Option ℤ × Connection
data_notify event c = send_fcp_cmd opcode_data_notify (le32 event) 0 c
