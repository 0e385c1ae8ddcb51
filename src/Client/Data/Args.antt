-- ===== src/Client/Data/Args.antt =====
-- client/data-cmd.c: the arguments of the data command. A C string is the list of its characters' codes.
use fcp_support.Base.{
  ℕ, zero, suc, ◌+◌, ◌*◌, ◌-◌, ◌%◌, ◌^◌, List, [], ◌∷◌, Bool, ◌&&◌, ◌||◌, Option, none, some, ℤ,
  pos, negsuc, to_unsigned, to_signed, length, drop, leb, ltb, ◌==◌, if◌then◌else◌,
}
use fcp_support.Base.Chars.{codes, is_digit, is_space}
use fcp_support.Client.{Connection}
use fcp_support.Client.Args.{Text, same_text}
use fcp_support.Client.Data.{Value, decimal, hex, data_read, data_write, data_notify}

-- The value of a digit; a character that is none has a value that no base allows.
abbrev digit_value : ℕ → ℕ
digit_value c =
    if is_digit c
    then c - 48
    else if leb 97 c && leb c 102
    then c - 87
    else if leb 65 c && leb c 70
    then c - 55
    else 99

-- The whole of a text as digits in a base, behind the value so far.
unfoldable pub digits_in : ℕ → ℕ → Text → Option ℕ
digits_in base acc [] = some acc
digits_in base acc (c ∷ cs) =
    let rest = digits_in base (acc * base + digit_value c) cs in
    if ltb (digit_value c) base then rest else none

abbrev is_x : ℕ → Bool
is_x c = (c == 120) || (c == 88)

-- Behind "0": "x" and hexadecimal digits, or octal ones.
abbrev behind_zero : Text → Option ℕ
behind_zero [] = some 0
behind_zero (c ∷ []) = digits_in 8 0 (c ∷ [])
behind_zero (c ∷ d ∷ ds) = if is_x c then digits_in 16 0 (d ∷ ds) else digits_in 8 0 (c ∷ d ∷ ds)

-- In the base that the text shows, as with the base 0 of `strtol`
abbrev magnitude : Text → Option ℕ
magnitude [] = none
magnitude (c ∷ cs) = if c == 48 then behind_zero cs else digits_in 10 0 (c ∷ cs)

-- In the range of a `long`, else `errno` is set.
abbrev positive : Option ℕ → Option ℤ
positive none = none
positive (some n) = if ltb n (2 ^ 63) then some (pos n) else none

abbrev negative : Option ℕ → Option ℤ
negative none = none
negative (some zero) = some (pos 0)
negative (some (suc n)) = if leb (suc n) (2 ^ 63) then some (negsuc n) else none

abbrev signed : Text → Option ℤ
signed [] = none
signed (c ∷ cs) =
    if c == 45
    then negative (magnitude cs)
    else if c == 43
    then positive (magnitude cs)
    else positive (magnitude (c ∷ cs))

unfoldable pub skip_space : Text → Option ℤ
unfolding digits_in
skip_space [] = none
skip_space (c ∷ cs) = let rest = skip_space cs in if is_space c then rest else signed (c ∷ cs)

-- `parse_number`; `none` ends the program. The empty text is 0.
unfoldable pub parse_number : Text → Option ℤ
unfolding skip_space
parse_number [] = some (pos 0)
parse_number (c ∷ cs) = skip_space (c ∷ cs)

-- What the command comes to: its result and the connection, or the end of the program.
pub data Outcome : Type 0 where
  returns : Option ℤ × Connection → Outcome
  exits : Outcome

-- The numbers of the arguments are parsed in order, and an invalid one ends the program.
abbrev pub with_number : Option ℤ → (ℤ → Outcome) → Outcome
with_number none f = exits
with_number (some n) f = f n

abbrev pub read_args : Connection → List Text → Outcome
read_args c [] = exits
read_args c (offset ∷ []) = exits
read_args c (offset ∷ size ∷ more) = with_number (parse_number offset) (λ o.
    with_number (parse_number size)
      (λ s. returns (data_read (to_unsigned 32 o) (to_unsigned 32 s) c)))

abbrev pub notify_args : Connection → List Text → Outcome
notify_args c [] = exits
notify_args c (event ∷ more) =
    with_number (parse_number event) (λ e. returns (data_notify (to_unsigned 32 e) c))

-- The bytes that are read two digits at a time; `scan` is `sscanf` with "%2x".
unfoldable pub hex_bytes : (Text → Option ℕ) → ℕ → Text → Option (List ℕ)
hex_bytes scan zero digits = some []
hex_bytes scan (suc n) digits = cons_byte (scan digits) (hex_bytes scan n (drop 2 digits))
  where
    cons_byte : Option ℕ → Option (List ℕ) → Option (List ℕ)
    cons_byte none rest = none
    cons_byte (some b) none = none
    cons_byte (some b) (some bytes) = some (b % 256 ∷ bytes)

abbrev decimal_of : Option ℤ → Option Value
decimal_of none = none
decimal_of (some v) = some (decimal v)

abbrev pub value_of : (Text → Option ℕ) → ℕ → Text → Option Value
value_of scan len [] = decimal_of (parse_number [])
value_of scan len (c ∷ []) = decimal_of (parse_number (c ∷ []))
value_of scan len (c ∷ d ∷ ds) =
    if (c == 48) && is_x d
    then some (hex (length ds) (hex_bytes scan len ds))
    else decimal_of (parse_number (c ∷ d ∷ ds))

-- `int length`; what is below 1 is refused like 0.
abbrev pub length_of : ℤ → ℕ
length_of v = not_below (to_signed 32 (to_unsigned 32 v))
  where
    not_below : ℤ → ℕ
    not_below (pos n) = n
    not_below (negsuc n) = 0

abbrev pub with_value : Connection → ℕ → ℕ → Option Value → Outcome
with_value c offset len none = exits
with_value c offset len (some v) = returns (data_write offset len v c)

-- A length out of range is refused before the value is read.
abbrev pub write_checked : (Text → Option ℕ) → Connection → ℕ → ℕ → Text → Outcome
write_checked scan c offset len value =
    if ltb len 1 || ltb 4 len
    then returns (some (negsuc 0), c)
    else with_value c offset len (value_of scan len value)

abbrev pub write_args : (Text → Option ℕ) → Connection → List Text → Outcome
write_args scan c [] = exits
write_args scan c (offset ∷ []) = exits
write_args scan c (offset ∷ len ∷ []) = exits
write_args scan c (offset ∷ len ∷ value ∷ []) = with_number (parse_number offset) (λ o.
    with_number (parse_number len)
      (λ l. write_checked scan c (to_unsigned 32 o) (length_of l) value))
write_args scan c (offset ∷ len ∷ value ∷ extra ∷ more) = exits

-- `data_cmd`
unfoldable pub data_cmd : (Text → Option ℕ) → List Text → Connection → Outcome
unfolding parse_number hex_bytes data_read data_write data_notify
data_cmd scan [] c = exits
data_cmd scan (subcmd ∷ args) c =
    if same_text subcmd (codes "read")
    then read_args c args
    else if same_text subcmd (codes "write")
    then write_args scan c args
    else if same_text subcmd (codes "notify")
    then notify_args c args
    else exits
