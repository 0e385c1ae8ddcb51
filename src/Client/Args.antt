-- ===== src/Client/Args.antt =====
-- client/main.c: the command line. A C string is the list of its characters' codes.
use fcp_support.Base.{
  ℕ, zero, suc, ◌+◌, ◌-◌, ◌*◌, ◌^◌, List, [], ◌∷◌, Bool, true, false, ◌&&◌, Option, none, some, ℤ,
  pos, negsuc, to_signed, eqb_ℤ, ltb, ◌==◌, if◌then◌else◌,
}
use fcp_support.Base.Chars.{codes, is_digit, is_space}

abbrev pub Text : Type 0
Text = List ℕ

-- `strcmp(…) == 0`
abbrev pub same_text : Text → Text → Bool
same_text [] [] = true
same_text [] (d ∷ ds) = false
same_text (c ∷ cs) [] = false
same_text (c ∷ cs) (d ∷ ds) = (c == d) && same_text cs ds

-- What follows a prefix, if the text has it.
abbrev pub behind : Text → Text → Option Text
behind [] t = some t
behind (c ∷ cs) [] = none
behind (c ∷ cs) (d ∷ ds) = if c == d then behind cs ds else none

-- The whole of a text as a number, without sign; `none` if something else follows the digits.
unfoldable pub all_digits : ℕ → Text → Option ℕ
all_digits acc [] = some acc
all_digits acc (c ∷ cs) =
    let rest = all_digits (acc * 10 + (c - 48)) cs in if is_digit c then rest else none

-- Digits there must be: without one, `endptr` is the start of the text.
abbrev some_digits : Text → Option ℕ
some_digits [] = none
some_digits (c ∷ cs) = all_digits 0 (c ∷ cs)

abbrev only_zero : Option ℕ → Option ℕ
only_zero none = none
only_zero (some zero) = some 0
only_zero (some (suc n)) = none

-- A number that is not negative: behind a minus, only 0.
abbrev signed_digits : Text → Option ℕ
signed_digits [] = none
signed_digits (c ∷ cs) =
    if c == 45
    then only_zero (some_digits cs)
    else if c == 43
    then some_digits cs
    else some_digits (c ∷ cs)

unfoldable pub after_space : Text → Option ℕ
unfolding all_digits
after_space [] = none
after_space (c ∷ cs) =
    let rest = after_space cs in if is_space c then rest else signed_digits (c ∷ cs)

-- In the range of a `long`, else `errno` is set; `selected_card_num` is an `int`.
abbrev card_of : Option ℕ → Option ℤ
card_of none = none
card_of (some n) = if ltb n (2 ^ 63) then some (to_signed 32 n) else none

-- "Parse card number", by `strtol`; the empty text is 0. `none` is an invalid number.
unfoldable pub card_number : Text → Option ℤ
unfolding after_space
card_number [] = some (pos 0)
card_number (c ∷ cs) = card_of (after_space (c ∷ cs))

-- What the command line sets; `card_num` is -1 without a card.
pub record Args : Type 0 where
  pub command : Option Text
  pub card_num : ℤ
  pub firmware_file : Option Text
  pub cmd_argv : List Text

abbrev pub no_args : Args
no_args = record { command = none; card_num = negsuc 0; firmware_file = none; cmd_argv = [] }

-- Continue without a card yet, and with a valid number.
abbrev set_card : Option ℤ → Args → Option Args
set_card none a = none
set_card (some n) a = if eqb_ℤ a.card_num (negsuc 0) then some (record a { card_num = n }) else none

abbrev set_file : Text → Option Text → Args → Option Args
set_file file none a = some (record a { firmware_file = some file })
set_file file (some old) a = none

-- "short-form commands"
abbrev short_command : Text → Option Text
short_command t =
    if same_text t (codes "-h")
    then some (codes "help")
    else if same_text t (codes "-l")
    then some (codes "list")
    else if same_text t (codes "-u")
    then some (codes "update")
    else none

abbrev set_command : Option Text → Option Text → Args → Option Args
set_command none old a = none
set_command (some t) none a = some (record a { command = some t })
set_command (some t) (some old) a = none

-- What an argument is: an option with its value, or with the next argument as its value, a short command,
-- or a word.
pub data Arg : Type 0 where
  card file : Text → Arg
  card_next file_next short word : Arg

abbrev is_dash : Text → Bool
is_dash [] = false
is_dash (c ∷ cs) = c == 45

abbrev or_word : Text → Arg
or_word t = if is_dash t then short else word

abbrev file_or : Option Text → Option Text → Text → Arg
file_or (some []) long t = file_next
file_or (some (c ∷ cs)) long t = file (c ∷ cs)
file_or none (some f) t = file f
file_or none none t = if same_text t (codes "--firmware") then file_next else or_word t

abbrev card_or : Option Text → Option Text → Text → Arg
card_or (some []) long t = card_next
card_or (some (c ∷ cs)) long t = card (c ∷ cs)
card_or none (some n) t = card n
card_or none none t =
    if same_text t (codes "--card")
    then card_next
    else file_or (behind (codes "-f") t) (behind (codes "--firmware=") t) t

unfoldable pub arg_of : Text → Arg
arg_of t = card_or (behind (codes "-c") t) (behind (codes "--card=") t) t

abbrev pub and_parse : Option Args → (Args → Option Args) → Option Args
and_parse none f = none
and_parse (some a) f = f a

-- A word is the command, and takes the arguments behind it.
abbrev pub take_word : Option Text → Text → List Text → Args → Option Args
take_word none t rest a = some (record a { command = some t; cmd_argv = rest })
take_word (some old) t rest a = none

-- The loop of `parse_args`; `none` is the end of the program with the short help. An argument that another
-- one takes as its value comes with the flag of that option.
pub data Expected : Type 0 where
  anything a_card a_file : Expected

unfoldable pub parse_loop : Expected → List Text → Args → Option Args
unfolding arg_of card_number
parse_loop anything [] a = some a
parse_loop a_card [] a = none
parse_loop a_file [] a = none
parse_loop a_card (t ∷ ts) a = and_parse (set_card (card_number t) a) (parse_loop anything ts)
parse_loop a_file (t ∷ ts) a = and_parse (set_file t a.firmware_file a) (parse_loop anything ts)
parse_loop anything (t ∷ ts) a = elim (arg_of t) [
  | card n ↦ and_parse (set_card (card_number n) a) (parse_loop anything ts)
  | file f ↦ and_parse (set_file f a.firmware_file a) (parse_loop anything ts)
  | card_next ↦ parse_loop a_card ts a
  | file_next ↦ parse_loop a_file ts a
  | short ↦ and_parse (set_command (short_command t) a.command a) (parse_loop anything ts)
  | word ↦ take_word a.command t ts a
]

-- A card without a command is an error.
abbrev pub with_command : Option Args → Option Args
with_command none = none
with_command (some a) = elim (a.command) [
  | none ↦ if eqb_ℤ a.card_num (negsuc 0) then some a else none
  | some c ↦ some a
]

-- `parse_args`, without the program's name
unfoldable pub parse_args : List Text → Option Args
unfolding parse_loop
parse_args argv = with_command (parse_loop anything argv no_args)
