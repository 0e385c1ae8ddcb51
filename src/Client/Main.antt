-- ===== src/Client/Main.antt =====
-- client/main.c: the commands, the selection of the card, and `main`. The program ends with `exits`.
pub mod Matched
use Prim.Native.String.{String}
use fcp_support.Base.{
  ℕ, zero, suc, List, [], ◌∷◌, Bool, true, false, Option, none, some, ℤ, pos, negsuc, eqb_ℤ, leb,
  length, if◌then◌else◌,
}
use fcp_support.Base.Chars.{codes}
use fcp_support.Protocol.{request_reboot, request_config_erase, request_app_firmware_erase}
use fcp_support.Firmware.{Firmware, FirmwareContainer, app, esp, leapfrog}
use fcp_support.Client.{Connection, FoundFirmware, SoundCard}
use fcp_support.Client.Cards.{AlsaCard, enum_cards}
use fcp_support.Client.Send.{send_simple_command}
use fcp_support.Client.Update.{
  Session, Selection, no_firmware, up_to_date, unreadable, other_device, undefined_read, chosen,
  on_connection, send_firmware_of_type, erase_and_upload, update, check_firmware_selection,
}
use fcp_support.Client.Args.{Text, Args, parse_args, same_text}

pub data Handler : Type 0 where
  usage about reboot erase_config erase_app upload_leapfrog upload_esp upload_app : Handler
  list_cards list_all update_firmware data_cmd : Handler

-- `struct command`
pub record Command : Type 0 where
  pub name : Text
  pub handler : Handler
  pub requires_cards : Bool
  pub requires_card_selection : Bool
  pub requires_firmwares : Bool
  pub requires_firmware_selection : Bool

abbrev row : String → Handler → Bool → Bool → Bool → Bool → Command
row name handler c s f g = record {
  name = codes name;
  handler = handler;
  requires_cards = c;
  requires_card_selection = s;
  requires_firmwares = f;
  requires_firmware_selection = g;
}

-- `commands`
abbrev pub commands : List Command
commands =
    row "help" usage false false false false
    ∷ row "about" about false false false false
    ∷ row "reboot" reboot true true false false
    ∷ row "erase-config" erase_config true true false false
    ∷ row "erase-app" erase_app true true false false
    ∷ row "upload-leapfrog" upload_leapfrog true true true true
    ∷ row "upload-esp" upload_esp true true true true
    ∷ row "upload-app" upload_app true true true true
    ∷ row "list" list_cards true false true false
    ∷ row "list-all" list_all true false true false
    ∷ row "update" update_firmware true true true true
    ∷ row "data" data_cmd true true false false
    ∷ []

-- `find_command`
unfoldable pub find_command : List Command → Text → Option Command
find_command [] name = none
find_command (c ∷ cs) name =
    let rest = find_command cs name in if same_text c.name name then some c else rest

-- The cards of the system, what `sscanf`, `connect_to_server` and `enum_firmwares` give, and the files that
-- can be read, by name.
pub record Host : Type 0 where
  pub alsa : List AlsaCard
  pub scan : List ℕ → Option (ℕ × ℕ)
  pub connect_to_server : SoundCard → Option Connection
  pub found : List FoundFirmware
  pub files : String → Option (List ℕ)
  pub sha256 : List ℕ → List ℕ
  pub md5 : List ℕ → List ℕ
  -- a name on the command line as a file's name
  pub file_name : Text → String

-- `cards`
abbrev pub cards_of : Host → List SoundCard
cards_of host = enum_cards host.scan host.alsa

-- `selected_card_num`, once it is set
abbrev pub card_num_or : ℤ → SoundCard → List SoundCard → Option ℤ
card_num_or (pos n) first rest = some (pos n)
card_num_or (negsuc (suc n)) first rest = some (negsuc (suc n))
card_num_or (negsuc zero) first [] = some (pos first.card_num)
card_num_or (negsuc zero) first (c ∷ cs) = none

-- The first card of the number.
unfoldable pub find_card : List SoundCard → ℤ → Option SoundCard
find_card [] n = none
find_card (c ∷ cs) n =
    let rest = find_card cs n in if eqb_ℤ (pos c.card_num) n then some c else rest

-- The card and the connection to its server.
abbrev pub connected :
    Host → SoundCard → Option String → Option Connection → Option (SoundCard × Connection)
connected host c none conn = none
connected host c (some path) none = none
connected host c (some path) (some conn) = some (c, conn)

abbrev pub selected : Host → Option SoundCard → Option (SoundCard × Connection)
selected host none = none
selected host (some c) = connected host c c.socket_path (host.connect_to_server c)

abbrev pub numbered : Host → Option ℤ → Option (SoundCard × Connection)
numbered host none = none
numbered host (some n) = selected host (find_card (cards_of host) n)

abbrev pub among : Host → ℤ → List SoundCard → Option (SoundCard × Connection)
among host n [] = none
among host n (c ∷ cs) = numbered host (card_num_or n c cs)

-- `check_card_selection`; `none` ends the program.
unfoldable pub check_card_selection : Host → ℤ → Option (SoundCard × Connection)
unfolding find_card enum_cards
check_card_selection host n = among host n (cards_of host)

-- What `main` comes to: the handler with the selected card and firmware, or an early end.
pub data Ran : Type 0 where
  runs : Handler → Option (SoundCard × Connection) → Option FirmwareContainer → List Text → Ran
  exits : Ran

abbrev pub with_selection : Handler → SoundCard × Connection → List Text → Selection → Ran
with_selection h card args (chosen fw) = runs h (some card) (some fw) args
with_selection h card args no_firmware = exits
with_selection h card args up_to_date = exits
with_selection h card args unreadable = exits
with_selection h card args other_device = exits
with_selection h card args undefined_read = exits

abbrev pub file_named : Host → Option Text → Option String
file_named host none = none
file_named host (some t) = some (host.file_name t)

-- `check_firmware_selection`, of the selected card; every command that needs a firmware needs a card.
abbrev pub with_firmware : Host → Command → Args → Bool → Option (SoundCard × Connection) → Ran
with_firmware host cmd args false card = runs cmd.handler card none args.cmd_argv
with_firmware host cmd args true none = exits
with_firmware host cmd args true (some card) = with_selection cmd.handler card args.cmd_argv (
    check_firmware_selection host.sha256 host.md5 host.files card.0 host.found
      (file_named host args.firmware_file))

abbrev pub with_card : Host → Command → Args → Option (SoundCard × Connection) → Ran
with_card host cmd args none = exits
with_card host cmd args (some card) =
    with_firmware host cmd args cmd.requires_firmware_selection (some card)

-- With a command: the card, and then the firmware, if they are needed.
abbrev pub run_command : Host → Command → Args → Bool → Ran
run_command host cmd args true = with_card host cmd args (check_card_selection host args.card_num)
run_command host cmd args false = with_firmware host cmd args cmd.requires_firmware_selection none

abbrev pub run_found : Host → Args → Option Command → Ran
run_found host args none = exits
run_found host args (some cmd) = run_command host cmd args cmd.requires_card_selection

abbrev command_or_list : Option Text → Text
command_or_list none = codes "list"
command_or_list (some t) = t

abbrev pub run_parsed : Host → Option Args → Ran
run_parsed host none = exits
run_parsed host (some args) =
    run_found host args (find_command commands (command_or_list args.command))

-- `main`, up to the call of the handler
unfoldable pub main : Host → List Text → Ran
unfolding parse_args find_command check_card_selection check_firmware_selection
main host argv = run_parsed host (parse_args argv)

-- The handlers that talk to the card; the others print.
unfoldable pub handle : Handler → List Firmware → Session → Option (Option ℤ × Session)
handle reboot sections s = some (on_connection (send_simple_command request_reboot false) s)
handle erase_config sections s =
    some (on_connection (send_simple_command request_config_erase false) s)
handle erase_app sections s =
    some (on_connection (send_simple_command request_app_firmware_erase false) s)
handle upload_leapfrog sections s = some (erase_and_upload leapfrog sections s)
handle upload_esp sections s = some (send_firmware_of_type esp sections s)
handle upload_app sections s = some (erase_and_upload app sections s)
handle update_firmware sections s = some (update sections s)
handle usage sections s = none
handle about sections s = none
handle list_cards sections s = none
handle list_all sections s = none
handle data_cmd sections s = none
