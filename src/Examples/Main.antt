-- ===== src/Examples/Main.antt =====
-- client/main.c and client/wait.c at a command line and at looks at the cards.
use fcp_support.Base.{pos, negsuc, true, ◌+◌, [], ◌∷◌, ◌≡◌, refl, ap, none, some, false}
use fcp_support.Base.Chars.{codes}
use fcp_support.Firmware.Container.{container_bytes, read_firmware_file-container}
use fcp_support.Examples.Container.{file, file-IsContainer, hash}
use fcp_support.Client.{Connection, SoundCard}
use fcp_support.Client.Data.Args.{parse_number}
use fcp_support.Client.Args.{card_number, parse_args, parse_loop, arg_of}
use fcp_support.Client.Main.{
  Host, main, runs, update_firmware, with_selection, find_command, check_card_selection, find_card,
}
use fcp_support.Client.Main.Matched.{IsMatched, main-IsMatched}
use fcp_support.Client.Cards.{
  Element, enum_cards, add_card, get_usb_id, get_socket_path, get_firmware_version,
}
use fcp_support.Client.Update.{check_firmware_selection, check_pid}
use fcp_support.Client.Versions.{
  firmware_cmp, cmp_part, get_supported_device_by_pid, place, get_latest_firmware,
}
use fcp_support.Client.Replugged.{Poll}

abbrev connection : Connection
connection = record {
  sent = [];
  writes = [];
  stream = [];
  reads = [];
  waits = [];
  showing_progress = false;
  shown = [];
  data_response = none;
}

abbrev card : SoundCard
card = record {
  card_num = 2;
  serial = "S1";
  socket_path = some "/run/fcp";
  usb_vid = 0x1235;
  usb_pid = 0x821b;
  firmware_version = (1, (2, (3, 4)));
  esp_firmware_version = (1, (2, (3, 4)));
}

abbrev version : Element
version = record {
  is_user = true;
  is_locked = true;
  is_tlv_readable = true;
  tlv = some (0x53434b54, "/run/fcp");
  count = 4;
  is_integer = true;
  values = some (λ n. n + 1);
}

abbrev host : Host
host = record {
  alsa =
      record {
        card_num = 2;
        usbid = some (codes "1235:821b\n");
        device_serial = some "S1";
        control = some (λ name. some version);
      }
      ∷ [];
  scan = λ bs. some (0x1235, 0x821b);
  connect_to_server = λ c. some connection;
  found = record { fn = "a.bin"; firmware = file } ∷ [];
  files = λ fn. some (container_bytes hash hash file []);
  sha256 = hash;
  md5 = hash;
  file_name = λ t. "a.bin";
}

update_runs :
    main host (codes "update" ∷ []) ≡ runs update_firmware (some (card, connection)) (some file) []
unfolding main parse_args parse_loop arg_of find_command check_card_selection find_card
    check_firmware_selection check_pid enum_cards add_card get_usb_id get_socket_path
    get_firmware_version get_supported_device_by_pid place firmware_cmp cmp_part get_latest_firmware
update_runs =
    ap (λ r. with_selection update_firmware (card, connection) [] (check_pid card r))
      (read_firmware_file-container hash hash file [] file-IsContainer)

main-IsMatched_example : IsMatched host (some (card, connection)) (some file)
main-IsMatched_example =
    main-IsMatched host (codes "update" ∷ []) update_firmware (some (card, connection)) (some file)
      [] refl update_runs

abbrev absent : Poll
absent = record { now = 5; cards = []; serial_of = λ n. none }

abbrev present : Poll
present = record { now = 6; cards = card ∷ []; serial_of = λ n. some "S1" }

parse_number_hex : parse_number (codes " 0x1F") ≡ some (pos 31)
unfolding parse_number
parse_number_hex = refl

parse_number_octal : parse_number (codes "-017") ≡ some (negsuc 14)
unfolding parse_number
parse_number_octal = refl

parse_number_invalid : parse_number (codes "08") ≡ none
unfolding parse_number
parse_number_invalid = refl

card_number_signed : card_number (codes "+7") ≡ some (pos 7)
unfolding card_number
card_number_signed = refl
