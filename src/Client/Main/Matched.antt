-- ===== src/Client/Main/Matched.antt =====
-- client/main.c: a firmware is only written to the card that it is for.
use Prim.Native.String.{String}
use mathlib.Core.Path.{subst}
use fcp_support.Base.{
  eqb_ℤ, List, [], ◌∷◌, Bool, true, false, Bool-cases, Option, none, some, ◌≡◌, refl, sym, inl, inr,
  ℤ, pos, ==_iff, ◌==◌, All, if_true, if_false, ltb_ℤ,
}
use fcp_support.Base.Options.{OfFound}
use fcp_support.Client.Cards.Ours.{IsOurs, enum_cards-IsOurs}
use fcp_support.Firmware.{FirmwareContainer, Parse, done, failed, undefined}
use fcp_support.Client.{Connection, FoundFirmware, SoundCard}
use fcp_support.Client.Versions.{firmware_cmp, get_latest_firmware}
use fcp_support.Client.Update.{
  Selection, no_firmware, up_to_date, unreadable, other_device, undefined_read, chosen,
  check_firmware_selection, check_pid, check_newer, check_named, read_named,
}
use fcp_support.Client.Args.{Text, Args, parse_args, same_text}
use fcp_support.Client.Main.{
  Handler, usage, about, reboot, erase_config, erase_app, upload_leapfrog, upload_esp, upload_app,
  list_cards, list_all, update_firmware, data_cmd, Command, commands, find_command, Host, cards_of,
  check_card_selection, find_card, card_num_or, connected, selected, numbered, among, Ran, runs,
  exits, with_selection, with_firmware, with_card, run_command, run_found, run_parsed, file_named,
  main,
}

-- The commands that write a firmware.
abbrev pub is_upload : Handler → Bool
is_upload usage = false
is_upload about = false
is_upload reboot = false
is_upload erase_config = false
is_upload erase_app = false
is_upload upload_leapfrog = true
is_upload upload_esp = true
is_upload upload_app = true
is_upload list_cards = false
is_upload list_all = false
is_upload update_firmware = true
is_upload data_cmd = false

-- The card is one of the cards, of the vendor and of a supported product, and the connection is one to its
-- server.
pub record IsSelected (host : Host) (card : SoundCard) (conn : Connection) : Type 0 where
  pub listed : (n : ℤ) × (find_card (cards_of host) n ≡ some card)
  pub ours : IsOurs card
  pub reached : host.connect_to_server card ≡ some conn

-- A card is selected, and the firmware is for cards of its product.
pub record IsMatched (host : Host) (card : Option (SoundCard × Connection))
    (fw : Option FirmwareContainer) : Type 0 where
  pub the_card : SoundCard
  pub connection : Connection
  pub the_firmware : FirmwareContainer
  pub has_card : card ≡ some (the_card, connection)
  pub has_firmware : fw ≡ some the_firmware
  pub same_product : the_firmware.container_pid ≡ the_card.usb_pid
  pub selected_card : IsSelected host the_card connection

-- What a run with such a handler is started with.
abbrev Runs : Host → Ran → Type 0
Runs host exits = Unit
Runs host (runs h card fw args) = is_upload h ≡ true → IsMatched host card fw

-- A command that writes a firmware needs a card and a firmware.
abbrev Needs : Command → Type 0
Needs c =
    is_upload c.handler ≡ true
    → (c.requires_card_selection ≡ true) × (c.requires_firmware_selection ≡ true)

commands-Needs : All Needs commands
commands-Needs = (no, (no, (no, (no, (no, (both, (both, (both, (no, (no, (both, (no, tt))))))))))))
  where
    no : {A : Type 0} → false ≡ true → A
    no h = absurd cc

    both : true ≡ true → (true ≡ true) × (true ≡ true)
    both h = (refl, refl)

-- What holds of every command holds of the one that is found.
find_command-All :
    (P : Command → Type 0) (cs : List Command) (name : Text)
    → All P cs
    → OfFound P (find_command cs name)
unfolding find_command
find_command-All P [] name h = tt
find_command-All P (c ∷ cs) name h = elim (Bool-cases (same_text c.name name)) [
  | inl same ↦ subst (OfFound P) (sym (if_true (same_text c.name name) _ _ same)) h.0
  | inr other ↦
      subst (OfFound P) (sym (if_false (same_text c.name name) _ _ other))
        (find_command-All P cs name h.1)
]

find_card-All :
    (P : SoundCard → Type 0) (cs : List SoundCard) (n : ℤ) → All P cs → OfFound P (find_card cs n)
unfolding find_card
find_card-All P [] n h = tt
find_card-All P (c ∷ cs) n h = elim (Bool-cases (eqb_ℤ (pos c.card_num) n)) [
  | inl same ↦ subst (OfFound P) (sym (if_true (eqb_ℤ (pos c.card_num) n) _ _ same)) h.0
  | inr other ↦
      subst (OfFound P) (sym (if_false (eqb_ℤ (pos c.card_num) n) _ _ other))
        (find_card-All P cs n h.1)
]

module _ (host : Host) where
  -- The selection of a card.
  abbrev Selects : Option (SoundCard × Connection) → Type 0
  Selects none = Unit
  Selects (some (card, conn)) = IsSelected host card conn

  connected-Selects :
      (c : SoundCard) (n : ℤ) (path : Option String) (o : Option Connection)
      → find_card (cards_of host) n ≡ some c
      → host.connect_to_server c ≡ o
      → Selects (connected host c path o)
  connected-Selects c n none o h e = tt
  connected-Selects c n (some path) none h e = tt
  connected-Selects c n (some path) (some conn) h e = record {
    listed = (n, h);
    ours =
        subst (OfFound IsOurs) h
          (find_card-All IsOurs (cards_of host) n (enum_cards-IsOurs host.scan host.alsa));
    reached = e;
  }

  selected-Selects :
      (n : ℤ) (o : Option SoundCard) → find_card (cards_of host) n ≡ o → Selects (selected host o)
  selected-Selects n none h = tt
  selected-Selects n (some c) h =
      connected-Selects c n c.socket_path (host.connect_to_server c) h refl

  numbered-Selects : (o : Option ℤ) → Selects (numbered host o)
  numbered-Selects none = tt
  numbered-Selects (some n) = selected-Selects n (find_card (cards_of host) n) refl

  among-Selects : (n : ℤ) (cs : List SoundCard) → Selects (among host n cs)
  among-Selects n [] = tt
  among-Selects n (c ∷ cs) = numbered-Selects (card_num_or n c cs)

  check_card_selection-Selects : (n : ℤ) → Selects (check_card_selection host n)
  unfolding check_card_selection
  check_card_selection-Selects n = among-Selects n (cards_of host)

  -- The selection of a firmware.
  abbrev ForCard : SoundCard → Selection → Type 0
  ForCard card (chosen fw) = fw.container_pid ≡ card.usb_pid
  ForCard card no_firmware = Unit
  ForCard card up_to_date = Unit
  ForCard card unreadable = Unit
  ForCard card other_device = Unit
  ForCard card undefined_read = Unit

  check_pid-ForCard :
      (card : SoundCard) (r : Parse FirmwareContainer) → ForCard card (check_pid card r)
  unfolding check_pid
  check_pid-ForCard card failed = tt
  check_pid-ForCard card undefined = tt
  check_pid-ForCard card (done f) = elim (Bool-cases (f.container_pid == card.usb_pid)) [
    | inl same ↦ rw same ((==_iff _ _).0 same)
    | inr other ↦ rw other tt
  ]

  check_newer-ForCard :
      (card : SoundCard) (o : Option FoundFirmware)
      → ForCard card (check_newer host.sha256 host.md5 host.files card o)
  check_newer-ForCard card none = tt
  check_newer-ForCard card (some x) =
      elim (Bool-cases
        (ltb_ℤ (firmware_cmp card.firmware_version x.firmware.container_version) (pos 0))) [
          | inl newer ↦
              rw newer (check_pid-ForCard card (read_named host.sha256 host.md5 host.files x.fn))
          | inr old ↦ rw old tt
        ]

  check_named-ForCard :
      (card : SoundCard) (fn : String) (r : Parse FirmwareContainer)
      → ForCard card (check_named host.sha256 host.md5 host.files card fn r)
  check_named-ForCard card fn failed = tt
  check_named-ForCard card fn undefined = tt
  check_named-ForCard card fn (done f) =
      check_pid-ForCard card (read_named host.sha256 host.md5 host.files fn)

  check_firmware_selection-ForCard :
      (card : SoundCard) (file : Option String)
      → ForCard card (check_firmware_selection host.sha256 host.md5 host.files card host.found file)
  unfolding check_firmware_selection
  check_firmware_selection-ForCard card none =
      check_newer-ForCard card (get_latest_firmware card.usb_pid host.found)
  check_firmware_selection-ForCard card (some fn) = check_named-ForCard card fn _

  with_selection-Runs :
      (h : Handler) (card : SoundCard) (conn : Connection) (args : List Text) (s : Selection)
      → IsSelected host card conn
      → ForCard card s
      → Runs host (with_selection h (card, conn) args s)
  with_selection-Runs h card conn args (chosen fw) k same = λ upload. record {
    the_card = card;
    connection = conn;
    the_firmware = fw;
    has_card = refl;
    has_firmware = refl;
    same_product = same;
    selected_card = k;
  }
  with_selection-Runs h card conn args no_firmware k same = tt
  with_selection-Runs h card conn args up_to_date k same = tt
  with_selection-Runs h card conn args unreadable k same = tt
  with_selection-Runs h card conn args other_device k same = tt
  with_selection-Runs h card conn args undefined_read k same = tt

  with_firmware-Runs :
      (cmd : Command) (args : Args) (needed : Bool) (card : Option (SoundCard × Connection))
      → Selects card
      → (is_upload cmd.handler ≡ true → needed ≡ true)
      → Runs host (with_firmware host cmd args needed card)
  with_firmware-Runs cmd args false card k n = λ upload. absurd (cc (n upload))
  with_firmware-Runs cmd args true none k n = tt
  with_firmware-Runs cmd args true (some (card, conn)) k n =
      with_selection-Runs cmd.handler card conn args.cmd_argv _ k
        (check_firmware_selection-ForCard card (file_named host args.firmware_file))

  with_card-Runs :
      (cmd : Command) (args : Args) (card : Option (SoundCard × Connection))
      → Selects card
      → Needs cmd
      → Runs host (with_card host cmd args card)
  with_card-Runs cmd args none k n = tt
  with_card-Runs cmd args (some card) k n =
      with_firmware-Runs cmd args cmd.requires_firmware_selection (some card) k (λ u. (n u).1)

  run_command-Runs :
      (cmd : Command) (args : Args) (needed : Bool)
      → Needs cmd
      → (is_upload cmd.handler ≡ true → needed ≡ true)
      → Runs host (run_command host cmd args needed)
  run_command-Runs cmd args true n k =
      with_card-Runs cmd args (check_card_selection host args.card_num)
        (check_card_selection-Selects args.card_num) n
  run_command-Runs cmd args false n k =
      with_firmware-Runs cmd args cmd.requires_firmware_selection none tt (λ u. (n u).1)

  run_found-Runs :
      (args : Args) (o : Option Command) → OfFound Needs o → Runs host (run_found host args o)
  run_found-Runs args none n = tt
  run_found-Runs args (some cmd) n =
      run_command-Runs cmd args cmd.requires_card_selection n (λ u. (n u).0)

  run_parsed-Runs : (o : Option Args) → Runs host (run_parsed host o)
  run_parsed-Runs none = tt
  run_parsed-Runs (some args) =
      run_found-Runs args _ (find_command-All Needs commands _ commands-Needs)

  -- Whatever the command line, the cards, the firmware found and the files are: when the program gets to a
  -- command that writes a firmware (update, or one of the uploads), a card of the system is selected that
  -- has the vendor's ID and a supported product, the connection is one to its server, and the firmware is for
  -- cards of its product.
  pub main-IsMatched :
      (argv : List Text) (h : Handler) (card : Option (SoundCard × Connection))
      (fw : Option FirmwareContainer) (args : List Text)
      → is_upload h ≡ true
      → main host argv ≡ runs h card fw args
      → IsMatched host card fw
  unfolding main
  main-IsMatched argv h card fw args upload e =
      subst (Runs host) e (run_parsed-Runs (parse_args argv)) upload
