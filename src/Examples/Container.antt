-- ===== src/Examples/Container.antt =====
-- client/firmware.c at a container with one section of three bytes.
use fcp_support.Base.{ℕ, List, [], ◌∷◌, replicate, ◌≡◌, refl, arith}
use fcp_support.Firmware.{Firmware, FirmwareContainer, app, done, read_firmware_file}
use fcp_support.Firmware.RoundTrip.{IsSection}
use fcp_support.Firmware.Container.{IsContainer, container_bytes, read_firmware_file-container}

abbrev pub hash : List ℕ → List ℕ
hash bs = replicate 32 7

abbrev section : Firmware
section = record {
  firmware_type = app;
  usb_vid = 0x1235;
  usb_pid = 0x821b;
  firmware_version = (2, (0, (2128, 0)));
  firmware_length = 3;
  sha256 = replicate 32 7;
  md5 = replicate 16 0;
  firmware_data = 10 ∷ 20 ∷ 30 ∷ [];
}

section-IsSection : IsSection hash hash section
section-IsSection = record {
  kind = λ e. absurd cc;
  vid = omega arith;
  pid = omega arith;
  version = (omega arith, (omega arith, (omega arith, omega arith)));
  size = omega arith;
  whole = refl;
  hash = refl;
  hash_length = refl;
  added = refl;
}

abbrev pub file : FirmwareContainer
file = record {
  container_vid = 0x1235;
  container_pid = 0x821b;
  container_version = (2, (0, (2128, 0)));
  num_sections = 1;
  sections = section ∷ [];
}

pub file-IsContainer : IsContainer hash hash file
file-IsContainer = record {
  vid = omega arith;
  pid = omega arith;
  version = (omega arith, (omega arith, (omega arith, omega arith)));
  counted = refl;
  some_section = omega arith;
  few = omega arith;
  good = (section-IsSection, tt);
}

read_firmware_file-container_example :
    read_firmware_file hash hash (container_bytes hash hash file []) ≡ done file
read_firmware_file-container_example =
    read_firmware_file-container hash hash file [] file-IsContainer
