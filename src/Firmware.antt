-- ===== src/Firmware.antt =====
-- client/firmware.c and client/firmware.h: reading a firmware file. A file is the list of its bytes from
-- where it is read on. SHA256 and MD5 are parameters.
pub mod RoundTrip
pub mod Container
use fcp_support.Base.{
  ℕ, zero, suc, ◌+◌, ◌*◌, ◌%◌, List, [], ◌∷◌, Bool, true, false, not, ◌||◌, if◌then◌else◌,
}
use fcp_support.Base.{Option, none, some, take, drop, length, replicate, byte_at, ltb}
use fcp_support.EspDfu.Update.{same_bytes}

-- What a reader comes to: a value, NULL, or a `free` of or a read through a pointer that was never set.
pub data Parse (A : Type 0) : Type 0 where
  done : A → Parse A
  failed undefined : Parse A

abbrev pub and_then : {A B : Type 0} → Parse A → (A → Parse B) → Parse B
and_then (done a) f = f a
and_then failed f = failed
and_then undefined f = undefined

-- `enum firmware_type`
pub data FirmwareType : Type 0 where
  container app esp leapfrog : FirmwareType

-- `firmware_type_magic`
abbrev pub magic_of : FirmwareType → List ℕ
magic_of container = b'S' ∷ b'C' ∷ b'A' ∷ b'R' ∷ b'L' ∷ b'B' ∷ b'O' ∷ b'X' ∷ []
magic_of app = b'S' ∷ b'C' ∷ b'A' ∷ b'R' ∷ b'L' ∷ b'E' ∷ b'T' ∷ b'4' ∷ []
magic_of esp = b'S' ∷ b'C' ∷ b'A' ∷ b'R' ∷ b'L' ∷ b'E' ∷ b'S' ∷ b'P' ∷ []
magic_of leapfrog = b'S' ∷ b'C' ∷ b'A' ∷ b'R' ∷ b'L' ∷ b'E' ∷ b'A' ∷ b'P' ∷ []

-- `firmware_type_from_magic`, of eight bytes; `none` is -1.
unfoldable pub firmware_type_from_magic : List ℕ → Option FirmwareType
firmware_type_from_magic m =
    if same_bytes m (magic_of container)
    then some container
    else if same_bytes m (magic_of app)
    then some app
    else if same_bytes m (magic_of esp)
    then some esp
    else if same_bytes m (magic_of leapfrog)
    then some leapfrog
    else none

-- `read_magic`, and the rest of the file
unfoldable pub read_magic : List ℕ → Option FirmwareType × List ℕ
read_magic file =
    if ltb (length file) 8
    then (none, file)
    else (firmware_type_from_magic (take 8 file), drop 8 file)

-- `ntohs` and `ntohl` of a field
abbrev pub get_be16 : List ℕ → ℕ
get_be16 bs = byte_at bs 0 % 256 * 256 + byte_at bs 1 % 256

abbrev pub get_be32 : List ℕ → ℕ
get_be32 bs = get_be16 bs * 65536 + get_be16 (drop 2 bs)

abbrev pub Version : Type 0
Version = ℕ × (ℕ × (ℕ × ℕ))

unfoldable pub get_version : List ℕ → Version
get_version bs =
    (get_be32 bs, (get_be32 (drop 4 bs), (get_be32 (drop 8 bs), get_be32 (drop 12 bs))))

-- `struct firmware`
pub record Firmware : Type 0 where
  pub firmware_type : FirmwareType
  pub usb_vid : ℕ
  pub usb_pid : ℕ
  pub firmware_version : Version
  pub firmware_length : ℕ
  pub sha256 : List ℕ
  pub md5 : List ℕ
  pub firmware_data : List ℕ

-- `firmware_header_disk_to_mem`
unfoldable pub firmware_header_disk_to_mem : FirmwareType → List ℕ → Firmware
unfolding get_version
firmware_header_disk_to_mem t disk = record {
  firmware_type = t;
  usb_vid = get_be16 disk;
  usb_pid = get_be16 (drop 2 disk);
  firmware_version = get_version (drop 4 disk);
  firmware_length = get_be32 (drop 20 disk);
  sha256 = take 32 (drop 24 disk);
  md5 = replicate 16 0;
  firmware_data = [];
}

-- `read_header`; a short file ends in a `free` of an uninitialised pointer.
unfoldable pub read_header : FirmwareType → List ℕ → Parse (Firmware × List ℕ)
read_header t file =
    if ltb (length file) 56
    then undefined
    else done (firmware_header_disk_to_mem t (take 56 file), drop 56 file)

-- `struct firmware_container`
pub record FirmwareContainer : Type 0 where
  pub container_vid : ℕ
  pub container_pid : ℕ
  pub container_version : Version
  pub num_sections : ℕ
  pub sections : List Firmware

-- `read_firmware_container_header`, and the rest of the file
unfoldable pub read_firmware_container_header : List ℕ → Parse (FirmwareContainer × List ℕ)
unfolding get_version
read_firmware_container_header file =
    if ltb (length file) 24
    then failed
    else done (
      record {
        container_vid = get_be16 file;
        container_pid = get_be16 (drop 2 file);
        container_version = get_version (drop 4 file);
        num_sections = get_be32 (drop 20 file);
        sections = [];
      },
      drop 24 file,
    )

-- The container that a firmware outside of one is put into.
abbrev pub container_of : Firmware → FirmwareContainer
container_of f = record {
  container_vid = 0;
  container_pid = 0;
  container_version = (0, (0, (0, 0)));
  num_sections = 1;
  sections = f ∷ [];
}

-- A file without a known magic is read all the same, with the type -1. Its one section is left out here:
-- nothing looks at it.
abbrev header_unknown : List ℕ → Parse FirmwareContainer
header_unknown file =
    if ltb (length file) 56
    then undefined
    else done (record {
      container_vid = 0;
      container_pid = 0;
      container_version = (0, (0, (0, 0)));
      num_sections = 1;
      sections = [];
    })

header_of : Option FirmwareType × List ℕ → Parse FirmwareContainer
header_of (none, file) = header_unknown file
header_of (some container, file) =
    and_then (read_firmware_container_header file) (λ (c, rest). done c)
header_of (some app, file) = and_then (read_header app file) (λ (f, rest). done (container_of f))
header_of (some esp, file) = and_then (read_header esp file) (λ (f, rest). done (container_of f))
header_of (some leapfrog, file) =
    and_then (read_header leapfrog file) (λ (f, rest). done (container_of f))

-- `read_firmware_header`, of a file that could be opened
unfoldable pub read_firmware_header : List ℕ → Parse FirmwareContainer
unfolding header_of
read_firmware_header file = header_of (read_magic file)

module _ (sha md5_of : List ℕ → List ℕ) where
  -- The MD5 is only added for ESP firmware.
  abbrev pub md5_for : FirmwareType → List ℕ → List ℕ → List ℕ
  md5_for esp old bytes = md5_of bytes
  md5_for container old bytes = old
  md5_for app old bytes = old
  md5_for leapfrog old bytes = old

  -- What follows the header.
  unfoldable pub header_read : Firmware × List ℕ → Parse (Firmware × List ℕ)
  header_read (f, file) =
      let bytes = take f.firmware_length file in
      if ltb (length file) f.firmware_length
      then failed
      else if not (same_bytes (sha bytes) f.sha256)
      then failed
      else done (
        record f { firmware_data = bytes; md5 = md5_for f.firmware_type f.md5 bytes },
        drop f.firmware_length file,
      )

  -- `read_header_and_data`
  unfoldable pub read_header_and_data : FirmwareType → List ℕ → Parse (Firmware × List ℕ)
  read_header_and_data t file = and_then (read_header t file) header_read

  section_of : Option FirmwareType × List ℕ → Parse (Firmware × List ℕ)
  section_of (none, file) = failed
  section_of (some container, file) = failed
  section_of (some app, file) = read_header_and_data app file
  section_of (some esp, file) = read_header_and_data esp file
  section_of (some leapfrog, file) = read_header_and_data leapfrog file

  -- `read_magic_and_header_and_data`
  unfoldable pub read_magic_and_header_and_data : List ℕ → Parse (Firmware × List ℕ)
  unfolding section_of
  read_magic_and_header_and_data file = section_of (read_magic file)

  -- The loop over the sections of `read_firmware_container`.
  unfoldable pub read_sections : ℕ → List ℕ → Parse (List Firmware × List ℕ)
  read_sections zero file = done ([], file)
  read_sections (suc n) file =
      and_then (read_magic_and_header_and_data file)
        (λ (f, rest). and_then (read_sections n rest) (λ (fs, last). done (f ∷ fs, last)))

  -- The header says that there are `count` sections.
  sections_counted : List ℕ → ℕ → Parse FirmwareContainer
  unfolding get_version
  sections_counted file count =
      if ltb count 1 || ltb 3 count
      then failed
      else and_then (read_sections count (drop 24 file)) (λ (fs, rest). done (record {
        container_vid = get_be16 file;
        container_pid = get_be16 (drop 2 file);
        container_version = get_version (drop 4 file);
        num_sections = count;
        sections = fs;
      }))

  -- `read_firmware_container`, with `firmware_container_header_disk_to_mem`; what follows the sections
  -- is not read.
  unfoldable pub read_firmware_container : List ℕ → Parse FirmwareContainer
  unfolding sections_counted
  read_firmware_container file =
      if ltb (length file) 24 then failed else sections_counted file (get_be32 (drop 20 file))

  -- A firmware that is not in a container is put into one.
  unfoldable pub single : Parse (Firmware × List ℕ) → Parse FirmwareContainer
  single p = and_then p (λ (f, rest). done (container_of f))

  unfoldable pub file_of : Option FirmwareType × List ℕ → Parse FirmwareContainer
  unfolding single
  file_of (none, file) = failed
  file_of (some container, file) = read_firmware_container file
  file_of (some app, file) = single (read_header_and_data app file)
  file_of (some esp, file) = single (read_header_and_data esp file)
  file_of (some leapfrog, file) = single (read_header_and_data leapfrog file)

  -- `read_firmware_file`, of a file that could be opened
  unfoldable pub read_firmware_file : List ℕ → Parse FirmwareContainer
  unfolding file_of
  read_firmware_file file = file_of (read_magic file)
