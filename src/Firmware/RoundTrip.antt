-- ===== src/Firmware/RoundTrip.antt =====
-- client/firmware.c: the sections of a file, written out in the format of client/firmware.h, are read back.
use fcp_support.Base.{ℕ, ◌/◌, ◌%◌, ◌^◌, ◌<◌, List, [], ◌∷◌, ◌++◌, All, false, replicate}
use fcp_support.Base.{
  none, some, take, drop, length, ltb, ◌≡◌, ◌≢◌, refl, sym, ap, ◌∙◌, arith, length-append,
}
use fcp_support.Base.{take-append, drop-append, take_all, if_false}
use fcp_support.EspDfu.Update.Gate.{same_bytes_iff}
use fcp_support.Firmware.{
  done, undefined, and_then, FirmwareType, container, app, esp, leapfrog, magic_of,
  firmware_type_from_magic, read_magic, Version, get_version, Firmware, firmware_header_disk_to_mem,
  read_header, md5_for, header_read, read_header_and_data, section_of,
  read_magic_and_header_and_data, read_sections, get_be16, get_be32,
}

-- The on-disk format: big-endian fields, in the order of the structs.
abbrev pub be16 : ℕ → List ℕ
be16 n = (n / 256 % 256) ∷ (n % 256) ∷ []

abbrev pub be32 : ℕ → List ℕ
be32 n = (n / 16777216 % 256) ∷ (n / 65536 % 256) ∷ (n / 256 % 256) ∷ (n % 256) ∷ []

abbrev pub version_bytes : Version → List ℕ
version_bytes (a, (b, (c, d))) = be32 a ++ be32 b ++ be32 c ++ be32 d

abbrev fields : Firmware → List ℕ
fields f =
    be16 f.usb_vid ++ be16 f.usb_pid ++ version_bytes f.firmware_version ++ be32 f.firmware_length

abbrev pub section_bytes : Firmware → List ℕ → List ℕ
section_bytes f rest =
    magic_of f.firmware_type ++ (fields f ++ (f.sha256 ++ (f.firmware_data ++ rest)))

abbrev pub IsVersion : Version → Type 0
IsVersion (a, (b, (c, d))) = (a < 2 ^ 32) × ((b < 2 ^ 32) × ((c < 2 ^ 32) × (d < 2 ^ 32)))

-- A section that is there in full, with the right hashes.
pub record IsSection (sha md5_of : List ℕ → List ℕ) (f : Firmware) : Type 0 where
  pub kind : f.firmware_type ≢ container
  pub vid : f.usb_vid < 2 ^ 16
  pub pid : f.usb_pid < 2 ^ 16
  pub version : IsVersion f.firmware_version
  pub size : f.firmware_length < 2 ^ 32
  pub whole : length f.firmware_data ≡ f.firmware_length
  pub hash : sha f.firmware_data ≡ f.sha256
  pub hash_length : length f.sha256 ≡ 32
  pub added : md5_for sha md5_of f.firmware_type (replicate 16 0) f.firmware_data ≡ f.md5

-- The header alone, as it is before the data is read.
abbrev bare : Firmware → Firmware
bare f = record f { md5 = replicate 16 0; firmware_data = [] }

pub get_be32-be32 : (n : ℕ) (rest : List ℕ) → n < 2 ^ 32 → get_be32 (be32 n ++ rest) ≡ n
get_be32-be32 n rest h = omega arith

pub get_be16-be16 : (n : ℕ) (rest : List ℕ) → n < 2 ^ 16 → get_be16 (be16 n ++ rest) ≡ n
get_be16-be16 n rest h = omega arith

pub get_version-bytes :
    (v : Version) (rest : List ℕ) → IsVersion v → get_version (version_bytes v ++ rest) ≡ v
unfolding get_version
get_version-bytes (a, (b, (c, d))) rest (ha, (hb, (hc, hd))) =
    let ea = get_be32-be32 a [] ha in
    let eb = get_be32-be32 b [] hb in
    let ec = get_be32-be32 c [] hc in
    let ed = get_be32-be32 d [] hd in λ i. (ea i, (eb i, (ec i, ed i)))

length-magic_of : (t : FirmwareType) → length (magic_of t) ≡ 8
length-magic_of container = refl
length-magic_of app = refl
length-magic_of esp = refl
length-magic_of leapfrog = refl

pub read_magic-magic_of :
    (t : FirmwareType) (rest : List ℕ) → read_magic (magic_of t ++ rest) ≡ (some t, rest)
unfolding read_magic firmware_type_from_magic
read_magic-magic_of container rest =
    if_false (ltb (length (magic_of container ++ rest)) 8) (none, magic_of container ++ rest) _
      (ground arith)
read_magic-magic_of app rest =
    if_false (ltb (length (magic_of app ++ rest)) 8) (none, magic_of app ++ rest) _ (ground arith)
read_magic-magic_of esp rest =
    if_false (ltb (length (magic_of esp ++ rest)) 8) (none, magic_of esp ++ rest) _ (ground arith)
read_magic-magic_of leapfrog rest =
    if_false (ltb (length (magic_of leapfrog ++ rest)) 8) (none, magic_of leapfrog ++ rest) _
      (ground arith)

read_header-bytes :
    (t : FirmwareType) (vid pid len : ℕ) (v : Version) (hash rest : List ℕ)
    → vid < 2 ^ 16
    → pid < 2 ^ 16
    → IsVersion v
    → len < 2 ^ 32
    → length hash ≡ 32
    → read_header t ((be16 vid ++ be16 pid ++ version_bytes v ++ be32 len) ++ (hash ++ rest))
      ≡ done (
        record {
          firmware_type = t;
          usb_vid = vid;
          usb_pid = pid;
          firmware_version = v;
          firmware_length = len;
          sha256 = hash;
          md5 = replicate 16 0;
          firmware_data = [];
        },
        rest,
      )
unfolding read_header firmware_header_disk_to_mem
read_header-bytes t vid pid len (a, (b, (c, d))) hash rest hv hp hver hl hh =
    if_false
      (ltb
        (length
          ((be16 vid ++ be16 pid ++ version_bytes (a, (b, (c, d))) ++ be32 len) ++ (hash ++ rest)))
        56)
      undefined _ (ground (arith, length-append hash rest, hh))
    ∙ λ i. done (
      record {
        firmware_type = t;
        usb_vid = get_be16-be16 vid [] hv i;
        usb_pid = get_be16-be16 pid [] hp i;
        firmware_version =
            get_version-bytes (a, (b, (c, d))) (be32 len ++ take 32 (hash ++ rest)) hver i;
        firmware_length = get_be32-be32 len [] hl i;
        sha256 = taken i;
        md5 = replicate 16 0;
        firmware_data = [];
      },
      dropped i,
    )
  where
    front : take 32 (hash ++ rest) ≡ hash
    front = ap (λ (k : ℕ). take k (hash ++ rest)) (sym hh) ∙ take-append hash rest

    taken : take 32 (take 32 (hash ++ rest)) ≡ hash
    taken = ap (take 32) front ∙ take_all 32 hash (omega (arith, hh))

    dropped : drop 32 (hash ++ rest) ≡ rest
    dropped = ap (λ (k : ℕ). drop k (hash ++ rest)) (sym hh) ∙ drop-append hash rest

module _ (sha md5_of : List ℕ → List ℕ) where
  header_read-bytes :
      (f : Firmware) (rest : List ℕ)
      → IsSection sha md5_of f
      → header_read sha md5_of (bare f, f.firmware_data ++ rest) ≡ done (f, rest)
  unfolding header_read
  header_read-bytes f rest h =
      let long : ltb (length (f.firmware_data ++ rest)) f.firmware_length ≡ false =
        ground (arith, length-append f.firmware_data rest, h.whole) in
      let taken : take f.firmware_length (f.firmware_data ++ rest) ≡ f.firmware_data =
        ap (λ (k : ℕ). take k (f.firmware_data ++ rest)) (sym h.whole)
        ∙ take-append f.firmware_data rest in
      let dropped : drop f.firmware_length (f.firmware_data ++ rest) ≡ rest =
        ap (λ (k : ℕ). drop k (f.firmware_data ++ rest)) (sym h.whole)
        ∙ drop-append f.firmware_data rest in
      let intact = (same_bytes_iff (sha f.firmware_data) f.sha256).1 h.hash in
      rw (long, taken, intact, dropped, h.added) refl

  read_header_and_data-bytes :
      (f : Firmware) (rest : List ℕ)
      → IsSection sha md5_of f
      → read_header_and_data sha md5_of f.firmware_type
          (fields f ++ (f.sha256 ++ (f.firmware_data ++ rest)))
        ≡ done (f, rest)
  unfolding read_header_and_data
  read_header_and_data-bytes f rest h =
      ap (λ p. and_then p (header_read sha md5_of))
        (read_header-bytes f.firmware_type f.usb_vid f.usb_pid f.firmware_length f.firmware_version
          f.sha256 (f.firmware_data ++ rest) h.vid h.pid h.version h.size h.hash_length)
      ∙ header_read-bytes f rest h

  section_of-kind :
      (t : FirmwareType) (file : List ℕ)
      → t ≢ container
      → section_of sha md5_of (some t, file) ≡ read_header_and_data sha md5_of t file
  unfolding section_of
  section_of-kind container file n = absurd (n refl)
  section_of-kind app file n = refl
  section_of-kind esp file n = refl
  section_of-kind leapfrog file n = refl

  read_section-bytes :
      (f : Firmware) (rest : List ℕ)
      → IsSection sha md5_of f
      → read_magic_and_header_and_data sha md5_of (section_bytes f rest) ≡ done (f, rest)
  unfolding read_magic_and_header_and_data
  read_section-bytes f rest h =
      ap (section_of sha md5_of) (read_magic-magic_of f.firmware_type _)
      ∙ section_of-kind f.firmware_type _ h.kind
      ∙ read_header_and_data-bytes f rest h

  -- The sections one after the other.
  abbrev pub sections_bytes : List Firmware → List ℕ → List ℕ
  sections_bytes [] rest = rest
  sections_bytes (f ∷ fs) rest = section_bytes f (sections_bytes fs rest)

  -- Sections that are there in full with the right hashes, written out one after the other, are read back
  -- as they are, and what follows them is left.
  pub read_sections-bytes :
      (fs : List Firmware) (rest : List ℕ)
      → All (IsSection sha md5_of) fs
      → read_sections sha md5_of (length fs) (sections_bytes fs rest) ≡ done (fs, rest)
  unfolding read_sections
  read_sections-bytes [] rest h = refl
  read_sections-bytes (f ∷ fs) rest (h, hs) =
      rw (read_section-bytes f (sections_bytes fs rest) h, read_sections-bytes fs rest hs) refl
