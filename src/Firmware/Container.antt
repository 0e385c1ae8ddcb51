-- ===== src/Firmware/Container.antt =====
-- client/firmware.c: a container file, written out in the format of client/firmware.h, is read back.
use fcp_support.Base.{ℕ, ◌^◌, ◌<◌, ◌≤◌, List, [], ◌++◌, All, false, length, ltb, drop, ◌||◌}
use fcp_support.Base.{◌≡◌, sym, ap, ◌∙◌, arith, if_false}
use fcp_support.Firmware.{
  done, failed, container, magic_of, get_be32, Version, Firmware, FirmwareContainer, read_sections,
  sections_counted, read_firmware_container, read_firmware_file, file_of,
}
use fcp_support.Firmware.RoundTrip.{
  be16, be32, version_bytes, IsVersion, IsSection, sections_bytes, read_sections-bytes,
  get_be16-be16, get_be32-be32, get_version-bytes, read_magic-magic_of,
}

module _ (sha md5_of : List ℕ → List ℕ) where
  -- A container with one to three sections that are there in full, with the right hashes.
  pub record IsContainer (c : FirmwareContainer) : Type 0 where
    pub vid : c.container_vid < 2 ^ 16
    pub pid : c.container_pid < 2 ^ 16
    pub version : IsVersion c.container_version
    pub counted : length c.sections ≡ c.num_sections
    pub some_section : 0 < c.num_sections
    pub few : c.num_sections ≤ 3
    pub good : All (IsSection sha md5_of) c.sections

  abbrev header_bytes : FirmwareContainer → List ℕ
  header_bytes c =
      be16 c.container_vid
      ++ be16 c.container_pid
      ++ version_bytes c.container_version
      ++ be32 c.num_sections

  abbrev pub container_bytes : FirmwareContainer → List ℕ → List ℕ
  container_bytes c rest =
      magic_of container ++ (header_bytes c ++ sections_bytes sha md5_of c.sections rest)

  read_firmware_container-bytes :
      (vid pid n : ℕ) (v : Version) (fs : List Firmware) (rest : List ℕ)
      → vid < 2 ^ 16
      → pid < 2 ^ 16
      → IsVersion v
      → length fs ≡ n
      → 0 < n
      → n ≤ 3
      → All (IsSection sha md5_of) fs
      → read_firmware_container sha md5_of
          ((be16 vid ++ be16 pid ++ version_bytes v ++ be32 n) ++ sections_bytes sha md5_of fs rest)
        ≡ done (record {
          container_vid = vid;
          container_pid = pid;
          container_version = v;
          num_sections = n;
          sections = fs;
        })
  unfolding read_firmware_container sections_counted
  read_firmware_container-bytes vid pid n (a, (b, (c, d))) fs rest hv hp hver counted some_section
        few good =
      let file =
        (be16 vid ++ be16 pid ++ version_bytes (a, (b, (c, d))) ++ be32 n)
        ++ sections_bytes sha md5_of fs rest in
      let known : get_be32 (drop 20 file) ≡ n =
        get_be32-be32 n (sections_bytes sha md5_of fs rest) (omega arith) in
      let bounds : (ltb n 1 || ltb 3 n) ≡ false = ground arith in
      let read : read_sections sha md5_of n (sections_bytes sha md5_of fs rest) ≡ done (fs, rest) =
        ap (λ (k : ℕ). read_sections sha md5_of k (sections_bytes sha md5_of fs rest)) (sym counted)
        ∙ read_sections-bytes sha md5_of fs rest good in
      if_false (ltb (length file) 24) failed _ (ground arith)
      ∙ ap (sections_counted sha md5_of file) known
      ∙ if_false (ltb n 1 || ltb 3 n) failed _ bounds
      ∙ rw read (λ i. done (record {
        container_vid = get_be16-be16 vid [] hv i;
        container_pid = get_be16-be16 pid [] hp i;
        container_version =
            get_version-bytes (a, (b, (c, d))) (be32 n ++ sections_bytes sha md5_of fs rest) hver i;
        num_sections = n;
        sections = fs;
      }))

  -- A container with one to three sections that are there in full, with the right hashes, written out in
  -- the on-disk format, is read back as it is, whatever follows it in the file.
  pub read_firmware_file-container :
      (c : FirmwareContainer) (rest : List ℕ)
      → IsContainer c
      → read_firmware_file sha md5_of (container_bytes c rest) ≡ done c
  unfolding read_firmware_file file_of
  read_firmware_file-container c rest h =
      ap (file_of sha md5_of) (read_magic-magic_of container _)
      ∙ read_firmware_container-bytes c.container_vid c.container_pid c.num_sections
          c.container_version c.sections rest h.vid h.pid h.version h.counted h.some_section h.few
          h.good
