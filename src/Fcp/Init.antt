-- ===== src/Fcp/Init.antt =====
-- server/fcp.c and server/device-ops.c: the opening of a card, up to the start of FCP.
use fcp_support.Base.{
  ℕ, ◌+◌, ◌/◌, ◌%◌, ◌^◌, List, ◌++◌, ◌&&◌, Option, none, some, ℤ, pos, negsuc, leb, length, take,
  le16, le32, Res, ok, err, Hw, enoent, ◌==◌, if◌then◌else◌,
}
use fcp_support.Fcp.{opcode_init_1, opcode_init_2}

-- `started`: a result; `failed`: the return of a negative errno; `exits`: the end of the process.
pub data Start (A : Type 0) : Type 0 where
  started : A → Start A
  failed exits : ℕ → Start A

-- The ioctls FCP_IOCTL_PVERSION and FCP_IOCTL_INIT; the second takes the request and the room that is left
-- for the responses.
pub record Driver (D : Type 0) : Type 0 where
  pub pversion : Hw D ℕ
  pub init : List ℕ → ℕ → Hw D (List ℕ)

-- FCP_HWDEP_VERSION_MAJOR and FCP_HWDEP_VERSION_MINOR
abbrev pub version_major : ℕ → ℕ
version_major v = v / 2 ^ 16 % 256

abbrev pub version_minor : ℕ → ℕ
version_minor v = v / 2 ^ 8 % 256

-- FCP_STEP0_SIZE and FCP_STEP2_SIZE
abbrev pub step0_size : ℕ
step0_size = 24

abbrev pub step2_size : ℕ
step2_size = 84

-- `struct fcp_init`, as `fcp_init` fills it
abbrev pub init_request : List ℕ
init_request = le16 step0_size ++ le16 step2_size ++ le32 opcode_init_1 ++ le32 opcode_init_2

-- The firmware version that follows is only logged.
abbrev pub after_init : {D : Type 0} → Res (List ℕ) × D → Start (Unit {0}) × D
after_init (ok resp, d) = (started tt, d)
after_init (err e, d) = (exits 1, d)

abbrev pub after_version : {D : Type 0} → Driver D → Res ℕ × D → Start (Unit {0}) × D
after_version driver (err e, d) = (exits 1, d)
after_version driver (ok v, d) =
    if (version_major v == 2) && (version_minor v == 0)
    then after_init (driver.init init_request (step0_size + step2_size) d)
    else (if version_major v == 1 then exits 0 else exits 1, d)

-- `fcp_init`
unfoldable pub fcp_init : {D : Type 0} → Driver D → D → Start (Unit {0}) × D
fcp_init driver d = after_version driver (driver.pversion d)

-- What the system gives of a card: its usbid file, what `sscanf` reads in it, the errors of the two opens,
-- and the numbers of descriptors with the first one.
pub record Opens : Type 0 where
  pub usbid : Option (List ℕ)
  pub scan : List ℕ → Option (ℤ × ℤ)
  pub ctl_open : Option ℕ
  pub hwdep_open : Option ℕ
  pub ctl_fds : ℕ × Res ℤ
  pub hwdep_fds : ℕ × Res ℤ

abbrev pub in_range : Option (ℤ × ℤ) → Option (ℕ × ℕ)
in_range none = none
in_range (some (pos vid, pos pid)) =
    if leb vid 0xffff && leb pid 0xffff then some (vid, pid) else none
in_range (some (pos vid, negsuc pid)) = none
in_range (some (negsuc vid, pid)) = none

abbrev pub usb_ids_of : (List ℕ → Option (ℤ × ℤ)) → Option (List ℕ) → Option (ℕ × ℕ)
usb_ids_of scan none = none
usb_ids_of scan (some bytes) =
    if leb 10 (length bytes) then in_range (scan (take 9 bytes)) else none

-- `get_usb_ids`; `none` ends the process.
unfoldable pub get_usb_ids : Opens → Option (ℕ × ℕ)
get_usb_ids o = usb_ids_of o.scan o.usbid

abbrev pub fd_of : Res ℤ → Option ℤ
fd_of (ok fd) = some fd
fd_of (err e) = none

-- `get_alsa_fd`; `none` ends the process.
unfoldable pub get_alsa_fd : ℕ × Res ℤ → Option ℤ
get_alsa_fd (count, fd) = if count == 1 then fd_of fd else none

-- ENOPROTOOPT
abbrev pub enoprotoopt : ℕ
enoprotoopt = 92

-- `open_alsa_device`: the errno, if there is one
unfoldable pub open_alsa_device : Option ℕ → Option ℕ → Option ℕ
open_alsa_device (some e) hwdep = some e
open_alsa_device none none = none
open_alsa_device none (some e) = some (if e == enoent then enoprotoopt else e)

-- `struct fcp_device`, as `device_init` fills it
pub record Opened : Type 0 where
  pub card_num : ℕ
  pub usb_vid : ℕ
  pub usb_pid : ℕ
  pub ctl_fd : ℤ
  pub hwdep_fd : ℤ

abbrev pub with_init : {D : Type 0} → Opened → Start (Unit {0}) × D → Start Opened × D
with_init device (started u, d) = (started device, d)
with_init device (failed e, d) = (failed e, d)
with_init device (exits status, d) = (exits status, d)

module _ {D : Type 0} (driver : Driver D) where
  abbrev pub with_fds : ℕ → ℕ × ℕ → Option ℤ → Option ℤ → D → Start Opened × D
  with_fds card_num ids none hwdep d = (exits 1, d)
  with_fds card_num ids (some ctl) none d = (exits 1, d)
  with_fds card_num (vid, pid) (some ctl) (some hwdep) d =
      with_init
        (record {
          card_num = card_num;
          usb_vid = vid;
          usb_pid = pid;
          ctl_fd = ctl;
          hwdep_fd = hwdep;
        })
        (fcp_init driver d)

  abbrev pub with_error : Opens → ℕ → ℕ × ℕ → Option ℕ → D → Start Opened × D
  with_error o card_num ids (some e) d = (failed e, d)
  with_error o card_num ids none d =
      with_fds card_num ids (get_alsa_fd o.ctl_fds) (get_alsa_fd o.hwdep_fds) d

  abbrev pub with_ids : Opens → ℕ → Option (ℕ × ℕ) → D → Start Opened × D
  with_ids o card_num none d = (exits 1, d)
  with_ids o card_num (some ids) d =
      with_error o card_num ids (open_alsa_device o.ctl_open o.hwdep_open) d

  -- `device_init`
  unfoldable pub device_init : Opens → ℕ → D → Start Opened × D
  unfolding get_usb_ids open_alsa_device get_alsa_fd fcp_init
  device_init o card_num d = with_ids o card_num (get_usb_ids o) d
