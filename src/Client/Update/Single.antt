-- ===== src/Client/Update/Single.antt =====
-- client/main.c and client/firmware.c: a firmware file that is not a container.
use Prim.Native.String.{String}
use fcp_support.Base.{ℕ, List, false, Option, none, some, ◌==◌, if_false}
use fcp_support.Base.{◌≡◌, ◌≢◌, refl, sym, ◌∙◌, arith}
use fcp_support.Firmware.{
  Firmware, FirmwareType, FirmwareContainer, container, app, esp, leapfrog, Parse, done, failed,
  undefined, read_magic, read_firmware_file, file_of, single,
}
use fcp_support.Client.{SoundCard, FoundFirmware}
use fcp_support.Client.Update.{chosen, check_pid, check_firmware_selection, check_named, read_named}

single-pid :
    (sha md5_of : List ℕ → List ℕ) (p : Parse (Firmware × List ℕ)) (f : FirmwareContainer)
    → single sha md5_of p ≡ done f
    → f.container_pid ≡ 0
unfolding single
single-pid sha md5_of (done (g, rest)) f e = cc e
single-pid sha md5_of failed f e = absurd cc
single-pid sha md5_of undefined f e = absurd cc

file_of-pid :
    (sha md5_of : List ℕ → List ℕ) (t : Option FirmwareType) (file : List ℕ) (f : FirmwareContainer)
    → t ≢ some container
    → file_of sha md5_of (t, file) ≡ done f
    → f.container_pid ≡ 0
unfolding file_of
file_of-pid sha md5_of none file f other e = absurd cc
file_of-pid sha md5_of (some container) file f other e = absurd (other refl)
file_of-pid sha md5_of (some app) file f other e = single-pid sha md5_of _ f e
file_of-pid sha md5_of (some esp) file f other e = single-pid sha md5_of _ f e
file_of-pid sha md5_of (some leapfrog) file f other e = single-pid sha md5_of _ f e

check_pid-refuses :
    (card : SoundCard) (p : Parse FirmwareContainer) (g : FirmwareContainer)
    → card.usb_pid ≢ 0
    → ((f : FirmwareContainer) → p ≡ done f → f.container_pid ≡ 0)
    → check_pid card p ≢ chosen g
unfolding check_pid
check_pid-refuses card failed g nonzero none_for e = absurd cc
check_pid-refuses card undefined g nonzero none_for e = absurd cc
check_pid-refuses card (done f) g nonzero none_for e =
    cc (if_false (f.container_pid == card.usb_pid) _ _ other, e)
  where
    other : (f.container_pid == card.usb_pid) ≡ false
    other = ground (arith, none_for f refl, nonzero)

-- What is chosen for a name on the command line was read under that name.
named-check_pid :
    (sha md5_of : List ℕ → List ℕ) (files : String → Option (List ℕ)) (card : SoundCard)
    (fn : String) (p : Parse FirmwareContainer) (g : FirmwareContainer)
    → check_named sha md5_of files card fn p ≡ chosen g
    → check_pid card (read_named sha md5_of files fn) ≡ chosen g
named-check_pid sha md5_of files card fn failed g e = absurd cc
named-check_pid sha md5_of files card fn undefined g e = absurd cc
named-check_pid sha md5_of files card fn (done f) g e = e

-- For a card with a product ID other than 0, a firmware file that does not start as a container is
-- never chosen, whatever is in it.
pub check_firmware_selection-single :
    (sha md5_of : List ℕ → List ℕ) (files : String → Option (List ℕ)) (card : SoundCard)
    (found : List FoundFirmware) (fn : String) (bytes : List ℕ) (g : FirmwareContainer)
    → card.usb_pid ≢ 0
    → files fn ≡ some bytes
    → (read_magic bytes).0 ≢ some container
    → check_firmware_selection sha md5_of files card found (some fn) ≢ chosen g
unfolding check_firmware_selection read_firmware_file
check_firmware_selection-single sha md5_of files card found fn bytes g nonzero here other e =
    check_pid-refuses card (read_named sha md5_of files fn) g nonzero
      (λ f d.
        file_of-pid sha md5_of (read_magic bytes).0 (read_magic bytes).1 f other (sym there ∙ d))
      (named-check_pid sha md5_of files card fn _ g e)
  where
    there : read_named sha md5_of files fn ≡ read_firmware_file sha md5_of bytes
    there = rw here
