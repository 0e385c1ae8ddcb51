-- ===== src/Device/Range.antt =====
-- server/device.c: the initial values of a control are in its range.
use fcp_support.Base.{List, All, Ioctl}
use fcp_support.Base.{ℤ, ◌≤ℤ◌, ◌≡◌}
use fcp_support.Control.{Props}
use fcp_support.Device.{Alsa, Elem, ints}
use fcp_support.Device.Add.{save_value}

abbrev pub IsInside : ℤ → ℤ → ℤ → Type 0
IsInside low high v = (low ≤ℤ v) × (v ≤ℤ high)

module _ {D : Type 0} (ioctl : Ioctl D) (alsa : Alsa D) where
  -- What the read of the initial values comes to when it returns an element's value.
  abbrev IsInitial : Props → Elem → Props → Type 0
  IsInitial p e q =
      (vs : List ℤ) × ((e ≡ ints vs) × (All (IsInside p.low p.high) vs × (q ≡ save_value vs p)))
