-- ===== src/Device.antt =====
-- server/device.h, server/device.c and server/device-ops.c: the device with its table of controls.
-- Functions dispatches the controls' function pointers, Add adds controls, Notify and Change carry
-- changes from the device to ALSA and back.
pub mod Functions
pub mod Add
pub mod Notify
pub mod Change
pub mod Steps
pub mod Table
pub mod Again
pub mod Range
use Prim.Native.String.{String}
use fcp_support.Base.{ℕ, List, [], ◌∷◌, Hw, Option, ℤ}
use fcp_support.Control.{Props}
use fcp_support.Mix.{MixEntry, Mixer}
use fcp_support.Mux.{Mux}

-- What the functions of the controls work on: the driver and ALSA (`dev`), and the caches.
pub record Backend (D : Type 0) : Type 0 where
  pub dev : D
  pub mix_output_count : ℕ
  pub mix_input_count : ℕ
  pub mix_cache : Option (List MixEntry)
  pub mux : Mux (Unit {0})

-- `struct fcp_device`, with `struct control_manager`: `num_controls` is the length of `controls`.
pub record Device (D : Type 0) : Type 0 where
  pub backend : Backend D
  pub controls : List Props
  pub capacity : ℕ

-- The value of an ALSA element.
pub data Elem : Type 0 where
  ints : List ℤ → Elem
  raw : List ℕ → Elem

-- The calls of the ALSA library for a control's element.
pub record Alsa (D : Type 0) : Type 0 where
  -- `snd_ctl_elem_remove`, whose result the code ignores
  pub elem_remove : String → D → D
  -- `snd_ctl_add_*_elem_set`, with the control's type, range and counts
  pub elem_add : Props → Hw D (Unit {0})
  pub elem_tlv_write : String → Hw D (Unit {0})
  pub elem_read : String → Hw D Elem
  pub elem_write : String → Elem → Hw D (Unit {0})
  pub elem_unlock : String → Hw D (Unit {0})

unfoldable pub on_dev : {D A : Type 0} → Hw D A → Hw (Backend D) A
on_dev m x = let (r, d) = m x.dev in (r, record x { dev = d })

-- `init_control_manager`
unfoldable pub init_control_manager : {D : Type 0} → Device D → Device D
init_control_manager x = record x { controls = []; capacity = 8 }
