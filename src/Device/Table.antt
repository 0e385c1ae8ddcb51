-- ===== src/Device/Table.antt =====
-- server/device-ops.c: the table of controls, as an array with room and as a map from names.
use Prim.Native.String.{String}
use text.Mathlib.Text.{◌==◌ as str_eq}
use fcp_support.Base.{
  ℕ, suc, ◌+◌, ◌≤◌, ◌<◌, List, [], ◌∷◌, ◌++◌, Bool, Bool-cases, Option, none, some,
}
use fcp_support.Base.{
  Ioctl, Res, ℤ, ◌≡◌, refl, sym, ap, ◌∙◌, inl, inr, arith, length, length-append, if◌then◌else◌,
  if_false,
}
use fcp_support.Control.{Props, ElemType, boolean, integer, enumerated, bytes}
use fcp_support.Device.{Backend, Device, Alsa, init_control_manager}
use fcp_support.Device.Steps.{IsAllowed, add_user_control-Respects}
use fcp_support.Device.Add.{
  At, set_range, save_value, add_user_control, add_control, grown, appended, find_from,
  find_control,
}

-- There is room for the controls, and the room can be doubled.
pub record IsRoomy {D : Type 0} (x : Device D) : Type 0 where
  pub room : 0 < x.capacity
  pub fits : length x.controls ≤ x.capacity

-- An entry for a name, if the name has none.
unfoldable pub insert_absent : Bool → ℕ × Props → Option (ℕ × Props) → Option (ℕ × Props)
insert_absent same new none = if same then some new else none
insert_absent same new (some old) = some old

module _ {D : Type 0} (ioctl : Ioctl D) (alsa : Alsa D) where
  -- Add controls one after the other.
  pub add_controls : List Props → Device D → Device D
  add_controls [] x = x
  add_controls (p ∷ ps) x = add_controls ps (add_control ioctl alsa p x)

  appended-IsRoomy :
      (x : Device D) (r : Res (Unit {0}) × At D) → IsRoomy x → IsRoomy (appended ioctl alsa x r)
  unfolding grown
  appended-IsRoomy x (r, (p, b)) roomy = record {
    room = grind (arith, roomy.room);
    fits = ground (arith, roomy.room, roomy.fits, length-append x.controls (p ∷ []));
  }

  pub add_control-IsRoomy :
      (p : Props) (x : Device D) → IsRoomy x → IsRoomy (add_control ioctl alsa p x)
  unfolding add_control
  add_control-IsRoomy p x roomy =
      appended-IsRoomy x (add_user_control ioctl alsa (p, x.backend)) roomy

  add_controls-IsRoomy : (ps : List Props) (x : Device D) → IsRoomy x → IsRoomy (add_controls ps x)
  unfolding add_controls
  add_controls-IsRoomy [] x roomy = roomy
  add_controls-IsRoomy (p ∷ ps) x roomy =
      add_controls-IsRoomy ps (add_control ioctl alsa p x) (add_control-IsRoomy p x roomy)

  -- From the initial table on, whatever controls are added and whatever ALSA and the device answer, the
  -- table never holds more controls than it has room for.
  pub init_control_manager-IsRoomy :
      (ps : List Props) (x : Device D) → IsRoomy (add_controls ps (init_control_manager x))
  unfolding init_control_manager
  init_control_manager-IsRoomy ps x =
      add_controls-IsRoomy ps (init_control_manager x)
        (record { room = omega arith; fits = omega arith })

  save_value-name : (vs : List ℤ) (p : Props) → (save_value vs p).name ≡ p.name
  save_value-name [] p = refl
  save_value-name (v ∷ vs) p = ground arith

  set_range-name : (t : ElemType) (p : Props) → (set_range t p).name ≡ p.name
  set_range-name boolean p = refl
  set_range-name integer p = refl
  set_range-name enumerated p = refl
  set_range-name bytes p = refl

  -- What adds a control's element keeps the control's name.
  abbrev SameName : At D → At D → Type 0
  SameName s t = t.0.name ≡ s.0.name

  SameName-IsAllowed : IsAllowed ioctl SameName
  SameName-IsAllowed = record {
    same = λ s. refl;
    trans = λ s t u e f. f ∙ e;
    on_device = λ p x d. refl;
    reads = λ p x. refl;
    saves_value = λ vs p x. save_value-name vs p;
    saves_bytes = λ b p x. refl;
    ranges = λ t p x. set_range-name t p;
  }

  add_user_control-name :
      (p : Props) (x : Backend D) → (add_user_control ioctl alsa (p, x)).1.0.name ≡ p.name
  add_user_control-name p x =
      add_user_control-Respects ioctl alsa SameName SameName-IsAllowed (p, x)

  find_from-append :
      (i : ℕ) (ps : List Props) (p : Props) (name : String)
      → find_from i (ps ++ p ∷ []) name
        ≡ insert_absent (str_eq p.name name) (i + length ps, p) (find_from i ps name)
  unfolding find_from insert_absent
  find_from-append i [] p name =
      ap (λ n. if str_eq p.name name then some (n, p) else none) (omega arith)
  find_from-append i (q ∷ ps) p name = elim (Bool-cases (str_eq q.name name)) [
    | inl here ↦ rw here
    | inr other ↦
        if_false (str_eq q.name name) _ _ other
        ∙ find_from-append (i + 1) ps p name
        ∙ ap (λ n. insert_absent (str_eq p.name name) (n, p) (find_from (i + 1) ps name))
            (omega arith)
        ∙ ap (insert_absent (str_eq p.name name) (i + suc (length ps), p))
            (sym (if_false (str_eq q.name name) _ _ other))
  ]

  -- Seen through find_control, add_control is an insertion into a map: a name that has a control keeps
  -- it, and otherwise the name of the new control, and no other, leads to the new control, at the end of
  -- the table, whatever ALSA and the device answer.
  pub add_control-find_control :
      (p : Props) (x : Device D) (name : String)
      → find_control (add_control ioctl alsa p x) name
        ≡ insert_absent
            (str_eq p.name name)
            (length x.controls, (add_user_control ioctl alsa (p, x.backend)).1.0)
            (find_control x name)
  unfolding add_control find_control
  add_control-find_control p x name =
      find_from-append 0 x.controls (add_user_control ioctl alsa (p, x.backend)).1.0 name
      ∙ ap
          (λ k.
            insert_absent (str_eq (add_user_control ioctl alsa (p, x.backend)).1.0.name name)
              (k, (add_user_control ioctl alsa (p, x.backend)).1.0) (find_from 0 x.controls name))
          (omega arith)
      ∙ ap
          (λ n.
            insert_absent (str_eq n name)
              (length x.controls, (add_user_control ioctl alsa (p, x.backend)).1.0)
              (find_from 0 x.controls name))
          (add_user_control-name p x.backend)
