-- ===== src/Device/Steps.antt =====
-- server/device.c: what every step of `add_user_control` respects, the whole respects.
use text.Mathlib.Text.{◌==◌ as str_eq}
use mathlib.Core.Path.{subst}
use fcp_support.Base.{
  ℕ, List, Bool, Bool-cases, true, false, not, ◌||◌, Option, none, some, Hw, Ioctl, Res, ok, err,
}
use fcp_support.Base.{◌>>=◌, ◌>>◌, continue, ℤ, ◌≡◌, refl, sym, inl, inr, fail_if, arith}
use fcp_support.Control.{Props, ElemType, boolean, integer, enumerated, bytes}
use fcp_support.Control.Values.{read_bytes_control}
use fcp_support.Device.{Backend, Alsa, Elem, on_dev}
use fcp_support.Device.Functions.{call_read_func}
use fcp_support.Device.Add.{
  At, at_props, set_props, set_range, save_value, save_bytes, add_user_control, initial_bytes,
  initial_values, initial_value, read_bytes, bytes_initial, values_initial, write_and_unlock,
  write_element, unlock, add_and_read, add_element, set_tlv, check_and_add, check_components,
  remove_element,
}

-- A relation between what the code sees of a control before and after: it is a preorder, and allows what
-- the calls of the library, the control's read function and the stores into its properties do.
pub record IsAllowed {D : Type 0} (ioctl : Ioctl D) (R : At D → At D → Type 0) : Type 0 where
  pub same : (s : At D) → R s s
  pub trans : (s t u : At D) → R s t → R t u → R s u
  pub on_device : (p : Props) (x : Backend D) (d : D) → R (p, x) (p, record x { dev = d })
  pub reads : (p : Props) (x : Backend D) → R (p, x) (p, (call_read_func ioctl p.read_func p x).1)
  pub saves_value : (vs : List ℤ) (p : Props) (x : Backend D) → R (p, x) (save_value vs p, x)
  pub saves_bytes : (b : Option (List ℕ)) (p : Props) (x : Backend D) → R (p, x) (save_bytes b p, x)
  pub ranges : (t : ElemType) (p : Props) (x : Backend D) → R (p, x) (set_range t p, x)

-- A call that changes nothing but the driver and ALSA.
record IsCall {D : Type 0} {A : Type 0} (f : Props → Hw (Backend D) A) : Type 0 where
  device : Props → Backend D → D
  only : (p : Props) (x : Backend D) → (f p x).1 ≡ record x { dev = device p x }

fail_if-same : {S : Type 0} (b : Bool) (e : ℕ) (s : S) → (fail_if b e s).1 ≡ s
fail_if-same true e s = refl
fail_if-same false e s = refl

module _ {D : Type 0} (ioctl : Ioctl D) (alsa : Alsa D) (R : At D → At D → Type 0)
    (allowed : IsAllowed ioctl R) where
  abbrev Respects : {A : Type 0} → Hw (At D) A → Type 0
  Respects m = (s : At D) → R s (m s).1

  continue-Respects :
      {A B : Type 0} (k : A → Hw (At D) B)
      → ((a : A) → Respects (k a))
      → (r : Res A) (s : At D) → R s (continue k r s).1
  continue-Respects k rest (ok a) s = rest a s
  continue-Respects k rest (err e) s = allowed.same s

  then-Respects :
      {A B : Type 0} (m : Hw (At D) A) (k : A → Hw (At D) B)
      → Respects m
      → ((a : A) → Respects (k a))
      → Respects (m >>= k)
  then-Respects m k first rest s =
      allowed.trans s (m s).1 (continue k (m s).0 (m s).1).1 (first s)
        (continue-Respects k rest (m s).0 (m s).1)

  call-Respects : {A : Type 0} (f : Props → Hw (Backend D) A) → IsCall f → Respects (at_props f)
  call-Respects f c (p, x) =
      subst (λ y. R (p, x) (p, y)) (sym (c.only p x)) (allowed.on_device p x (c.device p x))

  check_components-IsCall : IsCall (check_components ioctl alsa)
  unfolding check_components
  check_components-IsCall = record { device = λ p x. x.dev; only = λ p x. ground arith }

  set_tlv-IsCall : IsCall (set_tlv ioctl alsa)
  unfolding set_tlv
  set_tlv-IsCall = record {
    device = λ p x. (set_tlv ioctl alsa p x).1.dev;
    only = λ p x. elim (Bool-cases p.has_tlv) [ inl here ↦ rw here | inr nowhere ↦ rw nowhere ];
  }

  unlock-IsCall : IsCall (unlock ioctl alsa)
  unfolding unlock
  unlock-IsCall = record {
    device = λ p x. (unlock ioctl alsa p x).1.dev;
    only = λ p x. elim (Bool-cases (not p.read_only || str_eq p.name "Firmware Version")) [
      | inl here ↦ rw here
      | inr nowhere ↦ rw nowhere
    ];
  }

  initial_bytes-Respects : Respects (initial_bytes ioctl alsa)
  unfolding initial_bytes read_bytes bytes_initial
  initial_bytes-Respects =
      then-Respects (set_props (save_bytes none))
        (λ u. read_bytes ioctl alsa >>= bytes_initial ioctl alsa)
        (λ (p, x). allowed.saves_bytes none p x)
        (λ u.
          then-Respects (read_bytes ioctl alsa) (bytes_initial ioctl alsa)
            (call-Respects (λ p. on_dev (read_bytes_control ioctl p p.size))
              (record { device = λ p x. _; only = λ p x. refl }))
            (λ b (p, x). allowed.saves_bytes (some b) p x))

  initial_values-Respects : Respects (initial_values ioctl alsa)
  unfolding initial_values values_initial
  initial_values-Respects =
      then-Respects (at_props (λ p. call_read_func ioctl p.read_func p)) (values_initial ioctl alsa)
        (λ (p, x). allowed.reads p x) (λ vs (p, x). allowed.saves_value _ p x)

  initial_value-Respects : (t : ElemType) → Respects (initial_value ioctl alsa t)
  initial_value-Respects boolean = initial_values-Respects
  initial_value-Respects integer = initial_values-Respects
  initial_value-Respects enumerated = initial_values-Respects
  initial_value-Respects bytes = initial_bytes-Respects

  write_and_unlock-Respects : (v : Elem) → Respects (write_and_unlock ioctl alsa v)
  unfolding write_and_unlock write_element
  write_and_unlock-Respects v =
      then-Respects (at_props (write_element ioctl alsa v)) (λ u. at_props (unlock ioctl alsa))
        (call-Respects (write_element ioctl alsa v)
          (record { device = λ p x. _; only = λ p x. refl }))
        (λ u. call-Respects _ unlock-IsCall)

  add_and_read-Respects : (t : ElemType) → Respects (add_and_read ioctl alsa t)
  unfolding add_and_read add_element
  add_and_read-Respects t =
      then-Respects (at_props (add_element ioctl alsa))
        (λ u.
          at_props (set_tlv ioctl alsa)
          >> (initial_value ioctl alsa t >>= write_and_unlock ioctl alsa))
        (call-Respects (add_element ioctl alsa) (record { device = λ p x. _; only = λ p x. refl }))
        (λ u.
          then-Respects (at_props (set_tlv ioctl alsa))
            (λ w. initial_value ioctl alsa t >>= write_and_unlock ioctl alsa)
            (call-Respects _ set_tlv-IsCall)
            (λ w.
              then-Respects (initial_value ioctl alsa t) (write_and_unlock ioctl alsa)
                (initial_value-Respects t) write_and_unlock-Respects))

  check_and_add-Respects : (t : ElemType) → Respects (check_and_add ioctl alsa t)
  unfolding check_and_add
  check_and_add-Respects t =
      then-Respects (at_props (check_components ioctl alsa))
        (λ u. set_props (set_range t) >> add_and_read ioctl alsa t)
        (call-Respects _ check_components-IsCall)
        (λ u.
          then-Respects (set_props (set_range t)) (λ w. add_and_read ioctl alsa t)
            (λ (p, x). allowed.ranges t p x) (λ w. add_and_read-Respects t))

  pub add_user_control-Respects : (s : At D) → R s (add_user_control ioctl alsa s).1
  unfolding add_user_control
  add_user_control-Respects (p, x) =
      let removed = (at_props (remove_element ioctl alsa) (p, x)).1 in
      allowed.trans (p, x) removed (check_and_add ioctl alsa p.elem_type removed).1
        (allowed.on_device p x removed.1.dev) (check_and_add-Respects p.elem_type removed)
