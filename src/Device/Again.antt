-- ===== src/Device/Again.antt =====
-- server/device-ops.c: the same change of an ALSA element a second time.
use Prim.Native.String.{String}
use text.Mathlib.Text.{◌==◌ as str_eq}
use fcp_support.Base.{
  ℕ, zero, suc, ◌+◌, List, [], ◌∷◌, true, false, not, Bool-cases, Option, none, some,
}
use fcp_support.Base.{
  Ioctl, Res, ok, err, ℤ, eqb_ℤ, set, ◌≡◌, ◌≢◌, refl, sym, ap, ◌∙◌, ◌⊎◌, inl, inr, arith, ◌==◌,
  if_true, if_false,
}
use fcp_support.Control.{Props, ElemType, boolean, integer, enumerated, bytes}
use fcp_support.Control.{
  Func, no_func, data_control, volume_control, bitmap_control, mix_control, mux_control,
  sync_control,
}
use fcp_support.Device.{Backend, Device, ints, Alsa}
use fcp_support.Device.Add.{find_from, find_control}
use fcp_support.Device.Change.{
  Handled, keep_some_backend, then_some, call_write, has_func, store, notify_device, change_value,
  change_control, control_found, device_handle_control_change,
}

abbrev found_at : ℕ → Props → Option (ℕ × Props)
found_at i p = some (i, p)

-- A change of the control found leaves a control of the same name at its index.
find_from-set :
    (i : ℕ) (ps : List Props) (name : String) (j : ℕ) (p q : Props)
    → find_from i ps name ≡ some (j, p)
    → q.name ≡ p.name
    → (k : ℕ) × ((j ≡ i + k) × (find_from i (set ps k q) name ≡ some (j, q)))
unfolding find_from
find_from-set i [] name j p q e same = absurd cc
find_from-set i (r ∷ ps) name j p q e same = elim (Bool-cases (str_eq r.name name)) [
  | inl here ↦ (
    zero,
    (
      ground (arith, is_index (first here)),
      (if_true (str_eq q.name name) _ _ (named here)
          ∙ ap (λ n. found_at n q) (is_index (first here))),
    ),
  )
  | inr other ↦
      let (k, (at, found)) =
        find_from-set (i + 1) ps name j p q (sym (if_false (str_eq r.name name) _ _ other) ∙ e)
          same in
      (suc k, (omega (arith, at), if_false (str_eq r.name name) _ _ other ∙ found))
]
  where
    first : str_eq r.name name ≡ true → ◌≡◌ {A = Option (ℕ × Props)} (some (i, r)) (some (j, p))
    first here = sym (if_true (str_eq r.name name) _ _ here) ∙ e

    is_index : ◌≡◌ {A = Option (ℕ × Props)} (some (i, r)) (some (j, p)) → i ≡ j
    is_index h = cc h

    is_control : ◌≡◌ {A = Option (ℕ × Props)} (some (i, r)) (some (j, p)) → r ≡ p
    is_control h = cc h

    named : str_eq r.name name ≡ true → str_eq q.name name ≡ true
    named here =
        ap (λ n. str_eq n name) (same ∙ sym (ap (λ c. c.name) (is_control (first here)))) ∙ here

-- What the handler has done to the table: nothing, or the value of the control is the new one.
abbrev IsStored : {D : Type 0} → ℕ → Props → ℤ → Device D → Res (Unit {0}) → Device D → Type 0
IsStored i p v x r y =
    ((x ≡ y) × (r ≡ ok tt)) ⊎ (y.controls ≡ set x.controls i (record p { value = v }))

module _ {D : Type 0} (ioctl : Ioctl D) (alsa : Alsa D) where
  -- A handler that keeps the table.
  abbrev KeepsTable : Device D → Handled D → Type 0
  KeepsTable x h = (r : Res (Unit {0})) (y : Device D) → h ≡ some (r, y) → y.controls ≡ x.controls

  returned : (a b : Res (Unit {0}) × Device D) → some a ≡ some b → a ≡ b
  returned a b h = cc h

  keep_some_backend-KeepsTable :
      (x : Device D) (o : Option (Res (Unit {0}) × Backend D))
      → KeepsTable x (keep_some_backend x o)
  keep_some_backend-KeepsTable x none r y e = absurd cc
  keep_some_backend-KeepsTable x (some p) r y e = sym (ap (λ a. a.1.controls) (returned _ _ e))

  call_write-KeepsTable :
      (f : Func) (i : ℕ) (p : Props) (v : ℤ) (x : Device D)
      → f ≢ volume_control
      → KeepsTable x (call_write ioctl alsa f i p v x)
  unfolding call_write
  call_write-KeepsTable volume_control i p v x other = absurd (other refl)
  call_write-KeepsTable no_func i p v x other = keep_some_backend-KeepsTable x _
  call_write-KeepsTable data_control i p v x other = keep_some_backend-KeepsTable x _
  call_write-KeepsTable bitmap_control i p v x other = keep_some_backend-KeepsTable x _
  call_write-KeepsTable mix_control i p v x other = keep_some_backend-KeepsTable x _
  call_write-KeepsTable mux_control i p v x other = keep_some_backend-KeepsTable x _
  call_write-KeepsTable sync_control i p v x other = keep_some_backend-KeepsTable x _

  notify_device-KeepsTable :
      (event : ℕ) (x : Device D) → KeepsTable x (notify_device ioctl alsa event x)
  unfolding notify_device
  notify_device-KeepsTable event x r y e = elim (Bool-cases (event == 0)) [
    | inl none_set ↦
        sym (ap (λ a. a.1.controls) (returned _ _ (sym (if_true (event == 0) _ _ none_set) ∙ e)))
    | inr is_set ↦
        sym (ap (λ a. a.1.controls) (returned _ _ (sym (if_false (event == 0) _ _ is_set) ∙ e)))
  ]

  then_some-KeepsTable :
      (x : Device D) (h : Handled D) (f : Device D → Handled D)
      → KeepsTable x h
      → ((z : Device D) → KeepsTable z (f z))
      → KeepsTable x (then_some h f)
  then_some-KeepsTable x none f first rest r y e = absurd cc
  then_some-KeepsTable x (some (err n, z)) f first rest r y e = first r y e
  then_some-KeepsTable x (some (ok u, z)) f first rest r y e = rest z r y e ∙ first (ok u) z refl

  change_value-IsStored :
      (i : ℕ) (p : Props) (v : ℤ) (x : Device D) (r : Res (Unit {0})) (y : Device D)
      → p.write_func ≢ volume_control
      → change_value ioctl alsa i p v x ≡ some (r, y)
      → IsStored i p v x r y
  unfolding change_value
  change_value-IsStored i p v x r y other e = elim (Bool-cases (eqb_ℤ v p.value)) [
    | inl same ↦ inl (nothing_done (sym (if_true (eqb_ℤ v p.value) _ _ same) ∙ e))
    | inr new ↦ elim (Bool-cases (not (has_func p.write_func))) [
      | inl without ↦ inl (
          nothing_done (
            sym (if_true (not (has_func p.write_func)) _ _ without)
            ∙ sym (if_false (eqb_ℤ v p.value) _ _ new)
            ∙ e))
      | inr with_func ↦ inr (
          then_some-KeepsTable (store i (record p { value = v }) x)
            (call_write ioctl alsa p.write_func i (record p { value = v }) v
              (store i (record p { value = v }) x))
            (λ z. notify_device ioctl alsa p.notify_device z)
            (call_write-KeepsTable p.write_func i (record p { value = v }) v
              (store i (record p { value = v }) x) other)
            (notify_device-KeepsTable p.notify_device) r y
            (sym (if_false (not (has_func p.write_func)) _ _ with_func)
              ∙ sym (if_false (eqb_ℤ v p.value) _ _ new)
              ∙ e))
    ]
  ]
    where
      nothing_done : ◌≡◌ {A = Handled D} (some (ok tt, x)) (some (r, y)) → (x ≡ y) × (r ≡ ok tt)
      nothing_done h = (ap (λ a. a.1) (returned _ _ h), sym (ap (λ a. a.0) (returned _ _ h)))

  -- A control of another type than BYTES is changed by the first of the element's values.
  change_control-value :
      (t : ElemType) (i : ℕ) (p : Props) (v : ℤ) (x : Device D)
      → t ≢ bytes
      → change_control ioctl alsa t i p (ints (v ∷ [])) x ≡ change_value ioctl alsa i p v x
  unfolding change_control
  change_control-value boolean i p v x other = refl
  change_control-value integer i p v x other = refl
  change_control-value enumerated i p v x other = refl
  change_control-value bytes i p v x other = absurd (other refl)

  -- The handler at a table in which the name has a writable control that is not of type BYTES.
  handled :
      (name : String) (i : ℕ) (p : Props) (v : ℤ) (x : Device D)
      → p.read_only ≡ false
      → p.elem_type ≢ bytes
      → find_control x name ≡ some (i, p)
      → device_handle_control_change ioctl alsa name (ints (v ∷ [])) x
        ≡ change_value ioctl alsa i p v x
  unfolding device_handle_control_change
  handled name i p v x writable typed found =
      ap (λ o. control_found ioctl alsa o (ints (v ∷ [])) x) found
      ∙ if_false p.read_only _ _ writable
      ∙ change_control-value p.elem_type i p v x typed

  unchanged :
      (i : ℕ) (p : Props) (v : ℤ) (y : Device D)
      → p.value ≡ v
      → change_value ioctl alsa i p v y ≡ some (ok tt, y)
  unfolding change_value
  unchanged i p v y same = if_true (eqb_ℤ v p.value) _ _ (ground (arith, same))

  stored_again :
      (name : String) (i : ℕ) (p : Props) (v : ℤ) (x y : Device D)
      → p.read_only ≡ false
      → p.elem_type ≢ bytes
      → find_control x name ≡ some (i, p)
      → y.controls ≡ set x.controls i (record p { value = v })
      → device_handle_control_change ioctl alsa name (ints (v ∷ [])) y ≡ some (ok tt, y)
  unfolding find_control
  stored_again name i p v x y writable typed found stored =
      let q = record p { value = v } in
      let (k, (at, again)) = find_from-set 0 x.controls name i p q found refl in
      handled name i q v y writable typed (
        ap (λ ps. find_from 0 ps name) (stored ∙ ap (λ n. set x.controls n q) (omega (arith, at)))
        ∙ again)
      ∙ unchanged i q v y refl

  -- For a writable control that is neither of type BYTES nor a volume: once the handler has returned,
  -- with success or with the error of a failed write, the same change again does nothing, and counts
  -- as success.
  pub change_again :
      (name : String) (i : ℕ) (p : Props) (v : ℤ) (x : Device D) (r : Res (Unit {0})) (y : Device D)
      → p.read_only ≡ false
      → p.elem_type ≢ bytes
      → p.write_func ≢ volume_control
      → find_control x name ≡ some (i, p)
      → device_handle_control_change ioctl alsa name (ints (v ∷ [])) x ≡ some (r, y)
      → device_handle_control_change ioctl alsa name (ints (v ∷ [])) y ≡ some (ok tt, y)
  change_again name i p v x r y writable typed plain found changed = elim stored [
    | inl (same, fine) ↦
        ap (device_handle_control_change ioctl alsa name (ints (v ∷ []))) (sym same)
        ∙ changed
        ∙ ap (λ s. answered s y) fine
    | inr kept ↦ stored_again name i p v x y writable typed found kept
  ]
    where
      answered : Res (Unit {0}) → Device D → Handled D
      answered s z = some (s, z)

      stored : IsStored i p v x r y
      stored =
          change_value-IsStored i p v x r y plain
            (sym (handled name i p v x writable typed found) ∙ changed)
