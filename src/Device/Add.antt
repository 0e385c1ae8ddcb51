-- ===== src/Device/Add.antt =====
-- server/device.c and server/device-ops.c: a control gets its ALSA element and its initial value, and
-- a place in the table of controls. A control's read function gives as many values as the control has.
use Prim.Native.String.{String}
use text.Mathlib.Text.{◌==◌ as str_eq}
use fcp_support.Base.{
  ℕ, zero, suc, ◌+◌, ◌*◌, List, [], ◌∷◌, ◌++◌, map, Bool, true, false, not, ◌&&◌, ◌||◌,
}
use fcp_support.Base.{Option, none, some, Hw, Ioctl, Res, ok, pure, fail_if, ◌>>=◌, ◌>>◌}
use fcp_support.Base.{ℤ, pos, negsuc, ltb_ℤ, length, ◌==◌, if◌then◌else◌}
use fcp_support.Control.{Props, ElemType, boolean, integer, enumerated, bytes}
use fcp_support.Control.Values.{read_bytes_control}
use fcp_support.Device.{Backend, Device, Elem, ints, raw, Alsa, on_dev}
use fcp_support.Device.Functions.{call_read_func}

-- `props->enum_count - 1`
abbrev pub minus_one : ℕ → ℤ
minus_one zero = negsuc 0
minus_one (suc n) = pos n

abbrev pub is_integer : ElemType → Bool
is_integer integer = true
is_integer boolean = false
is_integer enumerated = false
is_integer bytes = false

-- The range of an enumeration is set when its element is added.
abbrev pub set_range : ElemType → Props → Props
set_range enumerated p = record p { low = pos 0; high = minus_one p.enum_count; step = pos 1 }
set_range boolean p = p
set_range integer p = p
set_range bytes p = p

-- "Validate values are in range"
unfoldable pub clamp : ℤ → ℤ → ℤ → ℤ
clamp low high v = if ltb_ℤ v low || ltb_ℤ high v then (if ltb_ℤ v low then low else high) else v

-- "Save the initial value", which multi-component controls do not need.
abbrev pub save_value : List ℤ → Props → Props
save_value [] p = p
save_value (v ∷ vs) p = if length p.components == 0 then record p { value = v } else p

abbrev pub save_bytes : Option (List ℕ) → Props → Props
save_bytes b p = record p { bytes_value = b }

-- The code that works on one control sees its properties and what is behind them.
abbrev pub At : Type 0 → Type 0
At D = Props × Backend D

module _ {D : Type 0} where
  abbrev pub at_props : {A : Type 0} → (Props → Hw (Backend D) A) → Hw (At D) A
  at_props f (p, x) = let (r, y) = f p x in (r, (p, y))

  abbrev pub set_props : (Props → Props) → Hw (At D) (Unit {0})
  set_props f (p, x) = (ok tt, (f p, x))

  module _ (ioctl : Ioctl D) (alsa : Alsa D) where
    unfoldable pub bytes_initial : List ℕ → Hw (At D) Elem
    bytes_initial b = do set_props (save_bytes (some b)); pure (raw b)

    unfoldable pub read_bytes : Hw (At D) (List ℕ)
    unfolding on_dev
    read_bytes = at_props (λ p. on_dev (read_bytes_control ioctl p p.size))

    -- The initial value of a control of type BYTES; the buffer is freed when the read fails.
    unfoldable pub initial_bytes : Hw (At D) Elem
    unfolding bytes_initial read_bytes
    initial_bytes = do set_props (save_bytes none); read_bytes >>= bytes_initial

    unfoldable pub values_initial : List ℤ → Hw (At D) Elem
    values_initial read = do
      values ← at_props (λ p. pure (map (clamp p.low p.high) read))
      set_props (save_value values)
      pure (ints values)

    -- The initial values of the other controls.
    unfoldable pub initial_values : Hw (At D) Elem
    unfolding values_initial
    initial_values = at_props (λ p. call_read_func ioctl p.read_func p) >>= values_initial

    abbrev pub initial_value : ElemType → Hw (At D) Elem
    initial_value bytes = initial_bytes
    initial_value boolean = initial_values
    initial_value integer = initial_values
    initial_value enumerated = initial_values

    -- Multi-component controls are integers, and read-only.
    unfoldable pub check_components : Props → Hw (Backend D) (Unit {0})
    check_components p = do
      fail_if (not (length p.components == 0) && not (is_integer p.elem_type)) 1
      fail_if (not (length p.components == 0) && not p.read_only) 1

    unfoldable pub add_element : Props → Hw (Backend D) (Unit {0})
    unfolding on_dev
    add_element p = on_dev (alsa.elem_add p)

    unfoldable pub set_tlv : Props → Hw (Backend D) (Unit {0})
    unfolding on_dev
    set_tlv p = if p.has_tlv then on_dev (alsa.elem_tlv_write p.name) else pure tt

    unfoldable pub write_element : Elem → Props → Hw (Backend D) (Unit {0})
    unfolding on_dev
    write_element v p = on_dev (alsa.elem_write p.name v)

    -- "Unlock the control if it's not read-only. Also unlock the Firmware Version control"
    unfoldable pub unlock : Props → Hw (Backend D) (Unit {0})
    unfolding on_dev
    unlock p =
        if not p.read_only || str_eq p.name "Firmware Version"
        then on_dev (alsa.elem_unlock p.name)
        else pure tt

    abbrev pub remove_element : Props → Hw (Backend D) (Unit {0})
    remove_element p x = (ok tt, record x { dev = alsa.elem_remove p.name x.dev })

    -- From the write of the element's value on.
    unfoldable pub write_and_unlock : Elem → Hw (At D) (Unit {0})
    unfolding write_element unlock
    write_and_unlock v = do at_props (write_element v); at_props unlock

    -- From the element's creation on.
    unfoldable pub add_and_read : ElemType → Hw (At D) (Unit {0})
    unfolding write_and_unlock add_element set_tlv
    add_and_read t = do at_props add_element; at_props set_tlv; initial_value t >>= write_and_unlock

    -- From the checks on.
    unfoldable pub check_and_add : ElemType → Hw (At D) (Unit {0})
    unfolding add_and_read check_components
    check_and_add t = do at_props check_components; set_props (set_range t); add_and_read t

    -- `add_user_control`, on its argument's properties
    unfoldable pub add_user_control : Hw (At D) (Unit {0})
    unfolding check_and_add
    add_user_control s = (do at_props remove_element; check_and_add s.0.elem_type) s

    -- The table is made twice as large when it is full.
    unfoldable pub grown : ℕ → ℕ → ℕ
    grown count capacity = if count == capacity then capacity * 2 else capacity

    abbrev pub appended : Device D → Res (Unit {0}) × At D → Device D
    appended x (r, (p, b)) = record x {
      backend = b;
      controls = x.controls ++ p ∷ [];
      capacity = grown (length x.controls) x.capacity;
    }

    -- `add_control`, which ignores the result of `add_user_control`
    unfoldable pub add_control : Props → Device D → Device D
    unfolding grown add_user_control
    add_control p x = appended x (add_user_control (p, x.backend))

-- The search of `find_control`: the index in the table, and the control there.
unfoldable pub find_from : ℕ → List Props → String → Option (ℕ × Props)
find_from i [] name = none
find_from i (p ∷ ps) name =
    let rest = find_from (i + 1) ps name in if str_eq p.name name then some (i, p) else rest

-- `find_control`
unfoldable pub find_control : {D : Type 0} → Device D → String → Option (ℕ × Props)
unfolding find_from
find_control x name = find_from 0 x.controls name
