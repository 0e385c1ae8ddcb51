-- ===== src/Base/Device.antt =====
-- Functions that talk to the device and return 0 or a negative error.
use Prim.Native.Nat.{ℕ, ◌-◌}
use mathlib.Core.Bool.{Bool, true, false}
use mathlib.Core.List.{List}
use fcp_support.Base.Int.{ℤ, pos, negsuc}

-- `ok a` is a return of 0 or more with the results `a`; `err e` is the return of -e, for an errno e.
pub data Res {ℓ} (A : Type ℓ) : Type ℓ where
  ok : A → Res A
  err : ℕ → Res A

abbrev pub Hw : Type 0 → Type 0 → Type 0
Hw D A = D → Res A × D

-- The driver's FCP_IOCTL_CMD: opcode, request bytes and response size, to the response bytes.
abbrev pub Ioctl : Type 0 → Type 0
Ioctl D = ℕ → List ℕ → ℕ → Hw D (List ℕ)

module _ {D : Type 0} where
  abbrev pub pure : {A : Type 0} → A → Hw D A
  pure a d = (ok a, d)

  abbrev pub fail : {A : Type 0} → ℕ → Hw D A
  fail e d = (err e, d)

  abbrev pub continue : {A B : Type 0} → (A → Hw D B) → Res A → D → Res B × D
  continue f (ok a) d = f a d
  continue f (err e) d = (err e, d)

  infixl 5 ◌>>=◌ ◌>>◌
  abbrev pub ◌>>=◌ : {A B : Type 0} → Hw D A → (A → Hw D B) → Hw D B
  ◌>>=◌ m f d = let (r, d') = m d in continue f r d'

  abbrev pub ◌>>◌ : {A B : Type 0} → Hw D A → Hw D B → Hw D B
  m >> k = m >>= λ _. k

  -- `if (test) return -e;`
  abbrev pub fail_if : Bool → ℕ → Hw D (Unit {0})
  fail_if true e d = (err e, d)
  fail_if false e d = (ok tt, d)

abbrev pub enoent : ℕ
enoent = 2

abbrev pub enomem : ℕ
enomem = 12

abbrev pub einval : ℕ
einval = 22

abbrev pub eoverflow : ℕ
eoverflow = 75

-- The `int` that such a function returns.
abbrev pub return_code {ℓ} : {A : Type ℓ} → Res A → ℤ
return_code (ok a) = pos 0
return_code (err e) = negsuc (e - 1)
