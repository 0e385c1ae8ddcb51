-- ===== src/Base/Bits.antt =====
-- What `&`, `|` and shifts do to the binary digits of a number.
use Prim.Native.Nat.{ℕ, zero, suc, ◌+◌, ◌-◌, ◌*◌, ◌/◌, ◌%◌, ◌^◌, ◌≤◌, ◌<◌, min, max, digits}
use Prim.Native.Nat.{bit_and, bit_or, bitwise, bit_and-bitwise, bit_or-bitwise}
use mathlib.Core.Path.{◌≡◌, refl, sym, ap, ◌∙◌}
use native.Mathlib.Nat.{pow-suc, pow-succ', div-div-eq-div-mul, mul_assoc, mod-add-div}
use native.Mathlib.Omega.{arith}
use fcp_support.Base.Tests.{◌==◌, if◌then◌else◌}

-- The fuel of the native operations' meaning does not matter once it is enough.
module _ (z : ℕ → ℕ) (f : ℕ → ℕ → ℕ) where
  digits_enough : (m n a b : ℕ) → a ≤ m → a ≤ n → digits z f m a b ≡ digits z f n a b
  digits_enough zero zero a b p q = refl
  digits_enough zero (suc n) zero b p q = refl
  digits_enough zero (suc n) (suc a) b p q = absurd (omega arith)
  digits_enough (suc m) zero zero b p q = refl
  digits_enough (suc m) zero (suc a) b p q = absurd (omega arith)
  digits_enough (suc m) (suc n) zero b p q = refl
  digits_enough (suc m) (suc n) (suc a) b p q =
      rw (digits_enough m n (suc a / 2) (b / 2) (omega arith) (omega arith))

  bitwise_half :
      (a b : ℕ)
      → bitwise z f (suc a) b ≡ bitwise z f (suc a / 2) (b / 2) * 2 + f (suc a % 2) (b % 2)
  bitwise_half a b =
      omega (arith, digits_enough a (suc a / 2) (suc a / 2) (b / 2) (omega arith) (omega arith))

bit_or_half : (a b : ℕ) → bit_or a b ≡ bit_or (a / 2) (b / 2) * 2 + max (a % 2) (b % 2)
bit_or_half zero b = simp bit_or-bitwise (omega arith)
bit_or_half (suc a) b = simp bit_or-bitwise (bitwise_half (λ y. y) max a b)

bit_and_half : (a b : ℕ) → bit_and a b ≡ bit_and (a / 2) (b / 2) * 2 + min (a % 2) (b % 2)
bit_and_half zero b = simp bit_and-bitwise (omega arith)
bit_and_half (suc a) b = simp bit_and-bitwise (bitwise_half (λ y. 0) min a b)

-- `(x >> i) & 1`
pub bit : ℕ → ℕ → ℕ
bit zero x = x % 2
bit (suc i) x = bit i (x / 2)

pub bit-bit_or : (i a b : ℕ) → bit i (bit_or a b) ≡ max (bit i a) (bit i b)
unfolding bit
bit-bit_or zero a b = omega (arith, bit_or_half a b)
bit-bit_or (suc i) a b =
    rw (← bit-bit_or i (a / 2) (b / 2)) (ap (bit i) (omega (arith, bit_or_half a b)))

pub bit-bit_and : (i a b : ℕ) → bit i (bit_and a b) ≡ min (bit i a) (bit i b)
unfolding bit
bit-bit_and zero a b = omega (arith, bit_and_half a b)
bit-bit_and (suc i) a b =
    rw (← bit-bit_and i (a / 2) (b / 2)) (ap (bit i) (omega (arith, bit_and_half a b)))

pub bit-lt : (i x : ℕ) → bit i x < 2
unfolding bit
bit-lt zero x = omega arith
bit-lt (suc i) x = bit-lt i (x / 2)

bit-zero : (i : ℕ) → bit i 0 ≡ 0
unfolding bit
bit-zero zero = refl
bit-zero (suc i) = bit-zero i

bit-shift : (i x : ℕ) → bit (suc i) (2 * x) ≡ bit i x
unfolding bit
bit-shift i x = ap (bit i) (omega arith)

-- `1 << k` has one digit.
pub bit-pow : (i k : ℕ) → bit i (2 ^ k) ≡ (if i == k then 1 else 0)
unfolding bit
bit-pow zero zero = refl
bit-pow zero (suc k) = ground (arith, pow-suc 2 k)
bit-pow (suc i) zero = bit-zero i ∙ ground arith
bit-pow (suc i) (suc k) =
    ap (bit i) {y = 2 ^ k} (omega (arith, pow-suc 2 k)) ∙ bit-pow i k ∙ ground arith

-- The digits of `~x`, cut to `w` of them.
pub bit-not : (w i x : ℕ) → i < w → x < 2 ^ w → bit i (2 ^ w - 1 - x) ≡ 1 - bit i x
unfolding bit
bit-not zero i x h l = elim h [ ]
bit-not (suc w) zero x h l = omega (arith, pow-suc 2 w)
bit-not (suc w) (suc i) x h l =
    ap (bit i) {y = 2 ^ w - 1 - x / 2} (omega (arith, pow-suc 2 w))
    ∙ bit-not w i (x / 2) (omega arith) (omega (arith, pow-suc 2 w))

pub bit-div : (i x : ℕ) → x / 2 ^ i % 2 ≡ bit i x
unfolding bit
bit-div zero x = omega arith
bit-div (suc i) x =
    ap (λ (t : ℕ). x / t % 2) (pow-succ' 2 i)
    ∙ ap (λ (t : ℕ). t % 2) (sym (div-div-eq-div-mul x 2 (2 ^ i)))
    ∙ bit-div i (x / 2)

-- Bits below the `n`th do not see multiples of 2 ^ n.
twice : (n t : ℕ) → 2 ^ suc n * t ≡ 2 * (2 ^ n * t)
twice n t = ap (λ (m : ℕ). m * t) (pow-succ' 2 n) ∙ mul_assoc 2 (2 ^ n) t

bit-plus : (n k r t : ℕ) → k < n → bit k (r + 2 ^ n * t) ≡ bit k r
unfolding bit
bit-plus zero k r t h = absurd (omega arith)
bit-plus (suc n) zero r t h = omega (arith, twice n t)
bit-plus (suc n) (suc k) r t h =
    ap (bit k) {y = r / 2 + 2 ^ n * t} (omega (arith, twice n t))
    ∙ bit-plus n k (r / 2) t (omega arith)

pub bit-mod : (n k x : ℕ) → k < n → bit k (x % 2 ^ n) ≡ bit k x
bit-mod n k x h = sym (bit-plus n k (x % 2 ^ n) (x / 2 ^ n) h) ∙ ap (bit k) (mod-add-div x (2 ^ n))

bit_and-nil : (n a : ℕ) → a ≤ n → bit_and a 0 ≡ 0
bit_and-nil n zero h = bit_and-bitwise 0 0
bit_and-nil zero (suc a) h = absurd (omega arith)
bit_and-nil (suc n) (suc a) h =
    omega (arith, bit_and_half (suc a) 0, bit_and-nil n (suc a / 2) (omega arith))

bit_or-nil : (n a : ℕ) → a ≤ n → bit_or a 0 ≡ a
bit_or-nil n zero h = bit_or-bitwise 0 0
bit_or-nil zero (suc a) h = absurd (omega arith)
bit_or-nil (suc n) (suc a) h =
    omega (arith, bit_or_half (suc a) 0, bit_or-nil n (suc a / 2) (omega arith))

half_and : (a m : ℕ) → bit_and a (2 * m + 1) ≡ 2 * bit_and (a / 2) m + a % 2
half_and a m = omega (
  arith,
  bit_and_half a (2 * m + 1),
  ap (bit_and (a / 2)) {x = (2 * m + 1) / 2} {y = m} (omega arith),
)

half_or : (a m : ℕ) → bit_or a (2 * m) ≡ 2 * bit_or (a / 2) m + a % 2
half_or a m =
    omega (arith, bit_or_half a (2 * m), ap (bit_or (a / 2)) {x = 2 * m / 2} {y = m} (omega arith))

-- Four digits at a time.
and_nibble :
    (a b : ℕ)
    → bit_and a (2 * (2 * (2 * (2 * b + 1) + 1) + 1) + 1)
      ≡ 16 * bit_and (a / 2 / 2 / 2 / 2) b + a % 16
and_nibble a b = omega (
  arith,
  half_and a (2 * (2 * (2 * b + 1) + 1) + 1),
  half_and (a / 2) (2 * (2 * b + 1) + 1),
  half_and (a / 2 / 2) (2 * b + 1),
  half_and (a / 2 / 2 / 2) b,
)

or_nibble :
    (a b : ℕ) → bit_or a (2 * (2 * (2 * (2 * b)))) ≡ 16 * bit_or (a / 2 / 2 / 2 / 2) b + a % 16
or_nibble a b = omega (
  arith,
  half_or a (2 * (2 * (2 * b))),
  half_or (a / 2) (2 * (2 * b)),
  half_or (a / 2 / 2) (2 * b),
  half_or (a / 2 / 2 / 2) b,
)

-- `x & 0xfff`
pub bit_and-0xfff : (a : ℕ) → bit_and a 0xfff ≡ a % 4096
bit_and-0xfff a =
    let a' = a / 2 / 2 / 2 / 2 in
    let a'' = a' / 2 / 2 / 2 / 2 in
    omega (
      arith,
      and_nibble a 0xff,
      and_nibble a' 0xf,
      and_nibble a'' 0,
      bit_and-nil (a'' / 2 / 2 / 2 / 2) (a'' / 2 / 2 / 2 / 2) (omega arith),
    )

-- `r | (p << 12)` for a twelve-bit `r`
pub bit_or_shifted : (r p : ℕ) → r < 4096 → bit_or r (p * 4096) ≡ p * 4096 + r
bit_or_shifted r p h =
    let r' = r / 2 / 2 / 2 / 2 in
    let r'' = r' / 2 / 2 / 2 / 2 in
    let n = λ (q : ℕ). 2 * (2 * (2 * (2 * q))) in
    ap (bit_or r) {y = n (n (n p))} (omega arith)
    ∙ omega (
      arith,
      or_nibble r (n (n p)),
      or_nibble r' (n p),
      or_nibble r'' p,
      ap (λ (t : ℕ). bit_or t p) {x = r'' / 2 / 2 / 2 / 2} {y = 0} (omega arith),
      bit_or-bitwise 0 p,
    )
