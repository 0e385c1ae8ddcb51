-- ===== src/Base/Bytes.antt =====
-- Little-endian fields of a byte buffer, as `htole16`, `le32toh` and the packed structs lay them out.
use Prim.Native.Nat.{ℕ, zero, suc, ◌+◌, ◌*◌, ◌/◌, ◌%◌, ◌^◌}
use mathlib.Core.Path.{◌≡◌, refl, ap₂}
use mathlib.Core.List.{List, [], ◌∷◌, ◌++◌, map}
use native.Mathlib.Omega.{arith}
use fcp_support.Base.Lists.{length, get_or, drop}

abbrev pub byte_at : List ℕ → ℕ → ℕ
byte_at bs i = get_or bs i 0

abbrev pub le16 : ℕ → List ℕ
le16 n = (n % 256) ∷ (n / 256 % 256) ∷ []

abbrev pub le32 : ℕ → List ℕ
le32 n = (n % 256) ∷ (n / 256 % 256) ∷ (n / 65536 % 256) ∷ (n / 16777216 % 256) ∷ []

abbrev pub get_le16 : List ℕ → ℕ
get_le16 bs = byte_at bs 0 % 256 + byte_at bs 1 % 256 * 256

abbrev pub get_le32 : List ℕ → ℕ
get_le32 bs =
    byte_at bs 0 % 256
    + byte_at bs 1 % 256 * 256
    + byte_at bs 2 % 256 * 65536
    + byte_at bs 3 % 256 * 16777216

-- Arrays of such fields.
abbrev pub encode16 : List ℕ → List ℕ
encode16 [] = []
encode16 (v ∷ vs) = le16 v ++ encode16 vs

abbrev pub encode32 : List ℕ → List ℕ
encode32 [] = []
encode32 (v ∷ vs) = le32 v ++ encode32 vs

abbrev pub decode16 : ℕ → List ℕ → List ℕ
decode16 zero bs = []
decode16 (suc n) bs = get_le16 bs ∷ decode16 n (drop 2 bs)

abbrev pub decode32 : ℕ → List ℕ → List ℕ
decode32 zero bs = []
decode32 (suc n) bs = get_le32 bs ∷ decode32 n (drop 4 bs)

pub get_le16-le16 : (n : ℕ) (rest : List ℕ) → get_le16 (le16 n ++ rest) ≡ n % 2 ^ 16
get_le16-le16 n rest = omega arith

pub get_le32-le32 : (n : ℕ) (rest : List ℕ) → get_le32 (le32 n ++ rest) ≡ n % 2 ^ 32
get_le32-le32 n rest = omega arith

pub decode16-encode16 :
    (vs : List ℕ) → decode16 (length vs) (encode16 vs) ≡ map (λ v. v % 2 ^ 16) vs
decode16-encode16 [] = refl
decode16-encode16 (v ∷ vs) = ap₂ ◌∷◌ (get_le16-le16 v (encode16 vs)) (decode16-encode16 vs)

pub decode32-encode32 :
    (vs : List ℕ) → decode32 (length vs) (encode32 vs) ≡ map (λ v. v % 2 ^ 32) vs
decode32-encode32 [] = refl
decode32-encode32 (v ∷ vs) = ap₂ ◌∷◌ (get_le32-le32 v (encode32 vs)) (decode32-encode32 vs)

pub length-encode16 : (vs : List ℕ) → length (encode16 vs) ≡ 2 * length vs
length-encode16 [] = refl
length-encode16 (v ∷ vs) = omega (arith, length-encode16 vs)

pub length-encode32 : (vs : List ℕ) → length (encode32 vs) ≡ 4 * length vs
length-encode32 [] = refl
length-encode32 (v ∷ vs) = omega (arith, length-encode32 vs)
