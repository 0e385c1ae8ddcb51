-- ===== src/Base/Chars.antt =====
-- C strings: their character codes, and what the code uses of the C library on them.
use Prim.Native.Nat.{ℕ, zero, suc, ◌+◌, ◌-◌, ◌*◌}
use Prim.Native.Char.{code}
use Prim.Native.String.{String}
use mathlib.Core.Bool.{Bool, ◌&&◌, ◌||◌}
use mathlib.Core.List.{List, [], ◌∷◌}
use fcp_support.Base.Tests.{leb, ◌==◌, if◌then◌else◌}
use fcp_support.Base.Int.{ℤ, pos, negsuc}

-- The codes of a text: its bytes, if it is ASCII.
abbrev pub codes : String → List ℕ
codes String.[] = []
codes (String.◌∷◌ c s) = code c ∷ codes s

abbrev pub is_digit : ℕ → Bool
is_digit c = leb 48 c && leb c 57

-- The white space of the "C" locale.
abbrev pub is_space : ℕ → Bool
is_space c = c == 32 || (leb 9 c && leb c 13)

-- The number that the digits at the start stand for.
unfoldable pub digits : ℕ → List ℕ → ℕ
digits acc [] = acc
digits acc (c ∷ cs) = let rest = digits (acc * 10 + (c - 48)) cs in if is_digit c then rest else acc

abbrev minus : ℕ → ℤ
minus zero = pos 0
minus (suc n) = negsuc n

abbrev signed : List ℕ → ℤ
signed [] = pos 0
signed (c ∷ cs) =
    if c == 45
    then minus (digits 0 cs)
    else if c == 43
    then pos (digits 0 cs)
    else pos (digits 0 (c ∷ cs))

unfoldable pub number_of : List ℕ → ℤ
unfolding digits
number_of [] = pos 0
number_of (c ∷ cs) = let rest = number_of cs in if is_space c then rest else signed (c ∷ cs)

-- `atoi`, for numbers that an `int` can hold.
abbrev pub atoi : String → ℤ
atoi s = number_of (codes s)

-- `s + strcspn(s, "0123456789")`: from the first digit on.
unfoldable pub from_digit : List ℕ → List ℕ
from_digit [] = []
from_digit (c ∷ cs) = let rest = from_digit cs in if is_digit c then c ∷ cs else rest
