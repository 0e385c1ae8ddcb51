-- ===== src/Base/Options.antt =====
-- Chains of optional results, and what holds of a result if there is one.
use mathlib.Core.Option.{Option, none, some}

infixl 5 ◌>>=◌
abbrev pub ◌>>=◌ : {A B : Type 0} → Option A → (A → Option B) → Option B
none >>= f = none
some a >>= f = f a

abbrev pub OfFound : {A : Type 0} → (A → Type 0) → Option A → Type 0
OfFound P none = Unit
OfFound P (some a) = P a

-- What holds of the first result, and of the second one after it, holds of the chain's.
pub OfFound-bind :
    {A B : Type 0} (P : A → Type 0) (Q : B → Type 0) (o : Option A) (f : A → Option B)
    → OfFound P o
    → ((a : A) → P a → OfFound Q (f a))
    → OfFound Q (o >>= f)
OfFound-bind P Q none f h k = tt
OfFound-bind P Q (some a) f h k = k a h

-- Any result will do.
abbrev pub Anything : {A : Type 0} → A → Type 0
Anything a = Unit

pub OfFound-Anything : {A : Type 0} (o : Option A) → OfFound Anything o
OfFound-Anything none = tt
OfFound-Anything (some a) = tt
