-- ===== src/Base/Flow.antt =====
-- C functions of the type `void` that change a state and may return early.
use mathlib.Core.Path.{◌≡◌, refl}
use mathlib.Core.Logic.{◌⊎◌, inl, inr}
use mathlib.Core.Option.{Option, none, some}
use mathlib.Core.List.{List, [], ◌∷◌}

-- `going`: on to the next statement; `returned`: an early return; `undefined`: C does not define what
-- happens.
pub data Flow (S : Type 0) : Type 0 where
  going returned : S → Flow S
  undefined : Flow S

abbrev pub Member : {A : Type 0} → A → List A → Type 0
Member a [] = ⊥
Member a (x ∷ xs) = (a ≡ x) ⊎ Member a xs

module _ {S : Type 0} where
  abbrev pub and_go : Flow S → (S → Flow S) → Flow S
  and_go (going s) f = f s
  and_go (returned s) f = returned s
  and_go undefined f = undefined

  -- `return;` without a value
  abbrev pub or_return : {A : Type 0} → Option A → (A → S → Flow S) → S → Flow S
  or_return none f s = returned s
  or_return (some a) f s = f a s

  -- `continue;` without a value
  abbrev pub or_continue : {A : Type 0} → Option A → (A → S → Flow S) → S → Flow S
  or_continue none f s = going s
  or_continue (some a) f s = f a s

  -- A loop over items.
  unfoldable pub each : {A : Type 0} → (A → S → Flow S) → List A → S → Flow S
  each f [] s = going s
  each f (a ∷ rest) s = and_go (f a s) (each f rest)

  -- What the function leaves behind when it returns.
  abbrev pub left : Flow S → Option S
  left (going s) = some s
  left (returned s) = some s
  left undefined = none

  -- `P` holds of what is left, if anything is.
  abbrev pub Leaves {κ} : (S → Type κ) → Flow S → Type κ
  Leaves P (going s) = P s
  Leaves P (returned s) = P s
  Leaves P undefined = Unit {κ}

  pub and_go-Leaves {κ} :
      (P : S → Type κ) (r : Flow S) (f : S → Flow S)
      → Leaves P r
      → ((s : S) → P s → Leaves P (f s))
      → Leaves P (and_go r f)
  and_go-Leaves P (going s) f h rest = rest s h
  and_go-Leaves P (returned s) f h rest = h
  and_go-Leaves P undefined f h rest = tt

  pub or_return-Leaves {κ} :
      (P : S → Type κ) {A : Type 0} (o : Option A) (f : A → S → Flow S) (s : S)
      → P s
      → ((a : A) → Leaves P (f a s))
      → Leaves P (or_return o f s)
  or_return-Leaves P none f s h rest = h
  or_return-Leaves P (some a) f s h rest = rest a

  pub or_continue-Leaves {κ} :
      (P : S → Type κ) {A : Type 0} (o : Option A) (f : A → S → Flow S) (s : S)
      → P s
      → ((a : A) → Leaves P (f a s))
      → Leaves P (or_continue o f s)
  or_continue-Leaves P none f s h rest = h
  or_continue-Leaves P (some a) f s h rest = rest a

  pub each-Leaves {κ} :
      (P : S → Type κ) {A : Type 0} (f : A → S → Flow S)
      → ((a : A) (s : S) → P s → Leaves P (f a s))
      → (items : List A) (s : S) → P s
      → Leaves P (each f items s)
  unfolding each
  each-Leaves P f step [] s h = h
  each-Leaves P f step (a ∷ rest) s h =
      and_go-Leaves P (f a s) (each f rest) (step a s h) (each-Leaves P f step rest)

  -- Like `or_return-Leaves`, with where the value is from.
  pub or_return-Leaves_from {κ} :
      (P : S → Type κ) {A : Type 0} (o : Option A) (f : A → S → Flow S) (s : S)
      → P s
      → ((a : A) → o ≡ some a → Leaves P (f a s))
      → Leaves P (or_return o f s)
  or_return-Leaves_from P none f s h rest = h
  or_return-Leaves_from P (some a) f s h rest = rest a refl

  -- Like `each-Leaves`, for the items of a list.
  pub each-Leaves_among {κ} :
      (P : S → Type κ) {A : Type 0} (f : A → S → Flow S) (all : List A)
      → ((a : A) (s : S) → Member a all → P s → Leaves P (f a s))
      → (items : List A) → ((a : A) → Member a items → Member a all)
      → (s : S) → P s
      → Leaves P (each f items s)
  unfolding each
  each-Leaves_among P f all step [] among s h = h
  each-Leaves_among P f all step (a ∷ rest) among s h =
      and_go-Leaves P (f a s) (each f rest) (step a s (among a (inl refl)) h)
        (each-Leaves_among P f all step rest (λ b m. among b (inr m)))
