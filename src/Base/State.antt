-- ===== src/Base/State.antt =====
-- Functions of C that read and change a state and return a value.

abbrev pub St : Type 0 → Type 0 → Type 0
St S A = S → A × S

module _ {S : Type 0} where
  abbrev pub pure : {A : Type 0} → A → St S A
  pure a s = (a, s)

  infixl 5 ◌>>=◌ ◌>>◌
  abbrev pub ◌>>=◌ : {A B : Type 0} → St S A → (A → St S B) → St S B
  ◌>>=◌ m f s = let (a, s') = m s in f a s'

  abbrev pub ◌>>◌ : {A B : Type 0} → St S A → St S B → St S B
  m >> k = m >>= λ _. k
