-- ===== src/Base/State.antt =====
-- Operations that read and change a state.
use mathlib.Core.List.{}

abbrev pub State : Type 0 → Type 0 → Type 0
State W A = W → A × W

infixl 5 ◌>>=◌ ◌>>◌
abbrev pub ◌>>=◌ : {W A B : Type 0} → State W A → (A → State W B) → State W B
◌>>=◌ m f w = let (a, w') = m w in f a w'

abbrev pub ◌>>◌ : {W B : Type 0} → State W (Unit {0}) → State W B → State W B
m >> k = m >>= λ _. k

abbrev pub pure : {W A : Type 0} → A → State W A
pure a w = (a, w)

-- An operation with no result.
abbrev pub act : {W : Type 0} → (W → W) → State W (Unit {0})
act f w = (tt, f w)
