-- ===== src/Base/Fallible.antt =====
-- Operations that read and change a state and may end without a result: by an exception, or because
-- a loop that the source does not bound has run out of fuel.
use mathlib.Core.List.{}
use alice_hlt_librorc.Base.State.{State}

pub data Outcome (E A : Type 0) : Type 0 where
  returned : A → Outcome E A
  thrown : E → Outcome E A

-- The only failure of an operation that throws nothing.
pub data OutOfFuel : Type 0 where
  out_of_fuel : OutOfFuel

abbrev pub Fallible : Type 0 → Type 0 → Type 0 → Type 0
Fallible E W A = State W (Outcome E A)

abbrev pub after_outcome :
    {E W A B : Type 0} → (A → Fallible E W B) → Outcome E A → State W (Outcome E B)
after_outcome f (returned a) w = f a w
after_outcome f (thrown e) w = (thrown e, w)

infixl 5 ◌>>=◌ ◌>>◌
abbrev pub ◌>>=◌ : {E W A B : Type 0} → Fallible E W A → (A → Fallible E W B) → Fallible E W B
◌>>=◌ m f w = let (outcome, w') = m w in after_outcome f outcome w'

abbrev pub ◌>>◌ : {E W B : Type 0} → Fallible E W (Unit {0}) → Fallible E W B → Fallible E W B
m >> k = m >>= λ _. k

abbrev pub pure : {E W A : Type 0} → A → Fallible E W A
pure a w = (returned a, w)

abbrev pub throw : {E W A : Type 0} → E → Fallible E W A
throw e w = (thrown e, w)

-- An operation that always returns.
abbrev pub lift : {E W A : Type 0} → State W A → Fallible E W A
lift m w = let (a, w') = m w in (returned a, w')
