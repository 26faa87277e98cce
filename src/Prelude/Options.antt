-- ===== src/Prelude/Options.antt =====
-- The chain of computations that may fail.
use mathlib.Core.Path.{◌≡◌, refl}
use mathlib.Core.Option.{Option, none, some}

infixl 4 ◌>>=◌
abbrev pub ◌>>=◌ : {A B : Type 0} → Option A → (A → Option B) → Option B
◌>>=◌ m next = elim m [ none ↦ none | some a ↦ next a ]

-- Inversion of a chain that has a result.
pub >>=-eq-some :
    {A B : Type 0} (m : Option A) (next : A → Option B) {b : B}
    → (m >>= next) ≡ some b
    → (a : A) × (m ≡ some a) × (next a ≡ some b)
>>=-eq-some none next h = absurd (cc h)
>>=-eq-some (some a) next h = (a, refl, h)
