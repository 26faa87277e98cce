-- ===== src/Jvm/Outcome.antt =====
-- How a run of the Java virtual machine can stop (java-virtual-machine/jvm.c), and array accesses.
-- `undefined` is C's undefined behaviour: an index outside an array, a shift count outside 0..31,
-- the quotient of the least int by -1.
use Prim.Native.Nat.{ℕ, zero, suc, ◌<◌, ◌-◌}
use mathlib.Core.Path.{◌≡◌}
use mathlib.Core.Option.{Option, none, some}
use mathlib.Core.List.{List, [], ◌∷◌}
use native.Mathlib.Omega.{arith}
use computer_systems.Prelude.{ltb, leb, if◌then◌else◌, length, set, get_elem?}

pub data Error : Type 0 where
  undefined : Error
  -- `exit(1)` on an opcode that the switch does not handle
  unhandled : ℕ → Error
  assertion : Error
  out_of_fuel : Error

-- A value, or the reason for which there is none.
pub data Result {ℓ} (A : Type ℓ) : Type ℓ where
  ok : A → Result A
  err : Error → Result A

-- What follows a call that may stop.
infixl 4 ◌>>=◌
abbrev pub ◌>>=◌ {ℓ κ} : {A : Type ℓ} {B : Type κ} → Result A → (A → Result B) → Result B
◌>>=◌ first next = elim first [ ok value ↦ next value | err reason ↦ err reason ]

abbrev pub require {ℓ} : {A : Type ℓ} → Option A → Error → Result A
require none e = err e
require (some a) e = ok a

-- `xs[i]` for reading and for writing.
unfoldable pub get {ℓ} : {A : Type ℓ} → List A → ℕ → Result A
get xs i = require (get_elem? xs i) undefined

unfoldable pub put {ℓ} : {A : Type ℓ} → List A → ℕ → A → Result (List A)
put xs i v = if ltb i (length xs) then ok (set xs i v) else err undefined

-- The index `n - k` of type size_t. Where `k` exceeds `n` it wraps to the end of the address
-- space, which lies outside every array.
unfoldable pub below : ℕ → ℕ → Result ℕ
below k n = if leb k n then ok (n - k) else err undefined

pub get-lt {ℓ} : {A : Type ℓ} (xs : List A) (i : ℕ) {a : A} → get xs i ≡ ok a → i < length xs
unfolding get
get-lt [] i h = cc
get-lt (x ∷ xs) zero h = omega arith
get-lt (x ∷ xs) (suc i) h = omega (arith, get-lt xs i h)
