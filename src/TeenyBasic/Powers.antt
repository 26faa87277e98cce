-- ===== src/TeenyBasic/Powers.antt =====
-- assembly-compiler/src/compile.c: the test of `check_power_two` holds exactly of powers of two.
use Prim.Native.Nat.{min, bit_and, digits, bit_and-bitwise}
use native.Mathlib.Nat.{pow-suc}
use computer_systems.Prelude.{
  ℕ, zero, suc, ◌+◌, ◌-◌, ◌*◌, ◌/◌, ◌%◌, ◌^◌, ◌≤◌, ◌<◌, ◌≡◌, refl, inl, inr, ◌⊎◌, true, arith,
}
use computer_systems.TeenyBasic.Compile.{is_power_two}

-- The common digits of two numbers, on a count of digits that is large enough.
common : ℕ → ℕ → ℕ → ℕ
common k x y = digits (λ _. zero) min k x y

common-count : (x k j y : ℕ) → x ≤ k → x ≤ j → common k x y ≡ common j x y
unfolding common
common-count zero zero zero y p q = refl
common-count zero zero (suc j) y p q = refl
common-count zero (suc k) zero y p q = refl
common-count zero (suc k) (suc j) y p q = refl
common-count (suc x) zero j y p q = absurd (omega arith)
common-count (suc x) (suc k) zero y p q = absurd (omega arith)
common-count (suc x) (suc k) (suc j) y p q =
    omega (arith, common-count (suc x / 2) k j (y / 2) (omega arith) (omega arith))

-- The lowest digit of `bit_and`, and the others.
bit_and-halves : (x y : ℕ) → bit_and x y ≡ bit_and (x / 2) (y / 2) * 2 + min (x % 2) (y % 2)
unfolding common
bit_and-halves zero y = omega (arith, bit_and-bitwise zero y, bit_and-bitwise zero (y / 2))
bit_and-halves (suc x) y = omega (
  arith,
  bit_and-bitwise (suc x / 2) (y / 2),
  bit_and-bitwise (suc x) y,
  common-count (suc x / 2) x (suc x / 2) (y / 2) (omega arith) (omega arith),
)

bit_and_self : (bound x : ℕ) → x ≤ bound → bit_and x x ≡ x
bit_and_self bound zero h = refl
bit_and_self zero (suc x) h = absurd (omega arith)
bit_and_self (suc bound) (suc x) h =
    omega (arith, bit_and-halves (suc x) (suc x), bit_and_self bound (suc x / 2) (omega arith))

-- A positive number that shares no digit with its predecessor is a power of two.
power_of_disjoint :
    (bound v : ℕ) → v ≤ bound → 0 < v → bit_and v (v - 1) ≡ 0 → (k : ℕ) × (v ≡ 2 ^ k)
power_of_disjoint zero v h pos disjoint = absurd (omega arith)
power_of_disjoint (suc bound) v h pos disjoint = elim (parity v) [
  | inl even ↦
      let halves = bit_and-halves v (v - 1) in
      let e : (v - 1) / 2 ≡ v / 2 - 1 = omega arith in
      let rest : bit_and (v / 2) (v / 2 - 1) ≡ 0 = rw (← e) (omega arith) in
      let (k, half) = power_of_disjoint bound (v / 2) (omega arith) (omega arith) rest in
      (suc k, omega (arith, pow-suc 2 k))
  | inr odd ↦
      let halves = bit_and-halves v (v - 1) in
      let e : (v - 1) / 2 ≡ v / 2 = omega arith in
      let self = bit_and_self (v / 2) (v / 2) (omega arith) in
      let none_left : v / 2 ≡ 0 = omega (arith, rw e at halves) in (0, omega arith)
]
  where
    parity : (v : ℕ) → (v % 2 ≡ 0) ⊎ (v % 2 ≡ 1)
    parity v = omega arith

pub is_power_two-pow : (v : ℕ) → is_power_two v ≡ true → (k : ℕ) × (v ≡ 2 ^ k) × (2 ^ k < 2 ^ 63)
unfolding is_power_two
is_power_two-pow v h =
    let above : 1 < v = ground arith in
    let fits : v < 2 ^ 63 = ground arith in
    let disjoint : bit_and v (v - 1) ≡ 0 = ground arith in
    let (k, e) = power_of_disjoint v v (omega arith) (omega arith) disjoint in (k, e, omega arith)
