-- ===== src/Jvm/Arith.antt =====
-- The int arithmetic of `Int32` against the integers.
use native.Mathlib.Nat.{div-add-mod, mod-lt}
use computer_systems.Prelude.{
  ℕ, ◌+◌, ◌-◌, ◌*◌, ◌/◌, ◌%◌, ◌^◌, ◌≤◌, ◌<◌, ◌≡◌, ◌≢◌, refl, sym, ◌∙◌, ◌⊎◌, inl, inr, Bool, true,
  false, not, arith, if◌then◌else◌,
}
use computer_systems.Prelude.Int.{ℤ, pos, negsuc, ◌+ℤ◌, ◌-ℤ◌}
use computer_systems.Jvm.Outcome.{ok}
use computer_systems.Jvm.Opcode.{i_iadd, i_isub, i_idiv, i_irem}
use computer_systems.Jvm.Int32.{
  signed32, neg32, add32, sub32, div32, rem32, binary, magnitude, is_negative, same_sign, int_min,
}

-- The two's-complement pattern of an integer, modulo 2 ^ 32.
unfoldable pub to32 : ℤ → ℕ
to32 (pos n) = n % 2 ^ 32
to32 (negsuc n) = 2 ^ 32 - 1 - n % 2 ^ 32

-- On patterns below 2 ^ 32 the opcodes of addition and subtraction, and the negation, compute the
-- integer result modulo 2 ^ 32.
pub binary-add :
    (a b : ℕ)
    → a < 2 ^ 32
    → b < 2 ^ 32
    → (binary i_iadd a b ≡ ok (to32 (signed32 a +ℤ signed32 b)))
      × (binary i_isub a b ≡ ok (to32 (signed32 a -ℤ signed32 b)))
      × (neg32 a ≡ to32 (pos 0 -ℤ signed32 a))
unfolding binary add32 sub32 neg32 to32 ◌+ℤ◌ ◌-ℤ◌
binary-add a b ha hb = (ground arith, ground arith, ground arith)

not-not : (b : Bool) → not (not b) ≡ b
not-not true = refl
not-not false = refl

-- `q` and `r` are the quotient of `a` by `b`, cut off towards zero, and its remainder, as integers.
pub record IsDivision (a b q r : ℕ) : Type 0 where
  pub exact : magnitude a ≡ magnitude b * magnitude q + magnitude r
  pub small : magnitude r < magnitude b
  pub sign_q : q ≢ 0 → is_negative q ≡ not (same_sign a b)
  pub sign_r : r ≢ 0 → is_negative r ≡ is_negative a

div_bound : (x y : ℕ) → 2 ≤ y → x / y * 2 ≤ x
div_bound x y h = grind arith

-- A magnitude with a sign put to it.
abbrev with_sign : Bool → ℕ → ℕ
with_sign positive n = if positive then n else neg32 n

with_sign_lem :
    (positive : Bool) (n : ℕ)
    → n ≤ 2 ^ 31
    → (positive ≡ true → n < 2 ^ 31)
    → (magnitude (with_sign positive n) ≡ n)
      × (with_sign positive n ≢ 0 → is_negative (with_sign positive n) ≡ not positive)
unfolding neg32
with_sign_lem true n le lt = ground (arith, lt refl)
with_sign_lem false n le lt = ground arith

quotient_le : (x y : ℕ) → 0 < y → x / y ≤ x
quotient_le x y h = grind arith

quotient_lt : (x y : ℕ) → 2 ≤ y → x ≤ 2 ^ 31 → x / y < 2 ^ 31
quotient_lt x y h le = omega (arith, div_bound x y h)

-- The one quotient of two ints of the same sign that is no int is that of the least int by -1.
quotient_bound :
    (a b : ℕ)
    → a < 2 ^ 32
    → b < 2 ^ 32
    → b ≢ 0
    → (a ≢ int_min) ⊎ (b ≢ 2 ^ 32 - 1)
    → same_sign a b ≡ true
    → (2 ≤ magnitude b) ⊎ (magnitude a < 2 ^ 31)
quotient_bound a b ha hb nz safe same = ground arith

pos_magnitude : (b : ℕ) → b < 2 ^ 32 → b ≢ 0 → 0 < magnitude b
pos_magnitude b hb nz = ground arith

magnitude_le : (a : ℕ) → a < 2 ^ 32 → magnitude a ≤ 2 ^ 31
magnitude_le a h = ground arith

module _ (a b : ℕ) (ha : a < 2 ^ 32) (hb : b < 2 ^ 32) (nz : b ≢ 0)
    (safe : (a ≢ int_min) ⊎ (b ≢ 2 ^ 32 - 1)) where
  quotient : ℕ
  quotient = with_sign (same_sign a b) (magnitude a / magnitude b)

  remainder : ℕ
  remainder = with_sign (not (is_negative a)) (magnitude a % magnitude b)

  quotient_sign :
      (magnitude quotient ≡ magnitude a / magnitude b)
      × (quotient ≢ 0 → is_negative quotient ≡ not (same_sign a b))
  unfolding quotient
  quotient_sign =
      let x = magnitude a in
      let y = magnitude b in
      let le = quotient_le x y (pos_magnitude b hb nz) in
      with_sign_lem (same_sign a b) (x / y) (omega (arith, le, magnitude_le a ha)) λ same.
        elim (quotient_bound a b ha hb nz safe same) [
          | inl two ↦ quotient_lt x y two (magnitude_le a ha)
          | inr less ↦ omega (arith, le)
        ]

  remainder_sign :
      (magnitude remainder ≡ magnitude a % magnitude b)
      × (remainder ≢ 0 → is_negative remainder ≡ not (not (is_negative a)))
  unfolding remainder
  remainder_sign =
      let lt = mod-lt (magnitude a) (pos_magnitude b hb nz) in
      let below : magnitude a % magnitude b < 2 ^ 31 = omega (arith, lt, magnitude_le b hb) in
      with_sign_lem (not (is_negative a)) (magnitude a % magnitude b) (omega arith) (λ _. below)

  binary-idiv : binary i_idiv a b ≡ ok quotient
  unfolding binary div32 quotient
  binary-idiv = ground arith

  binary-irem : binary i_irem a b ≡ ok remainder
  unfolding binary rem32 remainder
  binary-irem = ground arith

  -- `a / b` and `a % b` are defined for every divisor but 0, except for the least int over -1, and
  -- are the quotient cut off towards zero and its remainder.
  pub binary-IsDivision :
      (q : ℕ) × (r : ℕ) × (binary i_idiv a b ≡ ok q)
      × (binary i_irem a b ≡ ok r)
      × IsDivision a b q r
  binary-IsDivision =
      let (mq, sq) = quotient_sign in
      let (mr, sr) = remainder_sign in
      (
        quotient,
        remainder,
        binary-idiv,
        binary-irem,
        record {
          exact = rw (mq, mr) (sym (div-add-mod (magnitude a) (magnitude b)));
          small = rw mr (mod-lt (magnitude a) (pos_magnitude b hb nz));
          sign_q = sq;
          sign_r = λ ne. sr ne ∙ not-not (is_negative a);
        },
      )
