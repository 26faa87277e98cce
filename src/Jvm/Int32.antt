-- ===== src/Jvm/Int32.antt =====
-- The int arithmetic of java-virtual-machine/jvm.c. An int32_t is its bit pattern, a number below
-- 2 ^ 32. Sums, differences and products wrap around, as the compiled code does.
use Prim.Native.Nat.{bit_and, bit_or, bit_xor}
use computer_systems.Prelude.{
  ℕ, ◌+◌, ◌-◌, ◌*◌, ◌/◌, ◌%◌, ◌^◌, Bool, not, ◌&&◌, ltb, leb, ◌==◌, if◌then◌else◌,
}
use computer_systems.Prelude.Int.{ℤ, pos, negsuc}
use computer_systems.Jvm.Outcome.{Result, ok, err, undefined}
use computer_systems.Jvm.Opcode.{
  i_iadd, i_isub, i_imul, i_idiv, i_irem, i_ineg, i_ishl, i_ishr, i_iushr, i_iand, i_ior, i_ixor,
}

abbrev pub int_min : ℕ
int_min = 2 ^ 31

abbrev pub is_negative : ℕ → Bool
is_negative w = leb (2 ^ 31) w

-- The number that a pattern stands for.
abbrev pub signed32 : ℕ → ℤ
signed32 w = if is_negative w then negsuc (2 ^ 32 - 1 - w) else pos w

unfoldable pub neg32 : ℕ → ℕ
neg32 a = (2 ^ 32 - a) % 2 ^ 32

unfoldable pub add32 : ℕ → ℕ → ℕ
add32 a b = (a + b) % 2 ^ 32

unfoldable pub sub32 : ℕ → ℕ → ℕ
sub32 a b = (a + 2 ^ 32 - b) % 2 ^ 32

unfoldable pub mul32 : ℕ → ℕ → ℕ
mul32 a b = a * b % 2 ^ 32

abbrev pub magnitude : ℕ → ℕ
magnitude w = if is_negative w then 2 ^ 32 - w else w

abbrev pub same_sign : ℕ → ℕ → Bool
same_sign a b = if is_negative a then is_negative b else not (is_negative b)

-- `a / b` and `a % b` of C for a non-zero `b`: the quotient is cut off towards 0, and the remainder
-- has the sign of `a`.
unfoldable pub div32 : ℕ → ℕ → Result ℕ
div32 a b =
    if (a == int_min) && (b == 2 ^ 32 - 1)
    then err undefined
    else let q = magnitude a / magnitude b in ok (if same_sign a b then q else neg32 q)

unfoldable pub rem32 : ℕ → ℕ → Result ℕ
rem32 a b =
    if (a == int_min) && (b == 2 ^ 32 - 1)
    then err undefined
    else let r = magnitude a % magnitude b in ok (if is_negative a then neg32 r else r)

-- A shift count below 32 is required of the `b` of a shift.
unfoldable pub shl32 : ℕ → ℕ → Result ℕ
shl32 a b = if ltb b 32 then ok (a * 2 ^ b % 2 ^ 32) else err undefined

unfoldable pub sar32 : ℕ → ℕ → Result ℕ
sar32 a b =
    if ltb b 32
    then ok (if is_negative a then 2 ^ 32 - 1 - (2 ^ 32 - 1 - a) / 2 ^ b else a / 2 ^ b)
    else err undefined

unfoldable pub shr32 : ℕ → ℕ → Result ℕ
shr32 a b = if ltb b 32 then ok (a / 2 ^ b) else err undefined

-- The switch of `add_to_xor` on two operands. Division by zero leaves 0; a remainder by zero falls
-- through to the next case, `-a`; an opcode of the range with no case leaves 0.
unfoldable pub binary : ℕ → ℕ → ℕ → Result ℕ
binary cur a b =
    if cur == i_iadd
    then ok (add32 a b)
    else if cur == i_isub
    then ok (sub32 a b)
    else if cur == i_imul
    then ok (mul32 a b)
    else if cur == i_idiv
    then (if b == 0 then ok 0 else div32 a b)
    else if cur == i_irem
    then (if b == 0 then ok (neg32 a) else rem32 a b)
    else if cur == i_ineg
    then ok (neg32 a)
    else if cur == i_ishl
    then shl32 a b
    else if cur == i_ishr
    then sar32 a b
    else if cur == i_iushr
    then shr32 a b
    else if cur == i_iand
    then ok (bit_and a b)
    else if cur == i_ior
    then ok (bit_or a b)
    else if cur == i_ixor
    then ok (bit_xor a b)
    else ok 0

-- The integer of an unsigned 16-bit pattern read as an int16_t, as an offset modulo 2 ^ 64; the
-- same of a byte read as a signed char, modulo 2 ^ 32.
unfoldable pub sign_extend16 : ℕ → ℕ
sign_extend16 w = if ltb w (2 ^ 15) then w else w + 2 ^ 64 - 2 ^ 16

unfoldable pub sign_extend8_32 : ℕ → ℕ
sign_extend8_32 b = if ltb b 128 then b else b + 2 ^ 32 - 256

unfoldable pub sign_extend16_32 : ℕ → ℕ
sign_extend16_32 w = if ltb w (2 ^ 15) then w else w + 2 ^ 32 - 2 ^ 16
