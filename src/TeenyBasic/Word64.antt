-- ===== src/TeenyBasic/Word64.antt =====
-- 64-bit words: the int64_t arithmetic of assembly-compiler/src/compile.c and of the x86-64
-- instructions that it emits. A word is its bit pattern.
use computer_systems.Prelude.{
  ℕ, ◌+◌, ◌-◌, ◌*◌, ◌/◌, ◌%◌, ◌^◌, Bool, ◌&&◌, Option, none, some, leb, ltb, ◌==◌, if◌then◌else◌,
}

abbrev pub is_negative64 : ℕ → Bool
is_negative64 w = leb (2 ^ 63) w

abbrev pub negate64 : ℕ → ℕ
negate64 w = (2 ^ 64 - w) % 2 ^ 64

abbrev pub absolute64 : ℕ → ℕ
absolute64 w = if is_negative64 w then 2 ^ 64 - w else w

unfoldable pub add64 : ℕ → ℕ → ℕ
add64 a b = (a + b) % 2 ^ 64

unfoldable pub sub64 : ℕ → ℕ → ℕ
sub64 a b = (a + (2 ^ 64 - b % 2 ^ 64)) % 2 ^ 64

unfoldable pub mul64 : ℕ → ℕ → ℕ
mul64 a b = a * b % 2 ^ 64

-- Signed division cut off towards 0; dividing by 0, or the least value by -1, traps.
unfoldable pub div64 : ℕ → ℕ → Option ℕ
div64 a b =
    if b == 0
    then none
    else if (a == 2 ^ 63) && (b == 2 ^ 64 - 1)
    then none
    else let q = absolute64 a / absolute64 b in
      some (
        if is_negative64 a
        then (if is_negative64 b then q else negate64 q)
        else (if is_negative64 b then negate64 q else q))

-- The order of signed words.
unfoldable pub less64 : ℕ → ℕ → Bool
less64 a b = ltb ((a + 2 ^ 63) % 2 ^ 64) ((b + 2 ^ 63) % 2 ^ 64)
