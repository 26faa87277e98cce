-- ===== src/TeenyBasic/Number.antt =====
-- assembly-compiler/src/parser.c: `num`, and the number that strtol reads from a word with base 0. A
-- value is a 64-bit pattern.
pub mod Decimal
pub mod Signed
use computer_systems.Prelude.{
  ℕ, zero, suc, ◌+◌, ◌-◌, ◌*◌, ◌^◌, ◌%◌, Bool, true, false, not, ◌&&◌, ◌||◌, List, [], ◌∷◌, Option,
  none, some, ltb, leb, ◌==◌, if◌then◌else◌,
}
use computer_systems.TeenyBasic.Ast.{Expr, init_num_node}
use computer_systems.TeenyBasic.Lexer.{Bytes, advance_until_separator}

-- The value of a digit, or 36.
abbrev pub digit_value : ℕ → ℕ
digit_value c =
    if leb b'0' c && leb c b'9'
    then c - b'0'
    else if leb b'a' c && leb c b'z'
    then c - b'a' + 10
    else if leb b'A' c && leb c b'Z'
    then c - b'A' + 10
    else 36

-- The digits in front, behind a number that has been read, and what follows them.
unfoldable pub read_digits : ℕ → ℕ → Bytes → ℕ × Bytes
read_digits base n [] = (n, [])
read_digits base n (c ∷ s) =
    let more = read_digits base (n * base + digit_value c) s in
    if ltb (digit_value c) base then more else (n, c ∷ s)

abbrev is_hex_prefix : ℕ → ℕ → ℕ → Bool
is_hex_prefix c x d = (c == b'0') && (((x == b'x') || (x == b'X')) && ltb (digit_value d) 16)

-- The prefix 0x of a hexadecimal digit, or the prefix 0, gives the base.
unfoldable pub read_magnitude : Bytes → ℕ × Bytes
read_magnitude (c ∷ x ∷ d ∷ s) =
    if is_hex_prefix c x d
    then read_digits 16 0 (d ∷ s)
    else if c == b'0'
    then read_digits 8 0 (c ∷ x ∷ d ∷ s)
    else read_digits 10 0 (c ∷ x ∷ d ∷ s)
read_magnitude (c ∷ s) = if c == b'0' then read_digits 8 0 (c ∷ s) else read_digits 10 0 (c ∷ s)
read_magnitude [] = (0, [])

-- The value, or `none` where it is out of range, and the bytes behind it. Without a digit nothing has
-- been read.
abbrev signed : Bool → ℕ × Bytes → Option ℕ × Bytes
signed minus (n, rest) =
    if minus
    then (if leb n (2 ^ 63) then some ((2 ^ 64 - n) % 2 ^ 64) else none, rest)
    else (if ltb n (2 ^ 63) then some n else none, rest)

unfoldable pub starts_digit : Bytes → Bool
starts_digit [] = false
starts_digit (c ∷ s) = ltb (digit_value c) 10

unfoldable pub strtol : Bytes → Option ℕ × Bytes
strtol [] = (some 0, [])
strtol (c ∷ s) =
    if (c == b'-') || (c == b'+')
    then (if starts_digit s then signed (c == b'-') (read_magnitude s) else (some 0, c ∷ s))
    else if starts_digit (c ∷ s)
    then signed false (read_magnitude (c ∷ s))
    else (some 0, c ∷ s)

-- `errno != 0 || *num_end != '\0'` fails.
abbrev pub whole : Option ℕ × Bytes → Option ℕ
whole (none, rest) = none
whole (some v, []) = some v
whole (some v, c ∷ rest) = none

unfoldable pub num : Bytes → Option Expr × Bytes
num s =
    let (word, rest) = advance_until_separator s in
    elim word [
      | none ↦ (none, rest)
      | some w ↦ elim (whole (strtol w)) [ none ↦ (none, rest) | some v ↦ (init_num_node v, rest) ]
    ]
