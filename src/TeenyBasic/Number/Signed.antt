-- ===== src/TeenyBasic/Number/Signed.antt =====
-- assembly-compiler/src/parser.c: `num` reads back a value that is written with its sign.
use mathlib.Core.Path.{subst}
use computer_systems.Prelude.{
  ℕ, ◌+◌, ◌-◌, ◌%◌, ◌^◌, ◌≤◌, ◌<◌, ◌≡◌, refl, ap, ◌∙◌, true, false, ◌||◌, ◌∷◌, ◌++◌, Option, some,
  ltb, leb, ◌==◌, if◌then◌else◌, length, arith, Bool-cases, inl, inr,
}
use computer_systems.TeenyBasic.Ast.{Expr, init_num_node}
use computer_systems.TeenyBasic.Ast
use computer_systems.TeenyBasic.Word64.{is_negative64}
use computer_systems.TeenyBasic.Lexer.{Bytes, isspace, is_variable_name, advance_until_separator}
use computer_systems.TeenyBasic.Lexer.Words.{
  all_plain, is_boundary, drop_separator, advance_until_separator-word,
}
use computer_systems.TeenyBasic.Number.{digit_value, starts_digit, strtol, whole, num}
use computer_systems.TeenyBasic.Number.Decimal.{
  digits, digits-all_plain, length-digits, digit_value-digit, Written, number-Written,
}

-- A value as a signed number: 20 digits are enough.
unfoldable pub show_num : ℕ → Bytes
show_num v = if is_negative64 v then b'-' ∷ digits 20 (2 ^ 64 - v) else digits 20 v

-- A word in decimal, negative or not, is read whole.
pub record Number (v : ℕ) : Type 0 where
  pub head : ℕ
  pub others : Bytes
  pub shape : show_num v ≡ head ∷ others
  pub solid : isspace head ≡ false
  pub nonzero : (head == 0) ≡ false
  pub plain : all_plain others ≡ true
  pub short : length others < 100
  pub value : whole (strtol (head ∷ others)) ≡ some v
  pub other : ((head == b'(') ≡ false) × (is_variable_name head ≡ false)

starts_digit-Written : (s : Bytes) (n : ℕ) → Written s n → starts_digit s ≡ true
unfolding starts_digit
starts_digit-Written s n w = rw w.shape (digit_starts w.digit w.decimal)
  where
    digit_starts : (d : ℕ) → d < 10 → ltb (digit_value (b'0' + d)) 10 ≡ true
    digit_starts d h = let e = digit_value-digit d h in ground arith

strtol-minus :
    (s : Bytes) (n : ℕ)
    → Written s n
    → 0 < n
    → n ≤ 2 ^ 63
    → whole (strtol (b'-' ∷ s)) ≡ some (2 ^ 64 - n)
unfolding strtol
strtol-minus s n w p h =
    let fits : leb n (2 ^ 63) ≡ true = ground arith in
    let e : (2 ^ 64 - n) % 2 ^ 64 ≡ 2 ^ 64 - n = omega arith in
    rw (starts_digit-Written s n w, w.magnitude, fits, e) refl

strtol-plus :
    (d : ℕ) (s : Bytes) (n : ℕ)
    → Written ((b'0' + d) ∷ s) n
    → d < 10
    → n < 2 ^ 63
    → whole (strtol ((b'0' + d) ∷ s)) ≡ some n
unfolding strtol
strtol-plus d s n w p h =
    let fits : ltb n (2 ^ 63) ≡ true = ground arith in
    let unsigned : (((b'0' + d) == b'-') || ((b'0' + d) == b'+')) ≡ false = ground arith in
    rw (unsigned, starts_digit-Written _ n w, w.magnitude, fits) refl

digit_bounds :
    (d : ℕ)
    → d < 10
    → (isspace (b'0' + d) ≡ false)
      × (((b'0' + d) == 0) ≡ false)
      × (((b'0' + d) == b'(') ≡ false)
      × (is_variable_name (b'0' + d) ≡ false)
digit_bounds d h = (ground arith, ground arith, ground arith, ground arith)

pub show_num-Number : (v : ℕ) → v < 2 ^ 64 → Number v
unfolding show_num
show_num-Number v h = elim (Bool-cases (is_negative64 v)) [
  | inl minus ↦
      let large : 2 ^ 63 ≤ v = ground arith in
      let w = number-Written (2 ^ 64 - v) (omega arith) in
      let same : 2 ^ 64 - (2 ^ 64 - v) ≡ v = omega arith in
      record {
        head = b'-';
        others = digits 20 (2 ^ 64 - v);
        shape = rw (minus, show_num) refl;
        solid = refl;
        nonzero = refl;
        plain = digits-all_plain 20 (2 ^ 64 - v);
        short = omega (arith, length-digits 20 (2 ^ 64 - v));
        value = strtol-minus _ (2 ^ 64 - v) w (omega arith) (omega arith) ∙ ap some same;
        other = (refl, refl);
      }
  | inr plus ↦
      let small : v < 2 ^ 63 = ground arith in
      let w = number-Written v (omega arith) in
      let (solid, nonzero, paren, name) = digit_bounds w.digit w.decimal in
      record {
        head = b'0' + w.digit;
        others = w.others;
        shape = rw (plus, show_num) w.shape;
        solid = solid;
        nonzero = nonzero;
        plain = w.plain;
        short = w.short;
        value = strtol-plus w.digit w.others v (subst (λ s. Written s v) w.shape w) w.decimal small;
        other = (paren, name);
      }
]

num-word :
    (s w rest : Bytes) (v : ℕ)
    → advance_until_separator s ≡ (some w, rest)
    → whole (strtol w) ≡ some v
    → num s ≡ (some (Ast.num v), rest)
unfolding num init_num_node
num-word s w rest v e value =
    rw (e, num, value) (ap (λ (p : Option Bytes × Bytes). (init_num_node v, p.1)) e)

-- `num` reads back a value, with anything behind it that ends a word.
pub num-show_num :
    (v : ℕ) (rest : Bytes)
    → v < 2 ^ 64
    → is_boundary rest ≡ true
    → num (show_num v ++ rest) ≡ (some (Ast.num v), drop_separator rest)
num-show_num v rest h b =
    let n = show_num-Number v h in
    let e = advance_until_separator-word n.head n.others rest n.solid n.nonzero n.plain n.short b in
    rw n.shape
      (num-word (n.head ∷ (n.others ++ rest)) (n.head ∷ n.others) (drop_separator rest) v e n.value)
