-- ===== src/TeenyBasic/Number/Decimal.antt =====
-- assembly-compiler/src/parser.c: strtol reads back a number that is written in decimal.
use mathlib.Core.List.{append_assoc, append-nil}
use mathlib.Core.Path.{subst}
use native.Mathlib.Nat.{pow-suc}
use computer_systems.Prelude.{
  ℕ, zero, suc, ◌+◌, ◌*◌, ◌/◌, ◌%◌, ◌^◌, ◌≤◌, ◌<◌, ◌≡◌, refl, sym, ap, ◌∙◌, true, false, [], ◌∷◌,
  ◌++◌, ltb, ◌==◌, ==_iff, if◌then◌else◌, length, length-append, arith, Bool-cases, inl, inr,
}
use computer_systems.TeenyBasic.Lexer.{Bytes}
use computer_systems.TeenyBasic.Lexer.Words.{all_plain}
use computer_systems.TeenyBasic.Number.{digit_value, read_digits, read_magnitude}

-- The last `k` digits.
unfoldable pub digits : ℕ → ℕ → Bytes
digits zero n = []
digits (suc k) n =
    let high = digits k (n / 10) in
    if ltb n 10 then (b'0' + n) ∷ [] else high ++ ((b'0' + n % 10) ∷ [])

all_plain-append :
    (s t : Bytes) → all_plain s ≡ true → all_plain t ≡ true → all_plain (s ++ t) ≡ true
unfolding all_plain
all_plain-append [] t h k = k
all_plain-append (c ∷ s) t h k = ground (arith, all_plain-append s t)

digit_plain : (d : ℕ) → d < 10 → all_plain ((b'0' + d) ∷ []) ≡ true
unfolding all_plain
digit_plain d h = ground arith

pub digits-all_plain : (k n : ℕ) → all_plain (digits k n) ≡ true
unfolding digits all_plain
digits-all_plain zero n = refl
digits-all_plain (suc k) n = elim (Bool-cases (ltb n 10)) [
  | inl small ↦ rw (small, digits) (digit_plain n (ground arith))
  | inr large ↦
      rw (large, digits)
        (all_plain-append (digits k (n / 10)) _ (digits-all_plain k (n / 10))
          (digit_plain (n % 10) (omega arith)))
]

pub length-digits : (k n : ℕ) → length (digits k n) ≤ k
unfolding digits
length-digits zero n = omega arith
length-digits (suc k) n = elim (Bool-cases (ltb n 10)) [
  | inl small ↦ rw (small, digits) (omega arith)
  | inr large ↦
      rw (large, digits)
        (omega (
          arith,
          length-append (digits k (n / 10)) ((b'0' + n % 10) ∷ []),
          length-digits k (n / 10),
        ))
]

pub digit_value-digit : (d : ℕ) → d < 10 → digit_value (b'0' + d) ≡ d
digit_value-digit d h = ground arith

read_digits-digit :
    (n d : ℕ) (s : Bytes)
    → d < 10
    → read_digits 10 n ((b'0' + d) ∷ s) ≡ read_digits 10 (n * 10 + d) s
unfolding read_digits
read_digits-digit n d s h = let v = digit_value-digit d h in ground arith

read_digits-digits :
    (k n : ℕ) (s : Bytes) → n < 10 ^ k → read_digits 10 0 (digits k n ++ s) ≡ read_digits 10 n s
unfolding digits
read_digits-digits zero n s h = ap (λ m. read_digits 10 m s) (omega arith)
read_digits-digits (suc k) n s h = elim (Bool-cases (ltb n 10)) [
  | inl small ↦
      rw (small, digits)
        (read_digits-digit 0 n s (ground arith) ∙ ap (λ m. read_digits 10 m s) (omega arith))
  | inr large ↦
      let lt : n / 10 < 10 ^ k = omega (arith, pow-suc 10 k) in
      let same : n / 10 * 10 + n % 10 ≡ n = omega arith in
      rw (large, digits)
        (ap (read_digits 10 0) (append_assoc (digits k (n / 10)) ((b'0' + n % 10) ∷ []) s)
          ∙ read_digits-digits k (n / 10) ((b'0' + n % 10) ∷ s) lt
          ∙ read_digits-digit (n / 10) (n % 10) s (omega arith)
          ∙ ap (λ m. read_digits 10 m s) same)
]

-- The digits of a number that is not 0 begin with another digit than 0.
record Leading (s : Bytes) : Type 0 where
  digit : ℕ
  others : Bytes
  leads : s ≡ (b'0' + digit) ∷ others
  positive : 0 < digit
  decimal : digit < 10

digits-Leading : (k n : ℕ) → 0 < n → n < 10 ^ k → Leading (digits k n)
unfolding digits
digits-Leading zero n p h = absurd (omega arith)
digits-Leading (suc k) n p h = elim (Bool-cases (ltb n 10)) [
  | inl small ↦ record {
    digit = n;
    others = [];
    leads = rw (small, digits) refl;
    positive = p;
    decimal = ground arith;
  }
  | inr large ↦
      let ten : 10 ≤ n = ground arith in
      let l = digits-Leading k (n / 10) (omega arith) (omega (arith, pow-suc 10 k)) in
      record {
        digit = l.digit;
        others = l.others ++ ((b'0' + n % 10) ∷ []);
        leads = rw (large, digits) (ap (λ t. t ++ ((b'0' + n % 10) ∷ [])) l.leads);
        positive = l.positive;
        decimal = l.decimal;
      }
]

-- A number below 10 ^ 20 in decimal: what the lexer and strtol need to know of it.
pub record Written (s : Bytes) (n : ℕ) : Type 0 where
  pub digit : ℕ
  pub others : Bytes
  pub shape : s ≡ (b'0' + digit) ∷ others
  pub decimal : digit < 10
  pub plain : all_plain others ≡ true
  pub short : length others < 100
  pub magnitude : read_magnitude s ≡ (n, [])

read_magnitude-decimal :
    (c : ℕ) (s : Bytes) → (c == b'0') ≡ false → read_magnitude (c ∷ s) ≡ read_digits 10 0 (c ∷ s)
unfolding read_magnitude
read_magnitude-decimal c [] h = ground arith
read_magnitude-decimal c (x ∷ []) h = ground arith
read_magnitude-decimal c (x ∷ d ∷ s) h = ground arith

digits-Written : (n : ℕ) → 0 < n → n < 10 ^ 20 → Written (digits 20 n) n
unfolding all_plain read_digits
digits-Written n p h =
    let l = digits-Leading 20 n p h in
    let e : digits 20 n ≡ digits 20 n ++ [] = sym (append-nil (digits 20 n)) in
    let plain : all_plain ((b'0' + l.digit) ∷ l.others) ≡ true =
      rw l.leads at (digits-all_plain 20 n) in
    record {
      digit = l.digit;
      others = l.others;
      shape = l.leads;
      decimal = l.decimal;
      plain = ground arith;
      short = omega (arith, length-digits 20 n, ap length l.leads);
      magnitude =
          ap read_magnitude l.leads
          ∙ read_magnitude-decimal (b'0' + l.digit) l.others (nonzero l.digit l.positive)
          ∙ ap (read_digits 10 0) (sym l.leads ∙ e)
          ∙ read_digits-digits 20 n [] h;
    }
  where
    nonzero : (d : ℕ) → 0 < d → ((b'0' + d) == b'0') ≡ false
    nonzero d h = ground arith

zero-Written : Written (digits 20 0) 0
unfolding digits all_plain read_magnitude read_digits
zero-Written = record {
  digit = 0;
  others = [];
  shape = refl;
  decimal = omega arith;
  plain = refl;
  short = omega arith;
  magnitude = refl;
}

pub number-Written : (n : ℕ) → n < 10 ^ 20 → Written (digits 20 n) n
number-Written n h = elim (Bool-cases (n == 0)) [
  | inl e ↦ subst (λ m. Written (digits 20 m) m) (sym ((==_iff n 0).0 e)) zero-Written
  | inr e ↦ digits-Written n (ground arith) h
]
