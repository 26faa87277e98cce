-- ===== src/TeenyBasic/Parser/Print.antt =====
-- The text of an expression, with the parentheses that the precedence of its operators asks for.
use computer_systems.Prelude.{
  ℕ, ◌+◌, ◌<◌, ◌^◌, ◌≡◌, Bool, true, false, ◌||◌, ◌∷◌, ◌++◌, ltb, if◌then◌else◌,
}
use computer_systems.TeenyBasic.Ast.{Expr, num, binary, var}
use computer_systems.TeenyBasic.Lexer.{Bytes, is_variable_name, is_factor_op, is_term_op}
use computer_systems.TeenyBasic.Number.Signed.{show_num}

-- The levels of the grammar: 0 is an expression, 1 a term and 2 a factor.
abbrev pub level : ℕ → ℕ
level op = if is_factor_op op then 1 else 0

abbrev pub enclose : Bool → (Bytes → Bytes) → Bytes → Bytes
enclose true text rest = b'(' ∷ text (b')' ∷ rest)
enclose false text rest = text rest

-- The text at a level, in front of `rest`. Operators of one level group to the left.
unfoldable pub show : ℕ → Expr → Bytes → Bytes
show k (num v) rest = show_num v ++ rest
show k (var x) rest = x ∷ rest
show k (binary op l r) rest =
    enclose (ltb (level op) k) (λ after. show (level op) l (op ∷ show (level op + 1) r after)) rest

-- The expressions that the grammar has: values of 64 bits, variables A to Z, and the operators of
-- arithmetic.
unfoldable pub IsSource : Expr → Type 0
IsSource (num v) = v < 2 ^ 64
IsSource (var x) = is_variable_name x ≡ true
IsSource (binary op l r) = ((is_factor_op op || is_term_op op) ≡ true) × IsSource l × IsSource r
