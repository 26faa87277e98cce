-- ===== src/TeenyBasic/Parser/Loops.antt =====
-- assembly-compiler/src/parser.c: the loops of the descent, a round at a time.
use computer_systems.Prelude.{
  ℕ, zero, suc, ◌≤◌, ◌≡◌, refl, ap, true, false, ◌∷◌, Option, some, ◌==◌, arith,
}
use computer_systems.TeenyBasic.Ast.{Expr, init_binary_node}
use computer_systems.TeenyBasic.Lexer.{Bytes, isspace, is_factor_op, is_term_op}
use computer_systems.TeenyBasic.Lexer.Words.{
  skip_spaces, first, is_clean, advance-byte, try_advance-same, try_advance-taken, try_advance-none,
}
use computer_systems.TeenyBasic.Parser.{factor, term, term_loop, expression_loop}

-- With any fuel from some amount on, the call returns the result.
pub record Gives {A : Type 0} (call : ℕ → Option A) (result : A) : Type 0 where
  pub enough : ℕ
  pub gives : (n : ℕ) → enough ≤ n → call n ≡ some result

-- A loop of the descent sees nothing of white space.
pub term_loop-same :
    (n : ℕ) (e : Option Expr) (s t : Bytes)
    → skip_spaces s ≡ skip_spaces t
    → term_loop n e s ≡ term_loop n e t
unfolding term_loop
term_loop-same zero e s t h = refl
term_loop-same (suc n) e s t h = rw (try_advance-same is_factor_op s t h) refl

pub expression_loop-same :
    (n : ℕ) (e : Option Expr) (s t : Bytes)
    → skip_spaces s ≡ skip_spaces t
    → expression_loop n e s ≡ expression_loop n e t
unfolding expression_loop
expression_loop-same zero e s t h = refl
expression_loop-same (suc n) e s t h = rw (try_advance-same is_term_op s t h) refl

-- A loop ends before a byte that is none of its operators.
pub term_loop-ends :
    (n : ℕ) (e : Option Expr) (s : Bytes)
    → is_factor_op (first s) ≡ false
    → is_clean s ≡ true
    → term_loop (suc n) e s ≡ some (e, skip_spaces s)
unfolding term_loop
term_loop-ends n e s h c = rw (try_advance-none is_factor_op s h c, term_loop) refl

pub expression_loop-ends :
    (n : ℕ) (e : Option Expr) (s : Bytes)
    → is_term_op (first s) ≡ false
    → is_clean s ≡ true
    → expression_loop (suc n) e s ≡ some (e, skip_spaces s)
unfolding expression_loop
expression_loop-ends n e s h c = rw (try_advance-none is_term_op s h c, expression_loop) refl

-- A loop goes on over one of its operators.
pub term_loop-op :
    (n op : ℕ) (e right : Option Expr) (s after : Bytes)
    → is_factor_op op ≡ true
    → factor n s ≡ some (right, after)
    → term_loop (suc n) e (op ∷ s) ≡ term_loop n (init_binary_node op e right) after
unfolding term_loop
term_loop-op n op e right s after h f =
    let solid : isspace op ≡ false = ground arith in
    let nonzero : (op == 0) ≡ false = ground arith in
    rw (try_advance-taken is_factor_op op s solid h, nonzero, f, term_loop) refl

pub expression_loop-op :
    (n op : ℕ) (e right : Option Expr) (s after : Bytes)
    → is_term_op op ≡ true
    → term n s ≡ some (right, after)
    → expression_loop (suc n) e (op ∷ s) ≡ expression_loop n (init_binary_node op e right) after
unfolding expression_loop
expression_loop-op n op e right s after h f =
    let solid : isspace op ≡ false = ground arith in
    let nonzero : (op == 0) ≡ false = ground arith in
    rw (try_advance-taken is_term_op op s solid h, nonzero, f, expression_loop) refl

pub Gives-from :
    {A : Type 0} (call : ℕ → Option A) (result : A) (k : ℕ)
    → ((n : ℕ) → k ≤ n → call (suc n) ≡ some result)
    → Gives call result
Gives-from call result k h = record { enough = suc k; gives = go }
  where
    go : (n : ℕ) → suc k ≤ n → call n ≡ some result
    go zero le = absurd (omega arith)
    go (suc n) le = h n (omega arith)

pub first-byte : (c : ℕ) (s : Bytes) → isspace c ≡ false → first (c ∷ s) ≡ c
first-byte c s h = ap (λ (p : ℕ × Bytes). p.0) (advance-byte c s h)

pub clean-byte :
    (c : ℕ) (s : Bytes) → isspace c ≡ false → (c == 0) ≡ false → is_clean (c ∷ s) ≡ true
unfolding is_clean
clean-byte c s h z = rw (h, z, is_clean) refl
