-- ===== src/TeenyBasic/Tests.antt =====
-- assembly-compiler/src/compile.c: the theorems of the compiler on programs of a few nodes.
use native.Mathlib.Nat.{pow-suc}
use computer_systems.Prelude.{
  ℕ, zero, suc, ◌*◌, ◌^◌, ◌/◌, ◌≤◌, ◌<◌, ◌≡◌, refl, ap, List, some, arith, ltb, if◌then◌else◌,
  false,
}
use computer_systems.TeenyBasic.Ast.{Expr, num, binary, var}
use computer_systems.TeenyBasic.Asm.{Instr}
use computer_systems.TeenyBasic.Compile.{compile_expr}
use computer_systems.TeenyBasic.Statements.{compile_folded}
use computer_systems.TeenyBasic.Expressions.{Evaluates, eval}
use computer_systems.TeenyBasic.CompileExpr.{compile_expr-Evaluates}
use computer_systems.TeenyBasic.Folding.{compile_folded-Evaluates, compile_folded-sum, is_settled}

-- A logarithm that counts halvings.
abbrev halvings : ℕ → ℕ → ℕ
halvings zero n = 0
halvings (suc fuel) n = if ltb n 2 then 0 else suc (halvings fuel (n / 2))

abbrev pub log2 : ℕ → ℕ
log2 n = halvings n n

below-pow : (k : ℕ) → k < 2 ^ k
below-pow zero = omega arith
below-pow (suc k) = omega (arith, pow-suc 2 k, below-pow k)

halvings-pow : (fuel k : ℕ) → k ≤ fuel → halvings fuel (2 ^ k) ≡ k
halvings-pow zero zero h = refl
halvings-pow zero (suc k) h = absurd (omega arith)
halvings-pow (suc fuel) zero h = refl
halvings-pow (suc fuel) (suc k) h =
    let double : 2 ^ suc k ≡ 2 ^ k * 2 = pow-suc 2 k in
    let half : 2 ^ suc k / 2 ≡ 2 ^ k = omega arith in
    let large : k < 2 ^ k = below-pow k in
    let many : ltb (2 ^ suc k) 2 ≡ false = grind arith in
    rw (many, half) (ap suc (halvings-pow fuel k (omega arith)))

pub log2-pow : (k : ℕ) → 2 ^ k < 2 ^ 63 → log2 (2 ^ k) ≡ k
log2-pow k h = halvings-pow (2 ^ k) k (omega (arith, below-pow k))

-- (A + 3) * 8 - 20 / A, with A at 5
abbrev mixed : Expr
mixed =
    binary b'-' (binary b'*' (binary b'+' (var b'A') (num 3)) (num 8))
      (binary b'/' (num 20) (var b'A'))

abbrev five_in_a : ℕ → ℕ
five_in_a k = 5

compile_expr-Evaluates_example : Evaluates (compile_expr log2 mixed) five_in_a 60
unfolding eval computer_systems.TeenyBasic.Expressions.apply_op
    computer_systems.TeenyBasic.Word64.div64 computer_systems.TeenyBasic.Word64.sub64
    computer_systems.TeenyBasic.Word64.mul64 computer_systems.TeenyBasic.Word64.add64
compile_expr-Evaluates_example = compile_expr-Evaluates log2 log2-pow mixed five_in_a 60 refl

-- (2 * 3 + 4) / 3, which folds to 3
abbrev numbers : Expr
numbers = binary b'/' (binary b'+' (binary b'*' (num 2) (num 3)) (num 4)) (num 3)

compile_folded-Evaluates_example :
    (code : List Instr) × (compile_folded log2 numbers ≡ some code) × Evaluates code five_in_a 3
unfolding is_settled computer_systems.TeenyBasic.Folding.is_constant eval
    computer_systems.TeenyBasic.Expressions.apply_op computer_systems.TeenyBasic.Word64.div64
    computer_systems.TeenyBasic.Word64.add64 computer_systems.TeenyBasic.Word64.mul64
compile_folded-Evaluates_example =
    compile_folded-Evaluates log2 log2-pow numbers five_in_a 3 refl refl

-- 1 + 2 + A, which is 8 with A at 5, comes to 10.
compile_folded-sum_example :
    (code : List Instr) × (compile_folded log2
        (binary b'+' (binary b'+' (num 1) (num 2)) (var b'A'))
      ≡ some code)
    × Evaluates code five_in_a 10
unfolding computer_systems.TeenyBasic.Word64.add64
compile_folded-sum_example = compile_folded-sum log2 log2-pow five_in_a 1 2 b'A'
