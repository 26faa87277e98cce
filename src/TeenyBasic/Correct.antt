-- ===== src/TeenyBasic/Correct.antt =====
-- assembly-compiler/src/compile.c: the code of a statement does what the statement means.
pub mod Plain
pub mod Counts
pub mod Labels
pub mod Conditions
pub mod Jumps
pub mod Parts
pub mod Blocks
pub mod Branches
pub mod Simulation
pub mod Total
pub mod Whole
use computer_systems.Prelude.{ℕ, ◌-◌, ◌^◌, Bool, true, not, ◌&&◌, ◌||◌, ◌==◌}
use computer_systems.TeenyBasic.Ast.{
  Condition, Expr, num, binary, var, Statement, Statements, Else, sequence, print, let_node,
  if_node, while_node, nil, cons, no_else, else_branch,
}
use computer_systems.TeenyBasic.Lexer.{is_variable_name, is_comparison_op}
use computer_systems.TeenyBasic.Folding.{is_settled, is_constant}

-- The variables are A to Z.
unfoldable pub is_named : Expr → Bool
is_named (num v) = true
is_named (var x) = is_variable_name x
is_named (binary op l r) = is_named l && is_named r

-- A number that is neither 0 nor -1, by which every division has a result.
abbrev pub is_divisor : ℕ → Bool
is_divisor v = not (v == 0) && not (v == 2 ^ 64 - 1)

abbrev pub is_safe_divisor : Expr → Bool
is_safe_divisor (num v) = is_divisor v
is_safe_divisor (var x) = true
is_safe_divisor (binary op l r) = not (is_constant (binary op l r))

-- The compiler divides by such numbers alone.
unfoldable pub is_safe : Expr → Bool
is_safe (num v) = true
is_safe (var x) = true
is_safe (binary op l r) = (is_safe l && is_safe r) && (not (op == b'/') || is_safe_divisor r)

-- Folding does not trap, and leaves what the expression means.
abbrev pub is_foldable : Expr → Bool
is_foldable e = is_safe e && is_settled e

abbrev pub is_condition : Condition Expr → Bool
is_condition c =
    is_comparison_op c.op
    && ((is_named c.left && is_named c.right) && is_foldable (binary c.op c.left c.right))

-- The programs that the compiler compiles as they are meant: each expression that it folds is foldable.
unfoldable mutual
  pub is_compilable : Statement → Bool
  is_compilable (sequence ss) = are_compilable ss
  is_compilable (print e) = is_named e && is_foldable e
  is_compilable (let_node x e) = is_variable_name x && is_named e
  is_compilable (if_node c t e) = is_condition c && (is_compilable t && is_compilable_else e)
  is_compilable (while_node c b) = is_condition c && is_compilable b

  pub are_compilable : Statements → Bool
  are_compilable nil = true
  are_compilable (cons s ss) = is_compilable s && are_compilable ss

  pub is_compilable_else : Else → Bool
  is_compilable_else no_else = true
  is_compilable_else (else_branch s) = is_compilable s
