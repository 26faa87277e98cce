-- ===== src/TeenyBasic/Parser.antt =====
-- assembly-compiler/src/parser.c: the recursive descent over expressions. A result is the node, or `none` for NULL,
-- with the bytes that are left. The functions take fuel, one unit for a call or a round of a loop;
-- without fuel there is no result.
pub mod Total
pub mod Print
pub mod Loops
pub mod RoundTrip
use computer_systems.Prelude.{
  ℕ, zero, suc, ◌+◌, Bool, true, false, not, ◌&&◌, ◌||◌, List, [], ◌∷◌, ◌++◌, Option, none, some,
  ◌==◌, if◌then◌else◌,
}
use computer_systems.Prelude.Options.{◌>>=◌}
use computer_systems.TeenyBasic.Ast.{
  Condition, Expr, Statement, Statements, Else, sequence, nil, cons, no_else, else_branch,
  init_binary_node, init_var_node, init_condition, init_print_node, init_let_node, init_if_node,
  init_while_node,
}
use computer_systems.TeenyBasic.Lexer.{
  Bytes, is_variable_name, is_open_paren, is_close_paren, is_factor_op, is_term_op,
  is_comparison_op, is_comment_start, advance, try_advance, advance_until_separator, at_end,
  skip_line,
}
use computer_systems.TeenyBasic.Number.{num}

abbrev pub Parse : Type 0 → Type 0
Parse A = Option (A × Bytes)

-- The case of `factor` behind an open parenthesis, with the result of `expression`.
unfoldable pub close_paren : Option Expr → Bytes → Option Expr × Bytes
close_paren node s =
    let (next, rest) = try_advance is_close_paren s in (if next == 0 then none else node, rest)

-- The case of `factor` without one.
unfoldable pub variable_or_num : Bytes → Option Expr × Bytes
variable_or_num s =
    let (var, rest) = try_advance is_variable_name s in
    if not (var == 0) then (init_var_node var, rest) else num rest

unfoldable mutual
  pub factor : ℕ → Bytes → Parse (Option Expr)
  factor zero s = none
  factor (suc n) s =
      let (paren, rest) = try_advance is_open_paren s in
      let inner = expression n rest >>= λ (node, after). some (close_paren node after) in
      if not (paren == 0) then inner else some (variable_or_num rest)

  pub term : ℕ → Bytes → Parse (Option Expr)
  term zero s = none
  term (suc n) s = factor n s >>= λ (result, rest). term_loop n result rest

  pub term_loop : ℕ → Option Expr → Bytes → Parse (Option Expr)
  term_loop zero result s = none
  term_loop (suc n) result s =
      let (next, rest) = try_advance is_factor_op s in
      let more = factor n rest >>= λ (right, after).
      term_loop n (init_binary_node next result right) after in
      if next == 0 then some (result, rest) else more

  pub expression : ℕ → Bytes → Parse (Option Expr)
  expression zero s = none
  expression (suc n) s = term n s >>= λ (result, rest). expression_loop n result rest

  pub expression_loop : ℕ → Option Expr → Bytes → Parse (Option Expr)
  expression_loop zero result s = none
  expression_loop (suc n) result s =
      let (next, rest) = try_advance is_term_op s in
      let more = term n rest >>= λ (right, after).
      expression_loop n (init_binary_node next result right) after in
      if next == 0 then some (result, rest) else more

-- The operator is '\0' where no comparison stands.
unfoldable pub comparison : ℕ → Bytes → Parse (Option (Condition Expr))
comparison n s = expression n s >>= λ (left, s₁).
    let (op, s₂) = try_advance is_comparison_op s₁ in
    expression n s₂ >>= λ (right, s₃). some (init_condition op left right, s₃)
