-- ===== src/TeenyBasic/PrintAst.antt =====
-- assembly-compiler/src/ast.c: `print_ast`, which shows the tree on the error output.
use computer_systems.Prelude.{ℕ, zero, suc, ◌+◌, [], ◌∷◌, ◌++◌}
use computer_systems.TeenyBasic.Ast.{
  Condition, Expr, num, binary, var, Statement, Statements, Else, sequence, print, let_node,
  if_node, while_node, nil, cons, no_else, else_branch,
}
use computer_systems.TeenyBasic.Lexer.{Bytes}
use computer_systems.TeenyBasic.Number.Signed.{show_num}

unfoldable pub print_indent : ℕ → Bytes
print_indent zero = []
print_indent (suc n) = b'\t' ∷ print_indent n

abbrev open_paren : Bytes
open_paren = b'(' ∷ []

abbrev comma : Bytes
comma = b',' ∷ b' ' ∷ []

-- ")" and the end of the line
abbrev close_line : Bytes
close_line = b')' ∷ b'\n' ∷ []

abbrev comma_line : Bytes
comma_line = b',' ∷ b'\n' ∷ []

unfoldable pub print_expr : Expr → Bytes
print_expr (num v) = show_num v
print_expr (binary op l r) =
    op ∷ (open_paren ++ print_expr l ++ comma ++ print_expr r ++ (b')' ∷ []))
print_expr (var x) = x ∷ []

abbrev pub print_condition : Condition Expr → Bytes
print_condition c = print_expr (binary c.op c.left c.right)

unfoldable mutual
  pub print_ast_indented : Statement → ℕ → Bytes
  print_ast_indented (sequence ss) indent = print_all ss indent
  print_ast_indented (print e) indent =
      print_indent indent
      ++ (b'P' ∷ b'R' ∷ b'I' ∷ b'N' ∷ b'T' ∷ open_paren)
      ++ print_expr e
      ++ close_line
  print_ast_indented (let_node x e) indent =
      print_indent indent
      ++ (b'L' ∷ b'E' ∷ b'T' ∷ open_paren)
      ++ (x ∷ comma)
      ++ print_expr e
      ++ close_line
  print_ast_indented (if_node c t e) indent =
      print_indent indent
      ++ (b'I' ∷ b'F' ∷ open_paren)
      ++ print_condition c
      ++ comma_line
      ++ print_ast_indented t (indent + 1)
      ++ print_else e indent
      ++ print_indent indent
      ++ close_line
  print_ast_indented (while_node c b) indent =
      print_indent indent
      ++ (b'W' ∷ b'H' ∷ b'I' ∷ b'L' ∷ b'E' ∷ open_paren)
      ++ print_condition c
      ++ comma_line
      ++ print_ast_indented b (indent + 1)
      ++ print_indent indent
      ++ close_line

  pub print_all : Statements → ℕ → Bytes
  print_all nil indent = []
  print_all (cons s ss) indent = print_ast_indented s indent ++ print_all ss indent

  pub print_else : Else → ℕ → Bytes
  print_else no_else indent = []
  print_else (else_branch s) indent =
      print_indent indent ++ comma_line ++ print_ast_indented s (indent + 1)

abbrev pub print_ast : Statement → Bytes
print_ast node = print_ast_indented node 0
