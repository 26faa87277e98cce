-- ===== src/TeenyBasic/Program/Print.antt =====
-- The text of a program, and the programs that the parser makes.
use Prim.{Unit}
use computer_systems.Prelude.{◌≡◌, Bool, true, [], ◌∷◌, ◌++◌}
use computer_systems.TeenyBasic.Ast.{
  Condition, Expr, Statement, Statements, Else, sequence, print, let_node, if_node, while_node, nil,
  cons, no_else, else_branch,
}
use computer_systems.TeenyBasic.Lexer.{Bytes, is_variable_name, is_comparison_op, isupper}
use computer_systems.TeenyBasic.Parser.Print.{show, IsSource}
use computer_systems.TeenyBasic.Program.{
  else_word, end_word, if_word, while_word, print_word, let_word,
}

abbrev pub end_line : Bytes → Bytes → Bytes
end_line word rest = end_word ++ (b' ' ∷ (word ++ (b'\n' ∷ rest)))

abbrev pub show_condition : Condition Expr → Bytes → Bytes
show_condition c rest = show 0 c.left (c.op ∷ show 0 c.right (b'\n' ∷ rest))

-- The text of a statement, in lines, in front of `rest`.
unfoldable mutual
  pub show_statement : Statement → Bytes → Bytes
  show_statement (sequence ss) rest = show_all ss rest
  show_statement (print e) rest = print_word ++ (b' ' ∷ show 0 e (b'\n' ∷ rest))
  show_statement (let_node x e) rest = let_word ++ (b' ' ∷ x ∷ b'=' ∷ show 0 e (b'\n' ∷ rest))
  show_statement (if_node c t e) rest =
      if_word ++ (b' ' ∷ show_condition c (show_statement t (show_else e (end_line if_word rest))))
  show_statement (while_node c b) rest =
      while_word ++ (b' ' ∷ show_condition c (show_statement b (end_line while_word rest)))

  pub show_all : Statements → Bytes → Bytes
  show_all nil rest = rest
  show_all (cons s ss) rest = show_statement s (show_all ss rest)

  pub show_else : Else → Bytes → Bytes
  show_else no_else rest = rest
  show_else (else_branch s) rest = else_word ++ (b'\n' ∷ show_statement s rest)

abbrev pub IsCondition : Condition Expr → Type 0
IsCondition c = (is_comparison_op c.op ≡ true) × IsSource c.left × IsSource c.right

-- The trees of programs: `IsSingle` is a statement and `IsBody` the result of a sequence. A sequence has no
-- sequence in it, and one statement alone is no sequence.
unfoldable mutual
  pub IsSingle : Statement → Type 0
  IsSingle (sequence ss) = ⊥
  IsSingle (print e) = IsSource e
  IsSingle (let_node x e) = (is_variable_name x ≡ true) × IsSource e
  IsSingle (if_node c t e) = IsCondition c × IsBody t × IsBranch e
  IsSingle (while_node c b) = IsCondition c × IsBody b

  pub IsBody : Statement → Type 0
  IsBody (sequence nil) = Unit {0}
  IsBody (sequence (cons s nil)) = ⊥
  IsBody (sequence (cons s (cons t ss))) = IsSingle s × IsSingle t × AreSingle ss
  IsBody (print e) = IsSource e
  IsBody (let_node x e) = (is_variable_name x ≡ true) × IsSource e
  IsBody (if_node c t e) = IsCondition c × IsBody t × IsBranch e
  IsBody (while_node c b) = IsCondition c × IsBody b

  pub AreSingle : Statements → Type 0
  AreSingle nil = Unit {0}
  AreSingle (cons s ss) = IsSingle s × AreSingle ss

  pub IsBranch : Else → Type 0
  IsBranch no_else = Unit {0}
  IsBranch (else_branch s) = IsBody s

-- A text that is empty or begins with a capital letter.
unfoldable pub is_start : Bytes → Bool
is_start [] = true
is_start (c ∷ s) = isupper c
