-- ===== src/TeenyBasic/Program/Blocks.antt =====
-- assembly-compiler/src/parser.c: each kind of statement, read from its text.
use computer_systems.Prelude.{ℕ, suc, ◌+◌, ◌≡◌, refl, ◌∙◌, true, false, [], ◌∷◌, ◌++◌, some, arith}
use computer_systems.Prelude.Text.{str_eq}
use computer_systems.TeenyBasic.Ast.{
  Condition, Expr, Statement, Else, print, let_node, if_node, while_node, no_else, else_branch,
  init_if_node, init_while_node,
}
use computer_systems.TeenyBasic.Lexer.{Bytes, advance_until_separator}
use computer_systems.TeenyBasic.Lexer.Words.{all_plain}
use computer_systems.TeenyBasic.Parser.Print.{IsSource}
use computer_systems.TeenyBasic.Parser.Loops.{Gives, Gives-from}
use computer_systems.TeenyBasic.Program.{
  end_word, if_word, while_word, close_block, else_part, if_statement, while_statement,
  statement_with, sequence_from,
}
use computer_systems.TeenyBasic.Program.Print.{
  end_line, show_statement, show_else, IsCondition, IsSingle,
}
use computer_systems.TeenyBasic.Program.Lines.{
  comparison_line, print_statement-line, let_statement-line, statement_keyword, EndsSequence,
  end-line, else-EndsSequence, end_line-EndsSequence, word-line,
}
use computer_systems.TeenyBasic.Program.Rows.{ReadsSingle, ReadsBody, show_statement-start}

-- Each kind of statement.
pub ReadsSingle-print : (e : Expr) → IsSource e → ReadsSingle (print e)
unfolding ReadsSingle show_statement statement_with str_eq all_plain
ReadsSingle-print e h rest s =
    let g = print_statement-line e rest h s in
    Gives-from _ ((false, some (print e)), rest) g.enough
      λ n le.
        statement_keyword (sequence_from (suc n)) n b'P' b' ' (b'R' ∷ b'I' ∷ b'N' ∷ b'T' ∷ []) _
          refl refl (omega arith) refl
        ∙ rw (g.gives (suc n) (omega arith)) refl

pub ReadsSingle-let : (x : ℕ) (e : Expr) → IsSingle (let_node x e) → ReadsSingle (let_node x e)
unfolding ReadsSingle IsSingle show_statement statement_with str_eq all_plain
ReadsSingle-let x e (v, h) rest s =
    let g = let_statement-line x e rest v h s in
    Gives-from _ ((false, some (let_node x e)), rest) g.enough
      λ n le.
        statement_keyword (sequence_from (suc n)) n b'L' b' ' (b'E' ∷ b'T' ∷ []) _ refl refl
          (omega arith) refl
        ∙ rw (g.gives (suc n) (omega arith)) refl

pub close_block-line :
    (c : ℕ) (w rest : Bytes)
    → advance_until_separator (c ∷ (w ++ (b'\n' ∷ rest))) ≡ (some (c ∷ w), rest)
    → str_eq (c ∷ w) (c ∷ w) ≡ true
    → close_block (c ∷ w) (some end_word) (c ∷ (w ++ (b'\n' ∷ rest))) ≡ (true, rest)
unfolding close_block str_eq
close_block-line c w rest line same = rw (line, same) refl

pub ReadsSingle-while :
    (c : Condition Expr) (b : Statement)
    → IsCondition c
    → ReadsBody b
    → ReadsSingle (while_node c b)
unfolding ReadsSingle ReadsBody show_statement statement_with str_eq all_plain while_statement
    init_while_node
ReadsSingle-while c b hc reads rest s =
    let last = end_line while_word rest in
    let line = word-line b'W' (b'H' ∷ b'I' ∷ b'L' ∷ b'E' ∷ []) rest refl refl (omega arith) in
    let ends =
      end_line-EndsSequence b'W' (b'H' ∷ b'I' ∷ b'L' ∷ b'E' ∷ []) rest refl refl (omega arith)
        refl in
    let g =
      comparison_line c (show_statement b last) hc (show_statement-start b last ends.starts) in
    let k = reads last ends in
    Gives-from _ ((false, some (while_node c b)), rest) (g.enough + k.enough)
      λ n le.
        statement_keyword (sequence_from (suc n)) n b'W' b' ' (b'H' ∷ b'I' ∷ b'L' ∷ b'E' ∷ []) _
          refl refl (omega arith) refl
        ∙ rw
            (
              g.gives (suc n) (omega arith),
              k.gives (suc n) (omega arith),
              end-line b'W' (b'H' ∷ b'I' ∷ b'L' ∷ b'E' ∷ []) rest,
              close_block-line b'W' (b'H' ∷ b'I' ∷ b'L' ∷ b'E' ∷ []) rest line refl,
            )
            refl

-- The text behind the first branch of IF, and what the parser makes of it with the word behind the branch.
unfoldable pub ReadsElse : Else → Type 0
ReadsElse e =
    (rest : Bytes)
    → EndsSequence (show_else e (end_line if_word rest))
      × Gives
          (λ n.
            else_part (sequence_from n)
              (advance_until_separator (show_else e (end_line if_word rest))).0
              (advance_until_separator (show_else e (end_line if_word rest))).1)
          (e, some end_word, if_word ++ (b'\n' ∷ rest))

pub if_line-EndsSequence : (rest : Bytes) → EndsSequence (end_line if_word rest)
unfolding all_plain str_eq
if_line-EndsSequence rest = end_line-EndsSequence b'I' (b'F' ∷ []) rest refl refl (omega arith) refl

pub ReadsElse-no_else : ReadsElse no_else
unfolding ReadsElse show_else else_part str_eq
ReadsElse-no_else rest = (
  if_line-EndsSequence rest,
  Gives-from _ (no_else, some end_word, if_word ++ (b'\n' ∷ rest)) 0
      λ n le. rw (end-line b'I' (b'F' ∷ []) rest) refl,
)

pub ReadsElse-else_branch : (b : Statement) → ReadsBody b → ReadsElse (else_branch b)
unfolding ReadsElse ReadsBody show_else else_part str_eq all_plain
ReadsElse-else_branch b reads rest =
    let last = end_line if_word rest in
    let k = reads last (if_line-EndsSequence rest) in
    let line =
      word-line b'E' (b'L' ∷ b'S' ∷ b'E' ∷ []) (show_statement b last) refl refl (omega arith) in
    (
      else-EndsSequence (show_statement b last),
      Gives-from _ (else_branch b, some end_word, if_word ++ (b'\n' ∷ rest)) k.enough
          λ n le. rw (line, k.gives (suc n) (omega arith), end-line b'I' (b'F' ∷ []) rest) refl,
    )

pub ReadsSingle-if :
    (c : Condition Expr) (t : Statement) (e : Else)
    → IsCondition c
    → ReadsBody t
    → ReadsElse e
    → ReadsSingle (if_node c t e)
unfolding ReadsSingle ReadsBody ReadsElse show_statement statement_with str_eq all_plain
    if_statement init_if_node
ReadsSingle-if c t e hc reads else_reads rest s =
    let line = word-line b'I' (b'F' ∷ []) rest refl refl (omega arith) in
    let (ends, j) = else_reads rest in
    let last = show_else e (end_line if_word rest) in
    let g =
      comparison_line c (show_statement t last) hc (show_statement-start t last ends.starts) in
    let k = reads last ends in
    Gives-from _ ((false, some (if_node c t e)), rest) (g.enough + k.enough + j.enough)
      λ n le.
        statement_keyword (sequence_from (suc n)) n b'I' b' ' (b'F' ∷ []) _ refl refl (omega arith)
          refl
        ∙ rw
            (
              g.gives (suc n) (omega arith),
              k.gives (suc n) (omega arith),
              j.gives (suc n) (omega arith),
              close_block-line b'I' (b'F' ∷ []) rest line refl,
            )
            refl
