-- ===== src/TeenyBasic/Program/Dropped.antt =====
-- assembly-compiler/src/parser.c: an ELSE branch of one word that is no keyword.
use computer_systems.Prelude.{
  ℕ, zero, suc, ◌+◌, ◌≤◌, ◌<◌, ◌≡◌, refl, ◌∙◌, true, false, [], ◌∷◌, ◌++◌, Option, none, some,
  length, arith,
}
use computer_systems.Prelude.Text.{str_eq}
use computer_systems.TeenyBasic.Ast.{
  Condition, Expr, Statement, if_node, nil, cons, no_else, init_if_node,
}
use computer_systems.TeenyBasic.Lexer.{Bytes, isupper, advance, at_end}
use computer_systems.TeenyBasic.Lexer.Words.{all_plain}
use computer_systems.TeenyBasic.Parser.{Parse}
use computer_systems.TeenyBasic.Parser.Loops.{Gives, Gives-from}
use computer_systems.TeenyBasic.Program.{
  else_word, end_word, if_word, while_word, print_word, let_word, else_part, if_statement,
  statement_with, statement, snoc, finish_sequence, sequence_from, sequence_loop, parse,
}
use computer_systems.TeenyBasic.Program.Print.{
  end_line, show_condition, show_statement, IsCondition, IsBody,
}
use computer_systems.TeenyBasic.Program.Lines.{
  comparison_line, statement_keyword, end-line, empty-EndsSequence, else-EndsSequence, word-line,
}
use computer_systems.TeenyBasic.Program.Total.{sequence_loop-failed}
use computer_systems.TeenyBasic.Program.Rows.{
  ReadsBody, loop_start, loop_next, loop_end, show_statement-start,
}
use computer_systems.TeenyBasic.Program.Blocks.{close_block-line}
use computer_systems.TeenyBasic.Program.RoundTrip.{show_statement-Reads}

-- A word that begins no statement.
pub record Unknown (c : ℕ) (w : Bytes) : Type 0 where
  pub capital : isupper c ≡ true
  pub plain : all_plain w ≡ true
  pub short : length w < 100
  pub no_else : str_eq (c ∷ w) else_word ≡ false
  pub no_end : str_eq (c ∷ w) end_word ≡ false
  pub no_print : str_eq (c ∷ w) print_word ≡ false
  pub no_let : str_eq (c ∷ w) let_word ≡ false
  pub no_if : str_eq (c ∷ w) if_word ≡ false
  pub no_while : str_eq (c ∷ w) while_word ≡ false

-- The text of IF with the first branch `t` and the word behind ELSE.
abbrev pub show_unknown_else : Condition Expr → Statement → ℕ → Bytes → Bytes
show_unknown_else c t d w =
    if_word
    ++ (b' '
        ∷ show_condition c
            (show_statement t (else_word ++ (b'\n' ∷ d ∷ (w ++ (b'\n' ∷ end_line if_word []))))))

Unknown-statement :
    (seq : Bytes → Parse (Option Statement)) (n d : ℕ) (w rest : Bytes)
    → Unknown d w
    → statement seq (suc n) (d ∷ (w ++ (b'\n' ∷ rest))) ≡ some ((false, none), rest)
unfolding statement_with
Unknown-statement seq n d w rest u =
    statement_keyword seq n d b'\n' w rest u.capital u.plain u.short refl
    ∙ rw (u.no_else, u.no_end, u.no_print, u.no_let, u.no_if, u.no_while, statement_with) refl

Unknown-sequence :
    (d : ℕ) (w rest : Bytes)
    → Unknown d w
    → Gives (λ n. sequence_from n (d ∷ (w ++ (b'\n' ∷ rest)))) (none, rest)
Unknown-sequence d w rest u =
    loop_start (d ∷ (w ++ (b'\n' ∷ rest))) (none, rest)
      (Gives-from (λ n. sequence_loop n nil (d ∷ (w ++ (b'\n' ∷ rest)))) (none, rest) 1
        λ n le. sequence_loop-failed n nil _ rest (at n le))
  where
    at :
        (n : ℕ)
        → 1 ≤ n
        → statement (sequence_from n) n (d ∷ (w ++ (b'\n' ∷ rest))) ≡ some ((false, none), rest)
    at zero le = absurd (omega arith)
    at (suc n) le = Unknown-statement (sequence_from (suc n)) n d w rest u

-- IF with such a branch is read as IF without one.
Unknown-if :
    (c : Condition Expr) (t : Statement) (d : ℕ) (w : Bytes)
    → IsCondition c
    → ReadsBody t
    → Unknown d w
    → Gives
        (λ n. statement (sequence_from n) n (show_unknown_else c t d w))
        ((false, some (if_node c t no_else)), [])
unfolding ReadsBody statement_with str_eq all_plain if_statement init_if_node else_part
Unknown-if c t d w hc reads u =
    let bad = d ∷ (w ++ (b'\n' ∷ end_line if_word [])) in
    let last = else_word ++ (b'\n' ∷ bad) in
    let ends = else-EndsSequence bad in
    let else_line = word-line b'E' (b'L' ∷ b'S' ∷ b'E' ∷ []) bad refl refl (omega arith) in
    let line = word-line b'I' (b'F' ∷ []) [] refl refl (omega arith) in
    let g =
      comparison_line c (show_statement t last) hc (show_statement-start t last ends.starts) in
    let k = reads last ends in
    let j = Unknown-sequence d w (end_line if_word []) u in
    Gives-from _ ((false, some (if_node c t no_else)), []) (g.enough + k.enough + j.enough)
      λ n le.
        statement_keyword (sequence_from (suc n)) n b'I' b' ' (b'F' ∷ []) _ refl refl (omega arith)
          refl
        ∙ rw
            (
              g.gives (suc n) (omega arith),
              k.gives (suc n) (omega arith),
              else_line,
              j.gives (suc n) (omega arith),
              end-line b'I' (b'F' ∷ []) [],
              close_block-line b'I' (b'F' ∷ []) [] line refl,
            )
            refl

-- An ELSE branch that is one line of one word of up to 100 bytes, with a capital at its start and none of the words that begin or
-- end a statement, is no error: `parse` takes the program with the branch left out, for every such word, every
-- condition of two expressions and a comparison, and every first branch.
pub parse-show_unknown_else :
    (c : Condition Expr) (t : Statement) (d : ℕ) (w : Bytes)
    → IsCondition c
    → IsBody t
    → Unknown d w
    → Gives (λ n. parse n (show_unknown_else c t d w)) (some (if_node c t no_else))
unfolding parse at_end advance snoc finish_sequence
parse-show_unknown_else c t d w hc ht u =
    let st = if_node c t no_else in
    let text = show_unknown_else c t d w in
    let g = Unknown-if c t d w hc ((show_statement-Reads t).body ht) u in
    let k =
      loop_start text (some st, [])
        (loop_next nil st text [] (some st, []) g (loop_end (cons st nil) [] empty-EndsSequence)) in
    record { enough = k.enough; gives = λ n le. rw (k.gives n le, parse) refl }
