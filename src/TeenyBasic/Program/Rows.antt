-- ===== src/TeenyBasic/Program/Rows.antt =====
-- assembly-compiler/src/parser.c: statements in a row, as the loop of `sequence` reads them.
use mathlib.Core.Path.{subst}
use computer_systems.Prelude.{◌+◌, ◌≡◌, refl, sym, ap, ◌∙◌, true, false, Option, none, some, arith}
use computer_systems.TeenyBasic.Ast.{
  Statement, Statements, sequence, print, let_node, if_node, while_node, nil, cons,
}
use computer_systems.TeenyBasic.Lexer.{Bytes}
use computer_systems.TeenyBasic.Parser.Loops.{Gives, Gives-from}
use computer_systems.TeenyBasic.Program.{
  statement, snoc, finish_sequence, sequence_from, sequence_loop,
}
use computer_systems.TeenyBasic.Program.Total.{sequence_loop-end, sequence_loop-next}
use computer_systems.TeenyBasic.Program.Print.{show_statement, show_all, is_start}
use computer_systems.TeenyBasic.Program.Lines.{EndsSequence, ends_at}

-- What the parser makes of the text of a statement alone, of a body and of statements in a row.
unfoldable pub ReadsSingle : Statement → Type 0
ReadsSingle st =
    (rest : Bytes)
    → is_start rest ≡ true
    → Gives (λ n. statement (sequence_from n) n (show_statement st rest)) ((false, some st), rest)

unfoldable pub ReadsBody : Statement → Type 0
ReadsBody st =
    (rest : Bytes)
    → EndsSequence rest
    → Gives (λ n. sequence_from n (show_statement st rest)) (some st, rest)

-- The statements of one list behind those of another one.
unfoldable pub append : Statements → Statements → Statements
append nil ts = ts
append (cons s ss) ts = cons s (append ss ts)

append-snoc : (ss ts : Statements) (s : Statement) → append (snoc ss s) ts ≡ append ss (cons s ts)
unfolding append snoc
append-snoc nil ts s = refl
append-snoc (cons t ss) ts s = ap (cons t) (append-snoc ss ts s)

append-nil : (ss : Statements) → append ss nil ≡ ss
unfolding append
append-nil nil = refl
append-nil (cons s ss) = ap (cons s) (append-nil ss)

unfoldable pub ReadsAll : Statements → Type 0
ReadsAll ts =
    (ss : Statements) (rest : Bytes)
    → EndsSequence rest
    → Gives (λ n. sequence_loop n ss (show_all ts rest))
        (some (finish_sequence (append ss ts)), rest)

-- The text of a statement begins with a capital letter.
mutual
  unfolding show_statement is_start

  pub show_statement-start :
      (st : Statement) (rest : Bytes)
      → is_start rest ≡ true
      → is_start (show_statement st rest) ≡ true
  show_statement-start (sequence ss) rest h = show_all-start ss rest h
  show_statement-start (print e) rest h = refl
  show_statement-start (let_node x e) rest h = refl
  show_statement-start (if_node c t e) rest h = refl
  show_statement-start (while_node c b) rest h = refl

  show_all-start :
      (ss : Statements) (rest : Bytes) → is_start rest ≡ true → is_start (show_all ss rest) ≡ true
  show_all-start nil rest h = h
  show_all-start (cons s ss) rest h =
      show_statement-start s (show_all ss rest) (show_all-start ss rest h)

-- The rounds of the loop.
pub loop_end :
    (ss : Statements) (rest : Bytes)
    → EndsSequence rest
    → Gives (λ n. sequence_loop n ss rest) (some (finish_sequence ss), rest)
loop_end ss rest e =
    Gives-from (λ n. sequence_loop n ss rest) (some (finish_sequence ss), rest) 1
      λ n le. sequence_loop-end n ss rest rest none (ends_at rest e (sequence_from n) n le)

pub loop_next :
    (ss : Statements) (st : Statement) (s rest : Bytes) (result : Option Statement × Bytes)
    → Gives (λ n. statement (sequence_from n) n s) ((false, some st), rest)
    → Gives (λ n. sequence_loop n (snoc ss st) rest) result
    → Gives (λ n. sequence_loop n ss s) result
loop_next ss st s rest result g k =
    Gives-from (λ n. sequence_loop n ss s) result (g.enough + k.enough)
      λ n le. sequence_loop-next n ss s rest st (g.gives n (omega arith)) ∙ k.gives n (omega arith)

pub loop_start :
    (s : Bytes) (result : Option Statement × Bytes)
    → Gives (λ n. sequence_loop n nil s) result
    → Gives (λ n. sequence_from n s) result
unfolding sequence_from
loop_start s result g = Gives-from (λ n. sequence_from n s) result g.enough g.gives

pub ReadsBody-of_single : (st : Statement) → ReadsSingle st → ReadsBody st
unfolding ReadsSingle ReadsBody snoc finish_sequence
ReadsBody-of_single st reads rest e =
    loop_start (show_statement st rest) (some st, rest)
      (loop_next nil st (show_statement st rest) rest (some st, rest) (reads rest e.starts)
        (loop_end (cons st nil) rest e))

pub ReadsBody-of_all :
    (ss : Statements) → finish_sequence ss ≡ sequence ss → ReadsAll ss → ReadsBody (sequence ss)
unfolding ReadsAll ReadsBody show_statement append
ReadsBody-of_all ss several reads rest e =
    loop_start (show_all ss rest) (some (sequence ss), rest)
      (subst (λ st. Gives (λ n. sequence_loop n nil (show_all ss rest)) (some st, rest)) several
        (reads nil rest e))

pub ReadsAll-nil : ReadsAll nil
unfolding ReadsAll show_all
ReadsAll-nil ss rest e =
    subst (λ ts. Gives (λ n. sequence_loop n ss rest) (some (finish_sequence ts), rest))
      (sym (append-nil ss)) (loop_end ss rest e)

pub ReadsAll-cons :
    (st : Statement) (ts : Statements) → ReadsSingle st → ReadsAll ts → ReadsAll (cons st ts)
unfolding ReadsAll ReadsSingle show_all
ReadsAll-cons st ts single all ss rest e =
    let next =
      subst
        (λ us.
          Gives (λ n. sequence_loop n (snoc ss st) (show_all ts rest))
            (some (finish_sequence us), rest))
        (append-snoc ss ts st) (all (snoc ss st) rest e) in
    loop_next ss st (show_statement st (show_all ts rest)) (show_all ts rest) _
      (single (show_all ts rest) (show_all-start ts rest e.starts)) next
