-- ===== src/TeenyBasic/Program/RoundTrip.antt =====
-- assembly-compiler/src/parser.c: `parse` reads back the text of a program.
use computer_systems.Prelude.{refl, [], some}
use computer_systems.TeenyBasic.Ast.{
  Statement, Statements, Else, sequence, print, let_node, if_node, while_node, nil, cons, no_else,
  else_branch,
}
use computer_systems.TeenyBasic.Lexer.{advance, at_end}
use computer_systems.TeenyBasic.Parser.Loops.{Gives}
use computer_systems.TeenyBasic.Program.{finish_sequence, parse}
use computer_systems.TeenyBasic.Program.Print.{
  show_statement, IsSingle, IsBody, AreSingle, IsBranch,
}
use computer_systems.TeenyBasic.Program.Lines.{empty-EndsSequence}
use computer_systems.TeenyBasic.Program.Rows.{
  ReadsSingle, ReadsBody, ReadsAll, ReadsBody-of_single, ReadsBody-of_all, ReadsAll-nil,
  ReadsAll-cons,
}
use computer_systems.TeenyBasic.Program.Blocks.{
  ReadsSingle-print, ReadsSingle-let, ReadsSingle-while, ReadsElse, ReadsElse-no_else,
  ReadsElse-else_branch, ReadsSingle-if,
}

pub record Reads (st : Statement) : Type 0 where
  pub single : IsSingle st → ReadsSingle st
  pub body : IsBody st → ReadsBody st

-- A statement that is no sequence is read the same way alone and as a body.
Reads-single :
    (st : Statement) → (IsBody st → IsSingle st) → (IsSingle st → ReadsSingle st) → Reads st
Reads-single st same single = record {
  single = single;
  body = λ h. ReadsBody-of_single st (single (same h));
}

mutual
  unfolding IsSingle finish_sequence

  pub show_statement-Reads : (st : Statement) → Reads st
  show_statement-Reads (sequence nil) = record {
    single = λ h. absurd h;
    body = λ h. ReadsBody-of_all nil refl ReadsAll-nil;
  }
  show_statement-Reads (sequence (cons s nil)) = record {
    single = λ h. absurd h;
    body = λ h. absurd h;
  }
  show_statement-Reads (sequence (cons s (cons t ss))) = record {
    single = λ h. absurd h;
    body = λ (hs, ht, hss). ReadsBody-of_all (cons s (cons t ss)) refl (
        ReadsAll-cons s (cons t ss) ((show_statement-Reads s).single hs)
          (ReadsAll-cons t ss ((show_statement-Reads t).single ht) (show_all-Reads ss hss)));
  }
  show_statement-Reads (print e) = Reads-single (print e) (λ h. h) (ReadsSingle-print e)
  show_statement-Reads (let_node x e) = Reads-single (let_node x e) (λ h. h) (ReadsSingle-let x e)
  show_statement-Reads (if_node c t e) =
      Reads-single (if_node c t e) (λ h. h)
        (λ (hc, ht, he).
          ReadsSingle-if c t e hc ((show_statement-Reads t).body ht) (show_else-Reads e he))
  show_statement-Reads (while_node c b) =
      Reads-single (while_node c b) (λ h. h)
        (λ (hc, hb). ReadsSingle-while c b hc ((show_statement-Reads b).body hb))

  show_all-Reads : (ss : Statements) → AreSingle ss → ReadsAll ss
  show_all-Reads nil h = ReadsAll-nil
  show_all-Reads (cons s ss) (h, hs) =
      ReadsAll-cons s ss ((show_statement-Reads s).single h) (show_all-Reads ss hs)

  show_else-Reads : (e : Else) → IsBranch e → ReadsElse e
  show_else-Reads no_else h = ReadsElse-no_else
  show_else-Reads (else_branch b) h = ReadsElse-else_branch b ((show_statement-Reads b).body h)

-- From some amount of fuel on, `parse` reads back the text of every program: its expressions with their
-- precedence, its conditions, branches and loops at any depth, and its statements in order.
pub parse-show_statement :
    (st : Statement) → IsBody st → Gives (λ n. parse n (show_statement st [])) (some st)
unfolding ReadsBody parse at_end advance
parse-show_statement st h =
    let g = (show_statement-Reads st).body h [] empty-EndsSequence in
    record { enough = g.enough; gives = λ n le. rw (g.gives n le, parse) refl }
