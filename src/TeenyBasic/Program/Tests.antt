-- ===== src/TeenyBasic/Program/Tests.antt =====
-- assembly-compiler/src/parser.c: the theorems of the parser on short programs.
use computer_systems.Prelude.{◌≡◌, refl, [], ◌∷◌, ◌++◌, Option, some, arith}
use computer_systems.TeenyBasic.Ast.{
  Condition, Expr, num, binary, var, Statement, sequence, print, let_node, if_node, while_node, nil,
  cons, no_else, else_branch,
}
use computer_systems.TeenyBasic.Lexer.{advance}
use computer_systems.TeenyBasic.Lexer.Words.{all_plain, is_clean, skip_spaces}
use computer_systems.TeenyBasic.Number
use computer_systems.TeenyBasic.Number.Signed.{show_num, num-show_num}
use computer_systems.TeenyBasic.Parser.{expression}
use computer_systems.TeenyBasic.Parser.Print.{show, IsSource}
use computer_systems.TeenyBasic.Parser.Loops.{Gives}
use computer_systems.TeenyBasic.Parser.RoundTrip.{expression-show}
use computer_systems.TeenyBasic.Program.{parse, print_word}
use computer_systems.TeenyBasic.Program.Print.{show_statement, IsSingle}
use computer_systems.TeenyBasic.Program.Total.{parse-ends}
use computer_systems.TeenyBasic.Program.RoundTrip.{parse-show_statement}
use computer_systems.TeenyBasic.Program.Dropped.{
  Unknown, show_unknown_else, parse-show_unknown_else,
}
use computer_systems.Prelude.Text.{str_eq}

-- -5, in front of a parenthesis
num-show_num_example :
    Number.num (show_num 18446744073709551611 ++ (b')' ∷ []))
    ≡ (some (num 18446744073709551611), b')' ∷ [])
num-show_num_example = num-show_num 18446744073709551611 (b')' ∷ []) (omega arith) refl

-- A - (B - 2) * 3
abbrev difference : Expr
difference = binary b'-' (var b'A') (binary b'*' (binary b'-' (var b'B') (num 2)) (num 3))

difference-IsSource : IsSource difference
unfolding IsSource
difference-IsSource = (refl, refl, (refl, (refl, refl, omega arith), omega arith))

expression-show_example :
    Gives (λ n. expression n (show 0 difference (b' ' ∷ b'<' ∷ []))) (some difference, b'<' ∷ [])
unfolding advance is_clean skip_spaces
expression-show_example =
    expression-show difference (b' ' ∷ b'<' ∷ []) difference-IsSource refl refl refl refl

-- LET A = 3, then a loop that prints A and counts down while it is not 0
abbrev countdown : Statement
countdown = sequence (
    cons (let_node b'A' (num 3)) (
      cons
        (while_node (record { op = b'>'; left = var b'A'; right = num 0 })
          (sequence (
            cons
              (if_node (record { op = b'='; left = var b'A'; right = num 2 }) (print (num 0))
                (else_branch (print (var b'A'))))
              (cons (let_node b'A' (binary b'-' (var b'A') (num 1))) nil))))
        nil))

parse-show_statement_example : Gives (λ n. parse n (show_statement countdown [])) (some countdown)
unfolding IsSingle IsSource
parse-show_statement_example = parse-show_statement countdown (ground arith)

parse-ends_example : (ast : Option Statement) × (parse 29 print_word ≡ some ast)
parse-ends_example = parse-ends 29 print_word (omega arith)

-- IF A < 2, PRINT 1, and PRIMT behind ELSE
primt-Unknown : Unknown b'P' (b'R' ∷ b'I' ∷ b'M' ∷ b'T' ∷ [])
unfolding all_plain str_eq
primt-Unknown = record {
  capital = refl;
  plain = refl;
  short = omega arith;
  no_else = refl;
  no_end = refl;
  no_print = refl;
  no_let = refl;
  no_if = refl;
  no_while = refl;
}

abbrev below : Condition Expr
below = record { op = b'<'; left = var b'A'; right = num 2 }

parse-show_unknown_else_example :
    Gives
      (λ n. parse n (show_unknown_else below (print (num 1)) b'P' (b'R' ∷ b'I' ∷ b'M' ∷ b'T' ∷ [])))
      (some (if_node below (print (num 1)) no_else))
unfolding IsSingle IsSource
parse-show_unknown_else_example =
    parse-show_unknown_else below (print (num 1)) b'P' (b'R' ∷ b'I' ∷ b'M' ∷ b'T' ∷ [])
      (refl, refl, omega arith) (omega arith) primt-Unknown
