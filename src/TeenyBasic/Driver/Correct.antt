-- ===== src/TeenyBasic/Driver/Correct.antt =====
-- assembly-compiler/src/compiler.c: from the text of a program to what its code does.
use computer_systems.Prelude.{
  ℕ, ◌^◌, ◌<◌, ◌≡◌, refl, ap, true, List, [], ◌∷◌, ◌++◌, map, Option, some,
}
use computer_systems.TeenyBasic.Ast.{Statement}
use computer_systems.TeenyBasic.Asm.{Instr, Cpu}
use computer_systems.TeenyBasic.Lexer.{Bytes}
use computer_systems.TeenyBasic.Parser.Loops.{Gives}
use computer_systems.TeenyBasic.Program.{parse}
use computer_systems.TeenyBasic.Program.Print.{show_statement, IsBody}
use computer_systems.TeenyBasic.Program.RoundTrip.{parse-show_statement}
use computer_systems.TeenyBasic.PrintAst.{print_ast}
use computer_systems.TeenyBasic.Semantics.{execute}
use computer_systems.TeenyBasic.Correct.{is_compilable}
use computer_systems.TeenyBasic.Correct.Conditions.{Holds}
use computer_systems.TeenyBasic.Correct.Total.{compile_ast-total}
use computer_systems.TeenyBasic.Correct.Whole.{Finishes, compile_ast-Finishes}
use computer_systems.TeenyBasic.Driver.{
  Ended, exits, header, footer, instruction, first_labels, compile_parsed, main,
}

main-compiles :
    (log2 : ℕ → ℕ) (fopen : Bytes → Option Bytes) (program path text : Bytes) (st : Statement)
    (ended : Ended)
    → fopen path ≡ some text
    → compile_parsed log2 (some st) ≡ ended
    → Gives (λ fuel. parse fuel text) (some st)
    → Gives (λ fuel. main log2 fuel fopen program (path ∷ [])) ended
unfolding main
main-compiles log2 fopen program path text st ended file compiled g = record {
  enough = g.enough;
  gives = λ n le. rw (main, file, g.gives n le) (ap some compiled);
}

-- For a program that is compilable and that the interpreter of the tree runs to its end, given as its text in a file:
-- from some fuel of the parser on, the compiler exits with 0, shows the tree, and prints the header, code and the
-- footer. Run from any state that holds the values of the variables and has printed nothing, the code ends, has
-- printed what the interpreter prints, holds its values of the variables and leaves the stack as it was. log2 is
-- exact on powers of two.
pub main-Finishes :
    (log2 : ℕ → ℕ) (log2-pow : (k : ℕ) → 2 ^ k < 2 ^ 63 → log2 (2 ^ k) ≡ k) (n : ℕ) (st : Statement)
    (env env' : ℕ → ℕ) (out : List ℕ) (fopen : Bytes → Option Bytes) (program path : Bytes)
    → IsBody st
    → is_compilable st ≡ true
    → execute n st (env, []) ≡ some (env', out)
    → fopen path ≡ some (show_statement st [])
    → (code : List Instr) × Gives
        (λ fuel. main log2 fuel fopen program (path ∷ []))
        (exits 0 (header ++ map instruction code ++ footer) (print_ast st))
      × ((s : Cpu) → Holds s.slots env → s.out ≡ [] → Finishes code s env' out)
unfolding compile_parsed
main-Finishes log2 log2-pow n st env env' out fopen program path body is ex file =
    let ((code, k), compiled) = compile_ast-total log2 st first_labels is in
    (
      code,
      main-compiles log2 fopen program path (show_statement st []) st _ file
          (rw (compile_parsed, compiled) refl) (parse-show_statement st body),
      λ s h o.
          compile_ast-Finishes log2 log2-pow n st env env' [] out first_labels k code s ex is
            compiled h o,
    )
