-- ===== src/TeenyBasic/Driver/Tests.antt =====
-- assembly-compiler/src/compiler.c: the theorem of the compiler on a program with a loop.
use computer_systems.Prelude.{ℕ, ◌≤◌, ◌≡◌, refl, List, [], ◌∷◌, ◌++◌, map, Option, some, arith}
use computer_systems.TeenyBasic.Ast.{
  Statement, sequence, print, let_node, if_node, while_node, cons, nil, else_branch, num, var,
  binary,
}
use computer_systems.TeenyBasic.Asm.{Instr, Cpu, start_while, load, movq_imm}
use computer_systems.TeenyBasic.Compile.{stacked, slot, with_literal, compile_expr}
use computer_systems.TeenyBasic.Fold.{fold_node, compute_folds}
use computer_systems.TeenyBasic.Statements.{
  while_code, compile_ast, compile_all, compile_condition, compile_folded,
}
use computer_systems.TeenyBasic.Machine.At.{count}
use computer_systems.TeenyBasic.Correct.Labels.{compile_ast-once}
use computer_systems.TeenyBasic.Lexer.{Bytes}
use computer_systems.TeenyBasic.Parser.Loops.{Gives}
use computer_systems.TeenyBasic.Parser.Print.{IsSource}
use computer_systems.TeenyBasic.Program.Print.{show_statement, IsSingle}
use computer_systems.TeenyBasic.PrintAst.{print_ast}
use computer_systems.TeenyBasic.Semantics.{update, test, test_condition, execute}
use computer_systems.TeenyBasic.Correct.{is_named, is_safe, is_compilable}
use computer_systems.TeenyBasic.Folding.{is_settled, is_constant}
use computer_systems.TeenyBasic.Expressions.{eval, apply_op}
use computer_systems.TeenyBasic.Word64.{sub64, less64}
use computer_systems.TeenyBasic.Correct.Conditions.{Holds}
use computer_systems.TeenyBasic.Correct.Whole.{Finishes}
use computer_systems.TeenyBasic.Driver.{exits, header, footer, instruction, first_labels, main}
use computer_systems.TeenyBasic.Driver.Correct.{main-Finishes}
use computer_systems.TeenyBasic.Tests.{log2, log2-pow}

-- LET A = 3, then a loop that counts A down and prints 0 where it is 2
abbrev countdown : Statement
countdown = sequence (
    cons (let_node b'A' (num 3)) (
      cons
        (while_node (record { op = b'>'; left = var b'A'; right = num 0 })
          (sequence (
            cons
              (if_node (record { op = b'='; left = var b'A'; right = num 2 }) (print (num 0))
                (else_branch (print (var b'A'))))
              (cons (let_node b'A' (binary b'-' (var b'A') (num 1))) nil))))
        nil))

abbrev zeros : ℕ → ℕ
zeros x = 0

-- One file has the program.
abbrev fopen : Bytes → Option Bytes
fopen path = some (show_statement countdown [])

abbrev behind : ℕ → ℕ
behind = update (update (update (update zeros b'A' 3) b'A' 2) b'A' 1) b'A' 0

main-Finishes_example :
    (code : List Instr) × Gives
      (λ fuel. main log2 fuel fopen (b'c' ∷ []) ((b'p' ∷ []) ∷ []))
      (exits 0 (header ++ map instruction code ++ footer) (print_ast countdown))
    × ((s : Cpu) → Holds s.slots zeros → s.out ≡ [] → Finishes code s behind (3 ∷ 0 ∷ 1 ∷ []))
unfolding IsSingle IsSource is_compilable is_named is_safe is_settled is_constant execute test
    test_condition eval apply_op sub64 less64 update
main-Finishes_example =
    main-Finishes log2 log2-pow 20 countdown zeros behind (3 ∷ 0 ∷ 1 ∷ []) fopen (b'c' ∷ [])
      (b'p' ∷ []) (ground arith) refl refl refl

-- WHILE A > 0 with an empty body
abbrev endless : Statement
endless = while_node (record { op = b'>'; left = var b'A'; right = num 0 }) (sequence nil)

compile_ast-once_example :
    count (start_while 1) (while_code log2 1 b'>' (stacked b'>' (load 8 ∷ []) (movq_imm 0 ∷ [])) [])
    ≤ 1
unfolding compile_ast compile_all compile_condition compile_folded compute_folds fold_node
    compile_expr with_literal slot
compile_ast-once_example =
    compile_ast-once log2 endless first_labels (record { if_local = 0; while_local = 1 }) _
      (start_while 1) refl
