-- ===== src/TeenyBasic/Driver.antt =====
-- assembly-compiler/src/compiler.c: the compiler as a program. The files are a parameter.
pub mod Correct
mod Tests
use computer_systems.Prelude.{ℕ, ◌*◌, List, [], ◌∷◌, ◌++◌, map, Option, none, some}
use computer_systems.Prelude.Options.{◌>>=◌}
use computer_systems.TeenyBasic.Lexer.{Bytes}
use computer_systems.TeenyBasic.Ast.{Statement}
use computer_systems.TeenyBasic.Asm.{Instr}
use computer_systems.TeenyBasic.Statements.{Counters, compile_ast}
use computer_systems.TeenyBasic.Program.{parse}
use computer_systems.TeenyBasic.PrintAst.{print_ast}

-- The lines of the output.
pub data Line : Type 0 where
  -- the comments, .text, .globl basic_main and basic_main:
  code_section push_rbp movq_rsp_rbp leave ret : Line
  -- subq $n, %rsp
  subq_rsp : ℕ → Line
  instruction : Instr → Line

abbrev pub num_vars : ℕ
num_vars = 26

abbrev pub header : List Line
header = code_section ∷ push_rbp ∷ movq_rsp_rbp ∷ subq_rsp (num_vars * 8) ∷ []

abbrev pub footer : List Line
footer = leave ∷ ret ∷ []

abbrev pub parse_error : Bytes
parse_error =
    b'P' ∷ b'a' ∷ b'r' ∷ b's' ∷ b'e' ∷ b' ' ∷ b'e' ∷ b'r' ∷ b'r' ∷ b'o' ∷ b'r' ∷ b'\n' ∷ []

abbrev pub usage_line : Bytes → Bytes
usage_line program =
    (b'U' ∷ b'S' ∷ b'A' ∷ b'G' ∷ b'E' ∷ b':' ∷ b' ' ∷ program)
    ++ (b' ' ∷ b'<' ∷ b'p' ∷ b'r' ∷ b'o' ∷ b'g' ∷ b'r' ∷ b'a' ∷ b'm' ∷ b' ' ∷ b'f' ∷ b'i' ∷ b'l'
        ∷ b'e' ∷ b'>' ∷ b'\n' ∷ [])

-- How the compiler ends: with a status and its two outputs, or by a trap where it folds.
pub data Ended : Type 0 where
  exits : ℕ → List Line → Bytes → Ended
  traps : Ended

abbrev pub usage : Bytes → Ended
usage program = exits 1 [] (usage_line program)

abbrev pub first_labels : Counters
first_labels = record { if_local = 0; while_local = 0 }

module _ (log2 : ℕ → ℕ) where
  -- `compile_ast` returns true on every node.
  unfoldable pub compile_parsed : Option Statement → Ended
  compile_parsed none = exits 2 header parse_error
  compile_parsed (some ast) = elim (compile_ast log2 ast first_labels) [
    | none ↦ traps
    | some (code, k) ↦ exits 0 (header ++ map instruction code ++ footer) (print_ast ast)
  ]

  -- `args` are the arguments behind the name of the program; the fuel is the parser's.
  unfoldable pub main : ℕ → (Bytes → Option Bytes) → Bytes → List Bytes → Option Ended
  main fuel fopen program (path ∷ []) = elim (fopen path) [
    | none ↦ some (usage program)
    | some text ↦ parse fuel text >>= λ ast. some (compile_parsed ast)
  ]
  main fuel fopen program args = some (usage program)
