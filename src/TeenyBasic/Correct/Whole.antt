-- ===== src/TeenyBasic/Correct/Whole.antt =====
-- assembly-compiler/src/compile.c: the code of a whole program.
use mathlib.Core.List.{append-nil}
use computer_systems.Prelude.{ℕ, ◌^◌, ◌≤◌, ◌<◌, ◌≡◌, sym, true, List, [], some, length, arith}
use computer_systems.TeenyBasic.Ast.{Statement}
use computer_systems.TeenyBasic.Asm.{Label, Instr, Cpu}
use computer_systems.TeenyBasic.Statements.{Counters, compile_ast}
use computer_systems.TeenyBasic.Semantics.{execute}
use computer_systems.TeenyBasic.Machine.{run_from}
use computer_systems.TeenyBasic.Machine.At.{At, count}
use computer_systems.TeenyBasic.Machine.Reaches.{Reaches-run_from}
use computer_systems.TeenyBasic.Correct.{is_compilable}
use computer_systems.TeenyBasic.Correct.Labels.{compile_ast-once}
use computer_systems.TeenyBasic.Correct.Conditions.{Holds}
use computer_systems.TeenyBasic.Correct.Simulation.{statement-Simulated}

-- From some fuel on, the code runs from its first line to behind its last one. It leaves the values of the
-- variables, has printed the output, and has popped what it has pushed.
pub record Finishes (code : List Instr) (s : Cpu) (env : ℕ → ℕ) (out : List ℕ) : Type 0 where
  pub final : Cpu
  pub enough : ℕ
  pub runs : (fuel : ℕ) → enough ≤ fuel → run_from fuel code 0 s ≡ some final
  pub holds : Holds final.slots env
  pub prints : final.out ≡ out
  pub stack : final.stack ≡ s.stack

At-whole : (code : List Instr) → At code 0 code (length code)
At-whole code = record { rest = []; here = sym (append-nil code); stop = omega arith }

pub compile_ast-Finishes :
    (log2 : ℕ → ℕ) (log2-pow : (k : ℕ) → 2 ^ k < 2 ^ 63 → log2 (2 ^ k) ≡ k) (n : ℕ) (st : Statement)
    (env env' : ℕ → ℕ) (printed out : List ℕ) (k k' : Counters) (code : List Instr) (s : Cpu)
    → execute n st (env, printed) ≡ some (env', out)
    → is_compilable st ≡ true
    → compile_ast log2 st k ≡ some (code, k')
    → Holds s.slots env
    → s.out ≡ printed
    → Finishes code s env' out
compile_ast-Finishes log2 log2-pow n st env env' printed out k k' code s ex is compiled h o =
    let once : (l : Label) → count l code ≤ 1 =
      λ l. compile_ast-once log2 st k k' code l compiled in
    let e =
      statement-Simulated log2 log2-pow code once n st (env, printed) k (env', out) code k' 0
        (length code) s ex compiled is (At-whole code) (record { holds = h; out = o }) in
    let (enough, runs) = Reaches-run_from code 0 s e.reaches in
    record {
      final = e.final;
      enough = enough;
      runs = runs;
      holds = e.simulates.holds;
      prints = e.simulates.out;
      stack = e.stack;
    }
