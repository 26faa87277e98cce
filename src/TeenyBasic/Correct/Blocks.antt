-- ===== src/TeenyBasic/Correct/Blocks.antt =====
-- assembly-compiler/src/compile.c: the code of a statement at its place in a program.
use computer_systems.Prelude.{
  ℕ, ◌^◌, ◌≤◌, ◌<◌, ◌≡◌, refl, ap, ◌∙◌, Bool, true, List, [], ◌∷◌, ◌++◌, some, arith, Bool-cases,
  inl, inr, ◌==◌, if◌then◌else◌,
}
use computer_systems.Prelude.Options.{>>=-eq-some}
use computer_systems.TeenyBasic.Ast.{Condition, Expr, binary}
use computer_systems.TeenyBasic.Lexer.{is_variable_name}
use computer_systems.TeenyBasic.Asm.{Label, Instr, call_print_int, store, Cpu, step, run_line}
use computer_systems.TeenyBasic.Compile.{slot}
use computer_systems.TeenyBasic.Expressions.{eval, Evaluates, run_line-append}
use computer_systems.TeenyBasic.Statements.{compile_condition}
use computer_systems.TeenyBasic.Semantics.{Store, update, test, test_condition}
use computer_systems.TeenyBasic.Machine.At.{At, count}
use computer_systems.TeenyBasic.Machine.Reaches.{Reaches, Reaches-trans, Reaches-line, are_plain}
use computer_systems.TeenyBasic.Correct.{is_condition}
use computer_systems.TeenyBasic.Correct.Plain.{compile_folded-plain}
use computer_systems.TeenyBasic.Correct.Conditions.{Holds, compile_condition-Compared}

-- The machine holds the values of the variables, and has printed what has been printed.
pub record Simulates (t : Store) (s : Cpu) : Type 0 where
  pub holds : Holds s.slots t.0
  pub out : s.out ≡ t.1

-- The program gets to a line with such a state.
pub record Ends (program : List Instr) (t : Store) (end pc : ℕ) (s : Cpu) : Type 0 where
  pub final : Cpu
  pub reaches : Reaches program end final pc s
  pub simulates : Simulates t final
  pub stack : final.stack ≡ s.stack

slot-eq :
    (x y : ℕ)
    → is_variable_name x ≡ true
    → is_variable_name y ≡ true
    → (slot x == slot y) ≡ (x == y)
unfolding slot
slot-eq x y nx ny = ground arith

write_slot-Holds :
    (slots slots' env : ℕ → ℕ) (x v : ℕ)
    → is_variable_name x ≡ true
    → ((j : ℕ) → slots' j ≡ (if slot x == j then v else slots j))
    → Holds slots env
    → Holds slots' (update env x v)
unfolding update
write_slot-Holds slots slots' env x v nx w h y ny =
    let e = slot-eq x y nx ny in
    w (slot y) ∙ elim (Bool-cases (x == y)) [
      | inl same ↦ rw (e, same) refl
      | inr other ↦ rw (e, other) (h y ny)
    ]

-- The values of the two sides of a condition that has one.
test_condition-eq-some :
    (c : Condition Expr) (env : ℕ → ℕ) {t : Bool}
    → test_condition c env ≡ some t
    → (a b : ℕ) × (eval c.left env ≡ some a) × (eval c.right env ≡ some b) × (test c.op a b ≡ t)
unfolding test_condition
test_condition-eq-some c env h =
    let (a, ha, h₁) = >>=-eq-some (eval c.left env) _ h in
    let (b, hb, h₂) = >>=-eq-some (eval c.right env) _ h₁ in (a, b, ha, hb, cc h₂)

-- Code that prints the value it computes.
pub print-Ends :
    (code : List Instr) (t : Store) (v : ℕ) (s : Cpu)
    → Evaluates code s.slots v
    → Simulates t s
    → (s' : Cpu) × (run_line (code ++ call_print_int ∷ []) s ≡ some s')
      × Simulates (t.0, t.1 ++ v ∷ []) s'
      × (s'.stack ≡ s.stack)
unfolding run_line step
print-Ends code t v s e sim =
    let (s₁, runs, leaves) = e s refl in
    (
      record s₁ { out = s₁.out ++ (s₁.rdi ∷ []) },
      rw (run_line-append, runs) refl,
      record {
        holds = λ x n. ap (λ f. f (slot x)) leaves.slots ∙ sim.holds x n;
        out = cc (leaves.out, leaves.rdi, sim.out);
      },
      leaves.stack,
    )

-- Code that stores the value it computes.
pub let-Ends :
    (code : List Instr) (t : Store) (x v : ℕ) (s : Cpu)
    → is_variable_name x ≡ true
    → Evaluates code s.slots v
    → Simulates t s
    → (s' : Cpu) × (run_line (code ++ store (slot x) ∷ []) s ≡ some s')
      × Simulates (update t.0 x v, t.1) s'
      × (s'.stack ≡ s.stack)
unfolding run_line step
let-Ends code t x v s nx e sim =
    let (s₁, runs, leaves) = e s refl in
    (
      record s₁ { slots = λ j. if slot x == j then s₁.rdi else s₁.slots j },
      rw (run_line-append, runs) refl,
      record {
        holds =
            write_slot-Holds s.slots (λ j. if slot x == j then s₁.rdi else s₁.slots j) t.0 x v nx
              (λ j. cc (leaves.slots, leaves.rdi)) sim.holds;
        out = leaves.out ∙ sim.out;
      },
      leaves.stack,
    )

Simulates-kept :
    (t : Store) (s s' : Cpu) → s'.slots ≡ s.slots → s'.out ≡ s.out → Simulates t s → Simulates t s'
Simulates-kept t s s' e f sim = record {
  holds = λ x n. ap (λ g. g (slot x)) e ∙ sim.holds x n;
  out = f ∙ sim.out;
}

-- The state behind the code of a condition.
pub record Decided (op : ℕ) (truth : Bool) (condition : List Instr) (t : Store) (s : Cpu)
    : Type 0 where
  pub a : ℕ
  pub b : ℕ
  pub between : Cpu
  pub plain : are_plain condition ≡ true
  pub runs : run_line condition s ≡ some between
  pub compared : between.compared ≡ (a, b)
  pub tests : test op a b ≡ truth
  pub simulates : Simulates t between
  pub stack : between.stack ≡ s.stack

module _ (log2 : ℕ → ℕ) (log2-pow : (k : ℕ) → 2 ^ k < 2 ^ 63 → log2 (2 ^ k) ≡ k)
    (program : List Instr) (once : (l : Label) → count l program ≤ 1) where
  pub condition-Decided :
      (c : Condition Expr) (condition : List Instr) (truth : Bool) (t : Store) (s : Cpu)
      → is_condition c ≡ true
      → test_condition c t.0 ≡ some truth
      → compile_condition log2 c ≡ some condition
      → Simulates t s
      → Decided c.op truth condition t s
  unfolding compile_condition
  condition-Decided c condition truth t s is h compiled sim =
      let (a, b, ha, hb, tests) = test_condition-eq-some c t.0 h in
      let (s', runs, k) =
        compile_condition-Compared log2 log2-pow c t.0 s condition a b is sim.holds ha hb
          compiled in
      record {
        a = a;
        b = b;
        between = s';
        plain = compile_folded-plain log2 (binary c.op c.left c.right) condition compiled;
        runs = runs;
        compared = k.compared;
        tests = tests;
        simulates = Simulates-kept t s s' k.slots k.out sim;
        stack = k.stack;
      }

  pub line-Ends :
      (code : List Instr) (t : Store) {pc end : ℕ} (s : Cpu)
      → At program pc code end
      → are_plain code ≡ true
      → (s' : Cpu) × (run_line code s ≡ some s') × Simulates t s' × (s'.stack ≡ s.stack)
      → Ends program t end pc s
  line-Ends code t s at plain (s', runs, sim, stack) = record {
    final = s';
    reaches = Reaches-line code s s' at plain runs;
    simulates = sim;
    stack = stack;
  }

  -- The way to a piece of code, the piece, and the way on.
  pub way-Ends :
      (t : Store) {pc start stop end : ℕ} (s s' : Cpu)
      → Reaches program start s' pc s
      → s'.stack ≡ s.stack
      → Ends program t stop start s'
      → ((u : Cpu) → Reaches program end u stop u)
      → Ends program t end pc s
  way-Ends t s s' enters stack e leaves = record {
    final = e.final;
    reaches = Reaches-trans program enters (Reaches-trans program e.reaches (leaves e.final));
    simulates = e.simulates;
    stack = e.stack ∙ stack;
  }
