-- ===== src/TeenyBasic/Correct/Conditions.antt =====
-- assembly-compiler/src/compile.c: expressions and conditions where they are folded.
use mathlib.Core.Path.{subst}
use computer_systems.Prelude.{
  ℕ, ◌^◌, ◌<◌, ◌≡◌, refl, ap, ◌∙◌, true, false, List, [], ◌∷◌, none, some, arith,
}
use computer_systems.Prelude.Options.{◌>>=◌, >>=-eq-some}
use computer_systems.TeenyBasic.Ast.{Condition, Expr, num, binary, var}
use computer_systems.TeenyBasic.Asm.{Instr, Cpu, cmp, step, run_line, movq_imm}
use computer_systems.TeenyBasic.Compile.{slot, operator, stacked, with_literal, compile_expr}
use computer_systems.TeenyBasic.Fold.{folded, compute_folds, is_arithmetic}
use computer_systems.TeenyBasic.Statements.{compile_folded, compile_condition}
use computer_systems.TeenyBasic.Expressions.{eval, apply_op, Evaluates, Loaded, stacked_lem}
use computer_systems.TeenyBasic.CompileExpr.{compile_expr-Evaluates}
use computer_systems.TeenyBasic.Folding.{
  is_settled, is_constant, Kept-binary, compute_folds-Kept, compile_folded-Evaluates,
}
use computer_systems.TeenyBasic.Lexer.{is_variable_name, is_comparison_op}
use computer_systems.TeenyBasic.Correct.{is_named, is_condition}

-- The slots hold the values of the variables.
abbrev pub Holds : (ℕ → ℕ) → (ℕ → ℕ) → Type 0
Holds slots env = (x : ℕ) → is_variable_name x ≡ true → slots (slot x) ≡ env x

pub eval-Holds :
    (e : Expr) (slots env : ℕ → ℕ)
    → is_named e ≡ true
    → Holds slots env
    → eval e (λ x. slots (slot x)) ≡ eval e env
unfolding eval is_named
eval-Holds (num v) slots env n h = refl
eval-Holds (var x) slots env n h = ap some (h x n)
eval-Holds (binary op l r) slots env n h =
    let left = eval-Holds l slots env (ground arith) h in
    let right = eval-Holds r slots env (ground arith) h in
    ap (λ m. m >>= λ a. eval r (λ x. slots (slot x)) >>= λ b. apply_op op a b) left
    ∙ ap (λ m. eval l env >>= λ a. m >>= λ b. apply_op op a b) right

-- An operator of comparison compares its sides.
comparison-operator : (op : ℕ) → is_comparison_op op ≡ true → operator op ≡ cmp ∷ []
unfolding operator
comparison-operator op h = ground arith

comparison-literal :
    (log2 : ℕ → ℕ) (op v : ℕ) (l : List Instr)
    → is_comparison_op op ≡ true
    → with_literal log2 op v l ≡ stacked op l (movq_imm v ∷ [])
unfolding with_literal
comparison-literal log2 op v l h = ground arith

comparison-stacked :
    (log2 : ℕ → ℕ) (op : ℕ) (l r : Expr)
    → is_comparison_op op ≡ true
    → compile_expr log2 (binary op l r) ≡ stacked op (compile_expr log2 l) (compile_expr log2 r)
unfolding compile_expr
comparison-stacked log2 op l (num v) h = comparison-literal log2 op v _ h
comparison-stacked log2 op l (var x) h = refl
comparison-stacked log2 op l (binary op' l' r') h = refl

-- The state behind the code of a condition whose sides have the values `a` and `b`.
pub record Compared (a b : ℕ) (s s' : Cpu) : Type 0 where
  pub compared : s'.compared ≡ (a, b)
  pub stack : s'.stack ≡ s.stack
  pub slots : s'.slots ≡ s.slots
  pub out : s'.out ≡ s.out

-- A comparison is no constant, so folding keeps it if it is settled.
folded-comparison :
    (op : ℕ) (l r : Expr) (env : ℕ → ℕ) (a b : ℕ)
    → is_comparison_op op ≡ true
    → is_settled (binary op l r) ≡ true
    → eval l env ≡ some a
    → eval r env ≡ some b
    → compute_folds (binary op l r) ≡ some (record { value = none; tree = binary op l r })
unfolding is_settled is_constant
folded-comparison op l r env a b c s ha hb =
    let other : is_arithmetic op ≡ false = ground arith in
    let (fl, kl) = compute_folds-Kept env l a (ground arith) ha in
    let (fr, kr) = compute_folds-Kept env r b (ground arith) hb in
    (Kept-binary env op l r fl fr kl kr (ground arith)).0

-- The comparison of the values that are loaded.
Loaded-Compared :
    (op a b : ℕ) (s s' : Cpu)
    → is_comparison_op op ≡ true
    → Loaded a b s s'
    → (s'' : Cpu) × (run_line (operator op) s' ≡ some s'') × Compared a b s s''
unfolding run_line step
Loaded-Compared op a b s s' c loaded = (
  record s' { compared = (s'.rdi, s'.rcx) },
  rw (comparison-operator op c) refl,
  record {
    compared = cc (loaded.rdi, loaded.rcx);
    stack = loaded.stack;
    slots = loaded.slots;
    out = loaded.out;
  },
)

module _ (log2 : ℕ → ℕ) (log2-pow : (k : ℕ) → 2 ^ k < 2 ^ 63 → log2 (2 ^ k) ≡ k) where
  -- The code of a condition leaves the values of its sides to compare.
  pub compile_condition-Compared :
      (c : Condition Expr) (env : ℕ → ℕ) (s : Cpu) (code : List Instr) (a b : ℕ)
      → is_condition c ≡ true
      → Holds s.slots env
      → eval c.left env ≡ some a
      → eval c.right env ≡ some b
      → compile_condition log2 c ≡ some code
      → (s' : Cpu) × (run_line code s ≡ some s') × Compared a b s s'
  unfolding compile_condition compile_folded
  compile_condition-Compared c env s code a b is h ha hb compiled =
      let comparison : is_comparison_op c.op ≡ true = ground arith in
      let named_left : is_named c.left ≡ true = ground arith in
      let named_right : is_named c.right ≡ true = ground arith in
      let settled : is_settled (binary c.op c.left c.right) ≡ true = ground arith in
      let kept = folded-comparison c.op c.left c.right env a b comparison settled ha hb in
      let (f, got, compiles) =
        >>=-eq-some (compute_folds (binary c.op c.left c.right)) _ compiled in
      let fold : f ≡ record { value = none; tree = binary c.op c.left c.right } = cc (got, kept) in
      let same : code ≡ compile_expr log2 (folded f) = cc compiles in
      let whole : code ≡ stacked c.op (compile_expr log2 c.left) (compile_expr log2 c.right) =
        same
        ∙ ap (λ g. compile_expr log2 (folded g)) fold
        ∙ comparison-stacked log2 c.op c.left c.right comparison in
      let (s', runs, loaded) =
        stacked_lem s.slots (compile_expr log2 c.left) (compile_expr log2 c.right) a b
          (compile_expr-Evaluates log2 log2-pow c.left s.slots a
            (eval-Holds c.left s.slots env named_left h ∙ ha))
          (compile_expr-Evaluates log2 log2-pow c.right s.slots b
            (eval-Holds c.right s.slots env named_right h ∙ hb))
          c.op s refl in
      let (s'', compares, compared) = Loaded-Compared c.op a b s s' comparison loaded in
      (s'', ap (λ l. run_line l s) whole ∙ runs ∙ compares, compared)

  -- The code of an expression that is folded computes its value.
  pub compiled_folded-Evaluates :
      (e : Expr) (env slots : ℕ → ℕ) (code : List Instr) (v : ℕ)
      → is_named e ≡ true
      → is_settled e ≡ true
      → Holds slots env
      → eval e env ≡ some v
      → compile_folded log2 e ≡ some code
      → Evaluates code slots v
  compiled_folded-Evaluates e env slots code v n settled h value compiled =
      let (code', same, evaluates) =
        compile_folded-Evaluates log2 log2-pow e slots v settled
          (eval-Holds e slots env n h ∙ value) in
      let equal : code' ≡ code = cc (same, compiled) in
      subst (λ c. Evaluates c slots v) equal evaluates
