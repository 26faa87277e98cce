-- ===== src/TeenyBasic/Expressions.antt =====
-- What an expression means, and what its code does.
use computer_systems.Prelude.{
  ℕ, ◌≡◌, refl, ◌∙◌, List, [], ◌∷◌, ◌++◌, Option, none, some, arith, ◌==◌, if◌then◌else◌,
  Bool-cases, inl, inr,
}
use computer_systems.TeenyBasic.Ast.{Expr, num, binary, var}
use computer_systems.TeenyBasic.Word64.{add64, sub64, mul64, div64}
use computer_systems.TeenyBasic.Asm.{Instr, Cpu, push_rdi, pop_rcx, pop_rdi, step, run_line}
use computer_systems.Prelude.Options.{◌>>=◌}
use computer_systems.TeenyBasic.Compile.{operator, stacked}

-- The value of an arithmetic operator, where there is one.
unfoldable pub apply_op : ℕ → ℕ → ℕ → Option ℕ
apply_op op a b =
    if op == b'+'
    then some (add64 a b)
    else if op == b'-'
    then some (sub64 a b)
    else if op == b'*'
    then some (mul64 a b)
    else if op == b'/'
    then div64 a b
    else none

-- The value of an expression, over the values of the variables: `none` where it divides by zero, or
-- uses an operator that is not arithmetic.
unfoldable pub eval : Expr → (ℕ → ℕ) → Option ℕ
eval (num v) env = some v
eval (var x) env = some (env x)
eval (binary op l r) env = elim (eval l env) [
  | none ↦ none
  | some a ↦ elim (eval r env) [ none ↦ none | some b ↦ apply_op op a b ]
]

-- `s'` has the value `v` in rdi and is otherwise `s`, but for the registers that code may use freely.
pub record Leaves (v : ℕ) (s s' : Cpu) : Type 0 where
  pub rdi : s'.rdi ≡ v
  pub stack : s'.stack ≡ s.stack
  pub slots : s'.slots ≡ s.slots
  pub out : s'.out ≡ s.out

-- Run from `s`, the code leaves the value `v`.
abbrev pub Computes : List Instr → ℕ → Cpu → Type 0
Computes code v s = (s' : Cpu) × (run_line code s ≡ some s') × Leaves v s s'

-- Code behind other code runs where that has left off.
pub run_line-append :
    (xs ys : List Instr) (s : Cpu) → run_line (xs ++ ys) s ≡ (run_line xs s >>= run_line ys)
unfolding run_line
run_line-append [] ys s = refl
run_line-append (i ∷ xs) ys s = go (step i s) (run_line-append xs ys)
  where
    go :
        (r : Option Cpu)
        → ((s' : Cpu) → run_line (xs ++ ys) s' ≡ (run_line xs s' >>= run_line ys))
        → (r >>= run_line (xs ++ ys)) ≡ ((r >>= run_line xs) >>= run_line ys)
    go none ih = refl
    go (some s') ih = ih s'

-- Run from any state over the variables `f`, the code leaves the value `v`.
abbrev pub Evaluates : List Instr → (ℕ → ℕ) → ℕ → Type 0
Evaluates code f v = (s : Cpu) → s.slots ≡ f → Computes code v s

-- The state in which the instructions of an operator start.
pub record Loaded (a b : ℕ) (s s' : Cpu) : Type 0 where
  pub rdi : s'.rdi ≡ a
  pub rcx : s'.rcx ≡ b
  pub stack : s'.stack ≡ s.stack
  pub slots : s'.slots ≡ s.slots
  pub out : s'.out ≡ s.out

-- The four moves between the code of the right side and the operator.
pops :
    (code : List Instr) (s : Cpu) (x : ℕ) (rest : List ℕ)
    → s.stack ≡ x ∷ rest
    → run_line (push_rdi ∷ pop_rcx ∷ pop_rdi ∷ code) s
      ≡ run_line code (record s { rcx = s.rdi; rdi = x; stack = rest })
unfolding run_line step
pops code s x rest e = rw (e, step, run_line)

module _ (f : ℕ → ℕ) (l r : List Instr) (a b : ℕ) (hl : Evaluates l f a)
    (hr : Evaluates r f b) where
  -- The two sides come to their registers whatever they do to the others.
  pub stacked_lem :
      (op : ℕ) (s : Cpu)
      → s.slots ≡ f
      → (s' : Cpu) × (run_line (stacked op l r) s ≡ run_line (operator op) s') × Loaded a b s s'
  unfolding run_line step stacked
  stacked_lem op s e =
      let (s₁, e₁, k₁) = hl s e in
      let (s₂, e₂, k₂) = hr (record s₁ { stack = s₁.rdi ∷ s₁.stack }) (k₁.slots ∙ e) in
      let top : s₂.stack ≡ s₁.rdi ∷ s₁.stack = k₂.stack in
      (
        record s₂ { rcx = s₂.rdi; rdi = s₁.rdi; stack = s₁.stack },
        rw (run_line-append, e₁, run_line-append, e₂) (pops (operator op) s₂ s₁.rdi s₁.stack top),
        ground arith,
      )

pub operator-Leaves :
    (op a b v : ℕ) (s s' : Cpu)
    → apply_op op a b ≡ some v
    → Loaded a b s s'
    → (t : Cpu) × (run_line (operator op) s' ≡ some t) × Leaves v s t
unfolding apply_op operator run_line step
operator-Leaves op a b v s s' h k = elim (Bool-cases (op == b'+')) [
  | inl plus ↦ (record s' { rdi = add64 s'.rdi s'.rcx }, ground arith, ground arith)
  | inr not_plus ↦ elim (Bool-cases (op == b'-')) [
    | inl minus ↦ (record s' { rdi = sub64 s'.rdi s'.rcx }, ground arith, ground arith)
    | inr not_minus ↦ elim (Bool-cases (op == b'*')) [
      | inl times ↦ (record s' { rdi = mul64 s'.rdi s'.rcx }, ground arith, ground arith)
      | inr not_times ↦ (record s' { rdi = v; rax = v }, ground arith, ground arith)
    ]
  ]
]
