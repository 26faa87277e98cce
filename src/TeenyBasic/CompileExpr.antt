-- ===== src/TeenyBasic/CompileExpr.antt =====
-- assembly-compiler/src/compile.c: the code of an expression computes its value.
use mathlib.Core.Path.{subst}
use computer_systems.Prelude.{
  ℕ, ◌^◌, ◌<◌, ◌≡◌, refl, sym, ap, ◌∙◌, true, ◌&&◌, List, [], ◌∷◌, ◌++◌, Option, none, some, arith,
  ◌==◌, Bool-cases, inl, inr,
}
use computer_systems.TeenyBasic.Ast.{Expr, num, binary, var}
use computer_systems.TeenyBasic.Word64.{mul64}
use computer_systems.TeenyBasic.Asm.{Instr, movq_imm, load, shlq, step, run_line}
use computer_systems.TeenyBasic.Compile.{slot, is_power_two, stacked, with_literal, compile_expr}
use computer_systems.TeenyBasic.Powers.{is_power_two-pow}
use computer_systems.TeenyBasic.Expressions.{
  apply_op, eval, Evaluates, run_line-append, stacked_lem, operator-Leaves,
}

-- The two sides of an expression that has a value.
pub eval-binary :
    (op : ℕ) (l r : Expr) (env : ℕ → ℕ) {v : ℕ}
    → eval (binary op l r) env ≡ some v
    → (a : ℕ) × (b : ℕ) × (eval l env ≡ some a) × (eval r env ≡ some b) × (apply_op op a b ≡ some v)
unfolding eval
eval-binary op l r env {v} h = go (eval l env) (eval r env) refl refl h
  where
    go :
        (x y : Option ℕ)
        → eval l env ≡ x
        → eval r env ≡ y
        → ◌≡◌ {A = Option ℕ}
            (elim x [ none ↦ none | some a ↦ elim y [ none ↦ none | some b ↦ apply_op op a b ] ])
            (some v)
        → (a : ℕ) × (b : ℕ) × (eval l env ≡ some a)
          × (eval r env ≡ some b)
          × (apply_op op a b ≡ some v)
    go none y p q e = absurd (ground arith)
    go (some a) none p q e = absurd (ground arith)
    go (some a) (some b) p q e = (a, b, p, q, e)

pub eval-num : (w v : ℕ) (env : ℕ → ℕ) → eval (num w) env ≡ some v → w ≡ v
unfolding eval
eval-num w v env h = ground arith

eval-var : (x v : ℕ) (env : ℕ → ℕ) → eval (var x) env ≡ some v → env x ≡ v
unfolding eval
eval-var x v env h = ground arith

apply_op-times : (op a b v : ℕ) → apply_op op a b ≡ some v → (op == b'*') ≡ true → mul64 a b ≡ v
unfolding apply_op
apply_op-times op a b v h times = ground arith

pub num-Evaluates : (f : ℕ → ℕ) (v : ℕ) → Evaluates (movq_imm v ∷ []) f v
unfolding run_line step
num-Evaluates f v s e = (record s { rdi = v }, refl, ground arith)

var-Evaluates : (f : ℕ → ℕ) (k : ℕ) → Evaluates (load k ∷ []) f (f k)
unfolding run_line step
var-Evaluates f k s e = (record s { rdi = s.slots k }, refl, ground arith)

stacked-Evaluates :
    (f : ℕ → ℕ) (op : ℕ) (l r : List Instr) (a b v : ℕ)
    → apply_op op a b ≡ some v
    → Evaluates l f a
    → Evaluates r f b
    → Evaluates (stacked op l r) f v
stacked-Evaluates f op l r a b v h hl hr s e =
    let (s', eq, k) = stacked_lem f l r a b hl hr op s e in
    let (t, done, leaves) = operator-Leaves op a b v s s' h k in (t, eq ∙ done, leaves)

shift-Evaluates :
    (f : ℕ → ℕ) (l : List Instr) (a w k : ℕ)
    → w ≡ 2 ^ k
    → Evaluates l f a
    → Evaluates (l ++ (shlq k ∷ [])) f (mul64 a w)
unfolding run_line step
shift-Evaluates f l a w k p hl s e =
    let (s₁, e₁, k₁) = hl s e in
    (record s₁ { rdi = mul64 s₁.rdi (2 ^ k) }, rw (run_line-append, e₁), ground arith)

module _ (log2 : ℕ → ℕ) (log2-pow : (k : ℕ) → 2 ^ k < 2 ^ 63 → log2 (2 ^ k) ≡ k) where
  with_literal-Evaluates :
      (f : ℕ → ℕ) (op : ℕ) (l : List Instr) (a w v : ℕ)
      → apply_op op a w ≡ some v
      → Evaluates l f a
      → Evaluates (with_literal log2 op w l) f v
  unfolding with_literal
  with_literal-Evaluates f op l a w v h hl = elim (Bool-cases ((op == b'*') && is_power_two w)) [
    | inl shift ↦
        let (k, p, fits) = is_power_two-pow w (ground arith) in
        let exponent : log2 w ≡ k = ap log2 p ∙ log2-pow k fits in
        rw (shift, exponent)
          (subst (Evaluates (l ++ (shlq k ∷ [])) f) (apply_op-times op a w v h (ground arith))
            (shift-Evaluates f l a w k p hl))
    | inr plain ↦
        rw plain (stacked-Evaluates f op l (movq_imm w ∷ []) a w v h hl (num-Evaluates f w))
  ]

  -- From any state of the machine the code of an expression runs to its end without a fault, leaves
  -- the expression's value in rdi, where it has one, and leaves the stack, the variables and the
  -- output as they were. `log2` is exact on powers of two.
  pub compile_expr-Evaluates :
      (e : Expr) (f : ℕ → ℕ) (v : ℕ)
      → eval e (λ x. f (slot x)) ≡ some v
      → Evaluates (compile_expr log2 e) f v
  unfolding compile_expr
  compile_expr-Evaluates (num w) f v h =
      subst (Evaluates (movq_imm w ∷ []) f) (eval-num w v _ h) (num-Evaluates f w)
  compile_expr-Evaluates (var x) f v h =
      subst (Evaluates (load (slot x) ∷ []) f) (eval-var x v (λ y. f (slot y)) h)
        (var-Evaluates f (slot x))
  compile_expr-Evaluates (binary op l (num w)) f v h =
      let (a, b, ha, hb, hv) = eval-binary op l (num w) (λ x. f (slot x)) h in
      with_literal-Evaluates f op (compile_expr log2 l) a w v
        (subst (λ n. apply_op op a n ≡ some v) (sym (eval-num w b _ hb)) hv)
        (compile_expr-Evaluates l f a ha)
  compile_expr-Evaluates (binary op l (var x)) f v h =
      let (a, b, ha, hb, hv) = eval-binary op l (var x) (λ x. f (slot x)) h in
      stacked-Evaluates f op (compile_expr log2 l) (load (slot x) ∷ []) a b v hv
        (compile_expr-Evaluates l f a ha) (compile_expr-Evaluates (var x) f b hb)
  compile_expr-Evaluates (binary op l (binary op' l' r')) f v h =
      let (a, b, ha, hb, hv) = eval-binary op l (binary op' l' r') (λ x. f (slot x)) h in
      stacked-Evaluates f op (compile_expr log2 l) (compile_expr log2 (binary op' l' r')) a b v hv
        (compile_expr-Evaluates l f a ha) (compile_expr-Evaluates (binary op' l' r') f b hb)
