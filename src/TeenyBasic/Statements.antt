-- ===== src/TeenyBasic/Statements.antt =====
-- assembly-compiler/src/compile.c: `compile_ast` on statements. `none` is a trap of the compiler
-- itself, which divides when it folds.
use computer_systems.Prelude.{
  ℕ, ◌+◌, Bool, true, false, List, [], ◌∷◌, ◌++◌, Option, some, ◌==◌, if◌then◌else◌,
}
use computer_systems.Prelude.Options.{◌>>=◌}
use computer_systems.TeenyBasic.Ast.{
  Condition, Expr, binary, Statement, Statements, Else, sequence, print, let_node, if_node,
  while_node, nil, cons, no_else, else_branch,
}
use computer_systems.TeenyBasic.Fold.{folded, compute_folds}
use computer_systems.TeenyBasic.Asm.{
  jl, jge, jg, jle, je, jne, Label, if_label, else_label, end_if, start_while, while_label,
  while_end, Instr, call_print_int, store, jump_if, jmp, label,
}
use computer_systems.TeenyBasic.Compile.{slot, compile_expr}

-- The two globals that number the labels.
pub record Counters : Type 0 where
  pub if_local : ℕ
  pub while_local : ℕ

abbrev pub Emitted : Type 0
Emitted = Option (List Instr × Counters)

-- The jumps behind a comparison: to one label if it holds, to another one if not.
unfoldable pub branch : ℕ → Label → Label → List Instr
branch op yes_label no_label =
    if op == b'<'
    then jump_if jl yes_label ∷ jump_if jge no_label ∷ []
    else if op == b'>'
    then jump_if jg yes_label ∷ jump_if jle no_label ∷ []
    else if op == b'='
    then jump_if je yes_label ∷ jump_if jne no_label ∷ []
    else []

abbrev pub has_else : Else → Bool
has_else no_else = false
has_else (else_branch s) = true

module _ (log2 : ℕ → ℕ) where
  -- An expression that is a binary node is folded before it is compiled.
  unfoldable pub compile_folded : Expr → Option (List Instr)
  compile_folded e = compute_folds e >>= λ f. some (compile_expr log2 (folded f))

  unfoldable pub compile_condition : Condition Expr → Option (List Instr)
  compile_condition c = compile_folded (binary c.op c.left c.right)

  unfoldable pub if_code : ℕ → ℕ → Bool → List Instr → List Instr → List Instr → List Instr
  if_code n op with_else condition then_code else_code =
      condition
      ++ (branch op (if_label n) (if with_else then else_label n else end_if n)
          ++ (label (if_label n)
              ∷ (then_code
                  ++ (jmp (end_if n)
                      ∷ label (else_label n)
                      ∷ (else_code ++ (label (end_if n) ∷ []))))))

  unfoldable pub while_code : ℕ → ℕ → List Instr → List Instr → List Instr
  while_code n op condition body =
      label (start_while n)
      ∷ (condition
          ++ (branch op (while_label n) (while_end n)
              ++ (label (while_label n)
                  ∷ (body ++ (jmp (start_while n) ∷ label (while_end n) ∷ [])))))

  unfoldable mutual
    pub compile_ast : Statement → Counters → Emitted
    compile_ast (sequence ss) k = compile_all ss k
    compile_ast (print e) k = compile_folded e >>= λ code. some (code ++ (call_print_int ∷ []), k)
    compile_ast (let_node x e) k = some (compile_expr log2 e ++ (store (slot x) ∷ []), k)
    compile_ast (if_node c t e) k = compile_condition c >>= λ condition.
        compile_ast t (record k { if_local = k.if_local + 1 }) >>= λ (then_code, k₁).
        compile_else e k₁ >>= λ (else_code, k₂).
        some (if_code (k.if_local + 1) c.op (has_else e) condition then_code else_code, k₂)
    compile_ast (while_node c b) k = compile_condition c >>= λ condition.
        compile_ast b (record k { while_local = k.while_local + 1 }) >>= λ (body, k₁).
        some (while_code (k.while_local + 1) c.op condition body, k₁)

    pub compile_all : Statements → Counters → Emitted
    compile_all nil k = some ([], k)
    compile_all (cons s ss) k = compile_ast s k >>= λ (code, k₁).
        compile_all ss k₁ >>= λ (rest, k₂). some (code ++ rest, k₂)

    pub compile_else : Else → Counters → Emitted
    compile_else no_else k = some ([], k)
    compile_else (else_branch s) k = compile_ast s k
