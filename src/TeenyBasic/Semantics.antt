-- ===== src/TeenyBasic/Semantics.antt =====
-- What a TeenyBASIC program means, independently of its code: an interpreter on the tree that
-- assembly-compiler/src/parser.c makes.
pub mod Cases
use computer_systems.Prelude.{
  ℕ, zero, suc, Bool, true, false, List, [], ◌∷◌, ◌++◌, Option, none, some, ◌==◌, if◌then◌else◌,
}
use computer_systems.Prelude.Options.{◌>>=◌}
use computer_systems.TeenyBasic.Ast.{
  Condition, Expr, Statement, Statements, Else, sequence, print, let_node, if_node, while_node, nil,
  cons, no_else, else_branch,
}
use computer_systems.TeenyBasic.Word64.{less64}
use computer_systems.TeenyBasic.Expressions.{eval}

-- The values of the variables, and what has been printed.
abbrev pub Store : Type 0
Store = (ℕ → ℕ) × List ℕ

unfoldable pub update : (ℕ → ℕ) → ℕ → ℕ → ℕ → ℕ
update env x v y = if x == y then v else env y

-- The comparisons are of signed values.
unfoldable pub test : ℕ → ℕ → ℕ → Bool
test op a b = if op == b'<' then less64 a b else if op == b'>' then less64 b a else (a == b)

unfoldable pub test_condition : Condition Expr → (ℕ → ℕ) → Option Bool
test_condition c env = eval c.left env >>= λ a. eval c.right env >>= λ b. some (test c.op a b)

-- The fuel bounds the depth of the calls; `none` is also a fault of an expression.
unfoldable mutual
  pub execute : ℕ → Statement → Store → Option Store
  execute zero st s = none
  execute (suc n) (sequence ss) s = execute_all n ss s
  execute (suc n) (print e) (env, out) = eval e env >>= λ v. some (env, out ++ v ∷ [])
  execute (suc n) (let_node x e) (env, out) = eval e env >>= λ v. some (update env x v, out)
  execute (suc n) (if_node c t e) (env, out) = test_condition c env >>= λ holds. elim holds [
    | true ↦ execute n t (env, out)
    | false ↦ execute_else n e (env, out)
  ]
  execute (suc n) (while_node c b) (env, out) = test_condition c env >>= λ holds. elim holds [
    | true ↦ execute n b (env, out) >>= execute n (while_node c b)
    | false ↦ some (env, out)
  ]

  pub execute_all : ℕ → Statements → Store → Option Store
  execute_all zero ss s = none
  execute_all (suc n) nil s = some s
  execute_all (suc n) (cons st ss) s = execute n st s >>= execute_all n ss

  pub execute_else : ℕ → Else → Store → Option Store
  execute_else zero e s = none
  execute_else (suc n) no_else s = some s
  execute_else (suc n) (else_branch st) s = execute n st s
