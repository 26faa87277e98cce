-- ===== src/TeenyBasic/Compile.antt =====
-- assembly-compiler/src/compile.c: `check_power_two` and `compile_ast`. The code that is printed is
-- returned as a list of instructions; the label counters `if_local` and `while_local` are threaded
-- through. `log2` is the function of the C library on a positive integer, cut to an int.
use Prim.Native.Nat.{bit_and}
use computer_systems.Prelude.{
  ℕ, ◌+◌, ◌*◌, ◌-◌, ◌^◌, Bool, ◌&&◌, ◌||◌, List, [], ◌∷◌, ◌++◌, ltb, ◌==◌, if◌then◌else◌,
}
use computer_systems.TeenyBasic.Ast.{Expr, num, binary, var}
use computer_systems.TeenyBasic.Asm.{
  Instr, movq_imm, push_rdi, pop_rcx, pop_rdi, cmp, addq, subq, imulq, movq_rdi_rax, cqto, idiv_rcx,
  movq_rax_rdi, load, shlq,
}

-- The offset of a variable's slot, (name - 'A' + 1) * 8.
unfoldable pub slot : ℕ → ℕ
slot name = (name - b'A' + 1) * 8

-- `value > 1 && (value & (value - 1)) == 0`, on a signed value
unfoldable pub is_power_two : ℕ → Bool
is_power_two v = ltb 1 v && (ltb v (2 ^ 63) && (bit_and v (v - 1) == 0))

-- The instructions of an operator, with its sides in rdi and rcx.
unfoldable pub operator : ℕ → List Instr
operator op =
    if (op == b'<') || ((op == b'>') || (op == b'='))
    then cmp ∷ []
    else if op == b'+'
    then addq ∷ []
    else if op == b'-'
    then subq ∷ []
    else if op == b'*'
    then imulq ∷ []
    else if op == b'/'
    then movq_rdi_rax ∷ cqto ∷ idiv_rcx ∷ movq_rax_rdi ∷ []
    else []

-- Both sides through the stack, then the operator.
unfoldable pub stacked : ℕ → List Instr → List Instr → List Instr
stacked op l r = l ++ (push_rdi ∷ (r ++ (push_rdi ∷ pop_rcx ∷ pop_rdi ∷ operator op)))

module _ (log2 : ℕ → ℕ) where
  -- A product by a literal power of two is a shift.
  unfoldable pub with_literal : ℕ → ℕ → List Instr → List Instr
  with_literal op v l =
      if (op == b'*') && is_power_two v
      then l ++ (shlq (log2 v) ∷ [])
      else stacked op l (movq_imm v ∷ [])

  unfoldable pub compile_expr : Expr → List Instr
  compile_expr (num v) = movq_imm v ∷ []
  compile_expr (var x) = load (slot x) ∷ []
  compile_expr (binary op l (num v)) = with_literal op v (compile_expr l)
  compile_expr (binary op l (var x)) = stacked op (compile_expr l) (load (slot x) ∷ [])
  compile_expr (binary op l (binary op' l' r')) =
      stacked op (compile_expr l) (compile_expr (binary op' l' r'))
