-- ===== src/TeenyBasic/Asm.antt =====
-- The x86-64 instructions that assembly-compiler/src/compile.c prints, and what they do on the
-- registers, the stack and the variables that the compiled program uses. An instruction stands for
-- the line that `printf` writes.
use computer_systems.Prelude.{
  ℕ, ◌^◌, Bool, not, List, [], ◌∷◌, ◌++◌, Option, none, some, ◌==◌, if◌then◌else◌,
}
use computer_systems.TeenyBasic.Word64.{add64, sub64, mul64, div64, less64}

pub data Flag : Type 0 where
  jl jge jg jle je jne : Flag

pub data Label : Type 0 where
  if_label else_label end_if start_while while_label while_end : ℕ → Label

pub data Instr : Type 0 where
  -- movq $v, %rdi
  movq_imm : ℕ → Instr
  call_print_int : Instr
  push_rdi pop_rcx pop_rdi : Instr
  -- cmp %rcx, %rdi
  cmp : Instr
  addq subq imulq : Instr
  movq_rdi_rax cqto idiv_rcx movq_rax_rdi : Instr
  -- movq -k(%rbp), %rdi and movq %rdi, -k(%rbp)
  load store : ℕ → Instr
  -- shlq $k, %rdi
  shlq : ℕ → Instr
  jump_if : Flag → Label → Instr
  jmp : Label → Instr
  label : Label → Instr

-- `compared` holds the operands of the last `cmp`. The slot of a variable is given by its offset.
pub record Cpu : Type 0 where
  pub rdi : ℕ
  pub rcx : ℕ
  pub rax : ℕ
  pub compared : ℕ × ℕ
  pub stack : List ℕ
  pub slots : ℕ → ℕ
  pub out : List ℕ

abbrev pub write_slot : (ℕ → ℕ) → ℕ → ℕ → ℕ → ℕ
write_slot f k v j = if k == j then v else f j

-- `cqto` spreads the sign of rax to rdx; with `idiv` it is the signed division, which `idiv_rcx`
-- does whole.
unfoldable pub step : Instr → Cpu → Option Cpu
step (movq_imm v) s = some (record s { rdi = v })
step call_print_int s = some (record s { out = s.out ++ (s.rdi ∷ []) })
step push_rdi s = some (record s { stack = s.rdi ∷ s.stack })
step pop_rcx s = elim s.stack [ [] ↦ none | v ∷ rest ↦ some (record s { rcx = v; stack = rest }) ]
step pop_rdi s = elim s.stack [ [] ↦ none | v ∷ rest ↦ some (record s { rdi = v; stack = rest }) ]
step cmp s = some (record s { compared = (s.rdi, s.rcx) })
step addq s = some (record s { rdi = add64 s.rdi s.rcx })
step subq s = some (record s { rdi = sub64 s.rdi s.rcx })
step imulq s = some (record s { rdi = mul64 s.rdi s.rcx })
step movq_rdi_rax s = some (record s { rax = s.rdi })
step cqto s = some s
step idiv_rcx s = elim (div64 s.rax s.rcx) [ none ↦ none | some q ↦ some (record s { rax = q }) ]
step movq_rax_rdi s = some (record s { rdi = s.rax })
step (load k) s = some (record s { rdi = s.slots k })
step (store k) s = some (record s { slots = write_slot s.slots k s.rdi })
step (shlq k) s = some (record s { rdi = mul64 s.rdi (2 ^ k) })
step (jump_if f l) s = some s
step (jmp l) s = some s
step (label l) s = some s

abbrev pub holds : Flag → ℕ × ℕ → Bool
holds jl (a, b) = less64 a b
holds jge (a, b) = not (less64 a b)
holds jg (a, b) = less64 b a
holds jle (a, b) = not (less64 b a)
holds je (a, b) = a == b
holds jne (a, b) = not (a == b)

-- Straight-line code.
unfoldable pub run_line : List Instr → Cpu → Option Cpu
run_line [] s = some s
run_line (i ∷ code) s = elim (step i s) [ none ↦ none | some s' ↦ run_line code s' ]
