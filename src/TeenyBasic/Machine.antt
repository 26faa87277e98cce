-- ===== src/TeenyBasic/Machine.antt =====
-- assembly-compiler/src/compile.c: what the printed lines do as a program, with jumps to labels.
pub mod At
pub mod Reaches
use computer_systems.Prelude.{
  ℕ, zero, suc, Bool, true, false, ◌&&◌, List, [], ◌∷◌, Option, none, some, length, get_elem?, ◌==◌,
  if◌then◌else◌,
}
use computer_systems.Prelude.Options.{◌>>=◌}
use computer_systems.TeenyBasic.Asm.{
  Label, if_label, else_label, end_if, start_while, while_label, while_end, Instr, jump_if, jmp,
  label, Cpu, step, holds,
}

abbrev pub kind : Label → ℕ
kind (if_label n) = 0
kind (else_label n) = 1
kind (end_if n) = 2
kind (start_while n) = 3
kind (while_label n) = 4
kind (while_end n) = 5

abbrev pub number : Label → ℕ
number (if_label n) = n
number (else_label n) = n
number (end_if n) = n
number (start_while n) = n
number (while_label n) = n
number (while_end n) = n

abbrev pub label_eq : Label → Label → Bool
label_eq l m = (kind l == kind m) && (number l == number m)

abbrev pub is_label : Label → Instr → Bool
is_label l (label m) = label_eq l m
is_label l _ = false

-- The first line with the label.
unfoldable pub find_label : Label → List Instr → Option ℕ
find_label l [] = none
find_label l (i ∷ code) =
    let later = find_label l code >>= λ n. some (suc n) in if is_label l i then some 0 else later

-- Where an instruction jumps to, if it does.
abbrev pub target : Instr → Cpu → Option Label
target (jmp l) s = some l
target (jump_if f l) s = if holds f s.compared then some l else none
target _ s = none

-- One instruction of the program `code`.
unfoldable pub next : List Instr → ℕ → Cpu → Option (ℕ × Cpu)
next code pc s = get_elem? code pc >>= λ i. step i s >>= λ s'. elim (target i s) [
  | none ↦ some (suc pc, s')
  | some l ↦ find_label l code >>= λ n. some (n, s')
]

-- From a line on until the end of the program.
unfoldable pub run_from : ℕ → List Instr → ℕ → Cpu → Option Cpu
run_from zero code pc s = none
run_from (suc fuel) code pc s =
    let rest = next code pc s >>= λ (pc', s'). run_from fuel code pc' s' in
    if pc == length code then some s else rest
