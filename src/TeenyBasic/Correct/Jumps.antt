-- ===== src/TeenyBasic/Correct/Jumps.antt =====
-- assembly-compiler/src/compile.c: the ways through the code of a condition with its branches.
use mathlib.Core.Path.{subst}
use computer_systems.Prelude.{
  ℕ, suc, ◌≤◌, ◌≡◌, refl, sym, ap, ◌∙◌, Bool, true, false, not, List, [], ◌∷◌, some, arith,
  Bool-cases, inl, inr, ◌==◌, if◌then◌else◌,
}
use computer_systems.TeenyBasic.Lexer.{is_comparison_op}
use computer_systems.TeenyBasic.Asm.{
  Flag, jl, jge, jg, jle, je, jne, Label, Instr, label, jmp, jump_if, Cpu, holds, step,
}
use computer_systems.TeenyBasic.Statements.{branch}
use computer_systems.TeenyBasic.Semantics.{test}
use computer_systems.TeenyBasic.Machine.{next, find_label}
use computer_systems.TeenyBasic.Machine.At.{At, At-nil, At-head, At-tail, count, find_label-once}
use computer_systems.TeenyBasic.Machine.Reaches.{Reaches, there, move, Reaches-jump}

-- The jumps of an operator: one if the comparison holds, its opposite if not.
branch-flags :
    (op : ℕ)
    → is_comparison_op op ≡ true
    → (f : Flag) × (g : Flag) × ((yes_label no_label : Label)
        → branch op yes_label no_label ≡ jump_if f yes_label ∷ jump_if g no_label ∷ [])
      × ((a b : ℕ) → holds f (a, b) ≡ test op a b)
      × ((a b : ℕ) → holds g (a, b) ≡ not (test op a b))
unfolding branch test
branch-flags op is = elim (Bool-cases (op == b'<')) [
  | inl less ↦ (jl, jge, λ y n. rw less refl, λ a b. rw less refl, λ a b. rw less refl)
  | inr not_less ↦ elim (Bool-cases (op == b'>')) [
    | inl greater ↦ (
      jg,
      jle,
      λ y n. rw (not_less, greater) refl,
      λ a b. rw (not_less, greater) refl,
      λ a b. rw (not_less, greater) refl,
    )
    | inr not_greater ↦
        let equal : (op == b'=') ≡ true = ground arith in
        (
          je,
          jne,
          λ y n. rw (not_less, not_greater, equal) refl,
          λ a b. rw (not_less, not_greater) refl,
          λ a b. rw (not_less, not_greater) refl,
        )
  ]
]

module _ (program : List Instr) (once : (l : Label) → count l program ≤ 1) where
  pub found :
      {pc end : ℕ} {l : Label} {code : List Instr}
      → At program pc (label l ∷ code) end
      → find_label l program ≡ some pc
  found {pc} {l} a = find_label-once l program pc (At-head a) (once l)

  -- A label does nothing.
  pub Reaches-label :
      {pc end : ℕ} {l : Label} {code : List Instr} {s : Cpu}
      → At program pc (label l ∷ code) end
      → Reaches program (suc pc) s pc s
  unfolding next step
  Reaches-label a = move (rw (At-head a) refl) (there refl refl)

  pub Reaches-last :
      {pc end : ℕ} {l : Label} {s : Cpu}
      → At program pc (label l ∷ []) end
      → Reaches program end s pc s
  unfolding next step
  Reaches-last {pc} {end} {s} a =
      subst (λ n. Reaches program n s pc s) (sym (At-nil (At-tail a))) (Reaches-label a)

  pub Reaches-jmp :
      {pc end n : ℕ} {l : Label} {code : List Instr} {s : Cpu}
      → At program pc (jmp l ∷ code) end
      → find_label l program ≡ some n
      → Reaches program n s pc s
  unfolding step
  Reaches-jmp a f = Reaches-jump (At-head a) refl refl f

  -- One of two opposite jumps is taken.
  Reaches-two :
      (f g : Flag) (t : Bool) {yes_label no_label : Label} {pc end n m : ℕ} {s : Cpu}
      → At program pc (jump_if f yes_label ∷ jump_if g no_label ∷ []) end
      → holds f s.compared ≡ t
      → holds g s.compared ≡ not t
      → find_label yes_label program ≡ some n
      → find_label no_label program ≡ some m
      → Reaches program (if t then n else m) s pc s
  unfolding step next
  Reaches-two f g true a h k found_yes found_no =
      Reaches-jump (At-head a) refl (rw h refl) found_yes
  Reaches-two f g false a h k found_yes found_no =
      move (rw (At-head a, h) refl) (Reaches-jump (At-head (At-tail a)) refl (rw k refl) found_no)

  pub Reaches-branch :
      (op a b : ℕ) (yes_label no_label : Label) {pc end n m : ℕ} {s : Cpu}
      → is_comparison_op op ≡ true
      → At program pc (branch op yes_label no_label) end
      → s.compared ≡ (a, b)
      → find_label yes_label program ≡ some n
      → find_label no_label program ≡ some m
      → Reaches program (if test op a b then n else m) s pc s
  Reaches-branch op a b yes_label no_label {pc} {end} is at e found_yes found_no =
      let (f, g, same, holds_f, holds_g) = branch-flags op is in
      Reaches-two f g (test op a b) (subst (λ c. At program pc c end) (same yes_label no_label) at)
        (ap (holds f) e ∙ holds_f a b) (ap (holds g) e ∙ holds_g a b) found_yes found_no
