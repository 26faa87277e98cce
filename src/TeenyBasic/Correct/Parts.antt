-- ===== src/TeenyBasic/Correct/Parts.antt =====
-- assembly-compiler/src/compile.c: the parts of the code of an if or while statement, and the
-- ways between them.
use mathlib.Core.Path.{subst}
use computer_systems.Prelude.{ℕ, suc, ◌≤◌, ◌≡◌, Bool, true, false, List, some, if◌then◌else◌}
use computer_systems.TeenyBasic.Lexer.{is_comparison_op}
use computer_systems.TeenyBasic.Asm.{
  Label, if_label, else_label, end_if, while_label, while_end, Instr, Cpu, run_line,
}
use computer_systems.TeenyBasic.Statements.{branch, if_code, while_code}
use computer_systems.TeenyBasic.Semantics.{test}
use computer_systems.TeenyBasic.Machine.{find_label}
use computer_systems.TeenyBasic.Machine.At.{At, At-tail, At-append, count}
use computer_systems.TeenyBasic.Machine.Reaches.{Reaches, Reaches-trans, Reaches-line, are_plain}
use computer_systems.TeenyBasic.Correct.Jumps.{
  found, Reaches-label, Reaches-last, Reaches-jmp, Reaches-branch,
}

module _ (program : List Instr) (once : (l : Label) → count l program ≤ 1) where
  -- Where the parts of the code of an if statement stand, and the ways between them.
  record IfParts (op n : ℕ) (no_label : Label) (condition then_code else_code : List Instr)
      (pc end : ℕ) : Type 0 where
    branches : ℕ
    then_start : ℕ
    then_stop : ℕ
    else_stop : ℕ
    condition_at : At program pc condition branches
    branch_at : At program branches (branch op (if_label n) no_label) then_start
    found_then : find_label (if_label n) program ≡ some then_start
    enters_then : (s : Cpu) → Reaches program (suc then_start) s then_start s
    then_at : At program (suc then_start) then_code then_stop
    leaves_then : (s : Cpu) → Reaches program end s then_stop s
    found_else : find_label (else_label n) program ≡ some (suc then_stop)
    enters_else : (s : Cpu) → Reaches program (suc (suc then_stop)) s (suc then_stop) s
    else_at : At program (suc (suc then_stop)) else_code else_stop
    found_end : find_label (end_if n) program ≡ some else_stop
    leaves_else : (s : Cpu) → Reaches program end s else_stop s
    no_line : ℕ
    found_no : find_label no_label program ≡ some no_line

  found-either :
      (either : Bool) (l m : Label) {i j : ℕ}
      → find_label l program ≡ some i
      → find_label m program ≡ some j
      → find_label (if either then l else m) program ≡ some (if either then i else j)
  found-either true l m h k = h
  found-either false l m h k = k

  if_code-parts :
      (log2 : ℕ → ℕ) (op n : ℕ) (with_else : Bool) (condition then_code else_code : List Instr)
      {pc end : ℕ}
      → At program pc (if_code log2 n op with_else condition then_code else_code) end
      → IfParts op n
          (if with_else then else_label n else end_if n)
          condition
          then_code
          else_code
          pc
          end
  unfolding if_code
  if_code-parts log2 op n with_else condition then_code else_code at =
      let (p₁, condition_at, at₁) = At-append condition _ at in
      let (p₂, branch_at, at₂) = At-append (branch op _ _) _ at₁ in
      let (p₃, then_at, at₃) = At-append then_code _ (At-tail at₂) in
      let (p₄, else_at, at₄) = At-append else_code _ (At-tail (At-tail at₃)) in
      record {
        branches = p₁;
        then_start = p₂;
        then_stop = p₃;
        else_stop = p₄;
        condition_at = condition_at;
        branch_at = branch_at;
        found_then = found program once at₂;
        enters_then = λ s. Reaches-label program once at₂;
        then_at = then_at;
        leaves_then = λ s.
            Reaches-trans program (Reaches-jmp program once at₃ (found program once at₄))
              (Reaches-last program once at₄);
        found_else = found program once (At-tail at₃);
        enters_else = λ s. Reaches-label program once (At-tail at₃);
        else_at = else_at;
        found_end = found program once at₄;
        leaves_else = λ s. Reaches-last program once at₄;
        no_line = if with_else then suc p₃ else p₄;
        found_no =
            found-either with_else (else_label n) (end_if n) (found program once (At-tail at₃))
              (found program once at₄);
      }

  -- Likewise for a while statement.
  record WhileParts (op n : ℕ) (condition body : List Instr) (pc end : ℕ) : Type 0 where
    branches : ℕ
    body_start : ℕ
    body_stop : ℕ
    enters : (s : Cpu) → Reaches program (suc pc) s pc s
    condition_at : At program (suc pc) condition branches
    branch_at : At program branches (branch op (while_label n) (while_end n)) body_start
    found_body : find_label (while_label n) program ≡ some body_start
    enters_body : (s : Cpu) → Reaches program (suc body_start) s body_start s
    body_at : At program (suc body_start) body body_stop
    repeats : (s : Cpu) → Reaches program pc s body_stop s
    found_end : find_label (while_end n) program ≡ some (suc body_stop)
    leaves : (s : Cpu) → Reaches program end s (suc body_stop) s

  while_code-parts :
      (log2 : ℕ → ℕ) (op n : ℕ) (condition body : List Instr) {pc end : ℕ}
      → At program pc (while_code log2 n op condition body) end
      → WhileParts op n condition body pc end
  unfolding while_code
  while_code-parts log2 op n condition body at =
      let (p₁, condition_at, at₁) = At-append condition _ (At-tail at) in
      let (p₂, branch_at, at₂) = At-append (branch op _ _) _ at₁ in
      let (p₃, body_at, at₃) = At-append body _ (At-tail at₂) in
      record {
        branches = p₁;
        body_start = p₂;
        body_stop = p₃;
        enters = λ s. Reaches-label program once at;
        condition_at = condition_at;
        branch_at = branch_at;
        found_body = found program once at₂;
        enters_body = λ s. Reaches-label program once at₂;
        body_at = body_at;
        repeats = λ s. Reaches-jmp program once at₃ (found program once at);
        found_end = found program once (At-tail at₃);
        leaves = λ s. Reaches-last program once (At-tail at₃);
      }

  -- A part of the code comes next, and from behind it the program gets to a line.
  pub record Through (code : List Instr) (s s' : Cpu) (pc end : ℕ) : Type 0 where
    pub start : ℕ
    pub stop : ℕ
    pub here : At program start code stop
    pub enters : Reaches program start s' pc s
    pub leaves : (t : Cpu) → Reaches program end t stop t

  -- The condition has been computed, and compares `a` and `b`.
  module _ (op a b n : ℕ) (condition : List Instr) (s s' : Cpu) (is : is_comparison_op op ≡ true)
      (plain : are_plain condition ≡ true) (runs : run_line condition s ≡ some s')
      (compared : s'.compared ≡ (a, b)) where
    decides :
        (t : Bool) (yes_label no_label : Label) {pc mid end yes_line no_line : ℕ}
        → test op a b ≡ t
        → At program pc condition mid
        → At program mid (branch op yes_label no_label) end
        → find_label yes_label program ≡ some yes_line
        → find_label no_label program ≡ some no_line
        → Reaches program (if t then yes_line else no_line) s' pc s
    decides t yes_label no_label {mid} {yes_line} {no_line} h c at y m =
        Reaches-trans program (Reaches-line condition s s' c plain runs) (
          subst (λ t. Reaches program (if t then yes_line else no_line) s' mid s') h
            (Reaches-branch program once op a b yes_label no_label is at compared y m))

    module _ (log2 : ℕ → ℕ) (then_code else_code : List Instr) {pc end : ℕ} where
      pub if-then :
          (with_else : Bool)
          → At program pc (if_code log2 n op with_else condition then_code else_code) end
          → test op a b ≡ true
          → Through then_code s s' pc end
      if-then with_else at t =
          let no_label = if with_else then else_label n else end_if n in
          let p = if_code-parts log2 op n with_else condition then_code else_code at in
          record {
            start = suc p.then_start;
            stop = p.then_stop;
            here = p.then_at;
            enters =
                Reaches-trans program
                  (decides true (if_label n) no_label t p.condition_at p.branch_at p.found_then
                    p.found_no)
                  (p.enters_then s');
            leaves = p.leaves_then;
          }

      pub if-else :
          At program pc (if_code log2 n op true condition then_code else_code) end
          → test op a b ≡ false
          → Through else_code s s' pc end
      if-else at t =
          let p = if_code-parts log2 op n true condition then_code else_code at in
          record {
            start = suc (suc p.then_stop);
            stop = p.else_stop;
            here = p.else_at;
            enters =
                Reaches-trans program
                  (decides false (if_label n) (else_label n) t p.condition_at p.branch_at
                    p.found_then p.found_else)
                  (p.enters_else s');
            leaves = p.leaves_else;
          }

      pub if-no_else :
          At program pc (if_code log2 n op false condition then_code else_code) end
          → test op a b ≡ false
          → Reaches program end s' pc s
      if-no_else at t =
          let p = if_code-parts log2 op n false condition then_code else_code at in
          Reaches-trans program
            (decides false (if_label n) (end_if n) t p.condition_at p.branch_at p.found_then
              p.found_end)
            (p.leaves_else s')

  module _ (log2 : ℕ → ℕ) (op a b n : ℕ) (condition body : List Instr) (s s' : Cpu)
      (is : is_comparison_op op ≡ true) (plain : are_plain condition ≡ true)
      (runs : run_line condition s ≡ some s') (compared : s'.compared ≡ (a, b)) {pc end : ℕ}
      (at : At program pc (while_code log2 n op condition body) end) where
    pub while-again :
        test op a b ≡ true
        → (start stop : ℕ) × At program start body stop
          × Reaches program start s' pc s
          × ((t : Cpu) → Reaches program pc t stop t)
    while-again t =
        let p = while_code-parts log2 op n condition body at in
        (
          suc p.body_start,
          p.body_stop,
          p.body_at,
          Reaches-trans program (p.enters s) (
              Reaches-trans program
                (decides op a b n condition s s' is plain runs compared true (while_label n)
                  (while_end n) t p.condition_at p.branch_at p.found_body p.found_end)
                (p.enters_body s')),
          p.repeats,
        )

    pub while-stops : test op a b ≡ false → Reaches program end s' pc s
    while-stops t =
        let p = while_code-parts log2 op n condition body at in
        Reaches-trans program (p.enters s) (
          Reaches-trans program
            (decides op a b n condition s s' is plain runs compared false (while_label n)
              (while_end n) t p.condition_at p.branch_at p.found_body p.found_end)
            (p.leaves s'))
