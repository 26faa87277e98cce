-- ===== src/TeenyBasic/Machine/Reaches.antt =====
-- assembly-compiler/src/compile.c: runs of a program from line to line.
use computer_systems.Prelude.{
  ℕ, zero, suc, ◌≤◌, ◌≡◌, refl, sym, Bool, true, false, ◌&&◌, List, [], ◌∷◌, ◌++◌, none, some,
  length, get_elem?, get_elem?-lt, arith, ◌==◌,
}
use computer_systems.Prelude.Options.{>>=-eq-some}
use computer_systems.TeenyBasic.Asm.{Label, Instr, label, jmp, jump_if, Cpu, step, run_line}
use computer_systems.TeenyBasic.Machine.{target, find_label, next, run_from}
use computer_systems.TeenyBasic.Machine.At.{At, At-nil, At-head, At-tail}

-- The program gets to a line and a state.
pub data Reaches (program : List Instr) (end : ℕ) (final : Cpu) : ℕ → Cpu → Type 0 where
  there : {pc : ℕ} {s : Cpu} → pc ≡ end → s ≡ final → Reaches program end final pc s
  move :
      {pc pc' : ℕ} {s s' : Cpu}
      → next program pc s ≡ some (pc', s')
      → Reaches program end final pc' s'
      → Reaches program end final pc s

module _ (program : List Instr) where
  pub Reaches-trans :
      {end mid : ℕ} {final between : Cpu} {pc : ℕ} {s : Cpu}
      → Reaches program mid between pc s
      → Reaches program end final mid between
      → Reaches program end final pc s
  Reaches-trans (there e e') more = rw (e, e') more
  Reaches-trans (move n r) more = move n (Reaches-trans r more)

  run_from-end :
      (fuel pc : ℕ) (s : Cpu) {final : Cpu}
      → 1 ≤ fuel
      → pc ≡ length program
      → s ≡ final
      → run_from fuel program pc s ≡ some final
  unfolding run_from
  run_from-end zero pc s h e e' = absurd (omega arith)
  run_from-end (suc fuel) pc s h e e' = ground arith

  run_from-move :
      (enough fuel pc : ℕ) {pc' : ℕ} (s : Cpu) {s' final : Cpu}
      → suc enough ≤ fuel
      → next program pc s ≡ some (pc', s')
      → ((f : ℕ) → enough ≤ f → run_from f program pc' s' ≡ some final)
      → run_from fuel program pc s ≡ some final
  unfolding run_from next
  run_from-move enough zero pc s h n later = absurd (omega arith)
  run_from-move enough (suc fuel) pc s h n later =
      let (i, got, _) = >>=-eq-some (get_elem? program pc) _ n in
      let inside : (pc == length program) ≡ false = ground (arith, get_elem?-lt program pc got) in
      rw (inside, n) (later fuel (omega arith))

  -- A program that gets behind its last line ends, with enough fuel.
  pub Reaches-run_from :
      {final : Cpu} (pc : ℕ) (s : Cpu)
      → Reaches program (length program) final pc s
      → (enough : ℕ) × ((fuel : ℕ) → enough ≤ fuel → run_from fuel program pc s ≡ some final)
  Reaches-run_from pc s (there e e') = (1, λ fuel h. run_from-end fuel pc s h e e')
  Reaches-run_from pc s (move n r) =
      let (enough, ends) = Reaches-run_from _ _ r in
      (suc enough, λ fuel h. run_from-move enough fuel pc s h n ends)

-- Instructions that do not jump and are not jumped to.
abbrev pub is_plain : Instr → Bool
is_plain (jmp l) = false
is_plain (jump_if f l) = false
is_plain (label l) = false
is_plain _ = true

unfoldable pub are_plain : List Instr → Bool
are_plain [] = true
are_plain (i ∷ code) = is_plain i && are_plain code

pub are_plain-append :
    (xs ys : List Instr) → are_plain xs ≡ true → are_plain ys ≡ true → are_plain (xs ++ ys) ≡ true
unfolding are_plain
are_plain-append [] ys h k = k
are_plain-append (i ∷ xs) ys h k = ground (arith, are_plain-append xs ys)

target-plain : (i : Instr) (s : Cpu) → is_plain i ≡ true → target i s ≡ none
target-plain (jmp l) s h = absurd (cc h)
target-plain (jump_if f l) s h = absurd (cc h)
target-plain (label l) s h = absurd (cc h)
target-plain _ s h = refl

module _ {program : List Instr} where
  -- Straight-line code at its place.
  pub Reaches-line :
      (code : List Instr) {pc end : ℕ} (s final : Cpu)
      → At program pc code end
      → are_plain code ≡ true
      → run_line code s ≡ some final
      → Reaches program end final pc s
  unfolding run_line are_plain next
  Reaches-line [] s final a p e = there (sym (At-nil a)) (cc e)
  Reaches-line (i ∷ code) s final a p e =
      let (s', stepped, later) = >>=-eq-some (step i s) (run_line code) e in
      move (rw (At-head a, stepped, target-plain i s (ground arith)) refl)
        (Reaches-line code s' final (At-tail a) (ground arith) later)

  -- A jump to a label.
  pub Reaches-jump :
      {pc n : ℕ} {i : Instr} {l : Label} {s : Cpu}
      → get_elem? program pc ≡ some i
      → step i s ≡ some s
      → target i s ≡ some l
      → find_label l program ≡ some n
      → Reaches program n s pc s
  unfolding next
  Reaches-jump got stepped to found = move (rw (got, stepped, to, found) refl) (there refl refl)
