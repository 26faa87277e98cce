-- ===== src/TeenyBasic/Correct/Branches.antt =====
-- assembly-compiler/src/compile.c: the ways of an if or while statement, with the state at their end.
use mathlib.Core.Path.{subst}
use computer_systems.Prelude.{
  ℕ, zero, suc, ◌+◌, ◌^◌, ◌≤◌, ◌<◌, ◌≡◌, ◌∙◌, Bool, true, false, List, some,
}
use computer_systems.TeenyBasic.Ast.{Condition, Expr, Else, no_else, else_branch}
use computer_systems.TeenyBasic.Lexer.{is_comparison_op}
use computer_systems.TeenyBasic.Asm.{Label, Instr, Cpu}
use computer_systems.TeenyBasic.Statements.{Counters, has_else, if_code, while_code, compile_else}
use computer_systems.TeenyBasic.Semantics.{Store, execute_else}
use computer_systems.TeenyBasic.Machine.At.{At, count}
use computer_systems.TeenyBasic.Machine.Reaches.{Reaches-trans}
use computer_systems.TeenyBasic.Correct.Parts.{
  if-then, if-else, if-no_else, while-again, while-stops,
}
use computer_systems.TeenyBasic.Correct.Blocks.{Simulates, Ends, Decided, way-Ends}

module _ (log2 : ℕ → ℕ) (log2-pow : (k : ℕ) → 2 ^ k < 2 ^ 63 → log2 (2 ^ k) ≡ k)
    (program : List Instr) (once : (l : Label) → count l program ≤ 1) where
  execute_else-no_else :
      (n : ℕ) (t : Store) {t' : Store} → execute_else n no_else t ≡ some t' → t ≡ t'
  unfolding execute_else
  execute_else-no_else zero t h = absurd (cc h)
  execute_else-no_else (suc n) t h = cc h

  -- One run and a run from where it has got to.
  pub before-Ends :
      {t₁ t' : Store} {pc mid end : ℕ} {s : Cpu}
      → (first : Ends program t₁ mid pc s) → Ends program t' end mid first.final
      → Ends program t' end pc s
  before-Ends first more = record {
    final = more.final;
    reaches = Reaches-trans program first.reaches more.reaches;
    simulates = more.simulates;
    stack = more.stack ∙ first.stack;
  }

  module _ (n : ℕ) (c : Condition Expr) (t : Store) (k : Counters) where
    -- The condition holds: the first part is run.
    pub then-Ends :
        (with_else : Bool) (condition then_code else_code : List Instr) (pc end : ℕ) (s : Cpu)
        (t' : Store)
        → is_comparison_op c.op ≡ true
        → Decided c.op true condition t s
        → At program pc
            (if_code log2 (k.if_local + 1) c.op with_else condition then_code else_code)
            end
        → ((start stop : ℕ) (s' : Cpu)
            → At program start then_code stop
            → Simulates t s'
            → Ends program t' stop start s')
        → Ends program t' end pc s
    then-Ends with_else condition then_code else_code pc end s t' is d at ih =
        let p =
          if-then program once c.op d.a d.b (k.if_local + 1) condition s d.between is d.plain d.runs
            d.compared log2 then_code else_code with_else at d.tests in
        way-Ends log2 log2-pow program once t' s d.between p.enters d.stack
          (ih p.start p.stop d.between p.here d.simulates) p.leaves

    -- The condition does not hold: the second part is run, if there is one.
    pub else-Ends :
        (e : Else) (condition then_code else_code : List Instr) (k₁ k₂ : Counters) (pc end : ℕ)
        (s : Cpu) (t' : Store)
        → is_comparison_op c.op ≡ true
        → Decided c.op false condition t s
        → execute_else n e t ≡ some t'
        → compile_else log2 e k₁ ≡ some (else_code, k₂)
        → At program pc
            (if_code log2 (k.if_local + 1) c.op (has_else e) condition then_code else_code)
            end
        → ((start stop : ℕ) (s' : Cpu)
            → At program start else_code stop
            → Simulates t s'
            → Ends program t' stop start s')
        → Ends program t' end pc s
    unfolding execute_else
    else-Ends no_else condition then_code else_code k₁ k₂ pc end s t' is d ex compiled at ih =
        record {
          final = d.between;
          reaches =
              if-no_else program once c.op d.a d.b (k.if_local + 1) condition s d.between is d.plain
                d.runs d.compared log2 then_code else_code at d.tests;
          simulates = subst (λ u. Simulates u d.between) (execute_else-no_else n t ex) d.simulates;
          stack = d.stack;
        }
    else-Ends (else_branch st) condition then_code else_code k₁ k₂ pc end s t' is d ex compiled at
          ih =
        let p =
          if-else program once c.op d.a d.b (k.if_local + 1) condition s d.between is d.plain d.runs
            d.compared log2 then_code else_code at d.tests in
        way-Ends log2 log2-pow program once t' s d.between p.enters d.stack
          (ih p.start p.stop d.between p.here d.simulates) p.leaves

    -- The body is run, and the loop once more.
    pub again-Ends :
        (condition body : List Instr) (pc end : ℕ) (s : Cpu) (t₁ t' : Store)
        → is_comparison_op c.op ≡ true
        → Decided c.op true condition t s
        → At program pc (while_code log2 (k.while_local + 1) c.op condition body) end
        → ((start stop : ℕ) (s' : Cpu)
            → At program start body stop
            → Simulates t s'
            → Ends program t₁ stop start s')
        → ((s' : Cpu) → Simulates t₁ s' → Ends program t' end pc s')
        → Ends program t' end pc s
    again-Ends condition body pc end s t₁ t' is d at ih_body ih_again =
        let (start, stop, here, enters, leaves) =
          while-again program once log2 c.op d.a d.b (k.while_local + 1) condition body s d.between
            is d.plain d.runs d.compared at d.tests in
        let first =
          way-Ends log2 log2-pow program once t₁ s d.between enters d.stack
            (ih_body start stop d.between here d.simulates) leaves in
        before-Ends first (ih_again first.final first.simulates)

    pub stops-Ends :
        (condition body : List Instr) (pc end : ℕ) (s : Cpu) (t' : Store)
        → is_comparison_op c.op ≡ true
        → Decided c.op false condition t s
        → t ≡ t'
        → At program pc (while_code log2 (k.while_local + 1) c.op condition body) end
        → Ends program t' end pc s
    stops-Ends condition body pc end s t' is d ends at = record {
      final = d.between;
      reaches =
          while-stops program once log2 c.op d.a d.b (k.while_local + 1) condition body s d.between
            is d.plain d.runs d.compared at d.tests;
      simulates = subst (λ u. Simulates u d.between) ends d.simulates;
      stack = d.stack;
    }
