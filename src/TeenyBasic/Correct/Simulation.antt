-- ===== src/TeenyBasic/Correct/Simulation.antt =====
-- assembly-compiler/src/compile.c: the code that `compile_ast` prints for a statement does what the
-- statement means, wherever it stands in a program.
use mathlib.Core.Path.{subst}
use computer_systems.Prelude.{
  ℕ, zero, suc, ◌+◌, ◌^◌, ◌≤◌, ◌<◌, ◌≡◌, refl, sym, ◌∙◌, Bool, true, false, List, [], ◌∷◌, ◌++◌,
  Option, none, some, arith, inl, inr,
}
use computer_systems.Prelude.Options.{>>=-eq-some}
use computer_systems.TeenyBasic.Ast.{
  Condition, Expr, Statement, Statements, Else, sequence, print, let_node, if_node, while_node, nil,
  cons, no_else, else_branch,
}
use computer_systems.TeenyBasic.Lexer.{is_variable_name, is_comparison_op}
use computer_systems.TeenyBasic.Asm.{Label, Instr, call_print_int, store, Cpu}
use computer_systems.TeenyBasic.Compile.{slot, compile_expr}
use computer_systems.TeenyBasic.Expressions.{eval}
use computer_systems.TeenyBasic.CompileExpr.{compile_expr-Evaluates}
use computer_systems.TeenyBasic.Statements.{
  Counters, has_else, compile_folded, compile_condition, if_code, while_code, compile_ast,
  compile_all, compile_else,
}
use computer_systems.TeenyBasic.Semantics.{Store, update, execute, execute_all, execute_else}
use computer_systems.TeenyBasic.Machine.At.{At, At-nil, At-append, count}
use computer_systems.TeenyBasic.Machine.Reaches.{there, are_plain, are_plain-append}
use computer_systems.TeenyBasic.Correct.{
  is_named, is_condition, is_compilable, are_compilable, is_compilable_else,
}
use computer_systems.TeenyBasic.Correct.Plain.{compile_expr-plain, compile_folded-plain}
use computer_systems.TeenyBasic.Correct.Conditions.{eval-Holds, compiled_folded-Evaluates}
use computer_systems.TeenyBasic.Folding.{is_settled}
use computer_systems.TeenyBasic.Correct.Blocks.{
  Simulates, Ends, condition-Decided, line-Ends, print-Ends, let-Ends,
}
use computer_systems.TeenyBasic.Correct.Branches.{
  before-Ends, then-Ends, else-Ends, again-Ends, stops-Ends,
}
use computer_systems.TeenyBasic.Semantics.Cases.{execute-if_node, execute-while_node}

-- Where the statement has a result, and code that is meant to be correct, the code gets there.
abbrev Simulated :
    List Instr → Option Store → Option (List Instr × Counters) → Bool → Store → Type 0
Simulated program result emitted compilable t =
    (t' : Store) (code : List Instr) (k' : Counters) (pc end : ℕ) (s : Cpu)
    → result ≡ some t'
    → emitted ≡ some (code, k')
    → compilable ≡ true
    → At program pc code end
    → Simulates t s
    → Ends program t' end pc s

module _ (log2 : ℕ → ℕ) (log2-pow : (k : ℕ) → 2 ^ k < 2 ^ 63 → log2 (2 ^ k) ≡ k)
    (program : List Instr) (once : (l : Label) → count l program ≤ 1) where
  print-Simulated :
      (n : ℕ) (e : Expr) (t : Store) (k : Counters)
      → Simulated program
          (execute (suc n) (print e) t)
          (compile_ast log2 (print e) k)
          (is_compilable (print e))
          t
  unfolding execute compile_ast is_compilable are_plain
  print-Simulated n e t k t' code k' pc end s ex compiled is at sim =
      let (v, value, result) = >>=-eq-some (eval e t.0) _ ex in
      let (line, h, rest) = >>=-eq-some (compile_folded log2 e) _ compiled in
      let named : is_named e ≡ true = ground arith in
      let settled : is_settled e ≡ true = ground arith in
      let same : line ++ call_print_int ∷ [] ≡ code = cc rest in
      let ends : (t.0, t.1 ++ v ∷ []) ≡ t' = cc result in
      subst (λ u. Ends program u end pc s) ends
        (line-Ends log2 log2-pow program once (line ++ call_print_int ∷ []) (t.0, t.1 ++ v ∷ []) s
          (subst (λ c. At program pc c end) (sym same) at)
          (are_plain-append line (call_print_int ∷ []) (compile_folded-plain log2 e line h) refl)
          (print-Ends line t v s
            (compiled_folded-Evaluates log2 log2-pow e t.0 s.slots line v named settled sim.holds
              value h)
            sim))

  let-Simulated :
      (n x : ℕ) (e : Expr) (t : Store) (k : Counters)
      → Simulated program
          (execute (suc n) (let_node x e) t)
          (compile_ast log2 (let_node x e) k)
          (is_compilable (let_node x e))
          t
  unfolding execute compile_ast is_compilable are_plain
  let-Simulated n x e t k t' code k' pc end s ex compiled is at sim =
      let (v, value, result) = >>=-eq-some (eval e t.0) _ ex in
      let named : is_named e ≡ true = ground arith in
      let variable : is_variable_name x ≡ true = ground arith in
      let line = compile_expr log2 e in
      let same : line ++ store (slot x) ∷ [] ≡ code = cc compiled in
      let ends : (update t.0 x v, t.1) ≡ t' = cc result in
      subst (λ u. Ends program u end pc s) ends
        (line-Ends log2 log2-pow program once (line ++ store (slot x) ∷ []) (update t.0 x v, t.1) s
          (subst (λ c. At program pc c end) (sym same) at)
          (are_plain-append line (store (slot x) ∷ []) (compile_expr-plain log2 e) refl)
          (let-Ends line t x v s variable
            (compile_expr-Evaluates log2 log2-pow e s.slots v
              (eval-Holds e s.slots t.0 named sim.holds ∙ value))
            sim))

  nil-Ends :
      (t : Store) {pc end : ℕ} (s : Cpu)
      → At program pc [] end
      → Simulates t s
      → Ends program t end pc s
  nil-Ends t s at sim = record {
    final = s;
    reaches = there (sym (At-nil at)) refl;
    simulates = sim;
    stack = refl;
  }

  module _ (n : ℕ) (c : Condition Expr) (t : Store) (k : Counters) where
    if-Simulated :
        (st : Statement) (e : Else)
        → ((k₁ : Counters)
            → Simulated program (execute n st t) (compile_ast log2 st k₁) (is_compilable st) t)
        → ((k₁ : Counters)
            → Simulated program
                (execute_else n e t)
                (compile_else log2 e k₁)
                (is_compilable_else e)
                t)
        → Simulated program
            (execute (suc n) (if_node c st e) t)
            (compile_ast log2 (if_node c st e) k)
            (is_compilable (if_node c st e))
            t
    unfolding compile_ast is_compilable
    if-Simulated st e ih_then ih_else t' code k' pc end s ex compiled is at sim =
        let (condition, hc, rest) = >>=-eq-some (compile_condition log2 c) _ compiled in
        let ((then_code, k₁), ht, rest₁) = >>=-eq-some (compile_ast log2 st _) _ rest in
        let ((else_code, k₂), he, rest₂) = >>=-eq-some (compile_else log2 e k₁) _ rest₁ in
        let same : if_code log2 (k.if_local + 1) c.op (has_else e) condition then_code else_code
            ≡ code =
          cc rest₂ in
        let at' = subst (λ l. At program pc l end) (sym same) at in
        let is_cond : is_condition c ≡ true = ground arith in
        let is_op : is_comparison_op c.op ≡ true = ground arith in
        let is_then : is_compilable st ≡ true = ground arith in
        let is_else : is_compilable_else e ≡ true = ground arith in
        elim (execute-if_node n c st e t ex) [
          | inl (holds, ex') ↦
              then-Ends log2 log2-pow program once n c t k (has_else e) condition then_code
                else_code pc end s t' is_op
                (condition-Decided log2 log2-pow program once c condition true t s is_cond holds hc
                  sim)
                at'
                (λ start stop s' here sim'.
                  ih_then _ t' then_code k₁ start stop s' ex' ht is_then here sim')
          | inr (fails, ex') ↦
              else-Ends log2 log2-pow program once n c t k e condition then_code else_code k₁ k₂ pc
                end s t' is_op
                (condition-Decided log2 log2-pow program once c condition false t s is_cond fails hc
                  sim)
                ex' he at'
                (λ start stop s' here sim'.
                  ih_else k₁ t' else_code k₂ start stop s' ex' he is_else here sim')
        ]

    while-Simulated :
        (b : Statement)
        → ((k₁ : Counters)
            → Simulated program (execute n b t) (compile_ast log2 b k₁) (is_compilable b) t)
        → ((t₁ : Store)
            → Simulated program
                (execute n (while_node c b) t₁)
                (compile_ast log2 (while_node c b) k)
                (is_compilable (while_node c b))
                t₁)
        → Simulated program
            (execute (suc n) (while_node c b) t)
            (compile_ast log2 (while_node c b) k)
            (is_compilable (while_node c b))
            t
    unfolding compile_ast is_compilable
    while-Simulated b ih_body ih_again t' code k' pc end s ex compiled is at sim =
        let (condition, hc, rest) = >>=-eq-some (compile_condition log2 c) _ compiled in
        let ((body, k₁), hb, rest₁) = >>=-eq-some (compile_ast log2 b _) _ rest in
        let same : while_code log2 (k.while_local + 1) c.op condition body ≡ code = cc rest₁ in
        let at' = subst (λ l. At program pc l end) (sym same) at in
        let is_cond : is_condition c ≡ true = ground arith in
        let is_op : is_comparison_op c.op ≡ true = ground arith in
        let is_body : is_compilable b ≡ true = ground arith in
        elim (execute-while_node n c b t ex) [
          | inl (holds, (t₁, ex₁, ex₂)) ↦
              again-Ends log2 log2-pow program once n c t k condition body pc end s t₁ t' is_op
                (condition-Decided log2 log2-pow program once c condition true t s is_cond holds hc
                  sim)
                at'
                (λ start stop s' here sim'.
                  ih_body _ t₁ body k₁ start stop s' ex₁ hb is_body here sim')
                (λ s' sim'. ih_again t₁ t' code k' pc end s' ex₂ compiled is at sim')
          | inr (fails, ends) ↦
              stops-Ends log2 log2-pow program once n c t k condition body pc end s t' is_op
                (condition-Decided log2 log2-pow program once c condition false t s is_cond fails hc
                  sim)
                ends at'
        ]

  cons-Simulated :
      (n : ℕ) (st : Statement) (ss : Statements) (t : Store) (k : Counters)
      → Simulated program (execute n st t) (compile_ast log2 st k) (is_compilable st) t
      → ((t₁ : Store) (k₁ : Counters)
          → Simulated program (execute_all n ss t₁) (compile_all log2 ss k₁) (are_compilable ss) t₁)
      → Simulated program
          (execute_all (suc n) (cons st ss) t)
          (compile_all log2 (cons st ss) k)
          (are_compilable (cons st ss))
          t
  unfolding execute_all compile_all are_compilable
  cons-Simulated n st ss t k ih_first ih_rest t' code k' pc end s ex compiled is at sim =
      let (t₁, ex₁, ex₂) = >>=-eq-some (execute n st t) _ ex in
      let ((first_code, k₁), h₁, rest) = >>=-eq-some (compile_ast log2 st k) _ compiled in
      let ((rest_code, k₂), h₂, rest₁) = >>=-eq-some (compile_all log2 ss k₁) _ rest in
      let same : first_code ++ rest_code ≡ code = cc rest₁ in
      let is_first : is_compilable st ≡ true = ground arith in
      let is_rest : are_compilable ss ≡ true = ground arith in
      let (mid, at₁, at₂) =
        At-append first_code rest_code (subst (λ l. At program pc l end) (sym same) at) in
      let first = ih_first t₁ first_code k₁ pc mid s ex₁ h₁ is_first at₁ sim in
      let more =
        ih_rest t₁ k₁ t' rest_code k₂ mid end first.final ex₂ h₂ is_rest at₂ first.simulates in
      before-Ends log2 log2-pow program once first more

  none-Simulated :
      (emitted : Option (List Instr × Counters)) (ok : Bool) (t : Store)
      → Simulated program none emitted ok t
  none-Simulated emitted ok t t' code k' pc end s ex compiled is at sim = absurd (cc ex)

  nil-Simulated : (t : Store) (k : Counters) → Simulated program (some t) (some ([], k)) true t
  nil-Simulated t k t' code k' pc end s ex compiled is at sim =
      let empty : [] ≡ code = cc compiled in
      let ends : t ≡ t' = cc ex in
      nil-Ends t' s (subst (λ l. At program pc l end) (sym empty) at)
        (subst (λ u. Simulates u s) ends sim)

  mutual
    unfolding execute execute_all execute_else compile_ast compile_all compile_else is_compilable
        are_compilable is_compilable_else

    pub statement-Simulated :
        (n : ℕ) (st : Statement) (t : Store) (k : Counters)
        → Simulated program (execute n st t) (compile_ast log2 st k) (is_compilable st) t
    statement-Simulated zero st t k = none-Simulated _ _ t
    statement-Simulated (suc n) (sequence ss) t k = all-Simulated n ss t k
    statement-Simulated (suc n) (print e) t k = print-Simulated n e t k
    statement-Simulated (suc n) (let_node x e) t k = let-Simulated n x e t k
    statement-Simulated (suc n) (if_node c st e) t k =
        if-Simulated n c t k st e (statement-Simulated n st t) (else-Simulated n e t)
    statement-Simulated (suc n) (while_node c b) t k =
        while-Simulated n c t k b (statement-Simulated n b t)
          (λ t₁. statement-Simulated n (while_node c b) t₁ k)

    all-Simulated :
        (n : ℕ) (ss : Statements) (t : Store) (k : Counters)
        → Simulated program (execute_all n ss t) (compile_all log2 ss k) (are_compilable ss) t
    all-Simulated zero ss t k = none-Simulated _ _ t
    all-Simulated (suc n) nil t k = nil-Simulated t k
    all-Simulated (suc n) (cons st ss) t k =
        cons-Simulated n st ss t k (statement-Simulated n st t k) (all-Simulated n ss)

    else-Simulated :
        (n : ℕ) (e : Else) (t : Store) (k : Counters)
        → Simulated program (execute_else n e t) (compile_else log2 e k) (is_compilable_else e) t
    else-Simulated zero e t k = none-Simulated _ _ t
    else-Simulated (suc n) no_else t k = nil-Simulated t k
    else-Simulated (suc n) (else_branch st) t k = statement-Simulated n st t k
