-- ===== src/TeenyBasic/Correct/Labels.antt =====
-- assembly-compiler/src/compile.c: no label is printed twice.
use mathlib.Core.Path.{subst}
use computer_systems.Prelude.{
  ℕ, ◌+◌, ◌≤◌, ◌≡◌, refl, Bool, true, List, [], ◌∷◌, ◌++◌, Option, none, some, arith,
}
use computer_systems.Prelude.Options.{◌>>=◌}
use computer_systems.TeenyBasic.Ast.{
  Expr, Statement, Statements, Else, sequence, print, let_node, if_node, while_node, nil, cons,
  no_else, else_branch, binary,
}
use computer_systems.TeenyBasic.Asm.{Label, Instr, call_print_int, store}
use computer_systems.TeenyBasic.Compile.{slot, compile_expr}
use computer_systems.TeenyBasic.Statements.{
  Counters, has_else, compile_folded, compile_condition, if_code, while_code, compile_ast,
  compile_all, compile_else,
}
use computer_systems.TeenyBasic.Machine.At.{count}
use computer_systems.TeenyBasic.Machine.Reaches.{are_plain, are_plain-append}
use computer_systems.TeenyBasic.Correct.Plain.{
  count-plain, compile_expr-plain, compile_folded-plain,
}
use computer_systems.TeenyBasic.Correct.Counts.{
  room-le, Counted, Counted-plain, Counted-append, Counted-if, Counted-while,
}

-- What holds of the code that is emitted, if any is.
abbrev Emits : Counters → Option (List Instr × Counters) → Type 0
Emits k none = Unit {0}
Emits k (some (code, k')) = Counted k code k'

abbrev ArePlain : Option (List Instr) → Type 0
ArePlain none = Unit {0}
ArePlain (some code) = are_plain code ≡ true

module _ (log2 : ℕ → ℕ) where
  compile_folded-ArePlain : (e : Expr) → ArePlain (compile_folded log2 e)
  compile_folded-ArePlain e = go (compile_folded log2 e) refl
    where
      go : (r : Option (List Instr)) → compile_folded log2 e ≡ r → ArePlain r
      go none h = tt
      go (some code) h = compile_folded-plain log2 e code h

  print-Emits :
      (k : Counters) (r : Option (List Instr))
      → ArePlain r
      → Emits k (r >>= λ code. some (code ++ call_print_int ∷ [], k))
  unfolding are_plain
  print-Emits k none h = tt
  print-Emits k (some code) h =
      Counted-plain k _ (λ l. count-plain l _ (are_plain-append code _ h refl))

  append-Emits :
      (k : Counters) (r : Option (List Instr × Counters))
      → Emits k r
      → (more : Counters → Option (List Instr × Counters)) → ((k₁ : Counters) → Emits k₁ (more k₁))
      → Emits k (r >>= λ (code, k₁). more k₁ >>= λ (rest, k₂). some (code ++ rest, k₂))
  append-Emits k none h more hs = tt
  append-Emits k (some (code, k₁)) h more hs = go (more k₁) (hs k₁)
    where
      go :
          (m : Option (List Instr × Counters))
          → Emits k₁ m
          → Emits k (m >>= λ (rest, k₂). some (code ++ rest, k₂))
      go none g = tt
      go (some (rest, k₂)) g = Counted-append k k₁ k₂ code rest h g

  while-Emits :
      (k : Counters) (op : ℕ) (r : Option (List Instr))
      → ArePlain r
      → (m : Option (List Instr × Counters))
      → Emits (record k { while_local = k.while_local + 1 }) m
      → Emits k (
          r >>= λ condition.
          m >>= λ (body, k₁). some (while_code log2 (k.while_local + 1) op condition body, k₁))
  while-Emits k op none h m g = tt
  while-Emits k op (some condition) h none g = tt
  while-Emits k op (some condition) h (some (body, k₁)) g =
      Counted-while k k₁ k₁ log2 op condition body (λ l. count-plain l condition h) g

  if-Emits :
      (k : Counters) (op : ℕ) (with_else : Bool) (r : Option (List Instr))
      → ArePlain r
      → (m : Option (List Instr × Counters)) (more : Counters → Option (List Instr × Counters))
      → Emits (record k { if_local = k.if_local + 1 }) m
      → ((k₁ : Counters) → Emits k₁ (more k₁))
      → Emits k (
          r >>= λ condition. m >>= λ (then_code, k₁). more k₁ >>= λ (else_code, k₂).
          some (if_code log2 (k.if_local + 1) op with_else condition then_code else_code, k₂))
  if-Emits k op with_else none h m more g gs = tt
  if-Emits k op with_else (some condition) h none more g gs = tt
  if-Emits k op with_else (some condition) h (some (then_code, k₁)) more g gs = go (more k₁) (gs k₁)
    where
      go :
          (m : Option (List Instr × Counters))
          → Emits k₁ m
          → Emits k (
              m >>= λ (else_code, k₂).
              some (if_code log2 (k.if_local + 1) op with_else condition then_code else_code, k₂))
      go none e = tt
      go (some (else_code, k₂)) e =
          Counted-if k k₁ k₂ log2 op with_else condition then_code else_code
            (λ l. count-plain l condition h) g e

  mutual
    unfolding compile_ast compile_condition are_plain count

    compile_ast-Emits : (st : Statement) (k : Counters) → Emits k (compile_ast log2 st k)
    compile_ast-Emits (sequence ss) k = compile_all-Emits ss k
    compile_ast-Emits (print e) k =
        print-Emits k (compile_folded log2 e) (compile_folded-ArePlain e)
    compile_ast-Emits (let_node x e) k = Counted-plain k _ (λ l.
        count-plain l (compile_expr log2 e ++ store (slot x) ∷ []) (
          are_plain-append (compile_expr log2 e) (store (slot x) ∷ []) (compile_expr-plain log2 e)
            refl))
    compile_ast-Emits (if_node c t e) k =
        if-Emits k c.op (has_else e) _ (compile_folded-ArePlain (binary c.op c.left c.right)) _ _
          (compile_ast-Emits t _) (compile_else-Emits e)
    compile_ast-Emits (while_node c b) k =
        while-Emits k c.op _ (compile_folded-ArePlain (binary c.op c.left c.right)) _
          (compile_ast-Emits b _)

    compile_all-Emits : (ss : Statements) (k : Counters) → Emits k (compile_all log2 ss k)
    compile_all-Emits nil k = Counted-plain k [] (λ l. refl)
    compile_all-Emits (cons st ss) k =
        append-Emits k _ (compile_ast-Emits st k) _ (compile_all-Emits ss)

    compile_else-Emits : (e : Else) (k : Counters) → Emits k (compile_else log2 e k)
    compile_else-Emits no_else k = Counted-plain k [] (λ l. refl)
    compile_else-Emits (else_branch st) k = compile_ast-Emits st k

-- In the code that is printed for a statement, from any state of the two counters, each label stands at most once.
pub compile_ast-once :
    (log2 : ℕ → ℕ) (st : Statement) (k k' : Counters) (code : List Instr) (l : Label)
    → compile_ast log2 st k ≡ some (code, k')
    → count l code ≤ 1
compile_ast-once log2 st k k' code l h =
    let counted = subst (Emits k) h (compile_ast-Emits log2 st k) in
    omega (arith, counted.once l, room-le k k' l)
