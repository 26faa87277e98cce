-- ===== src/TeenyBasic/Correct/Total.antt =====
-- assembly-compiler/src/compile.c: where `compile_ast` does not trap.
use computer_systems.Prelude.{
  ℕ, ◌+◌, ◌≡◌, refl, ap, ◌∙◌, Bool, true, false, not, ◌||◌, Option, none, some, arith, Bool-cases,
  ◌⊎◌, inl, inr, ◌==◌,
}
use computer_systems.Prelude.Options.{◌>>=◌}
use computer_systems.TeenyBasic.Ast.{
  Expr, num, binary, var, Statement, Statements, Else, sequence, print, let_node, if_node,
  while_node, nil, cons, no_else, else_branch,
}
use computer_systems.TeenyBasic.Word64.{div64}
use computer_systems.TeenyBasic.Fold.{
  Folded, is_arithmetic, fold_op, write_leftmost, fold_numbers, fold_node, compute_folds,
}
use computer_systems.TeenyBasic.Folding.{
  is_constant, folded_to, fold_node-kept, compute_folds-sides,
}
use computer_systems.TeenyBasic.Statements.{
  Counters, compile_folded, compile_condition, compile_ast, compile_all, compile_else,
}
use computer_systems.TeenyBasic.Correct.{
  is_divisor, is_safe_divisor, is_safe, is_compilable, are_compilable, is_compilable_else,
}

div64-none : (a b : ℕ) → div64 a b ≡ none → is_divisor b ≡ false
unfolding div64
div64-none a b h = ground arith

Option-cases : {A : Type 0} (m : Option A) → (m ≡ none) ⊎ ((a : A) × (m ≡ some a))
Option-cases none = inl refl
Option-cases (some a) = inr (a, refl)

fold_op-total :
    (op a b : ℕ)
    → (not (op == b'/') || is_divisor b) ≡ true
    → is_arithmetic op ≡ true
    → (v : ℕ) × (fold_op op a b ≡ some v)
unfolding fold_op
fold_op-total op a b h is = elim (Option-cases (fold_op op a b)) [
  | inl traps ↦ absurd (ground (arith, div64-none a b))
  | inr total ↦ total
]

-- Where the pointer leads to a number behind the fold, the expression is constant.
abbrev Value : Expr → Folded → Type 0
Value e f =
    (f.value ≡ none)
    ⊎ ((is_constant e ≡ true)
        × ((b : ℕ) × (f.value ≡ some b) × (is_safe_divisor e ≡ true → is_divisor b ≡ true)))

by_divisor :
    (op : ℕ) (r : Expr) (b : ℕ)
    → (is_safe_divisor r ≡ true → is_divisor b ≡ true)
    → (not (op == b'/') || is_safe_divisor r) ≡ true
    → (not (op == b'/') || is_divisor b) ≡ true
by_divisor op r b h safe = go (not (op == b'/')) (is_safe_divisor r) (is_divisor b) h safe
  where
    go : (p q d : Bool) → (q ≡ true → d ≡ true) → (p || q) ≡ true → (p || d) ≡ true
    go true q d f s = refl
    go false q d f s = f s

module _ (op : ℕ) (l r : Expr) (fl fr : Folded) where
  fold_node-numbers :
      (a b : ℕ)
      → fl.value ≡ some a
      → fr.value ≡ some b
      → is_arithmetic op ≡ true
      → (v : ℕ) → fold_op op a b ≡ some v
      → fold_node op fl fr
        ≡ some (folded_to (some v) (binary op (write_leftmost v fl.tree) fr.tree))
  unfolding fold_node
  fold_node-numbers a b ha hb is v e =
      let numbers : fold_node op (folded_to (some a) fl.tree) (folded_to (some b) fr.tree)
          ≡ some (folded_to (some v) (binary op (write_leftmost v fl.tree) fr.tree)) =
        rw (is, e, fold_numbers) in
      ap (λ x. fold_node op (folded_to x fl.tree) fr) ha
      ∙ ap (λ x. fold_node op (folded_to (some a) fl.tree) (folded_to x fr.tree)) hb
      ∙ numbers

  fold_node-total :
      Value l fl
      → Value r fr
      → (not (op == b'/') || is_safe_divisor r) ≡ true
      → (f : Folded) × (fold_node op fl fr ≡ some f) × Value (binary op l r) f
  unfolding is_constant
  fold_node-total (inl none_left) vr safe = (_, fold_node-kept op fl fr (inl none_left), inl refl)
  fold_node-total (inr left) (inl none_right) safe =
      (_, fold_node-kept op fl fr (inr (inl none_right)), inl refl)
  fold_node-total (inr (cl, (a, ha, da))) (inr (cr, (b, hb, db))) safe =
      elim (Bool-cases (is_arithmetic op)) [
        | inr other ↦ (_, fold_node-kept op fl fr (inr (inr other)), inl refl)
        | inl arithmetic ↦
            let divisor : (not (op == b'/') || is_divisor b) ≡ true = by_divisor op r b db safe in
            let (v, e) = fold_op-total op a b divisor arithmetic in
            (
              _,
              fold_node-numbers a b ha hb arithmetic v e,
              inr (rw (arithmetic, cl, cr) refl, (v, refl, λ s. absurd (ground arith))),
            )
      ]

compute_folds-total :
    (e : Expr) → is_safe e ≡ true → (f : Folded) × (compute_folds e ≡ some f) × Value e f
unfolding is_safe compute_folds is_constant
compute_folds-total (num v) s = (_, refl, inr (refl, (v, refl, λ h. h)))
compute_folds-total (var x) s = (_, refl, inl refl)
compute_folds-total (binary op l r) s =
    let (fl, el, vl) = compute_folds-total l (ground arith) in
    let (fr, er, vr) = compute_folds-total r (ground arith) in
    let (f, e, v) = fold_node-total op l r fl fr vl vr (ground arith) in
    (f, compute_folds-sides op l r fl fr el er ∙ e, v)

-- There is a result.
abbrev Some : {A : Type 0} → Option A → Type 0
Some {A} m = (a : A) × (m ≡ some a)

>>=-Some :
    {A B : Type 0} (m : Option A) (next : A → Option B)
    → ((a : A) × (m ≡ some a) × Some (next a))
    → Some (m >>= next)
>>=-Some m next (a, h, (b, k)) = (b, ap (λ m. m >>= next) h ∙ k)

module _ (log2 : ℕ → ℕ) where
  compile_folded-total : (e : Expr) → is_safe e ≡ true → Some (compile_folded log2 e)
  unfolding compile_folded
  compile_folded-total e s =
      let (f, h, _) = compute_folds-total e s in >>=-Some (compute_folds e) _ (f, h, (_, refl))

  mutual
    unfolding compile_ast compile_all compile_else compile_condition is_compilable are_compilable
        is_compilable_else

    pub compile_ast-total :
        (st : Statement) (k : Counters) → is_compilable st ≡ true → Some (compile_ast log2 st k)
    compile_ast-total (sequence ss) k h = compile_all-total ss k h
    compile_ast-total (print e) k h =
        let (code, same) = compile_folded-total e (ground arith) in
        >>=-Some (compile_folded log2 e) _ (code, same, (_, refl))
    compile_ast-total (let_node x e) k h = (_, refl)
    compile_ast-total (if_node c t e) k h =
        let (condition, same) = compile_folded-total (binary c.op c.left c.right) (ground arith) in
        let k' = record k { if_local = k.if_local + 1 } in
        let ((then_code, k₁), h₁) = compile_ast-total t k' (ground arith) in
        let (else_emitted, h₂) = compile_else-total e k₁ (ground arith) in
        >>=-Some (compile_condition log2 c) _ (
          condition,
          same,
          >>=-Some (compile_ast log2 t k') _ (
            (then_code, k₁),
            h₁,
            >>=-Some (compile_else log2 e k₁) _ (else_emitted, h₂, (_, refl)),
          ),
        )
    compile_ast-total (while_node c b) k h =
        let (condition, same) = compile_folded-total (binary c.op c.left c.right) (ground arith) in
        let k' = record k { while_local = k.while_local + 1 } in
        let (body, h₁) = compile_ast-total b k' (ground arith) in
        >>=-Some (compile_condition log2 c) _
          (condition, same, >>=-Some (compile_ast log2 b k') _ (body, h₁, (_, refl)))

    compile_all-total :
        (ss : Statements) (k : Counters) → are_compilable ss ≡ true → Some (compile_all log2 ss k)
    compile_all-total nil k h = (_, refl)
    compile_all-total (cons s ss) k h =
        let ((code, k₁), h₁) = compile_ast-total s k (ground arith) in
        let (rest, h₂) = compile_all-total ss k₁ (ground arith) in
        >>=-Some (compile_ast log2 s k) _
          ((code, k₁), h₁, >>=-Some (compile_all log2 ss k₁) _ (rest, h₂, (_, refl)))

    compile_else-total :
        (e : Else) (k : Counters) → is_compilable_else e ≡ true → Some (compile_else log2 e k)
    compile_else-total no_else k h = (_, refl)
    compile_else-total (else_branch s) k h = compile_ast-total s k h
