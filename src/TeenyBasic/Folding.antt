-- ===== src/TeenyBasic/Folding.antt =====
-- assembly-compiler/src/compile.c: what `compute_folds` keeps of an expression, and what it does not.
use computer_systems.Prelude.{
  ℕ, ◌<◌, ◌^◌, List, [], ◌∷◌, ◌≡◌, refl, ap, ◌∙◌, Bool, true, false, not, ◌&&◌, ◌||◌, Option, none,
  some, arith, Bool-cases, inl, inr, ◌⊎◌,
}
use computer_systems.TeenyBasic.Ast.{Expr, num, binary, var}
use computer_systems.TeenyBasic.Word64.{add64}
use computer_systems.TeenyBasic.Fold.{
  Folded, folded, is_arithmetic, fold_op, write_leftmost, fold_numbers, fold_node, compute_folds,
}
use computer_systems.TeenyBasic.Compile.{slot, compile_expr}
use computer_systems.TeenyBasic.Asm.{Instr, movq_imm}
use computer_systems.TeenyBasic.Statements.{compile_folded}
use computer_systems.TeenyBasic.Expressions.{apply_op, eval, Evaluates}
use computer_systems.TeenyBasic.CompileExpr.{
  eval-binary, eval-num, compile_expr-Evaluates, num-Evaluates,
}

-- An expression of numbers and arithmetic operators alone.
unfoldable pub is_constant : Expr → Bool
is_constant (num v) = true
is_constant (var x) = false
is_constant (binary op l r) = is_arithmetic op && (is_constant l && is_constant r)

abbrev pub is_leaf : Expr → Bool
is_leaf (binary op l r) = false
is_leaf _ = true

-- Every binary subtree that is constant belongs to one that is constant with all that contains it.
unfoldable pub is_settled : Expr → Bool
is_settled (num v) = true
is_settled (var x) = true
is_settled (binary op l r) =
    is_constant (binary op l r)
    || ((is_leaf l || (not (is_constant l) && is_settled l))
        && (is_leaf r || (not (is_constant r) && is_settled r)))

fold_op-apply_op : (op a b : ℕ) → is_arithmetic op ≡ true → fold_op op a b ≡ apply_op op a b
unfolding fold_op apply_op
fold_op-apply_op op a b h = ground arith

abbrev pub folded_to : Option ℕ → Expr → Folded
folded_to v t = record { value = v; tree = t }

fold_node-numbers :
    (op a b v : ℕ) (t u : Expr)
    → is_arithmetic op ≡ true
    → apply_op op a b ≡ some v
    → fold_node op (folded_to (some a) t) (folded_to (some b) u)
      ≡ some (folded_to (some v) (binary op (write_leftmost v t) u))
unfolding fold_node
fold_node-numbers op a b v t u h e = rw (h, fold_op-apply_op op a b h ∙ e, fold_numbers)

-- Where not both sides are numbers, or the operator is not arithmetic, the node stays.
pub fold_node-kept :
    (op : ℕ) (l r : Folded)
    → (l.value ≡ none) ⊎ ((r.value ≡ none) ⊎ (is_arithmetic op ≡ false))
    → fold_node op l r ≡ some (folded_to none (binary op l.tree r.tree))
unfolding fold_node
fold_node-kept op l r h = ground arith

-- Of two sides that are each no number or constant, under a node that is not constant, one is no
-- number, or the operator is not arithmetic.
side_kept :
    {A B : Type 0} (p q a : Bool)
    → A ⊎ (p ≡ true)
    → B ⊎ (q ≡ true)
    → not (a && (p && q)) ≡ true
    → A ⊎ (B ⊎ (a ≡ false))
side_kept p q a (inl x) y h = inl x
side_kept p q a (inr x) (inl y) h = inr (inl y)
side_kept p q true (inr x) (inr y) h = absurd (ground arith)
side_kept p q false (inr x) (inr y) h = inr (inr refl)

folded-none : (f : Folded) (e : Expr) → f.tree ≡ e → f.value ≡ none → folded f ≡ e
folded-none f e t n = rw n t

pub compute_folds-sides :
    (op : ℕ) (l r : Expr) (fl fr : Folded)
    → compute_folds l ≡ some fl
    → compute_folds r ≡ some fr
    → compute_folds (binary op l r) ≡ fold_node op fl fr
unfolding compute_folds
compute_folds-sides op l r fl fr e e' = rw (e, e', compute_folds)

module _ (env : ℕ → ℕ) where
  -- The fold of a constant is its value.
  compute_folds-constant :
      (e : Expr) (v : ℕ)
      → is_constant e ≡ true
      → eval e env ≡ some v
      → (t : Expr) × (compute_folds e ≡ some (folded_to (some v) t))
  unfolding is_constant compute_folds
  compute_folds-constant (num w) v c h =
      (num w, ap (λ n. some (folded_to (some n) (num w))) (eval-num w v env h))
  compute_folds-constant (var x) v c h = absurd (cc c)
  compute_folds-constant (binary op l r) v c h =
      let (a, b, ha, hb, hv) = eval-binary op l r env h in
      let (t, et) = compute_folds-constant l a (ground arith) ha in
      let (u, eu) = compute_folds-constant r b (ground arith) hb in
      (
        binary op (write_leftmost v t) u,
        compute_folds-sides op l r _ _ et eu ∙ fold_node-numbers op a b v t u (ground arith) hv,
      )

  -- A side that is a leaf, or is settled and not constant, stays as it is.
  abbrev pub Kept : Expr → Folded → Type 0
  Kept e f = (compute_folds e ≡ some f) × (f.tree ≡ e) × ((f.value ≡ none) ⊎ (is_constant e ≡ true))

  pub Kept-binary :
      (op : ℕ) (l r : Expr) (fl fr : Folded)
      → Kept l fl
      → Kept r fr
      → not (is_constant (binary op l r)) ≡ true
      → Kept (binary op l r) (folded_to none (binary op l r))
  unfolding is_constant
  Kept-binary op l r fl fr (el, tl, cl) (er, tr, cr) d =
      let c = side_kept (is_constant l) (is_constant r) (is_arithmetic op) cl cr d in
      (
        compute_folds-sides op l r fl fr el er ∙ fold_node-kept op fl fr c ∙ rw (tl, tr) refl,
        refl,
        inl refl,
      )

  pub compute_folds-Kept :
      (e : Expr) (v : ℕ)
      → (is_leaf e || (not (is_constant e) && is_settled e)) ≡ true
      → eval e env ≡ some v
      → (f : Folded) × Kept e f
  unfolding compute_folds is_constant is_settled
  compute_folds-Kept (num w) v s h = (folded_to (some w) (num w), (refl, refl, inr refl))
  compute_folds-Kept (var x) v s h = (folded_to none (var x), (refl, refl, inl refl))
  compute_folds-Kept (binary op l r) v s h =
      let (a, b, ha, hb, hv) = eval-binary op l r env h in
      let (fl, kl) = compute_folds-Kept l a (ground arith) ha in
      let (fr, kr) = compute_folds-Kept r b (ground arith) hb in
      (folded_to none (binary op l r), Kept-binary op l r fl fr kl kr (ground arith))

-- What `compute_folds` leaves of a settled expression: its value alone, or the expression.
compute_folds-settled :
    (e : Expr) (v : ℕ) (env : ℕ → ℕ)
    → is_settled e ≡ true
    → eval e env ≡ some v
    → (f : Folded) × (compute_folds e ≡ some f) × ((folded f ≡ num v) ⊎ (folded f ≡ e))
unfolding compute_folds is_settled
compute_folds-settled (num w) v env s h = (folded_to (some w) (num w), refl, inr refl)
compute_folds-settled (var x) v env s h = (folded_to none (var x), refl, inr refl)
compute_folds-settled (binary op l r) v env s h = elim (Bool-cases (is_constant (binary op l r))) [
  | inl c ↦
      let (t, e) = compute_folds-constant env (binary op l r) v c h in
      (folded_to (some v) t, e, inl refl)
  | inr d ↦
      let (f, k) = compute_folds-Kept env (binary op l r) v (ground arith) h in
      let (e, t, c) = k in
      elim c [
        | inl n ↦ (f, e, inr (folded-none f (binary op l r) t n))
        | inr c ↦ absurd (cc (c, d))
      ]
]

-- A sum of two numbers under an operator over a variable: the left number becomes the sum, and the
-- right number stays.
compute_folds-sum :
    (op a b x : ℕ)
    → compute_folds (binary op (binary b'+' (num a) (num b)) (var x))
      ≡ some (folded_to none (binary op (binary b'+' (num (add64 a b)) (num b)) (var x)))
unfolding compute_folds fold_node fold_op write_leftmost
compute_folds-sum op a b x = refl

module _ (log2 : ℕ → ℕ) (log2-pow : (k : ℕ) → 2 ^ k < 2 ^ 63 → log2 (2 ^ k) ≡ k) where
  -- The compiler folds a settled expression that has a value without a trap, and from any state of
  -- the machine the code of what is left computes the value of the expression as it was written.
  -- `log2` is exact on powers of two.
  pub compile_folded-Evaluates :
      (e : Expr) (f : ℕ → ℕ) (v : ℕ)
      → is_settled e ≡ true
      → eval e (λ x. f (slot x)) ≡ some v
      → (code : List Instr) × (compile_folded log2 e ≡ some code) × Evaluates code f v
  unfolding compile_folded compile_expr
  compile_folded-Evaluates e f v s h =
      let (g, q, leaf) = compute_folds-settled e v (λ x. f (slot x)) s h in
      elim leaf [
        | inl n ↦ (movq_imm v ∷ [], rw (q, n) refl, num-Evaluates f v)
        | inr same ↦
            (compile_expr log2 e, rw (q, same) refl, compile_expr-Evaluates log2 log2-pow e f v h)
      ]

  -- The code of `a + b + x`, with numbers `a` and `b` and a variable `x`, adds `b` twice: folding
  -- writes the sum into the node of `a`, and the sum's own node stays above it. `log2` is exact on
  -- powers of two.
  pub compile_folded-sum :
      (f : ℕ → ℕ) (a b x : ℕ)
      → (code : List Instr) × (compile_folded log2
            (binary b'+' (binary b'+' (num a) (num b)) (var x))
          ≡ some code)
        × Evaluates code f (add64 (add64 (add64 a b) b) (f (slot x)))
  unfolding compile_folded eval apply_op
  compile_folded-sum f a b x =
      let left = binary b'+' (binary b'+' (num (add64 a b)) (num b)) (var x) in
      (
        compile_expr log2 left,
        rw (compute_folds-sum b'+' a b x) refl,
        compile_expr-Evaluates log2 log2-pow left f _ refl,
      )
