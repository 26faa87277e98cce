-- ===== src/TeenyBasic/Correct/Plain.antt =====
-- assembly-compiler/src/compile.c: the code of an expression has no jumps and no labels.
use computer_systems.Prelude.{
  ℕ, ◌≡◌, refl, true, false, ◌&&◌, List, [], ◌∷◌, some, arith, Bool-cases, inl, inr, ◌==◌,
}
use computer_systems.Prelude.Options.{>>=-eq-some}
use computer_systems.TeenyBasic.Ast.{Expr, num, binary, var}
use computer_systems.TeenyBasic.Asm.{Label, label, Instr, movq_imm}
use computer_systems.TeenyBasic.Compile.{
  operator, stacked, with_literal, is_power_two, compile_expr,
}
use computer_systems.TeenyBasic.Fold.{folded, compute_folds}
use computer_systems.TeenyBasic.Statements.{compile_folded}
use computer_systems.TeenyBasic.Machine.{is_label}
use computer_systems.TeenyBasic.Machine.At.{count}
use computer_systems.TeenyBasic.Machine.Reaches.{is_plain, are_plain, are_plain-append}

is_label-plain : (l : Label) (i : Instr) → is_plain i ≡ true → is_label l i ≡ false
is_label-plain l (label m) h = absurd (cc h)
is_label-plain l _ h = refl

pub count-plain : (l : Label) (code : List Instr) → are_plain code ≡ true → count l code ≡ 0
unfolding count are_plain
count-plain l [] h = refl
count-plain l (i ∷ code) h =
    let other : is_label l i ≡ false = is_label-plain l i (ground arith) in
    rw other (omega (arith, count-plain l code (ground arith)))

operator-plain : (op : ℕ) → are_plain (operator op) ≡ true
unfolding operator are_plain
operator-plain op = ground arith

stacked-plain :
    (op : ℕ) (l r : List Instr)
    → are_plain l ≡ true
    → are_plain r ≡ true
    → are_plain (stacked op l r) ≡ true
unfolding stacked are_plain
stacked-plain op l r hl hr = are_plain-append l _ hl (are_plain-append r _ hr (operator-plain op))

with_literal-plain :
    (log2 : ℕ → ℕ) (op v : ℕ) (l : List Instr)
    → are_plain l ≡ true
    → are_plain (with_literal log2 op v l) ≡ true
unfolding with_literal are_plain
with_literal-plain log2 op v l h = elim (Bool-cases ((op == b'*') && is_power_two v)) [
  | inl shift ↦ rw shift (are_plain-append l _ h refl)
  | inr plain ↦ rw plain (stacked-plain op l (movq_imm v ∷ []) h refl)
]

pub compile_expr-plain : (log2 : ℕ → ℕ) (e : Expr) → are_plain (compile_expr log2 e) ≡ true
unfolding compile_expr are_plain
compile_expr-plain log2 (num v) = refl
compile_expr-plain log2 (var x) = refl
compile_expr-plain log2 (binary op l (num v)) =
    with_literal-plain log2 op v _ (compile_expr-plain log2 l)
compile_expr-plain log2 (binary op l (var x)) =
    stacked-plain op _ _ (compile_expr-plain log2 l) refl
compile_expr-plain log2 (binary op l (binary op' l' r')) =
    stacked-plain op _ _ (compile_expr-plain log2 l) (compile_expr-plain log2 (binary op' l' r'))

pub compile_folded-plain :
    (log2 : ℕ → ℕ) (e : Expr) (code : List Instr)
    → compile_folded log2 e ≡ some code
    → are_plain code ≡ true
unfolding compile_folded
compile_folded-plain log2 e code h =
    let (f, _, same) = >>=-eq-some (compute_folds e) _ h in
    let equal : compile_expr log2 (folded f) ≡ code = cc same in
    rw (← equal) (compile_expr-plain log2 (folded f))
