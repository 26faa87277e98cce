-- ===== src/TeenyBasic/Fold.antt =====
-- assembly-compiler/src/compile.c: `compute_folds`. The function gets the address of a pointer to a
-- node. Where both sides are numbers it writes the value into the left number's node, in place, and
-- redirects the pointer to it. The nodes above keep their own pointers, so the model returns both
-- what the pointer stands for afterwards and the tree below the old node as it has been changed.
use computer_systems.Prelude.{ℕ, Bool, ◌||◌, Option, none, some, ◌==◌, if◌then◌else◌}
use computer_systems.TeenyBasic.Ast.{Expr, num, binary, var}
use computer_systems.TeenyBasic.Word64.{add64, sub64, mul64, div64}

pub record Folded : Type 0 where
  -- the number that the pointer leads to, where it leads to one
  pub value : Option ℕ
  -- the tree below the node that the pointer led to before
  pub tree : Expr

abbrev pub is_arithmetic : ℕ → Bool
is_arithmetic op = (op == b'+') || (op == b'-') || (op == b'*') || (op == b'/')

-- The operator on two literals: `left_val += right_val` and so on; `none` is a trap of the compiler.
unfoldable pub fold_op : ℕ → ℕ → ℕ → Option ℕ
fold_op op a b =
    if op == b'+'
    then some (add64 a b)
    else if op == b'-'
    then some (sub64 a b)
    else if op == b'*'
    then some (mul64 a b)
    else div64 a b

-- A number that replaces a subtree is the leftmost number of it; this is the write into its node.
unfoldable pub write_leftmost : ℕ → Expr → Expr
write_leftmost v (num w) = num v
write_leftmost v (binary op l r) = binary op (write_leftmost v l) r
write_leftmost v (var x) = var x

abbrev pub fold_numbers : ℕ → ℕ → ℕ → Expr → Expr → Option Folded
fold_numbers op a b l r = elim (fold_op op a b) [
  | none ↦ none
  | some v ↦ some (record { value = some v; tree = binary op (write_leftmost v l) r })
]

-- The node with the operator `op`, behind the calls for its two sides.
unfoldable pub fold_node : ℕ → Folded → Folded → Option Folded
fold_node op l r = elim l.value [
  | none ↦ some (record { value = none; tree = binary op l.tree r.tree })
  | some a ↦ elim r.value [
    | none ↦ some (record { value = none; tree = binary op l.tree r.tree })
    | some b ↦
        if is_arithmetic op
        then fold_numbers op a b l.tree r.tree
        else some (record { value = none; tree = binary op l.tree r.tree })
  ]
]

unfoldable pub compute_folds : Expr → Option Folded
compute_folds (num v) = some (record { value = some v; tree = num v })
compute_folds (var x) = some (record { value = none; tree = var x })
compute_folds (binary op l r) = elim (compute_folds l) [
  | none ↦ none
  | some fl ↦ elim (compute_folds r) [ none ↦ none | some fr ↦ fold_node op fl fr ]
]

-- What the caller's pointer stands for after the call.
abbrev pub folded : Folded → Expr
folded f = elim f.value [ some v ↦ num v | none ↦ f.tree ]
