-- ===== src/TeenyBasic/Ast.antt =====
-- assembly-compiler/include/ast.h and src/ast.c: the syntax tree of TeenyBASIC and its constructors.
-- A null pointer is `none`. A value_t is a 64-bit pattern. The condition of an IF or a WHILE is a
-- binary node, given by its operator and its sides.
use computer_systems.Prelude.{ℕ, Option, none, some, ◌==◌, if◌then◌else◌}

pub record Condition {ℓ} (Expr : Type ℓ) : Type ℓ where
  pub op : ℕ
  pub left : Expr
  pub right : Expr

-- NUM, BINARY_OP and VAR: what the grammar makes of an expression
pub data Expr : Type 0 where
  num : ℕ → Expr
  binary : ℕ → Expr → Expr → Expr
  var : ℕ → Expr

-- SEQUENCE, PRINT, LET, IF and WHILE; `if_node` has an ELSE branch or none
mutual
  pub data Statement : Type 0 where
    sequence : Statements → Statement
    print : Expr → Statement
    let_node : ℕ → Expr → Statement
    if_node : Condition Expr → Statement → Else → Statement
    while_node : Condition Expr → Statement → Statement

  pub data Statements : Type 0 where
    nil : Statements
    cons : Statement → Statements → Statements

  pub data Else : Type 0 where
    no_else : Else
    else_branch : Statement → Else

-- The constructors: a null part makes the whole null.
unfoldable pub init_num_node : ℕ → Option Expr
init_num_node v = some (num v)

unfoldable pub init_binary_node : ℕ → Option Expr → Option Expr → Option Expr
init_binary_node op none right = none
init_binary_node op (some l) none = none
init_binary_node op (some l) (some r) = some (binary op l r)

unfoldable pub init_var_node : ℕ → Option Expr
init_var_node name = if name == 0 then none else some (var name)

unfoldable pub init_condition : ℕ → Option Expr → Option Expr → Option (Condition Expr)
init_condition op (some l) (some r) = some (record { op = op; left = l; right = r })
init_condition op _ _ = none

unfoldable pub init_print_node : Option Expr → Option Statement
init_print_node none = none
init_print_node (some e) = some (print e)

unfoldable pub init_let_node : ℕ → Option Expr → Option Statement
init_let_node name none = none
init_let_node name (some e) = if name == 0 then none else some (let_node name e)

unfoldable pub init_if_node : Option (Condition Expr) → Option Statement → Else → Option Statement
init_if_node (some c) (some t) e = some (if_node c t e)
init_if_node _ _ _ = none

unfoldable pub init_while_node : Option (Condition Expr) → Option Statement → Option Statement
init_while_node (some c) (some b) = some (while_node c b)
init_while_node _ _ = none
