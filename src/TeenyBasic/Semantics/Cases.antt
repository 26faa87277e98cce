-- ===== src/TeenyBasic/Semantics/Cases.antt =====
-- The ways in which the statements of TeenyBASIC have a result.
use computer_systems.Prelude.{
  ℕ, suc, ◌≡◌, refl, Bool, true, false, Option, none, some, ◌⊎◌, inl, inr,
}
use computer_systems.Prelude.Options.{◌>>=◌, >>=-eq-some}
use computer_systems.TeenyBasic.Ast.{Condition, Expr, Statement, Else, if_node, while_node}
use computer_systems.TeenyBasic.Semantics.{Store, test_condition, execute, execute_else}

-- The condition holds and the first branch is taken, or it does not and the second one is.
decided :
    {B : Type 0} (m : Option Bool) (yes_result no_result : Option B) {b : B}
    → (m >>= λ holds. elim holds [ true ↦ yes_result | false ↦ no_result ]) ≡ some b
    → ((m ≡ some true) × (yes_result ≡ some b)) ⊎ ((m ≡ some false) × (no_result ≡ some b))
decided none x y h = absurd (cc h)
decided (some true) x y h = inl (refl, h)
decided (some false) x y h = inr (refl, h)

pub execute-if_node :
    (n : ℕ) (c : Condition Expr) (st : Statement) (e : Else) (t : Store) {t' : Store}
    → execute (suc n) (if_node c st e) t ≡ some t'
    → ((test_condition c t.0 ≡ some true) × (execute n st t ≡ some t'))
      ⊎ ((test_condition c t.0 ≡ some false) × (execute_else n e t ≡ some t'))
unfolding execute
execute-if_node n c st e t h = decided (test_condition c t.0) _ _ h

pub execute-while_node :
    (n : ℕ) (c : Condition Expr) (b : Statement) (t : Store) {t' : Store}
    → execute (suc n) (while_node c b) t ≡ some t'
    → ((test_condition c t.0 ≡ some true)
        × ((t₁ : Store) × (execute n b t ≡ some t₁) × (execute n (while_node c b) t₁ ≡ some t')))
      ⊎ ((test_condition c t.0 ≡ some false) × (t ≡ t'))
unfolding execute
execute-while_node n c b t h = elim (decided (test_condition c t.0) _ _ h) [
  | inl (holds, again) ↦ inl (holds, >>=-eq-some (execute n b t) _ again)
  | inr (fails, same) ↦ inr (fails, cc same)
]
