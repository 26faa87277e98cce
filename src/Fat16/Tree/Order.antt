-- ===== src/Fat16/Tree/Order.antt =====
-- file-directory-tree/src/directory_tree.c: the order of strcmp.
use computer_systems.Prelude.{◌≡◌, refl, true, false, [], ◌∷◌, arith, Bool-cases, inl, inr}
use computer_systems.Fat16.Tree.{Bytes, str_ltb}

pub str_ltb_irrefl : (a : Bytes) → str_ltb a a ≡ false
unfolding str_ltb
str_ltb_irrefl [] = refl
str_ltb_irrefl (x ∷ a) = ground (arith, str_ltb_irrefl a)

-- Not below is transitive.
pub str_ltb_trans :
    (a b c : Bytes) → str_ltb b a ≡ false → str_ltb c b ≡ false → str_ltb c a ≡ false
unfolding str_ltb
str_ltb_trans [] b [] p q = refl
str_ltb_trans [] [] (z ∷ c) p q = refl
str_ltb_trans [] (y ∷ b) (z ∷ c) p q = refl
str_ltb_trans (x ∷ a) [] c p q = ground arith
str_ltb_trans (x ∷ a) (y ∷ b) [] p q = ground arith
str_ltb_trans (x ∷ a) (y ∷ b) (z ∷ c) p q = ground (arith, str_ltb_trans a b c)

pub str_ltb-asym : (a b : Bytes) → str_ltb a b ≡ true → str_ltb b a ≡ false
unfolding str_ltb
str_ltb-asym [] [] p = refl
str_ltb-asym [] (y ∷ b) p = refl
str_ltb-asym (x ∷ a) [] p = ground arith
str_ltb-asym (x ∷ a) (y ∷ b) p = ground (arith, str_ltb-asym a b)

pub str_ltb-antisym : (a b : Bytes) → str_ltb a b ≡ false → str_ltb b a ≡ false → a ≡ b
unfolding str_ltb
str_ltb-antisym [] [] p q = refl
str_ltb-antisym [] (y ∷ b) p q = ground arith
str_ltb-antisym (x ∷ a) [] p q = ground arith
str_ltb-antisym (x ∷ a) (y ∷ b) p q = ground (arith, str_ltb-antisym a b)

pub str_ltb-chain : (a b c : Bytes) → str_ltb a b ≡ true → str_ltb b c ≡ true → str_ltb a c ≡ true
str_ltb-chain a b c p q = elim (Bool-cases (str_ltb a c)) [
  | inl below ↦ below
  | inr above ↦ cc (p, str_ltb_trans b c a (str_ltb-asym b c q) above)
]
