-- ===== src/Fat16/Tree/Sorting.antt =====
-- file-directory-tree/src/directory_tree.c: sorted_dir.
use mathlib.Core.Bool.{Bool-set}
use mathlib.Core.List.{Mem, Perm, Pairwise, forall_mem-cons, not-mem-nil}
use mathlib.Core.List.Perm
use computer_systems.Prelude.{
  ℕ, zero, suc, ◌+◌, ◌≤◌, ◌≡◌, refl, ◌∙◌, inl, inr, true, false, List, [], ◌∷◌, length, length-set,
  set, arith, Bool-cases,
}
use computer_systems.Fat16.Tree.{
  Bytes, Node, name, str_ltb, min_index, node_at, swap_first, sort_from, sorted_dir,
}
use computer_systems.Fat16.Tree.Order.{str_ltb_irrefl, str_ltb_trans, str_ltb-asym, str_ltb-chain}

-- No node of the list has a name below the given one.
abbrev pub IsFloor : Bytes → List Node → Type 0
IsFloor n nodes = (x : Node) → Mem x nodes → str_ltb (name x) n ≡ false

-- Each node's name is not above those of the nodes behind it.
abbrev pub IsSorted : List Node → Type 0
IsSorted = Pairwise (λ (a : Node) (b : Node). str_ltb (name b) (name a) ≡ false)

pub IsFloor-cons :
    (n : Bytes) {x : Node} {nodes : List Node}
    → str_ltb (name x) n ≡ false
    → IsFloor n nodes
    → IsFloor n (x ∷ nodes)
IsFloor-cons n p h = (forall_mem-cons (λ y. Bool-set _ _)).1 (p, h)

pub IsFloor-perm : (n : Bytes) {l r : List Node} → Perm l r → IsFloor n r → IsFloor n l
IsFloor-perm n p h x m = h x ((Perm.mem_iff p).0 m)

-- What the inner loop finds: the index so far, or that of the first of the least nodes behind it.
data Found (s : Bytes) (m j : ℕ) (nodes : List Node) (index : ℕ) : Type 0 where
  kept : index ≡ m → IsFloor s nodes → Found s m j nodes index
  taken :
      (k : ℕ)
      → index ≡ j + k
      → ((d : Node)
          → (str_ltb (name (node_at d k nodes)) s ≡ true)
            × IsFloor (name (node_at d k nodes)) nodes)
      → Found s m j nodes index

min_index-Found :
    (s : Bytes) (m j : ℕ) (nodes : List Node) → Found s m j nodes (min_index s m j nodes)
unfolding min_index node_at
min_index-Found s m j [] = kept refl (λ x h. absurd (not-mem-nil h))
min_index-Found s m j (x ∷ nodes) = elim (Bool-cases (str_ltb (name x) s)) [
  | inl below ↦ rw below (elim (min_index-Found (name x) j (suc j) nodes) [
    | kept e h ↦
        taken 0 (e ∙ omega arith) (λ d. (below, IsFloor-cons _ (str_ltb_irrefl (name x)) h))
    | taken k e h ↦ taken (suc k) (e ∙ omega arith) (λ d.
        let (p, q) = h d in
        let not_above = str_ltb-asym (name (node_at d k nodes)) (name x) p in
        (str_ltb-chain (name (node_at d k nodes)) (name x) s p below, IsFloor-cons _ not_above q))
  ])
  | inr above ↦ rw above (elim (min_index-Found s m (suc j) nodes) [
    | kept e h ↦ kept e (IsFloor-cons _ above h)
    | taken k e h ↦ taken (suc k) (e ∙ omega arith) (λ d.
        let (p, q) = h d in
        let y = name (node_at d k nodes) in
        (p, IsFloor-cons _ (str_ltb_trans y s (name x) (str_ltb-asym y s p) above) q))
  ])
]

node_at-Perm :
    (d : Node) (k : ℕ) (nodes : List Node) → Perm (node_at d k nodes ∷ set nodes k d) (d ∷ nodes)
unfolding node_at
node_at-Perm d k [] = Perm.rfl
node_at-Perm d zero (x ∷ xs) = Perm.swap d x xs
node_at-Perm d (suc k) (x ∷ xs) =
    Perm.trans (Perm.swap x (node_at d k xs) (set xs k d))
      (Perm.trans (Perm.cons x (node_at-Perm d k xs)) (Perm.swap d x xs))

-- One round of the outer loop: the least node comes first.
pub round-least :
    (x : Node) (nodes : List Node)
    → let (first, rest) = swap_first x (min_index (name x) 0 1 nodes) nodes in
      Perm (first ∷ rest) (x ∷ nodes) × IsFloor (name first) rest × (length rest ≡ length nodes)
unfolding swap_first
round-least x nodes = elim (min_index-Found (name x) 0 1 nodes) [
  | kept e h ↦ rw e (Perm.rfl, h, refl)
  | taken k e h ↦
      let perm = node_at-Perm x k nodes in
      let (below, floor) = h x in
      let y = name (node_at x k nodes) in
      let all = IsFloor-perm y perm (IsFloor-cons y (str_ltb-asym y (name x) below) floor) in
      let index : min_index (name x) 0 1 nodes ≡ suc k = e ∙ omega arith in
      rw index (perm, ((forall_mem-cons (λ z. Bool-set _ _)).0 all).1, length-set nodes k x)
]

pub sort_from-Perm : (n : ℕ) (nodes : List Node) → Perm (sort_from n nodes) nodes
unfolding sort_from
sort_from-Perm zero nodes = Perm.rfl
sort_from-Perm (suc n) [] = Perm.rfl
sort_from-Perm (suc n) (x ∷ nodes) =
    let (perm, _, _) = round-least x nodes in Perm.trans (Perm.cons _ (sort_from-Perm n _)) perm

pub sort_from-IsSorted :
    (n : ℕ) (nodes : List Node) → length nodes ≤ n → IsSorted (sort_from n nodes)
unfolding sort_from
sort_from-IsSorted zero [] h = Pairwise.nil
sort_from-IsSorted zero (x ∷ nodes) h = absurd (omega arith)
sort_from-IsSorted (suc n) [] h = Pairwise.nil
sort_from-IsSorted (suc n) (x ∷ nodes) h =
    let (_, floor, same) = round-least x nodes in
    Pairwise.cons (IsFloor-perm _ (sort_from-Perm n _) floor) (sort_from-IsSorted n _ (omega arith))

-- sorted_dir puts the children of a directory in the order of their names: it keeps every child, and
-- no child's name is below the name of a child before it.
pub sorted_dir-IsSorted :
    (nodes : List Node) → Perm (sorted_dir nodes) nodes × IsSorted (sorted_dir nodes)
unfolding sorted_dir
sorted_dir-IsSorted nodes =
    (sort_from-Perm (length nodes) nodes, sort_from-IsSorted (length nodes) nodes (omega arith))
