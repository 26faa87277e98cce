-- ===== src/Fat16/Tree/Creation.antt =====
-- file-directory-tree/src/directory_tree.c: the order in which files and directories are created.
use mathlib.Core.List.{Mem, Subset, mem-cons_self, mem-cons_of_mem}
use computer_systems.Prelude.{◌≡◌, refl, true, List, [], ◌∷◌, ◌++◌, map}
use computer_systems.Fat16.Tree.Listing.{
  is_plain, has_plain_names, have_plain_names, made_by, listing, &&-both,
  create_directory_tree_helper-root,
}
use computer_systems.Fat16.Tree.{
  Bytes, Node, Nodes, file, directory, none_left, child, Call, write, mkdir, join,
  create_directory_tree, create_directory_tree_helper, create_children,
}

-- The path is that of a name in one of the directories.
abbrev pub IsIn : List Bytes → Bytes → Type 0
IsIn made path = (parent n : Bytes) × Mem parent made × (path ≡ join parent n) × (is_plain n ≡ true)

-- Each call is for a name in a directory that is there before the call.
abbrev pub IsPlaced : List Bytes → List Call → Type 0
IsPlaced made [] = made ≡ made
IsPlaced made (write path contents ∷ calls) = IsIn made path × IsPlaced made calls
IsPlaced made (mkdir path ∷ calls) = IsIn made path × IsPlaced (path ∷ made) calls

Subset-cons : {x : Bytes} (l r : List Bytes) → Subset l r → Subset l (x ∷ r)
Subset-cons l r h y m = mem-cons_of_mem _ (h y m)

-- What is placed in some directories and behind some calls.
IsPlaced-append :
    (made : List Bytes) (xs ys : List Call)
    → IsPlaced made xs
    → ((more : List Bytes) → Subset made more → IsPlaced more ys)
    → IsPlaced made (xs ++ ys)
IsPlaced-append made [] ys p h = h made (λ y m. m)
IsPlaced-append made (write path contents ∷ xs) ys (i, p) h = (i, IsPlaced-append made xs ys p h)
IsPlaced-append made (mkdir path ∷ xs) ys (i, p) h = (
  i,
  IsPlaced-append (path ∷ made) xs ys p (λ more s. h more (λ y m. s y (mem-cons_of_mem path m))),
)

mutual
  unfolding create_directory_tree_helper create_children

  create_directory_tree_helper-IsPlaced :
      (node : Node) (path : Bytes) (made : List Bytes)
      → has_plain_names node ≡ true
      → Mem path made
      → IsPlaced made (create_directory_tree_helper node path)
  create_directory_tree_helper-IsPlaced (file n contents) path made h m =
      ((path, n, m, refl, h), refl)
  create_directory_tree_helper-IsPlaced (directory n children) path made h m =
      let (plain, below) = &&-both (is_plain n) (have_plain_names children) h in
      ((path, n, m, refl, plain), create_children-IsPlaced children _ _ below mem-cons_self)

  create_children-IsPlaced :
      (nodes : Nodes) (path : Bytes) (made : List Bytes)
      → have_plain_names nodes ≡ true
      → Mem path made
      → IsPlaced made (create_children nodes path)
  create_children-IsPlaced none_left path made h m = refl
  create_children-IsPlaced (child node nodes) path made h m =
      let (first, rest) = &&-both (has_plain_names node) (have_plain_names nodes) h in
      IsPlaced-append made _ _ (create_directory_tree_helper-IsPlaced node path made first m)
        (λ more s. create_children-IsPlaced nodes path more rest (s path m))

-- For a tree whose names are not empty and hold no slash: the calls create what is in the tree, each file with its
-- contents and each directory, once and by its own names from the root on, in the order of the tree; and each
-- call is for such a name in the directory that the program started in or in one that an earlier call has made.
pub create_directory_tree-IsPlaced :
    (node : Node)
    → has_plain_names node ≡ true
    → (map made_by (create_directory_tree node) ≡ listing [] node)
      × IsPlaced ([] ∷ []) (create_directory_tree node)
create_directory_tree-IsPlaced node h = (
  create_directory_tree_helper-root node h,
  create_directory_tree_helper-IsPlaced node [] ([] ∷ []) h mem-cons_self,
)
