-- ===== src/Fat16/Tree.antt =====
-- file-directory-tree/src/directory_tree.c: nodes and the order of a directory's children. An array
-- of children is a list; the selection sort works on what the list holds from an index on.
pub mod Order
pub mod Sorting
pub mod Listing
pub mod Creation
use computer_systems.Prelude.{
  ℕ, zero, suc, ◌+◌, ◌*◌, Bool, true, false, List, [], ◌∷◌, ◌++◌, Option, none, some, length, set,
  ltb, ◌==◌, if◌then◌else◌,
}

abbrev pub Bytes : Type 0
Bytes = List ℕ

mutual
  pub data Node : Type 0 where
    file : Bytes → Bytes → Node
    directory : Bytes → Nodes → Node

  pub data Nodes : Type 0 where
    none_left : Nodes
    child : Node → Nodes → Nodes

abbrev pub name : Node → Bytes
name (file n contents) = n
name (directory n children) = n

abbrev pub to_list : Nodes → List Node
to_list none_left = []
to_list (child node nodes) = node ∷ to_list nodes

abbrev pub of_list : List Node → Nodes
of_list [] = none_left
of_list (node ∷ nodes) = child node (of_list nodes)

abbrev pub root_name : Bytes
root_name = b'R' ∷ b'O' ∷ b'O' ∷ b'T' ∷ []

-- A null name is that of the root.
abbrev pub node_name : Option Bytes → Bytes
node_name none = root_name
node_name (some n) = n

abbrev pub init_file_node : Option Bytes → Bytes → Node
init_file_node n contents = file (node_name n) contents

abbrev pub init_directory_node : Option Bytes → Node
init_directory_node n = directory (node_name n) none_left

-- `strcmp(a, b) < 0`
unfoldable pub str_ltb : Bytes → Bytes → Bool
str_ltb [] [] = false
str_ltb [] (b ∷ bs) = true
str_ltb (a ∷ as') [] = false
str_ltb (a ∷ as') (b ∷ bs) = if a == b then str_ltb as' bs else ltb a b

-- The inner loop: `min_string` and `min_idx` so far, the index `j` and the nodes from it on.
unfoldable pub min_index : Bytes → ℕ → ℕ → List Node → ℕ
min_index min_string min_idx j [] = min_idx
min_index min_string min_idx j (cur_node ∷ nodes) =
    let taken = min_index (name cur_node) j (suc j) nodes in
    let kept = min_index min_string min_idx (suc j) nodes in
    if str_ltb (name cur_node) min_string then taken else kept

-- The node at an index behind the first one, which is in the list.
unfoldable pub node_at : Node → ℕ → List Node → Node
node_at node k [] = node
node_at node zero (x ∷ xs) = x
node_at node (suc k) (x ∷ xs) = node_at node k xs

-- The first node and that at `min_idx` change places.
unfoldable pub swap_first : Node → ℕ → List Node → Node × List Node
swap_first node zero nodes = (node, nodes)
swap_first node (suc k) nodes = (node_at node k nodes, set nodes k node)

-- The outer loop, with the number of rounds that are left.
unfoldable pub sort_from : ℕ → List Node → List Node
sort_from zero nodes = nodes
sort_from (suc n) [] = []
sort_from (suc n) (node ∷ nodes) =
    let (first, rest) = swap_first node (min_index (name node) 0 1 nodes) nodes in
    first ∷ sort_from n rest

unfoldable pub sorted_dir : List Node → List Node
sorted_dir nodes = sort_from (length nodes) nodes

-- The new child goes to the end of the array, which is then sorted.
unfoldable pub add_child_directory_tree : List Node → Node → List Node
add_child_directory_tree children node = sorted_dir (children ++ node ∷ [])

abbrev pub spaces : ℕ → Bytes
spaces zero = []
spaces (suc n) = b' ' ∷ spaces n

abbrev pub spaces_per_level : ℕ
spaces_per_level = 4

-- What is printed.
unfoldable mutual
  pub print_directory_tree_helper : Node → ℕ → Bytes
  print_directory_tree_helper (file n contents) level =
      spaces (spaces_per_level * level) ++ n ++ b'\n' ∷ []
  print_directory_tree_helper (directory n children) level =
      (spaces (spaces_per_level * level) ++ n ++ b'\n' ∷ []) ++ print_children children (level + 1)

  pub print_children : Nodes → ℕ → Bytes
  print_children none_left level = []
  print_children (child node nodes) level =
      print_directory_tree_helper node level ++ print_children nodes level

abbrev pub print_directory_tree : Node → Bytes
print_directory_tree node = print_directory_tree_helper node 0

-- The calls that create files and directories.
pub data Call : Type 0 where
  write : Bytes → Bytes → Call
  mkdir : Bytes → Call

abbrev pub join : Bytes → Bytes → Bytes
join [] n = n
join (c ∷ path) n = (c ∷ path) ++ b'/' ∷ n

unfoldable mutual
  pub create_directory_tree_helper : Node → Bytes → List Call
  create_directory_tree_helper (file n contents) path = write (join path n) contents ∷ []
  create_directory_tree_helper (directory n children) path =
      mkdir (join path n) ∷ create_children children (join path n)

  pub create_children : Nodes → Bytes → List Call
  create_children none_left path = []
  create_children (child node nodes) path =
      create_directory_tree_helper node path ++ create_children nodes path

abbrev pub create_directory_tree : Node → List Call
create_directory_tree node = create_directory_tree_helper node []
