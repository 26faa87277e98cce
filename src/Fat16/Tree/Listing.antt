-- ===== src/Fat16/Tree/Listing.antt =====
-- file-directory-tree/src/directory_tree.c: the files and directories of a tree by the lists of their names,
-- and the paths that name them.
use mathlib.Core.List.{map-append}
use mathlib.Core.Path.{ap₂}
use computer_systems.Prelude.{
  ℕ, ◌≡◌, refl, ap, ◌∙◌, Bool, true, false, not, ◌&&◌, List, [], ◌∷◌, ◌++◌, ◌==◌, map, arith,
}
use computer_systems.Fat16.Tree.{
  Bytes, Node, Nodes, file, directory, none_left, child, Call, write, mkdir, join,
  create_directory_tree_helper, create_children,
}

abbrev pub no_slash : Bytes → Bool
no_slash [] = true
no_slash (c ∷ cs) = not (c == b'/') && no_slash cs

-- A name that is not empty and holds no slash.
abbrev pub is_plain : Bytes → Bool
is_plain [] = false
is_plain (c ∷ cs) = no_slash (c ∷ cs)

-- Every name in the tree is plain.
abbrev mutual
  pub has_plain_names : Node → Bool
  has_plain_names (file n contents) = is_plain n
  has_plain_names (directory n children) = is_plain n && have_plain_names children

  pub have_plain_names : Nodes → Bool
  have_plain_names none_left = true
  have_plain_names (child node nodes) = has_plain_names node && have_plain_names nodes

pub data Made : Type 0 where
  file_at : List Bytes → Bytes → Made
  directory_at : List Bytes → Made

-- The files and directories of a tree, each behind the directory that it is in, where `above` are the names of
-- the directories on the way to the tree.
abbrev mutual
  pub listing : List Bytes → Node → List Made
  listing above (file n contents) = file_at (above ++ (n ∷ [])) contents ∷ []
  listing above (directory n children) =
      directory_at (above ++ (n ∷ [])) ∷ listing_all (above ++ (n ∷ [])) children

  pub listing_all : List Bytes → Nodes → List Made
  listing_all above none_left = []
  listing_all above (child node nodes) = listing above node ++ listing_all above nodes

-- One more byte in front of the first name and the others; a slash begins a new name.
abbrev cut : Bool → ℕ → Bytes × List Bytes → Bytes × List Bytes
cut true c (n, ns) = ([], n ∷ ns)
cut false c (n, ns) = (c ∷ n, ns)

abbrev split : Bytes → Bytes × List Bytes
split [] = ([], [])
split (c ∷ cs) = cut (c == b'/') c (split cs)

abbrev all_names : Bytes × List Bytes → List Bytes
all_names (n, ns) = n ∷ ns

-- The names that the slashes of a path separate.
abbrev pub names_of : Bytes → List Bytes
names_of path = all_names (split path)

abbrev pub made_by : Call → Made
made_by (write path contents) = file_at (names_of path) contents
made_by (mkdir path) = directory_at (names_of path)

pub &&-both : (a b : Bool) → (a && b) ≡ true → (a ≡ true) × (b ≡ true)
&&-both true b h = (refl, h)
&&-both false b h = ground arith

is_plain-no_slash : (n : Bytes) → is_plain n ≡ true → no_slash n ≡ true
is_plain-no_slash [] h = refl
is_plain-no_slash (c ∷ cs) h = h

split-no_slash : (n : Bytes) → no_slash n ≡ true → split n ≡ (n, [])
split-no_slash [] h = refl
split-no_slash (c ∷ cs) h =
    let (here, rest) = &&-both (not (c == b'/')) (no_slash cs) h in
    cut-other (c == b'/') here (split-no_slash cs rest)
  where
    cut-other : (b : Bool) → not b ≡ true → split cs ≡ (cs, []) → cut b c (split cs) ≡ (c ∷ cs, [])
    cut-other true other e = absurd (ground arith)
    cut-other false other e = ap (cut false c) e

-- One more name behind the names of a path.
abbrev behind : Bytes → Bytes × List Bytes → Bytes × List Bytes
behind n (m, ms) = (m, ms ++ (n ∷ []))

split-append :
    (path n : Bytes) → no_slash n ≡ true → split (path ++ (b'/' ∷ n)) ≡ behind n (split path)
split-append [] n h = ap (cut true b'/') (split-no_slash n h)
split-append (c ∷ path) n h =
    ap (cut (c == b'/') c) (split-append path n h) ∙ cut-behind (c == b'/') (split path)
  where
    cut-behind : (b : Bool) (s : Bytes × List Bytes) → cut b c (behind n s) ≡ behind n (cut b c s)
    cut-behind true (m, ms) = refl
    cut-behind false (m, ms) = refl

-- The paths of plain names in a directory are those of the names `above` with one more.
abbrev IsPathOf : Bytes → List Bytes → Type 0
IsPathOf path above = (n : Bytes) → is_plain n ≡ true → names_of (join path n) ≡ above ++ (n ∷ [])

root-IsPathOf : IsPathOf [] []
root-IsPathOf n h = ap all_names (split-no_slash n (is_plain-no_slash n h))

join-join :
    (path m n : Bytes) → is_plain m ≡ true → join (join path m) n ≡ join path m ++ (b'/' ∷ n)
join-join [] [] n h = absurd (ground arith)
join-join [] (c ∷ m) n h = refl
join-join (c ∷ path) m n h = refl

below-IsPathOf :
    (path : Bytes) (above : List Bytes) (m : Bytes)
    → is_plain m ≡ true
    → IsPathOf path above
    → IsPathOf (join path m) (above ++ (m ∷ []))
below-IsPathOf path above m hm paths n hn =
    ap names_of (join-join path m n hm)
    ∙ ap all_names (split-append (join path m) n (is_plain-no_slash n hn))
    ∙ ap (λ names. names ++ (n ∷ [])) (paths m hm)

mutual
  unfolding create_directory_tree_helper create_children

  create_directory_tree_helper-listing :
      (node : Node) (path : Bytes) (above : List Bytes)
      → has_plain_names node ≡ true
      → IsPathOf path above
      → map made_by (create_directory_tree_helper node path) ≡ listing above node
  create_directory_tree_helper-listing (file n contents) path above h paths =
      ap (λ names. file_at names contents ∷ []) (paths n h)
  create_directory_tree_helper-listing (directory n children) path above h paths =
      let (plain, below) = &&-both (is_plain n) (have_plain_names children) h in
      ap₂ (λ names rest. directory_at names ∷ rest) (paths n plain)
        (create_children-listing children (join path n) (above ++ (n ∷ [])) below
          (below-IsPathOf path above n plain paths))

  create_children-listing :
      (nodes : Nodes) (path : Bytes) (above : List Bytes)
      → have_plain_names nodes ≡ true
      → IsPathOf path above
      → map made_by (create_children nodes path) ≡ listing_all above nodes
  create_children-listing none_left path above h paths = refl
  create_children-listing (child node nodes) path above h paths =
      let (first, rest) = &&-both (has_plain_names node) (have_plain_names nodes) h in
      map-append made_by (create_directory_tree_helper node path) (create_children nodes path)
      ∙ ap₂ (λ xs ys. xs ++ ys) (create_directory_tree_helper-listing node path above first paths)
          (create_children-listing nodes path above rest paths)

-- The calls for a tree with plain names create exactly what is in the tree.
pub create_directory_tree_helper-root :
    (node : Node)
    → has_plain_names node ≡ true
    → map made_by (create_directory_tree_helper node []) ≡ listing [] node
create_directory_tree_helper-root node h =
    create_directory_tree_helper-listing node [] [] h root-IsPathOf
