-- ===== src/Fat16/Tests.antt =====
-- file-directory-tree: a small image, and the theorems on it.
use mathlib.Core.List.{Perm}
use computer_systems.Prelude.{ℕ, ◌≡◌, refl, List, [], ◌∷◌, ◌++◌, map, replicate, none, some, arith}
use computer_systems.Prelude.Text.{c_string}
use computer_systems.Fat16.Tree.{
  Bytes, Node, file, directory, none_left, child, of_list, root_name, sorted_dir, sort_from,
  min_index, swap_first, node_at, str_ltb, add_child_directory_tree, create_directory_tree,
  create_directory_tree_helper, write, mkdir,
}
use computer_systems.Fat16.Tree.Sorting.{IsSorted, sorted_dir-IsSorted}
use computer_systems.Fat16.Tree.Listing.{made_by, listing}
use computer_systems.Fat16.Tree.Creation.{IsPlaced, create_directory_tree-IsPlaced}
use computer_systems.Fat16.Disk.{
  fread, bios_parameter_block, directory_entry, get_file_name, get_root_directory_location,
  get_offset_from_cluster, fseek, is_directory, is_hidden, copy_filename, copy_extension,
}
use computer_systems.Fat16.Disk.Names.{pad, get_file_name-padded}
use computer_systems.Fat16.Recover.{recover, follow, follow_directory, follow_file, seek_entry}
use computer_systems.Fat16.Recover.Descent.{Readable, IsContents, recover-Contents}
use computer_systems.Fat16.Recover.Empty.{HasEmptyFile, recover-none}

-- An entry with a name, an extension, attributes, a cluster and a size below 256.
abbrev entry_bytes : Bytes → Bytes → ℕ → ℕ → ℕ → Bytes
entry_bytes base extension attribute cluster size =
    pad 8 base
    ++ pad 3 extension
    ++ attribute ∷ replicate 14 0
    ++ cluster ∷ 0 ∷ size ∷ 0 ∷ 0 ∷ 0 ∷ []

-- 32 bytes in a sector, a sector in a cluster, 17 reserved sectors, no tables and four root entries:
-- the root directory begins at byte 576 and cluster 2 at byte 704.
abbrev block_bytes : Bytes
block_bytes = 32 ∷ 0 ∷ 1 ∷ 17 ∷ 0 ∷ 0 ∷ 4 ∷ replicate 44 0

abbrev image : Bytes → Bytes
image entries = replicate 523 0 ++ block_bytes ++ 0 ∷ 0 ∷ entries

-- B.C in cluster 2, a hidden entry, and the directory A in cluster 3 with the file D in cluster 5.
abbrev small : Bytes
small = image (
    entry_bytes (b'B' ∷ []) (b'C' ∷ []) 32 2 2
    ++ entry_bytes (b'.' ∷ []) [] 16 3 0
    ++ entry_bytes (b'A' ∷ []) [] 16 3 0
    ++ replicate 32 0
    ++ (b'h' ∷ b'i' ∷ replicate 30 0)
    ++ entry_bytes (b'D' ∷ []) [] 32 5 3
    ++ replicate 32 0
    ++ b'y' ∷ b'e' ∷ b's' ∷ [])

test_recover :
    recover 9 small
    ≡ some (
        directory root_name (
          child
            (directory (b'A' ∷ []) (child (file (b'D' ∷ []) (b'y' ∷ b'e' ∷ b's' ∷ [])) none_left))
            (child (file (b'B' ∷ b'.' ∷ b'C' ∷ []) (b'h' ∷ b'i' ∷ [])) none_left)))
unfolding recover follow follow_directory follow_file seek_entry fread fseek bios_parameter_block
    directory_entry get_root_directory_location get_offset_from_cluster is_directory is_hidden
    copy_filename copy_extension c_string get_file_name add_child_directory_tree sorted_dir
    sort_from min_index swap_first node_at str_ltb
test_recover = refl

-- The entry at byte 736 of the small image.
abbrev d_entry : Bytes
d_entry = entry_bytes (b'D' ∷ []) [] 32 5 3

unfoldable small_readable : Readable small (bios_parameter_block block_bytes) 576
unfolding fread fseek seek_entry directory_entry bios_parameter_block get_root_directory_location
    get_offset_from_cluster is_directory is_hidden copy_filename copy_extension c_string
    get_file_name
small_readable =
    Readable.regular (entry_bytes (b'B' ∷ []) (b'C' ∷ []) 32 2 2) (b'h' ∷ b'i' ∷ []) refl refl refl
      refl refl
      (Readable.hidden (entry_bytes (b'.' ∷ []) [] 16 3 0) refl refl refl (
        Readable.nested (entry_bytes (b'A' ∷ []) [] 16 3 0) refl refl refl refl
          (Readable.regular d_entry (b'y' ∷ b'e' ∷ b's' ∷ []) refl refl refl refl refl
            (Readable.end (replicate 32 0) refl refl))
          (Readable.end (replicate 32 0) refl refl)))

small_read : fread small 523 51 ≡ some block_bytes
unfolding fread
small_read = refl

recover-Contents_example :
    (children nodes : List Node) × (recover 7 small ≡ some (directory root_name (of_list children)))
    × IsContents small (bios_parameter_block block_bytes) small_readable nodes
    × Perm children nodes
    × IsSorted children
unfolding fseek get_root_directory_location bios_parameter_block small_readable
recover-Contents_example =
    recover-Contents 7 small block_bytes small_read small_readable (omega arith)

-- An empty file behind one that is not.
abbrev with_empty : Bytes
with_empty =
    image (entry_bytes (b'B' ∷ []) [] 32 2 2 ++ entry_bytes (b'E' ∷ []) [] 32 0 0 ++ replicate 80 0)

recover-none_example : recover 100 with_empty ≡ none
unfolding fread fseek seek_entry directory_entry bios_parameter_block get_root_directory_location
    get_offset_from_cluster is_directory is_hidden copy_filename copy_extension c_string
    get_file_name
recover-none_example = recover-none 100 with_empty block_bytes refl (
    HasEmptyFile.later (entry_bytes (b'B' ∷ []) [] 32 2 2) refl refl
      (HasEmptyFile.here (entry_bytes (b'E' ∷ []) [] 32 0 0) refl refl refl refl refl))

get_file_name-padded_example :
    get_file_name (directory_entry (entry_bytes (b'B' ∷ []) (b'C' ∷ []) 32 2 2))
    ≡ b'B' ∷ b'.' ∷ b'C' ∷ []
unfolding directory_entry
get_file_name-padded_example =
    get_file_name-padded (b'B' ∷ []) (b'C' ∷ [])
      (directory_entry (entry_bytes (b'B' ∷ []) (b'C' ∷ []) 32 2 2)) refl refl refl refl

abbrev three : List Node
three = file (b'C' ∷ []) [] ∷ directory (b'A' ∷ []) none_left ∷ file (b'B' ∷ []) [] ∷ []

sorted_dir-IsSorted_example : Perm (sorted_dir three) three × IsSorted (sorted_dir three)
sorted_dir-IsSorted_example = sorted_dir-IsSorted three

-- The tree with a directory that has a file in it.
abbrev nested : Node
nested = directory root_name (child (directory (b'A' ∷ []) (of_list three)) none_left)

nested-calls :
    create_directory_tree nested
    ≡ mkdir root_name
      ∷ mkdir (root_name ++ (b'/' ∷ b'A' ∷ []))
      ∷ write (root_name ++ (b'/' ∷ b'A' ∷ b'/' ∷ b'C' ∷ [])) []
      ∷ mkdir (root_name ++ (b'/' ∷ b'A' ∷ b'/' ∷ b'A' ∷ []))
      ∷ write (root_name ++ (b'/' ∷ b'A' ∷ b'/' ∷ b'B' ∷ [])) []
      ∷ []
unfolding create_directory_tree_helper
nested-calls = refl

create_directory_tree-IsPlaced_example :
    (map made_by (create_directory_tree nested) ≡ listing [] nested)
    × IsPlaced ([] ∷ []) (create_directory_tree nested)
create_directory_tree-IsPlaced_example = create_directory_tree-IsPlaced nested refl
