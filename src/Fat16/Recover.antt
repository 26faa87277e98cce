-- ===== src/Fat16/Recover.antt =====
-- file-directory-tree/src/recover.c: the descent over the entries of an image. An assertion that
-- fails ends the program: there is no result.
pub mod Descent
pub mod Empty
use computer_systems.Prelude.{
  ℕ, zero, suc, ◌+◌, Bool, true, false, List, [], ◌∷◌, Option, none, some, if◌then◌else◌,
}
use computer_systems.Prelude.Options.{◌>>=◌}
use computer_systems.Fat16.Tree.{
  Bytes, Node, of_list, file, directory, init_file_node, init_directory_node,
  add_child_directory_tree, create_directory_tree, print_directory_tree, Call,
}
use computer_systems.Fat16.Disk.{
  BiosParameterBlock, DirectoryEntry, fread, fseek, bios_parameter_block, bios_parameter_block_size,
  directory_entry, directory_entry_size, get_root_directory_location, get_offset_from_cluster,
  is_directory, is_hidden, get_file_name,
}

abbrev pub is_empty : Bytes → Bool
is_empty [] = true
is_empty (c ∷ cs) = false

-- A directory that `follow` has filled.
abbrev pub fill : Node → List Node → Node
fill (file n contents) children = file n contents
fill (directory n empty) children = directory n (of_list children)

-- The position in front of an entry's contents, from one on the disk.
unfoldable pub seek_entry : BiosParameterBlock → ℕ → DirectoryEntry → ℕ
seek_entry bpb pos entry = fseek pos (get_offset_from_cluster entry.first_cluster bpb)

-- The node is added behind the read.
unfoldable pub follow_file :
    Bytes → BiosParameterBlock → ℕ → DirectoryEntry → List Node → Option (List Node)
follow_file disk bpb pos entry children =
    fread disk (seek_entry bpb pos entry) entry.file_size >>= λ contents.
    some (add_child_directory_tree children (init_file_node (some (get_file_name entry)) contents))

-- The source adds the directory before it is filled. The order of the children depends on the names
-- only, so the filled directory takes the place of the empty one.
unfoldable mutual
  pub follow_directory :
      ℕ → Bytes → BiosParameterBlock → ℕ → DirectoryEntry → List Node → Option (List Node)
  follow_directory zero disk bpb pos entry children = none
  follow_directory (suc n) disk bpb pos entry children =
      follow n disk bpb (seek_entry bpb pos entry) [] >>= λ found.
      let dir_node = fill (init_directory_node (some (get_file_name entry))) found in
      some (add_child_directory_tree children dir_node)

  -- `pos` is the position of the next entry. It is set back behind each entry.
  pub follow : ℕ → Bytes → BiosParameterBlock → ℕ → List Node → Option (List Node)
  follow zero disk bpb pos children = none
  follow (suc n) disk bpb pos children = fread disk pos directory_entry_size >>= λ bytes.
      let entry = directory_entry bytes in
      let next = pos + directory_entry_size in
      let added : Option (List Node) = elim (is_directory entry) [
        | true ↦ follow_directory n disk bpb next entry children
        | false ↦ follow_file disk bpb next entry children
      ] in
      let more : Option (List Node) = elim (is_hidden entry) [
        | true ↦ follow n disk bpb next children
        | false ↦ added >>= λ now. follow n disk bpb next now
      ] in
      if is_empty (get_file_name entry) then some children else more

abbrev pub master_boot_record_size : ℕ
master_boot_record_size = 0x20B

-- Where `main` begins to read entries.
abbrev pub root_position : BiosParameterBlock → ℕ
root_position bpb =
    fseek (master_boot_record_size + bios_parameter_block_size) (get_root_directory_location bpb)

-- `main` behind the arguments: the tree, which is printed and created.
unfoldable pub recover : ℕ → Bytes → Option Node
recover n disk = fread disk master_boot_record_size bios_parameter_block_size >>= λ bytes.
    let bpb = bios_parameter_block bytes in
    follow n disk bpb (root_position bpb) [] >>= λ children.
    some (fill (init_directory_node none) children)
