-- ===== src/Fat16/Recover/Descent.antt =====
-- file-directory-tree/src/recover.c: what the descent recovers.
use mathlib.Core.List.{Perm, Pairwise, append-nil, append_assoc}
use mathlib.Core.List.Perm
use computer_systems.Prelude.{
  ℕ, zero, suc, ◌+◌, ◌≤◌, ◌≡◌, refl, sym, true, false, List, [], ◌∷◌, ◌++◌, Option, some, arith,
}
use computer_systems.Fat16.Tree.{
  Bytes, Node, of_list, file, directory, root_name, add_child_directory_tree,
}
use computer_systems.Fat16.Tree.Sorting.{IsSorted, sorted_dir-IsSorted}
use computer_systems.Fat16.Disk.{
  BiosParameterBlock, fread, bios_parameter_block, bios_parameter_block_size, directory_entry,
  directory_entry_size, is_directory, is_hidden, get_file_name,
}
use computer_systems.Fat16.Recover.{
  is_empty, root_position, seek_entry, follow_file, follow_directory, follow, recover,
  master_boot_record_size,
}

module _ (disk : Bytes) (bpb : BiosParameterBlock) where
  -- The entries from a position on can be read up to their end, and so can all files and directories
  -- of those that are not hidden. No cluster is its own descendant.
  pub data Readable : ℕ → Type 0 where
    end :
        {pos : ℕ} (bytes : Bytes)
        → fread disk pos directory_entry_size ≡ some bytes
        → is_empty (get_file_name (directory_entry bytes)) ≡ true
        → Readable pos
    hidden :
        {pos : ℕ} (bytes : Bytes)
        → fread disk pos directory_entry_size ≡ some bytes
        → is_empty (get_file_name (directory_entry bytes)) ≡ false
        → is_hidden (directory_entry bytes) ≡ true
        → Readable (pos + directory_entry_size)
        → Readable pos
    regular :
        {pos : ℕ} (bytes contents : Bytes)
        → fread disk pos directory_entry_size ≡ some bytes
        → is_empty (get_file_name (directory_entry bytes)) ≡ false
        → is_hidden (directory_entry bytes) ≡ false
        → is_directory (directory_entry bytes) ≡ false
        → fread disk
            (seek_entry bpb (pos + directory_entry_size) (directory_entry bytes))
            (directory_entry bytes).file_size
          ≡ some contents
        → Readable (pos + directory_entry_size)
        → Readable pos
    nested :
        {pos : ℕ} (bytes : Bytes)
        → fread disk pos directory_entry_size ≡ some bytes
        → is_empty (get_file_name (directory_entry bytes)) ≡ false
        → is_hidden (directory_entry bytes) ≡ false
        → is_directory (directory_entry bytes) ≡ true
        → Readable (seek_entry bpb (pos + directory_entry_size) (directory_entry bytes))
        → Readable (pos + directory_entry_size)
        → Readable pos

  -- Fuel that is enough.
  abbrev pub rounds : {pos : ℕ} → Readable pos → ℕ
  rounds (end bytes read empty) = 1
  rounds (hidden bytes read named hid rest) = suc (rounds rest)
  rounds (regular bytes contents read named shown kind found rest) = suc (rounds rest)
  rounds (nested bytes read named shown kind sub rest) = 2 + (rounds sub + rounds rest)

  -- The nodes of the entries that are not hidden, in their order on the disk. The children of a
  -- directory are in the order of their names.
  abbrev pub IsContents : {pos : ℕ} → Readable pos → List Node → Type 0
  IsContents (end bytes read empty) nodes = nodes ≡ []
  IsContents (hidden bytes read named hid rest) nodes = IsContents rest nodes
  IsContents (regular bytes contents read named shown kind found rest) nodes =
      (others : List Node) × (nodes
        ≡ file (get_file_name (directory_entry bytes)) contents ∷ others)
      × IsContents rest others
  IsContents (nested bytes read named shown kind sub rest) nodes =
      (inner children others : List Node) × (nodes
        ≡ directory (get_file_name (directory_entry bytes)) (of_list children) ∷ others)
      × IsContents sub inner
      × Perm children inner
      × IsSorted children
      × IsContents rest others

  -- What is made of the children that are there and the entries from a position on.
  pub record Recovered {pos : ℕ} (readable : Readable pos) (before : List Node)
      (call : Option (List Node)) : Type 0 where
    children : List Node
    nodes : List Node
    returns : call ≡ some children
    contents : IsContents readable nodes
    same : Perm children (before ++ nodes)
    sorted : IsSorted children

  -- A node that is added joins those that are there.
  add_child-Perm :
      (before : List Node) (x : Node) (others children : List Node)
      → Perm children (add_child_directory_tree before x ++ others)
      → Perm children (before ++ x ∷ others)
  unfolding add_child_directory_tree
  add_child-Perm before x others children p =
      let (perm, _) = sorted_dir-IsSorted (before ++ x ∷ []) in
      let same = Perm.trans p (Perm.append_right others perm) in
      rw (sym (append_assoc before (x ∷ []) others)) same

  add_child-IsSorted :
      (before : List Node) (x : Node) → IsSorted (add_child_directory_tree before x)
  unfolding add_child_directory_tree
  add_child-IsSorted before x = (sorted_dir-IsSorted (before ++ x ∷ [])).1

  pub follow-Recovered :
      (fuel : ℕ)
      → {pos : ℕ} → (readable : Readable pos) (before : List Node) → rounds readable ≤ fuel
      → IsSorted before
      → Recovered readable before (follow fuel disk bpb pos before)
  unfolding follow follow_directory follow_file
  follow-Recovered zero (end bytes read empty) before h s = absurd (omega arith)
  follow-Recovered zero (hidden bytes read named hid rest) before h s = absurd (omega arith)
  follow-Recovered zero (regular bytes contents read named shown kind found rest) before h s =
      absurd (omega arith)
  follow-Recovered zero (nested bytes read named shown kind sub rest) before h s =
      absurd (omega arith)
  follow-Recovered (suc n) (end bytes read empty) before h s = record {
    children = before;
    nodes = [];
    returns = rw read (rw empty refl);
    contents = refl;
    same = rw (append-nil before) Perm.rfl;
    sorted = s;
  }
  follow-Recovered (suc n) (hidden bytes read named hid rest) before h s =
      let r = follow-Recovered n rest before (omega arith) s in
      record {
        children = r.children;
        nodes = r.nodes;
        returns = rw read (rw named (rw hid r.returns));
        contents = r.contents;
        same = r.same;
        sorted = r.sorted;
      }
  follow-Recovered (suc n) (regular bytes contents read named shown kind found rest) before h s =
      let x = file (get_file_name (directory_entry bytes)) contents in
      let r = follow-Recovered n rest _ (omega arith) (add_child-IsSorted before x) in
      record {
        children = r.children;
        nodes = x ∷ r.nodes;
        returns = rw read (rw named (rw shown (rw kind (rw found r.returns))));
        contents = (r.nodes, refl, r.contents);
        same = add_child-Perm before x r.nodes r.children r.same;
        sorted = r.sorted;
      }
  follow-Recovered (suc zero) (nested bytes read named shown kind sub rest) before h s =
      absurd (omega arith)
  follow-Recovered (suc (suc n)) (nested bytes read named shown kind sub rest) before h s =
      let i = follow-Recovered n sub [] (omega arith) Pairwise.nil in
      let x = directory (get_file_name (directory_entry bytes)) (of_list i.children) in
      let r = follow-Recovered (suc n) rest _ (omega arith) (add_child-IsSorted before x) in
      record {
        children = r.children;
        nodes = x ∷ r.nodes;
        returns = rw read (rw named (rw shown (rw kind (rw i.returns r.returns))));
        contents = (i.nodes, i.children, r.nodes, refl, i.contents, i.same, i.sorted, r.contents);
        same = add_child-Perm before x r.nodes r.children r.same;
        sorted = r.sorted;
      }

-- Where the parameter block and everything that is not hidden can be read, recover returns the root
-- directory. Its children are the entries that are not hidden with their names and contents, each
-- once and in the order of their names, and so are those of each directory below it. Enough fuel is
-- one unit for each entry and for each end of a directory, and one more for each directory.
pub recover-Contents :
    (fuel : ℕ) (disk bytes : Bytes)
    → fread disk master_boot_record_size bios_parameter_block_size ≡ some bytes
    → (readable : Readable disk
        (bios_parameter_block bytes)
        (root_position (bios_parameter_block bytes)))
    → rounds disk (bios_parameter_block bytes) readable ≤ fuel
    → (children nodes : List Node) × (recover fuel disk
        ≡ some (directory root_name (of_list children)))
      × IsContents disk (bios_parameter_block bytes) readable nodes
      × Perm children nodes
      × IsSorted children
unfolding recover
recover-Contents fuel disk bytes read readable h =
    let r = follow-Recovered disk (bios_parameter_block bytes) fuel readable [] h Pairwise.nil in
    (r.children, r.nodes, rw read (rw r.returns refl), r.contents, r.same, r.sorted)
