-- ===== src/Fat16/Recover/Empty.antt =====
-- file-directory-tree/src/recover.c: an image with a file of no bytes.
use computer_systems.Prelude.{
  ℕ, zero, suc, ◌+◌, ◌≡◌, refl, true, false, List, [], Option, none, some, Bool-cases, inl, inr,
}
use computer_systems.Prelude.Options.{◌>>=◌}
use computer_systems.Fat16.Tree.{Bytes, Node}
use computer_systems.Fat16.Disk.{
  BiosParameterBlock, fread, bios_parameter_block, bios_parameter_block_size, directory_entry,
  directory_entry_size, is_directory, is_hidden, get_file_name,
}
use computer_systems.Fat16.Recover.{
  is_empty, root_position, seek_entry, follow_file, follow_directory, follow, recover,
  master_boot_record_size,
}

-- No count of zero bytes is read.
fread-zero : (disk : Bytes) (pos n : ℕ) → n ≡ 0 → fread disk pos n ≡ none
unfolding fread
fread-zero disk pos n e = rw e refl

bind-none :
    {A B : Type 0} (m : Option A) (next : A → Option B)
    → ((a : A) → next a ≡ none)
    → (m >>= next) ≡ none
bind-none none next h = refl
bind-none (some a) next h = h a

module _ (disk : Bytes) (bpb : BiosParameterBlock) where
  -- A file of no bytes that is not hidden stands behind the position, or in a directory there.
  pub data HasEmptyFile : ℕ → Type 0 where
    here :
        {pos : ℕ} (bytes : Bytes)
        → fread disk pos directory_entry_size ≡ some bytes
        → is_empty (get_file_name (directory_entry bytes)) ≡ false
        → is_hidden (directory_entry bytes) ≡ false
        → is_directory (directory_entry bytes) ≡ false
        → (directory_entry bytes).file_size ≡ 0
        → HasEmptyFile pos
    within :
        {pos : ℕ} (bytes : Bytes)
        → fread disk pos directory_entry_size ≡ some bytes
        → is_empty (get_file_name (directory_entry bytes)) ≡ false
        → is_hidden (directory_entry bytes) ≡ false
        → is_directory (directory_entry bytes) ≡ true
        → HasEmptyFile (seek_entry bpb (pos + directory_entry_size) (directory_entry bytes))
        → HasEmptyFile pos
    later :
        {pos : ℕ} (bytes : Bytes)
        → fread disk pos directory_entry_size ≡ some bytes
        → is_empty (get_file_name (directory_entry bytes)) ≡ false
        → HasEmptyFile (pos + directory_entry_size)
        → HasEmptyFile pos

  follow-none :
      (fuel : ℕ) {pos : ℕ}
      → HasEmptyFile pos
      → (before : List Node) → follow fuel disk bpb pos before ≡ none
  unfolding follow follow_directory follow_file
  follow-none zero h before = refl
  follow-none (suc n) (here bytes read named shown kind empty) before =
      rw read (rw named (rw shown (rw kind (rw (fread-zero disk _ _ empty) refl))))
  follow-none (suc zero) (within bytes read named shown kind h) before =
      rw read (rw named (rw shown (rw kind refl)))
  follow-none (suc (suc n)) (within bytes read named shown kind h) before =
      rw read (rw named (rw shown (rw kind (rw (follow-none n h []) refl))))
  follow-none (suc n) (later bytes read named h) before =
      elim (Bool-cases (is_hidden (directory_entry bytes))) [
        | inl hid ↦ rw read (rw named (rw hid (follow-none n h before)))
        | inr shown ↦ rw read (rw named (rw shown (bind-none _ _ (λ now. follow-none n h now))))
      ]

-- With a file of no bytes that is not hidden, among the entries of the root directory or below them,
-- an image is not recovered, whatever else it holds.
pub recover-none :
    (fuel : ℕ) (disk bytes : Bytes)
    → fread disk master_boot_record_size bios_parameter_block_size ≡ some bytes
    → HasEmptyFile disk (bios_parameter_block bytes) (root_position (bios_parameter_block bytes))
    → recover fuel disk ≡ none
unfolding recover
recover-none fuel disk bytes read h =
    rw read (rw (follow-none disk (bios_parameter_block bytes) fuel h []) refl)
