-- ===== src/Fat16/Disk.antt =====
-- file-directory-tree/src/fat16.c and include/fat16.h: the records of a FAT16 image. The image is
-- the list of its bytes; numbers are little-endian.
pub mod Names
use Prim.Native.Nat.{bit_and}
use computer_systems.Prelude.{
  ℕ, zero, suc, ◌+◌, ◌-◌, ◌*◌, ◌%◌, ◌^◌, Bool, true, false, not, ◌&&◌, ◌||◌, List, [], ◌∷◌, ◌++◌,
  Option, none, some, length, take, drop, ltb, ◌==◌, if◌then◌else◌,
}
use computer_systems.Prelude.Text.{c_string}
use computer_systems.Fat16.Tree.{Bytes}

-- `fread(buffer, n, 1, disk)` at a position: none where the result is not 1. For a size of zero fread
-- returns zero.
unfoldable pub fread : Bytes → ℕ → ℕ → Option Bytes
fread disk pos n =
    let bytes = take n (drop pos disk) in
    if not (n == 0) && (length bytes == n) then some bytes else none

-- The position behind `fseek(disk, offset, SEEK_SET)`: an offset that is negative as a long is refused.
unfoldable pub fseek : ℕ → ℕ → ℕ
fseek pos offset = if ltb offset (2 ^ 63) then offset else pos

abbrev pub little_endian : Bytes → ℕ
little_endian [] = 0
little_endian (b ∷ bs) = b + 256 * little_endian bs

abbrev pub byte_at : Bytes → ℕ → ℕ
byte_at bs i = little_endian (take 1 (drop i bs))

pub record BiosParameterBlock : Type 0 where
  bytes_per_sector : ℕ
  sectors_per_cluster : ℕ
  reserved_sectors : ℕ
  num_fats : ℕ
  max_root_entries : ℕ
  sectors_per_fat : ℕ

abbrev pub bios_parameter_block_size : ℕ
bios_parameter_block_size = 51

unfoldable pub bios_parameter_block : Bytes → BiosParameterBlock
bios_parameter_block bs = record {
  bytes_per_sector = little_endian (take 2 bs);
  sectors_per_cluster = byte_at bs 2;
  reserved_sectors = little_endian (take 2 (drop 3 bs));
  num_fats = byte_at bs 5;
  max_root_entries = little_endian (take 2 (drop 6 bs));
  sectors_per_fat = little_endian (take 2 (drop 11 bs));
}

pub record DirectoryEntry : Type 0 where
  pub filename : Bytes
  pub extension : Bytes
  pub attribute : ℕ
  pub first_cluster : ℕ
  pub file_size : ℕ

abbrev pub directory_entry_size : ℕ
directory_entry_size = 32

unfoldable pub directory_entry : Bytes → DirectoryEntry
directory_entry bs = record {
  filename = take 8 bs;
  extension = take 3 (drop 8 bs);
  attribute = byte_at bs 11;
  first_cluster = little_endian (take 2 (drop 26 bs));
  file_size = little_endian (take 4 (drop 28 bs));
}

unfoldable pub get_root_directory_location : BiosParameterBlock → ℕ
get_root_directory_location bpb =
    let fat_sectors = bpb.num_fats * bpb.sectors_per_fat in
    (1 + bpb.reserved_sectors + fat_sectors) * bpb.bytes_per_sector % 2 ^ 64

-- `cluster - 2` wraps around for the clusters 0 and 1.
unfoldable pub get_offset_from_cluster : ℕ → BiosParameterBlock → ℕ
get_offset_from_cluster cluster bpb =
    (get_root_directory_location bpb
      + bpb.max_root_entries * directory_entry_size
      + (cluster + 2 ^ 64 - 2) % 2 ^ 64 * bpb.sectors_per_cluster * bpb.bytes_per_sector)
    % 2 ^ 64

abbrev pub subdirectory : ℕ
subdirectory = 0x10

-- HIDDEN | SYSTEM | VOLUME_LABEL
abbrev pub hidden_attributes : ℕ
hidden_attributes = 0xE

unfoldable pub is_directory : DirectoryEntry → Bool
is_directory entry = not (bit_and entry.attribute subdirectory == 0)

unfoldable pub is_hidden : DirectoryEntry → Bool
is_hidden entry =
    (byte_at entry.filename 0 == b'.')
    || ((byte_at entry.filename 1 == b'.')
        || ((entry.attribute == 0) || not (bit_and entry.attribute hidden_attributes == 0)))

abbrev pub deleted : ℕ
deleted = 0xE5

-- The loop over `filename`, and that over `extension`.
unfoldable pub copy_filename : Bytes → Bytes
copy_filename [] = []
copy_filename (c ∷ cs) =
    let rest = copy_filename cs in
    if c == b' ' then [] else (if c == deleted then b'?' else c) ∷ rest

unfoldable pub copy_extension : Bytes → Bytes
copy_extension [] = []
copy_extension (c ∷ cs) = let rest = copy_extension cs in if c == b' ' then [] else c ∷ rest

unfoldable pub get_file_name : DirectoryEntry → Bytes
get_file_name entry =
    let extension =
      if byte_at entry.extension 0 == b' ' then [] else b'.' ∷ copy_extension entry.extension in
    c_string (copy_filename entry.filename ++ extension)
