-- ===== src/Fat16.antt =====
-- file-directory-tree: the tree of a directory and the recovery of a FAT16 image.
pub mod Tree
pub mod Disk
pub mod Recover
mod Tests
