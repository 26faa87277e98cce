-- ===== src/Malloc.antt =====
-- malloc: the simulated memory, and the sizes of blocks.
pub mod Memlib
pub mod Sizes
pub mod Implicit
mod Tests
