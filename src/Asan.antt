-- ===== src/Asan.antt =====
-- signal-handler: an allocator that gives every block pages of its own, between pages without access.
pub mod Heap
pub mod Block
pub mod Leaks
mod Tests
