-- ===== src/Malloc/Memlib.antt =====
-- malloc/src/memlib.c: the memory that an allocator works on. An address is a number.
pub mod Regions
use computer_systems.Prelude.{
  ℕ, ◌+◌, ◌-◌, ◌*◌, ◌^◌, Bool, true, ◌&&◌, ◌||◌, Option, none, some, ltb, leb, if◌then◌else◌,
}
use computer_systems.Prelude.Int.{ℤ, pos, pos_part, ltb_ℤ}

-- 100 MB
abbrev pub max_heap : ℕ
max_heap = 100 * 2 ^ 20

pub record MemoryModel : Type 0 where
  pub heap : ℕ
  pub mem_brk : ℕ
  pub bytes : ℕ → ℕ

abbrev pub mem_reset_brk : Bool → MemoryModel → MemoryModel
mem_reset_brk clear m = record {
  heap = m.heap;
  mem_brk = m.heap;
  bytes = λ a. if clear && (leb m.heap a && ltb a (m.heap + max_heap)) then 0xCC else m.bytes a;
}

-- mmap gives the address; its bytes are zero.
abbrev pub mem_init : ℕ → MemoryModel
mem_init heap = mem_reset_brk true (record { heap = heap; mem_brk = heap; bytes = λ a. 0 })

-- (void *) -1 is none.
unfoldable pub mem_sbrk : ℤ → MemoryModel → Option ℕ × MemoryModel
mem_sbrk incr m =
    if ltb_ℤ incr (pos 0) || ltb (m.heap + max_heap) (m.mem_brk + pos_part incr)
    then (none, m)
    else (
      some m.mem_brk,
      record { heap = m.heap; mem_brk = m.mem_brk + pos_part incr; bytes = m.bytes },
    )

abbrev pub mem_heap_lo : MemoryModel → ℕ
mem_heap_lo m = m.heap

abbrev pub mem_heap_hi : MemoryModel → ℕ
mem_heap_hi m = m.mem_brk - 1

abbrev pub mem_heapsize : MemoryModel → ℕ
mem_heapsize m = m.mem_brk - m.heap
