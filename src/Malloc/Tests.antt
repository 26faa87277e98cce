-- ===== src/Malloc/Tests.antt =====
-- malloc: the theorems on concrete memories and sizes.
use computer_systems.Prelude.{◌+◌, ◌-◌, ◌^◌, ◌≤◌, ◌<◌, ◌%◌, ◌≡◌, refl, [], ◌∷◌, arith}
use computer_systems.Prelude.Int.{pos, negsuc}
use computer_systems.Malloc.Memlib.{MemoryModel, max_heap, mem_init, mem_sbrk}
use computer_systems.Malloc.Memlib.Regions.{
  Grown, AreApart, regions, mem_sbrk-Grown, regions-AreApart,
}
use computer_systems.Malloc.Sizes.{
  alignment, implicit_size, explicit_size, sizes-bounds, implicit_size-wraps,
}

-- The address that mem_init asks for.
abbrev fresh_memory : MemoryModel
fresh_memory = mem_init 34359738368

mem_sbrk-Grown_example : Grown (pos 64) fresh_memory (mem_sbrk (pos 64) fresh_memory)
mem_sbrk-Grown_example = mem_sbrk-Grown (pos 64) fresh_memory (omega arith, omega arith)

-- The request that is too large and the negative one are refused.
test_regions :
    regions (pos 8 ∷ pos 32 ∷ pos (2 ^ 30) ∷ negsuc 0 ∷ pos 16 ∷ []) fresh_memory
    ≡ (34359738368, 8) ∷ (34359738376, 32) ∷ (34359738408, 16) ∷ []
unfolding regions mem_sbrk
test_regions = refl

regions-AreApart_example :
    AreApart 34359738368
      (34359738368 + max_heap)
      (regions (pos 8 ∷ pos 32 ∷ pos (2 ^ 30) ∷ negsuc 0 ∷ pos 16 ∷ []) fresh_memory)
regions-AreApart_example =
    regions-AreApart (pos 8 ∷ pos 32 ∷ pos (2 ^ 30) ∷ negsuc 0 ∷ pos 16 ∷ []) fresh_memory
      (omega arith, omega arith)

sizes-bounds_example :
    ((33 ≤ implicit_size 25) × (implicit_size 25 < 49) × (implicit_size 25 % alignment ≡ 0))
    × ((41 ≤ explicit_size 25) × (explicit_size 25 < 57) × (explicit_size 25 % alignment ≡ 0))
sizes-bounds_example = sizes-bounds 25 (omega arith)

implicit_size-wraps_example : implicit_size (2 ^ 64 - 16) ≡ 0
implicit_size-wraps_example = implicit_size-wraps (2 ^ 64 - 16) (omega arith) (omega arith)
