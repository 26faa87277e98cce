-- ===== src/Malloc/Memlib/Regions.antt =====
-- malloc/src/memlib.c: the regions that calls of mem_sbrk give.
use computer_systems.Prelude.{
  ℕ, suc, sym, ◌+◌, ◌≤◌, ◌≡◌, refl, inl, inr, true, false, List, [], ◌∷◌, Option, none, some, arith,
  ltb, Bool-cases,
}
use computer_systems.Prelude.Int.{ℤ, pos, negsuc, pos_part, neg_part}
use computer_systems.Malloc.Memlib.{MemoryModel, max_heap, mem_sbrk, mem_heapsize}

-- The break is in the heap.
abbrev pub IsMemory : MemoryModel → Type 0
IsMemory m = (m.heap ≤ m.mem_brk) × (m.mem_brk ≤ m.heap + max_heap)

-- A request that can be met.
abbrev pub Fits : ℤ → MemoryModel → Type 0
Fits incr m = (neg_part incr ≡ 0) × (mem_heapsize m + pos_part incr ≤ max_heap)

-- What a call does.
pub data Grown (incr : ℤ) (m : MemoryModel) : Option ℕ × MemoryModel → Type 0 where
  refused : ¬ Fits incr m → Grown incr m (none, m)
  grown :
      {after : MemoryModel}
      → Fits incr m
      → after.heap ≡ m.heap
      → after.mem_brk ≡ m.mem_brk + pos_part incr
      → after.bytes ≡ m.bytes
      → IsMemory after
      → Grown incr m (some m.mem_brk, after)

-- mem_sbrk refuses exactly the requests that are negative or that exceed what is left of the heap, and
-- then changes nothing. Any other call returns the old break and moves it by the request, leaves
-- the bytes as they are, and the break stays in the heap.
pub mem_sbrk-Grown : (incr : ℤ) (m : MemoryModel) → IsMemory m → Grown incr m (mem_sbrk incr m)
unfolding mem_sbrk
mem_sbrk-Grown (negsuc n) m h =
    let negative : ltb 0 (0 + suc n) ≡ true = ground arith in
    rw negative (refused (λ (z, _). absurd (omega arith)))
mem_sbrk-Grown (pos n) m h =
    let positive : ltb (n + 0) 0 ≡ false = ground arith in
    elim (Bool-cases (ltb (m.heap + max_heap) (m.mem_brk + n))) [
      | inl over ↦ rw (positive, over) (refused (λ (_, fits). absurd (ground arith)))
      | inr enough ↦
          rw (positive, enough)
            (grown (refl, ground arith) refl refl refl (omega arith, ground arith))
    ]

-- The calls one behind the other: the regions that they give, as an address and a length.
unfoldable pub regions : List ℤ → MemoryModel → List (ℕ × ℕ)
regions [] m = []
regions (incr ∷ incrs) m =
    let (result, after) = mem_sbrk incr m in
    let others = regions incrs after in
    elim result [ none ↦ others | some p ↦ (p, pos_part incr) ∷ others ]

-- Regions between two addresses, each behind the one before it.
abbrev pub AreApart : ℕ → ℕ → List (ℕ × ℕ) → Type 0
AreApart low high [] = low ≤ high
AreApart low high ((p, n) ∷ rs) = (low ≤ p) × AreApart (p + n) high rs

-- The region of one call, if it gives one, in front of those of the calls behind it.
region_first :
    (incr : ℤ) (m : MemoryModel) {call : Option ℕ × MemoryModel}
    (others : MemoryModel → List (ℕ × ℕ))
    → IsMemory m
    → Grown incr m call
    → ((n : MemoryModel) → IsMemory n → AreApart n.mem_brk (n.heap + max_heap) (others n))
    → AreApart m.mem_brk
        (m.heap + max_heap)
        (elim call.0 [ none ↦ others call.1 | some p ↦ (p, pos_part incr) ∷ others call.1 ])
region_first incr m others h (refused _) later = later m h
region_first incr m others h (grown _ same moved _ is) later =
    (omega arith, rw (sym moved, sym same) (later _ is))

-- The regions that mem_sbrk gives in any sequence of calls, refused ones among them, lie between the
-- break before the first call and the end of the heap, and each behind the one before it, so no two
-- of them share a byte.
pub regions-AreApart :
    (incrs : List ℤ) (m : MemoryModel)
    → IsMemory m
    → AreApart m.mem_brk (m.heap + max_heap) (regions incrs m)
unfolding regions
regions-AreApart [] m (_, h) = h
regions-AreApart (incr ∷ incrs) m h =
    region_first incr m (regions incrs) h (mem_sbrk-Grown incr m h)
      (λ n is. regions-AreApart incrs n is)
