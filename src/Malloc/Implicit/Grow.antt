-- ===== src/Malloc/Implicit/Grow.antt =====
-- malloc/src/mm-implicit.c: the blocks up to the break, and a new block at it.
use mathlib.Core.Path.{subst}
use computer_systems.Prelude.{
  ℕ, ◌+◌, ◌-◌, ◌%◌, ◌^◌, ◌≤◌, ◌<◌, ◌≡◌, refl, sym, ap, ◌∙◌, true, false, List, [], ◌∷◌, ◌++◌, some,
  none, ltb, leb, arith, ◌==◌, Bool-cases, inl, inr,
}
use computer_systems.Prelude.Int.{pos, negsuc}
use computer_systems.Malloc.Memlib.{MemoryModel, max_heap, mem_sbrk}
use computer_systems.Malloc.Implicit.{Heap, header, set_header, to_intptr, add_block, extend}
use computer_systems.Malloc.Implicit.Blocks.{
  Block, AreBlocks, last_from, AreBlocks-le, Holds, Keeps,
}
use computer_systems.Malloc.Implicit.Place.{used_block}

-- The blocks fill the memory from the first one up to the break.
pub record IsHeap (p : Block) (bs : List Block) (h : Heap) : Type 0 where
  pub first : 0 < h.mm_heap_first
  pub holds : Holds h.mm_heap_first h.memory.mem_brk p bs h
  pub inside : h.memory.mem_brk ≤ h.memory.heap + max_heap
  pub bound : h.memory.heap + max_heap < 2 ^ 63

pub Keeps-IsHeap :
    (h h' : Heap) {p q : Block} {bs qs : List Block}
    → IsHeap p bs h
    → Keeps h.mm_heap_first h h'
    → Holds h.mm_heap_first h.memory.mem_brk q qs h'
    → IsHeap q qs h'
Keeps-IsHeap h h' {q} {qs} k same holds = record {
  first = omega (arith, k.first, same.first);
  holds =
      subst (λ a. Holds a h'.memory.mem_brk q qs h') (sym same.first)
        (subst (λ (m : MemoryModel). Holds h.mm_heap_first m.mem_brk q qs h') (sym same.memory)
          holds);
  inside = subst (λ (m : MemoryModel). m.mem_brk ≤ m.heap + max_heap) (sym same.memory) k.inside;
  bound = subst (λ (m : MemoryModel). m.heap + max_heap < 2 ^ 63) (sym same.memory) k.bound;
}

AreBlocks-snoc :
    (words words' : ℕ → ℕ) (a end size : ℕ) (bs : List Block)
    → 0 < size
    → size % 2 ≡ 0
    → ((x : ℕ) → x < end → words' x ≡ words x)
    → words' end ≡ header size true
    → AreBlocks words a end bs
    → AreBlocks words' a (end + size) (bs ++ used_block size ∷ [])
unfolding AreBlocks
AreBlocks-snoc words words' a end size [] large even same e h =
    (ap words' h ∙ e, large, even, omega arith)
AreBlocks-snoc words words' a end size (b ∷ bs) large even same e (w, nonzero, ev, rest) =
    let below = AreBlocks-le words (a + b.size) end bs rest in
    (
      same a (omega arith) ∙ w,
      nonzero,
      ev,
      AreBlocks-snoc words words' (a + b.size) end size bs large even same e rest,
    )

last_from-snoc :
    (words : ℕ → ℕ) (a end : ℕ) (p c : Block) (bs : List Block)
    → AreBlocks words a end (p ∷ bs)
    → last_from a p (bs ++ c ∷ []) ≡ end
unfolding AreBlocks last_from
last_from-snoc words a end p c [] (w, nonzero, ev, rest) = rest
last_from-snoc words a end p c (b ∷ bs) (w, nonzero, ev, rest) =
    last_from-snoc words (a + p.size) end b c bs rest

module _ (size : ℕ) (p : Block) (bs : List Block) (h : Heap) (large : 0 < size)
    (even : size % 2 ≡ 0) (small : size < 2 ^ 64) (k : IsHeap p bs h) where
  to_intptr-small : ltb size (2 ^ 63) ≡ true → to_intptr size ≡ pos size
  to_intptr-small s = rw s refl

  to_intptr-large : ltb size (2 ^ 63) ≡ false → to_intptr size ≡ negsuc (2 ^ 64 - 1 - size)
  to_intptr-large s = rw s refl

  mem_sbrk-none :
      leb (h.memory.mem_brk + size) (h.memory.heap + max_heap) ≡ false
      → mem_sbrk (to_intptr size) h.memory ≡ (none, h.memory)
  unfolding mem_sbrk
  mem_sbrk-none full = elim (Bool-cases (ltb size (2 ^ 63))) [
    | inl s ↦ rw (to_intptr-small s) (ground arith)
    | inr s ↦ rw (to_intptr-large s) (ground arith)
  ]

  mem_sbrk-some :
      leb (h.memory.mem_brk + size) (h.memory.heap + max_heap) ≡ true
      → mem_sbrk (to_intptr size) h.memory
        ≡ (some h.memory.mem_brk, record h.memory { mem_brk = h.memory.mem_brk + size })
  unfolding mem_sbrk
  mem_sbrk-some room = rw (to_intptr-small (ground (arith, k.bound))) (ground arith)

  pub extend-refused :
      leb (h.memory.mem_brk + size) (h.memory.heap + max_heap) ≡ false → extend size h ≡ (none, h)
  unfolding extend
  extend-refused full = ap (add_block size h) (mem_sbrk-none full)

  abbrev pub longer : Heap
  longer = set_header h.memory.mem_brk size true (record h {
    memory = record h.memory { mem_brk = h.memory.mem_brk + size };
    mm_heap_last = h.memory.mem_brk;
  })

  pub extend-longer :
      leb (h.memory.mem_brk + size) (h.memory.heap + max_heap) ≡ true
      → extend size h ≡ (some (h.memory.mem_brk + 8), longer)
  unfolding extend
  extend-longer room =
      let old : (h.mm_heap_first == 0) ≡ false = ground (arith, k.first) in
      ap (add_block size h) (mem_sbrk-some room) ∙ rw old refl

  pub longer-IsHeap :
      leb (h.memory.mem_brk + size) (h.memory.heap + max_heap) ≡ true
      → IsHeap p (bs ++ used_block size ∷ []) longer
  longer-IsHeap room = record {
    first = k.first;
    holds = record {
      blocks =
          AreBlocks-snoc h.words longer.words h.mm_heap_first h.memory.mem_brk size (p ∷ bs) large
            even (λ x l. ground arith) (ground arith) k.holds.blocks;
      last = sym (
          last_from-snoc h.words h.mm_heap_first h.memory.mem_brk p (used_block size) bs
            k.holds.blocks);
    };
    inside = ground arith;
    bound = k.bound;
  }
