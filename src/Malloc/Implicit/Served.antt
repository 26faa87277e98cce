-- ===== src/Malloc/Implicit/Served.antt =====
-- malloc/src/mm-implicit.c: mm_malloc and mm_free on the map of the blocks in use.
use mathlib.Core.Path.{subst}
use computer_systems.Prelude.{
  ℕ, ◌+◌, ◌-◌, ◌^◌, ◌≤◌, ◌<◌, ◌≡◌, refl, sym, ap, ◌∙◌, true, List, [], ◌∷◌, ◌++◌, Option, some,
  none, length, leb, arith, ◌==◌, if◌then◌else◌, Bool-cases, inl, inr,
}
use computer_systems.Malloc.Memlib.{MemoryModel, max_heap}
use computer_systems.Malloc.Sizes.{implicit_size, sizes-bounds}
use computer_systems.Malloc.Implicit.{Heap, mm_malloc, mm_free}
use computer_systems.Malloc.Implicit.Blocks.{Block, AreBlocks}
use computer_systems.Malloc.Implicit.Grow.{IsHeap}
use computer_systems.Malloc.Implicit.Coalesce.{merged, coalesce_blocks-merged}
use computer_systems.Malloc.Implicit.Fit.{fit_at}
use computer_systems.Malloc.Implicit.Place.{used_block, split_at_fit}
use computer_systems.Malloc.Implicit.Requests.{chosen, malloc_blocks, mm_malloc-Leaves}
use computer_systems.Malloc.Implicit.Free.{is_payload, freed, mm_free-IsHeap}
use computer_systems.Malloc.Implicit.Live.{
  live, live-merged, live-snoc, live-split_at_fit, live-freed,
}

-- The blocks in use behind a request: without an address they are the same, and with an address there is one more, with
-- that payload and room for the request and the header.
abbrev pub Serves : ℕ → ℕ → Block → List Block → Option ℕ → Block × List Block → Type 0
Serves request first p bs none q = (x : ℕ) → live x first (q.0 ∷ q.1) ≡ live x first (p ∷ bs)
Serves request first p bs (some ptr) q =
    (given : ℕ) × (request + 8 ≤ given)
    × ((x : ℕ)
        → live x first (q.0 ∷ q.1) ≡ (if x + 8 == ptr then some given else live x first (p ∷ bs)))

module _ (request size a : ℕ) (memory : MemoryModel) (p : Block) (bs : List Block) (words : ℕ → ℕ)
    (room : request + 8 ≤ size) (h : AreBlocks words a memory.mem_brk (p ∷ bs)) where
  chosen-Serves : Serves request a p bs (chosen size a memory p bs).0 (chosen size a memory p bs).1
  unfolding chosen
  chosen-Serves = go (fit_at size a (p ∷ bs)) refl
    where
      go :
          (r : Option ℕ)
          → fit_at size a (p ∷ bs) ≡ r
          → Serves request a p bs (chosen size a memory p bs).0 (chosen size a memory p bs).1
      go (some block) f =
          let added = live-split_at_fit words size a memory.mem_brk block p bs h f in
          let o : chosen size a memory p bs ≡ (some (block + 8), split_at_fit size p bs) =
            rw (chosen, f) refl in
          subst (λ (o : Option ℕ × (Block × List Block)). Serves request a p bs o.0 o.1) (sym o)
            (
              added.given,
              omega (arith, added.large),
              λ x.
                  let same : (x + 8 == (block + 8)) ≡ (block == x) = ground arith in
                  rw same (added.map x),
            )
      go none f = elim (Bool-cases (leb (memory.mem_brk + size) (memory.heap + max_heap))) [
        | inl more ↦
            let o : chosen size a memory p bs
                ≡ (some (memory.mem_brk + 8), (p, bs ++ used_block size ∷ [])) =
              rw (chosen, f, more) refl in
            subst (λ (o : Option ℕ × (Block × List Block)). Serves request a p bs o.0 o.1) (sym o)
              (
                size,
                room,
                λ x.
                    let same : (x + 8 == (memory.mem_brk + 8)) ≡ (memory.mem_brk == x) =
                      ground arith in
                    rw same (live-snoc words x a memory.mem_brk size (p ∷ bs) h),
              )
        | inr full ↦
            let o : chosen size a memory p bs ≡ (none, (p, bs)) = rw (chosen, f, full) refl in
            subst (λ (o : Option ℕ × (Block × List Block)). Serves request a p bs o.0 o.1) (sym o)
              (λ x. refl)
      ]

Serves-merged :
    (request a : ℕ) (p : Block) (bs : List Block) (ptr : Option ℕ) (q : Block × List Block)
    → Serves request a (merged p bs).0 (merged p bs).1 ptr q
    → Serves request a p bs ptr q
Serves-merged request a p bs none q h = λ x. h x ∙ live-merged x a p bs
Serves-merged request a p bs (some ptr) q (given, large, map) = (
  given,
  large,
  λ x. map x ∙ ap (λ m. if x + 8 == ptr then some given else m) (live-merged x a p bs),
)

-- The call returns, and leaves a heap of blocks in which one more is in use if it has returned an address.
pub record Served (request : ℕ) (p : Block) (bs : List Block) (h : Heap)
    (result : Option (Option ℕ × Heap)) : Type 0 where
  pub ptr : Option ℕ
  pub heap : Heap
  pub blocks : Block × List Block
  pub returns : result ≡ some (ptr, heap)
  pub is_heap : IsHeap blocks.0 blocks.1 heap
  pub start : heap.mm_heap_first ≡ h.mm_heap_first
  pub serves : Serves request h.mm_heap_first p bs ptr blocks

-- On a heap of blocks, for a request of up to 2^64 - 32 bytes and with a round for each block and two more, mm_malloc
-- returns and leaves a heap of blocks. If it returns NULL, the blocks in use are the same. If not, there is one more in
-- use, with the payload that it returns and room for the request and a header, and all others keep their places and sizes.
pub mm_malloc-Served :
    (n request : ℕ) (p : Block) (bs : List Block) (h : Heap)
    → length bs + 1 < n
    → request ≤ 2 ^ 64 - 32
    → IsHeap p bs h
    → Served request p bs h (mm_malloc n request h)
mm_malloc-Served n request p bs h rounds small k =
    let size = implicit_size request in
    let ((room, near, multiple), _) = sizes-bounds request small in
    let l = mm_malloc-Leaves n request p bs h rounds small k in
    let brk_bound : h.memory.mem_brk < 2 ^ 64 = omega (arith, k.inside, k.bound) in
    let c =
      coalesce_blocks-merged n h.memory.mem_brk p bs h (omega arith) k.first brk_bound k.holds in
    record {
      ptr = (malloc_blocks size h p bs).0;
      heap = l.heap;
      blocks = (malloc_blocks size h p bs).1;
      returns = l.returns;
      is_heap = l.is_heap;
      start = l.start;
      serves =
          Serves-merged request h.mm_heap_first p bs (malloc_blocks size h p bs).0
            (malloc_blocks size h p bs).1
            (chosen-Serves request size h.mm_heap_first h.memory (merged p bs).0 (merged p bs).1
              c.heap.words room c.holds.blocks);
    }

-- On a heap of blocks, mm_free of the payload of a block leaves a heap of blocks in which that block is not in use and
-- all others are as they were.
pub mm_free-live :
    (ptr : ℕ) (p : Block) (bs : List Block) (h : Heap)
    → IsHeap p bs h
    → is_payload ptr h.mm_heap_first (p ∷ bs) ≡ true
    → (q : Block × List Block) × IsHeap q.0 q.1 (mm_free ptr h)
      × ((x : ℕ)
          → live x h.mm_heap_first (q.0 ∷ q.1)
            ≡ (if x + 8 == ptr then none else live x h.mm_heap_first (p ∷ bs)))
mm_free-live ptr p bs h k is = (
  freed ptr h.mm_heap_first p bs,
  (mm_free-IsHeap ptr p bs h k is).0,
  λ x. live-freed h.words x ptr h.mm_heap_first h.memory.mem_brk p bs k.holds.blocks,
)
