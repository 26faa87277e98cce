-- ===== src/Malloc/Implicit/Tests.antt =====
-- malloc/src/mm-implicit.c: the theorems on a heap of three blocks.
use computer_systems.Prelude.{ℕ, ◌+◌, ◌≡◌, refl, List, [], ◌∷◌, none, arith, if◌then◌else◌, ◌==◌}
use computer_systems.Malloc.Implicit.{Heap, header, coalesce_blocks, mm_malloc, mm_free}
use computer_systems.Malloc.Implicit.Blocks.{Block, AreBlocks, last_from, unused_block}
use computer_systems.Malloc.Implicit.Coalesce.{Coalesced, coalesce_blocks-merged}
use computer_systems.Malloc.Implicit.Place.{used_block}
use computer_systems.Malloc.Implicit.Grow.{IsHeap}
use computer_systems.Malloc.Implicit.Free.{is_payload}
use computer_systems.Malloc.Implicit.Live.{live}
use computer_systems.Malloc.Implicit.Served.{Served, mm_malloc-Served, mm_free-live}

-- A used block at 24, and free ones at 56 and 88.
abbrev three : Heap
three = record {
  words = λ x. if x == 24 then 33 else 32;
  mm_heap_first = 24;
  mm_heap_last = 88;
  memory = record { heap = 16; mem_brk = 120; bytes = λ a. 0 };
}

abbrev others : List Block
others = unused_block 32 ∷ unused_block 32 ∷ []

three-IsHeap : IsHeap (used_block 32) others three
unfolding AreBlocks last_from header
three-IsHeap = record {
  first = omega arith;
  holds = record {
    blocks = (refl, omega arith, refl, (refl, omega arith, refl, (refl, omega arith, refl, refl)));
    last = refl;
  };
  inside = omega arith;
  bound = omega arith;
}

coalesce_blocks-merged_example :
    Coalesced 24 120 (used_block 32) others three (coalesce_blocks 5 three)
coalesce_blocks-merged_example =
    coalesce_blocks-merged 5 120 (used_block 32) others three (omega arith) (omega arith)
      (omega arith) (three-IsHeap.holds)

mm_malloc-Served_example : Served 40 (used_block 32) others three (mm_malloc 5 40 three)
mm_malloc-Served_example =
    mm_malloc-Served 5 40 (used_block 32) others three (omega arith) (omega arith) three-IsHeap

mm_free-live_example :
    (q : Block × List Block) × IsHeap q.0 q.1 (mm_free 32 three)
    × ((x : ℕ)
        → live x 24 (q.0 ∷ q.1)
          ≡ (if x + 8 == 32 then none else live x 24 (used_block 32 ∷ others)))
unfolding is_payload
mm_free-live_example = mm_free-live 32 (used_block 32) others three three-IsHeap refl
