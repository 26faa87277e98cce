-- ===== src/Malloc/Implicit/Requests.antt =====
-- malloc/src/mm-implicit.c: mm_malloc on the list of blocks.
use mathlib.Core.Path.{subst}
use computer_systems.Prelude.{
  ℕ, ◌+◌, ◌-◌, ◌%◌, ◌^◌, ◌≤◌, ◌<◌, ◌≡◌, refl, sym, ap, ◌∙◌, true, false, not, ◌&&◌, List, [], ◌∷◌,
  ◌++◌, Option, some, none, length, leb, arith, if◌then◌else◌, Bool-cases, inl, inr,
}
use computer_systems.Prelude.Options.{◌>>=◌}
use computer_systems.Malloc.Memlib.{MemoryModel, max_heap}
use computer_systems.Malloc.Sizes.{implicit_size, sizes-bounds}
use computer_systems.Malloc.Implicit.{Heap, find_fit, extend, place, mm_malloc}
use computer_systems.Malloc.Implicit.Blocks.{Block, unused_block}
use computer_systems.Malloc.Implicit.Coalesce.{merged, coalesce_blocks-merged}
use computer_systems.Malloc.Implicit.Fit.{fit_at, fit_loop-first}
use computer_systems.Malloc.Implicit.Place.{used_block, split_at_fit, place-Placed}
use computer_systems.Malloc.Implicit.Grow.{
  IsHeap, Keeps-IsHeap, extend-refused, extend-longer, longer, longer-IsHeap,
}

-- The address for a request and the blocks behind it: the first block that fits is taken, and if there is none the
-- memory grows by one, where it has room.
unfoldable pub chosen : ℕ → ℕ → MemoryModel → Block → List Block → Option ℕ × (Block × List Block)
chosen size first memory q qs = elim (fit_at size first (q ∷ qs)) [
  | some block ↦ (some (block + 8), split_at_fit size q qs)
  | none ↦
      if leb (memory.mem_brk + size) (memory.heap + max_heap)
      then (some (memory.mem_brk + 8), (q, qs ++ used_block size ∷ []))
      else (none, (q, qs))
]

-- What mm_malloc is to return, and the blocks that it is to leave.
abbrev pub malloc_blocks : ℕ → Heap → Block → List Block → Option ℕ × (Block × List Block)
malloc_blocks size h p bs = let m = merged p bs in chosen size h.mm_heap_first h.memory m.0 m.1

merged-length : (p : Block) (bs : List Block) → length (merged p bs).1 ≤ length bs
unfolding merged
merged-length p [] = omega arith
merged-length p (c ∷ cs) = elim (Bool-cases (not p.used && not c.used)) [
  | inl both ↦ rw both (omega (arith, merged-length (unused_block (p.size + c.size)) cs))
  | inr other ↦ rw other (omega (arith, merged-length c cs))
]

-- The call returns the address, and leaves a heap of the blocks with the same beginning.
pub record Leaves (first : ℕ) (result : Option (Option ℕ × Heap))
    (outcome : Option ℕ × (Block × List Block)) : Type 0 where
  pub heap : Heap
  pub returns : result ≡ some (outcome.0, heap)
  pub is_heap : IsHeap outcome.1.0 outcome.1.1 heap
  pub start : heap.mm_heap_first ≡ first

-- What mm_malloc does behind coalesce_blocks.
abbrev choose : ℕ → ℕ → Heap → Option (Option ℕ × Heap)
choose n size h = find_fit n size h >>= λ block. elim block [
  | some b ↦ let (ptr, h₂) = place b size h in some (some ptr, h₂)
  | none ↦ some (extend size h)
]

module _ (n size : ℕ) (q : Block) (qs : List Block) (h : Heap) (large : 0 < size)
    (even : size % 2 ≡ 0) (small : size < 2 ^ 64) (k : IsHeap q qs h) where
  chosen-longer :
      fit_at size h.mm_heap_first (q ∷ qs) ≡ none
      → leb (h.memory.mem_brk + size) (h.memory.heap + max_heap) ≡ true
      → chosen size h.mm_heap_first h.memory q qs
        ≡ (some (h.memory.mem_brk + 8), (q, qs ++ used_block size ∷ []))
  unfolding chosen
  chosen-longer f room = rw (chosen, f, room) refl

  chosen-full :
      fit_at size h.mm_heap_first (q ∷ qs) ≡ none
      → leb (h.memory.mem_brk + size) (h.memory.heap + max_heap) ≡ false
      → chosen size h.mm_heap_first h.memory q qs ≡ (none, (q, qs))
  unfolding chosen
  chosen-full f full = rw (chosen, f, full) refl

  chosen-block :
      (block : ℕ)
      → fit_at size h.mm_heap_first (q ∷ qs) ≡ some block
      → chosen size h.mm_heap_first h.memory q qs ≡ (some (block + 8), split_at_fit size q qs)
  unfolding chosen
  chosen-block block f = rw (chosen, f) refl

  abbrev finish : Option ℕ → Option (Option ℕ × Heap)
  finish none = some (extend size h)
  finish (some b) = some (some (place b size h).0, (place b size h).1)

  choose-finish :
      (block : Option ℕ) → find_fit n size h ≡ some block → choose n size h ≡ finish block
  choose-finish none g = ap (λ m. m >>= finish) g
  choose-finish (some b) g = ap (λ m. m >>= finish) g

  choose-none :
      fit_at size h.mm_heap_first (q ∷ qs) ≡ none
      → find_fit n size h ≡ some none
      → Leaves h.mm_heap_first (choose n size h) (chosen size h.mm_heap_first h.memory q qs)
  choose-none f g = elim (Bool-cases (leb (h.memory.mem_brk + size) (h.memory.heap + max_heap))) [
    | inl room ↦
        subst (Leaves h.mm_heap_first (choose n size h)) (sym (chosen-longer f room)) (record {
          heap = longer size q qs h large even small k;
          returns =
              choose-finish none g ∙ ap some (extend-longer size q qs h large even small k room);
          is_heap = longer-IsHeap size q qs h large even small k room;
          start = refl;
        })
    | inr full ↦
        subst (Leaves h.mm_heap_first (choose n size h)) (sym (chosen-full f full)) (record {
          heap = h;
          returns =
              choose-finish none g ∙ ap some (extend-refused size q qs h large even small k full);
          is_heap = k;
          start = refl;
        })
  ]

  choose-some :
      (block : ℕ)
      → fit_at size h.mm_heap_first (q ∷ qs) ≡ some block
      → find_fit n size h ≡ some (some block)
      → Leaves h.mm_heap_first (choose n size h) (chosen size h.mm_heap_first h.memory q qs)
  choose-some block f g =
      let brk_bound : h.memory.mem_brk < 2 ^ 64 = omega (arith, k.inside, k.bound) in
      let placed =
        place-Placed size h.mm_heap_first h.memory.mem_brk block q qs h even large brk_bound k.holds
          f in
      subst (Leaves h.mm_heap_first (choose n size h)) (sym (chosen-block block f)) (record {
        heap = (place block size h).1;
        returns =
            choose-finish (some block) g
            ∙ ap (λ b. some (some b, (place block size h).1)) placed.payload;
        is_heap = Keeps-IsHeap h (place block size h).1 k placed.keeps placed.holds;
        start = placed.keeps.first;
      })

  choose-Leaves :
      length qs + 1 < n
      → Leaves h.mm_heap_first (choose n size h) (chosen size h.mm_heap_first h.memory q qs)
  choose-Leaves rounds =
      go (fit_at size h.mm_heap_first (q ∷ qs)) refl
        (fit_loop-first n size h.mm_heap_first h.memory.mem_brk q qs h rounds k.first k.holds)
    where
      go :
          (r : Option ℕ)
          → fit_at size h.mm_heap_first (q ∷ qs) ≡ r
          → find_fit n size h ≡ some (fit_at size h.mm_heap_first (q ∷ qs))
          → Leaves h.mm_heap_first (choose n size h) (chosen size h.mm_heap_first h.memory q qs)
      go none f g = choose-none f (g ∙ ap some f)
      go (some block) f g = choose-some block f (g ∙ ap some f)

-- On a heap of blocks, for a request of up to 2^64 - 32 bytes and with a round for each block and two more, mm_malloc
-- puts free neighbours together, returns the payload of the first block that is large enough or of a new one at the
-- end, or NULL where the memory is full, and leaves a heap of the blocks that these are to be.
pub mm_malloc-Leaves :
    (n request : ℕ) (p : Block) (bs : List Block) (h : Heap)
    → length bs + 1 < n
    → request ≤ 2 ^ 64 - 32
    → IsHeap p bs h
    → Leaves h.mm_heap_first (mm_malloc n request h) (malloc_blocks (implicit_size request) h p bs)
unfolding mm_malloc
mm_malloc-Leaves n request p bs h rounds small k =
    let ((fits_request, near, multiple), _) = sizes-bounds request small in
    let size = implicit_size request in
    let brk_bound : h.memory.mem_brk < 2 ^ 64 = omega (arith, k.inside, k.bound) in
    let c =
      coalesce_blocks-merged n h.memory.mem_brk p bs h (omega arith) k.first brk_bound k.holds in
    let k₁ = Keeps-IsHeap h c.heap k c.keeps c.holds in
    let left =
      choose-Leaves n size (merged p bs).0 (merged p bs).1 c.heap (omega (arith, fits_request))
        (omega (arith, multiple)) (omega (arith, near)) k₁ (omega (arith, merged-length p bs)) in
    let same : mm_malloc n request h ≡ choose n size c.heap =
      ap (λ m. m >>= choose n size) c.returns in
    let outcome : chosen size c.heap.mm_heap_first c.heap.memory (merged p bs).0 (merged p bs).1
        ≡ malloc_blocks size h p bs =
      ap (λ a. chosen size a c.heap.memory (merged p bs).0 (merged p bs).1) c.keeps.first
      ∙ ap (λ m. chosen size h.mm_heap_first m (merged p bs).0 (merged p bs).1) c.keeps.memory in
    record {
      heap = left.heap;
      returns =
          same
          ∙ left.returns
          ∙ ap (λ (o : Option ℕ × (Block × List Block)). some (o.0, left.heap)) outcome;
      is_heap =
          subst (λ (o : Option ℕ × (Block × List Block)). IsHeap o.1.0 o.1.1 left.heap) outcome
            left.is_heap;
      start = left.start ∙ c.keeps.first;
    }
