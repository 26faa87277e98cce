-- ===== src/Malloc/Implicit/Free.antt =====
-- malloc/src/mm-implicit.c: mm_free on the list of blocks.
use mathlib.Core.Path.{subst}
use computer_systems.Prelude.{
  ℕ, ◌+◌, ◌-◌, ◌≤◌, ◌≡◌, refl, sym, ◌∙◌, Bool, true, false, ◌||◌, List, [], ◌∷◌, arith, ◌==◌,
  if◌then◌else◌, Bool-cases, inl, inr,
}
use computer_systems.Malloc.Sizes.{header_size}
use computer_systems.Malloc.Implicit.{Heap, get_size, set_header, mm_free}
use computer_systems.Malloc.Implicit.Blocks.{
  Block, AreBlocks, last_from-size, AreBlocks-same, unused_block, Holds, Holds-cons, Holds-tail,
  Keeps, Keeps-behind, read-size,
}
use computer_systems.Malloc.Implicit.Grow.{IsHeap, Keeps-IsHeap}

-- The address is the payload of one of the blocks.
unfoldable pub is_payload : ℕ → ℕ → List Block → Bool
is_payload ptr a [] = false
is_payload ptr a (b ∷ bs) = (a + 8 == ptr) || is_payload ptr (a + b.size) bs

-- The blocks with that block free.
unfoldable pub freed : ℕ → ℕ → Block → List Block → Block × List Block
freed ptr a p [] = if a + 8 == ptr then (unused_block p.size, []) else (p, [])
freed ptr a p (c ∷ cs) =
    let (next, others) = freed ptr (a + p.size) c cs in
    if a + 8 == ptr then (unused_block p.size, c ∷ cs) else (p, next ∷ others)

abbrev free_heap : ℕ → Heap → Heap
free_heap block h = set_header block (get_size block h) false h

record AfterFree (ptr a end : ℕ) (p : Block) (bs : List Block) (h h' : Heap) : Type 0 where
  holds : Holds a end (freed ptr a p bs).0 (freed ptr a p bs).1 h'
  keeps : Keeps a h h'

free-first :
    (a end : ℕ) (p : Block) (bs : List Block) (h : Heap)
    → Holds a end p bs h
    → Holds a end (unused_block p.size) bs (free_heap a h)
unfolding AreBlocks
free-first a end p bs h k =
    let (w, nonzero, even, rest) = k.blocks in
    record {
      blocks = (
        rw (read-size a end p bs h.words k.blocks) (ground arith),
        nonzero,
        even,
        AreBlocks-same h.words (free_heap a h).words (a + p.size) end bs (λ x l. ground arith) rest,
      );
      last = k.last ∙ last_from-size a p (unused_block p.size) bs refl;
    }

free-here :
    (ptr a end : ℕ) (p : Block) (bs : List Block) (h : Heap)
    → (a + 8 == ptr) ≡ true
    → Holds a end p bs h
    → AfterFree ptr a end p bs h (free_heap (ptr - header_size) h)
unfolding freed
free-here ptr a end p bs h here k =
    let block : a ≡ ptr - header_size = ground arith in
    subst (λ b. AfterFree ptr a end p bs h (free_heap b h)) block
      (record {
        holds =
            subst (λ m. Holds a end m.0 m.1 (free_heap a h)) (sym (go bs))
              (free-first a end p bs h k);
        keeps = record { words = λ x l. ground arith; first = refl; memory = refl };
      })
  where
    go : (ds : List Block) → freed ptr a p ds ≡ (unused_block p.size, ds)
    go [] = rw here refl
    go (d ∷ ds) = rw here refl

free-later :
    (ptr a end : ℕ) (p c : Block) (cs : List Block) (h h' : Heap)
    → (a + 8 == ptr) ≡ false
    → Holds a end p (c ∷ cs) h
    → AfterFree ptr (a + p.size) end c cs h h'
    → AfterFree ptr a end p (c ∷ cs) h h'
unfolding freed
free-later ptr a end p c cs h h' other k later =
    let m : freed ptr a p (c ∷ cs)
        ≡ (p, (freed ptr (a + p.size) c cs).0 ∷ (freed ptr (a + p.size) c cs).1) =
      rw other refl in
    record {
      holds =
          subst (λ bs. Holds a end bs.0 bs.1 h') (sym m)
            (Holds-cons a end p c cs h h' k later.keeps later.holds);
      keeps = Keeps-behind a p h h' later.keeps;
    }

free-AfterFree :
    (ptr a end : ℕ) (p : Block) (bs : List Block) (h : Heap)
    → is_payload ptr a (p ∷ bs) ≡ true
    → Holds a end p bs h
    → AfterFree ptr a end p bs h (free_heap (ptr - header_size) h)
unfolding is_payload
free-AfterFree ptr a end p [] h is k = elim (Bool-cases (a + 8 == ptr)) [
  | inl here ↦ free-here ptr a end p [] h here k
  | inr other ↦ absurd (ground arith)
]
free-AfterFree ptr a end p (c ∷ cs) h is k = elim (Bool-cases (a + 8 == ptr)) [
  | inl here ↦ free-here ptr a end p (c ∷ cs) h here k
  | inr other ↦
      let later : is_payload ptr (a + p.size) (c ∷ cs) ≡ true = rw other at is in
      free-later ptr a end p c cs h (free_heap (ptr - header_size) h) other k
        (free-AfterFree ptr (a + p.size) end c cs h later (Holds-tail a end p c cs h k))
]

is_payload-ge : (ptr a : ℕ) (bs : List Block) → is_payload ptr a bs ≡ true → a + 8 ≤ ptr
unfolding is_payload
is_payload-ge ptr a [] is = absurd (cc is)
is_payload-ge ptr a (b ∷ bs) is = elim (Bool-cases (a + 8 == ptr)) [
  | inl here ↦ ground arith
  | inr other ↦
      let below = is_payload-ge ptr (a + b.size) bs (rw other at is) in omega (arith, below)
]

-- On a heap of blocks, mm_free of the payload of a block leaves the same blocks but for that one, which is free.
pub mm_free-IsHeap :
    (ptr : ℕ) (p : Block) (bs : List Block) (h : Heap)
    → IsHeap p bs h
    → is_payload ptr h.mm_heap_first (p ∷ bs) ≡ true
    → IsHeap (freed ptr h.mm_heap_first p bs).0 (freed ptr h.mm_heap_first p bs).1 (mm_free ptr h)
      × ((mm_free ptr h).mm_heap_first ≡ h.mm_heap_first)
unfolding mm_free
mm_free-IsHeap ptr p bs h k is =
    let nonzero : (ptr == 0) ≡ false =
      ground (arith, is_payload-ge ptr h.mm_heap_first (p ∷ bs) is) in
    let result : free_heap (ptr - header_size) h ≡ mm_free ptr h = rw (mm_free, nonzero) refl in
    let f = free-AfterFree ptr h.mm_heap_first h.memory.mem_brk p bs h is k.holds in
    subst
      (λ (h' : Heap).
        IsHeap (freed ptr h.mm_heap_first p bs).0 (freed ptr h.mm_heap_first p bs).1 h'
        × (h'.mm_heap_first ≡ h.mm_heap_first))
      result (Keeps-IsHeap h (free_heap (ptr - header_size) h) k f.keeps f.holds, refl)
