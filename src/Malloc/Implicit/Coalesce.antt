-- ===== src/Malloc/Implicit/Coalesce.antt =====
-- malloc/src/mm-implicit.c: `coalesce_blocks` against the list of blocks that it is to leave.
use mathlib.Core.Path.{subst}
use computer_systems.Prelude.{
  ℕ, zero, suc, ◌+◌, ◌%◌, ◌^◌, ◌<◌, ◌≡◌, refl, sym, ap, ◌∙◌, true, false, not, ◌&&◌, List, [], ◌∷◌,
  Option, some, length, arith, ◌==◌, if◌then◌else◌, Bool-cases, inl, inr,
}
use computer_systems.Malloc.Implicit.{
  Heap, get_size, set_header, move_last, in_list, coalesce_loop, coalesce_blocks,
}
use computer_systems.Malloc.Implicit.Blocks.{
  Block, AreBlocks, last_from, last_from-ge, AreBlocks-le, AreBlocks-same, unused_block, Holds,
  Holds-cons, Keeps, Keeps-trans, Keeps-behind, read-size, read-used,
}

-- A list of blocks that is not empty, with neighbours that are free put together.
unfoldable pub merged : Block → List Block → Block × List Block
merged p [] = (p, [])
merged p (c ∷ cs) =
    let joined = merged (unused_block (p.size + c.size)) cs in
    let (next, others) = merged c cs in
    if not p.used && not c.used then joined else (p, next ∷ others)

module _ (a end : ℕ) (p c : Block) (cs : List Block) (h : Heap) where
  abbrev joined_heap : Heap
  joined_heap = set_header a (p.size + c.size) false (move_last (a + p.size) a h)

  joined-last :
      0 < c.size
      → h.mm_heap_last ≡ last_from a p (c ∷ cs)
      → joined_heap.mm_heap_last ≡ last_from a (unused_block (p.size + c.size)) cs
  unfolding last_from
  joined-last pos k = go cs k
    where
      go :
          (ds : List Block)
          → h.mm_heap_last ≡ last_from a p (c ∷ ds)
          → joined_heap.mm_heap_last ≡ last_from a (unused_block (p.size + c.size)) ds
      go [] k = rw k (ground arith)
      go (d ∷ ds) k =
          let behind = last_from-ge (a + p.size + c.size) d ds in
          let other : (h.mm_heap_last == (a + p.size)) ≡ false = ground arith in
          rw (other, k)
            (ap (λ b. last_from b d ds) {x = a + p.size + c.size} {y = a + (p.size + c.size)}
              (omega arith))

  joined-Holds :
      Holds a end p (c ∷ cs) h → Holds a end (unused_block (p.size + c.size)) cs joined_heap
  unfolding AreBlocks
  joined-Holds k =
      let (wp, pp, ep, (wc, pc, ec, rest)) = k.blocks in
      let assoc : a + p.size + c.size ≡ a + (p.size + c.size) = omega arith in
      let moved : AreBlocks h.words (a + (p.size + c.size)) end cs =
        subst (λ b. AreBlocks h.words b end cs) assoc rest in
      record {
        blocks = (
          ground arith,
          omega arith,
          omega arith,
          AreBlocks-same h.words joined_heap.words (a + (p.size + c.size)) end cs
              (λ x l. let other : (a == x) ≡ false = ground arith in rw other refl) moved,
        );
        last = joined-last pc k.last;
      }

  joined-Keeps : Keeps a h joined_heap
  joined-Keeps = record {
    words = λ x l. let other : (a == x) ≡ false = ground arith in rw other refl;
    first = refl;
    memory = refl;
  }

module _ (a end : ℕ) (p : Block) (bs : List Block) (h : Heap) where
  -- The heap that the loop leaves.
  pub record Coalesced (result : Option Heap) : Type 0 where
    pub heap : Heap
    pub returns : result ≡ some heap
    pub holds : Holds a end (merged p bs).0 (merged p bs).1 heap
    pub keeps : Keeps a h heap

coalesce_loop-stops :
    (n curr prev : ℕ) (h : Heap)
    → in_list curr h ≡ false
    → coalesce_loop (suc n) prev curr h ≡ some h
unfolding coalesce_loop
coalesce_loop-stops n curr prev h out = rw out refl

-- One round of the loop, at two blocks.
module _ (n a end : ℕ) (p c : Block) (cs : List Block) (h : Heap) (z : 0 < a) (e : end < 2 ^ 64)
    (k : Holds a end p (c ∷ cs) h) where
  second : AreBlocks h.words (a + p.size) end (c ∷ cs)
  unfolding AreBlocks
  second = let (wp, pp, ep, rest) = k.blocks in rest

  inside : in_list (a + p.size) h ≡ true
  unfolding last_from
  inside = ground (arith, k.last, last_from-ge (a + p.size) c cs)

  sum : (get_size a h + get_size (a + p.size) h) % 2 ^ 64 ≡ p.size + c.size
  unfolding AreBlocks
  sum =
      let (wc, pc, ec, rest) = second in
      let room = AreBlocks-le h.words (a + p.size + c.size) end cs rest in
      rw
        (
          read-size a end p (c ∷ cs) h.words k.blocks,
          read-size (a + p.size) end c cs h.words second,
        )
        (omega arith)

  coalesce_loop-joined :
      p.used ≡ false
      → c.used ≡ false
      → coalesce_loop (suc n) a (a + p.size) h
        ≡ coalesce_loop n a (a + (p.size + c.size)) (joined_heap a end p c cs h)
  unfolding coalesce_loop
  coalesce_loop-joined fp fc =
      let up = read-used a end p (c ∷ cs) h.words k.blocks ∙ fp in
      let uc = read-used (a + p.size) end c cs h.words second ∙ fc in rw (inside, up, uc, sum) refl

  coalesce_loop-moved :
      (not p.used && not c.used) ≡ false
      → coalesce_loop (suc n) a (a + p.size) h
        ≡ coalesce_loop n (a + p.size) (a + p.size + c.size) h
  unfolding coalesce_loop
  coalesce_loop-moved f =
      let up = read-used a end p (c ∷ cs) h.words k.blocks in
      let uc = read-used (a + p.size) end c cs h.words second in
      let sp = read-size a end p (c ∷ cs) h.words k.blocks in
      let sc = read-size (a + p.size) end c cs h.words second in rw (inside, up, uc, f, sp, sc) refl

  Coalesced-joined :
      (r r' : Option Heap)
      → (not p.used && not c.used) ≡ true
      → r' ≡ r
      → Coalesced a end (unused_block (p.size + c.size)) cs (joined_heap a end p c cs h) r
      → Coalesced a end p (c ∷ cs) h r'
  unfolding merged
  Coalesced-joined r r' both same ih =
      let m : merged p (c ∷ cs) ≡ merged (unused_block (p.size + c.size)) cs = rw both refl in
      record {
        heap = ih.heap;
        returns = same ∙ ih.returns;
        holds = subst (λ bs. Holds a end bs.0 bs.1 ih.heap) (sym m) ih.holds;
        keeps =
            Keeps-trans a a h (joined_heap a end p c cs h) ih.heap (omega arith)
              (joined-Keeps a end p c cs h) ih.keeps;
      }

  Coalesced-moved :
      (r r' : Option Heap)
      → (not p.used && not c.used) ≡ false
      → r' ≡ r
      → Coalesced (a + p.size) end c cs h r
      → Coalesced a end p (c ∷ cs) h r'
  unfolding merged
  Coalesced-moved r r' other same ih =
      let m : merged p (c ∷ cs) ≡ (p, (merged c cs).0 ∷ (merged c cs).1) = rw other refl in
      record {
        heap = ih.heap;
        returns = same ∙ ih.returns;
        holds =
            subst (λ bs. Holds a end bs.0 bs.1 ih.heap) (sym m)
              (Holds-cons a end p c cs h ih.heap k ih.keeps ih.holds);
        keeps = Keeps-behind a p h ih.heap ih.keeps;
      }

pub coalesce_loop-Coalesced :
    (n a end : ℕ) (p : Block) (bs : List Block) (h : Heap)
    → length bs < n
    → 0 < a
    → end < 2 ^ 64
    → Holds a end p bs h
    → Coalesced a end p bs h (coalesce_loop n a (a + p.size) h)
unfolding merged AreBlocks last_from
coalesce_loop-Coalesced zero a end p bs h l z e k = absurd (omega arith)
coalesce_loop-Coalesced (suc n) a end p [] h l z e k =
    let (wp, pp, ep, rest) = k.blocks in
    let outside : in_list (a + p.size) h ≡ false = ground (arith, k.last) in
    record {
      heap = h;
      returns = coalesce_loop-stops n (a + p.size) a h outside;
      holds = k;
      keeps = record { words = λ x s. refl; first = refl; memory = refl };
    }
coalesce_loop-Coalesced (suc n) a end p (c ∷ cs) h l z e k =
    elim (Bool-cases (not p.used && not c.used)) [
      | inl both ↦
          Coalesced-joined n a end p c cs h z e k _ _ both
            (coalesce_loop-joined n a end p c cs h z e k (ground arith) (ground arith))
            (coalesce_loop-Coalesced n a end (unused_block (p.size + c.size)) cs
              (joined_heap a end p c cs h) (omega arith) z e (joined-Holds a end p c cs h k))
      | inr other ↦
          Coalesced-moved n a end p c cs h z e k _ _ other
            (coalesce_loop-moved n a end p c cs h z e k other)
            (coalesce_loop-Coalesced n (a + p.size) end c cs h (omega arith) (omega arith) e
              (record { blocks = second n a end p c cs h z e k; last = k.last }))
    ]

-- `coalesce_blocks` on a heap whose list is not empty, with a round for each block: neighbours that are free
-- become one block, all other headers stay, and mm_heap_last is the last block.
pub coalesce_blocks-merged :
    (n end : ℕ) (p : Block) (bs : List Block) (h : Heap)
    → length bs < n
    → 0 < h.mm_heap_first
    → end < 2 ^ 64
    → Holds h.mm_heap_first end p bs h
    → Coalesced h.mm_heap_first end p bs h (coalesce_blocks n h)
coalesce_blocks-merged n end p bs h l z e k =
    let start = coalesce_loop-Coalesced n h.mm_heap_first end p bs h l z e k in
    subst
      (λ s.
        Coalesced h.mm_heap_first end p bs h
          (coalesce_loop n h.mm_heap_first (h.mm_heap_first + s) h))
      (sym (read-size h.mm_heap_first end p bs h.words k.blocks)) start
