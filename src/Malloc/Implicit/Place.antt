-- ===== src/Malloc/Implicit/Place.antt =====
-- malloc/src/mm-implicit.c: the block that `find_fit` has found, as it is taken.
use mathlib.Core.Path.{subst}
use computer_systems.Prelude.{
  ℕ, ◌+◌, ◌-◌, ◌%◌, ◌^◌, ◌<◌, ◌≡◌, refl, sym, ap, ◌∙◌, true, false, List, [], ◌∷◌, some, ltb, arith,
  ◌==◌, if◌then◌else◌, Bool-cases, inl, inr,
}
use computer_systems.Malloc.Implicit.{Heap, set_header, move_last, split_block, place}
use computer_systems.Malloc.Implicit.Blocks.{
  Block, AreBlocks, last_from, last_from-ge, last_from-size, AreBlocks-le, AreBlocks-same,
  unused_block, Holds, Holds-cons, Holds-tail, Keeps, Keeps-behind, read-size,
}
use computer_systems.Malloc.Implicit.Fit.{fits, fit_at}

abbrev pub used_block : ℕ → Block
used_block size = record { size = size; used = true }

-- The blocks with the first one that fits taken, and its rest free.
unfoldable pub split_at_fit : ℕ → Block → List Block → Block × List Block
split_at_fit size p [] =
    if fits size p
    then (if ltb size p.size
        then (used_block size, unused_block (p.size - size) ∷ [])
        else (used_block p.size, []))
    else (p, [])
split_at_fit size p (c ∷ cs) =
    let (next, others) = split_at_fit size c cs in
    if fits size p
    then (if ltb size p.size
        then (used_block size, unused_block (p.size - size) ∷ c ∷ cs)
        else (used_block p.size, c ∷ cs))
    else (p, next ∷ others)

-- The heap behind `place`.
pub record Placed (size a end addr : ℕ) (p : Block) (bs : List Block) (h : Heap) (r : ℕ × Heap)
    : Type 0 where
  pub payload : r.0 ≡ addr + 8
  pub holds : Holds a end (split_at_fit size p bs).0 (split_at_fit size p bs).1 r.1
  pub keeps : Keeps a h r.1

module _ (size a end : ℕ) (p : Block) (bs : List Block) (h : Heap) (even : size % 2 ≡ 0)
    (large : 0 < size) (bound : end < 2 ^ 64) (k : Holds a end p bs h) where
  abbrev split_heap : Heap
  split_heap =
      move_last a (a + size)
        (set_header (a + size) (p.size - size) false (set_header a size true h))

  abbrev whole_heap : Heap
  whole_heap = set_header a p.size true h

  place-split : ltb size p.size ≡ true → place a size h ≡ (a + 8, split_heap)
  unfolding place split_block AreBlocks
  place-split less =
      let (w, pos, ev, rest) = k.blocks in
      let room = AreBlocks-le h.words (a + p.size) end bs rest in
      let difference : (p.size + 2 ^ 64 - size) % 2 ^ 64 ≡ p.size - size = ground arith in
      rw (read-size a end p bs h.words k.blocks, less, difference) refl

  place-whole : ltb size p.size ≡ false → place a size h ≡ (a + 8, whole_heap)
  unfolding place
  place-whole less = rw (read-size a end p bs h.words k.blocks, less) refl

  split-last :
      0 < p.size
      → ltb size p.size ≡ true
      → split_heap.mm_heap_last ≡ last_from a (used_block size) (unused_block (p.size - size) ∷ bs)
  unfolding last_from
  split-last pos less = go bs k.last
    where
      go :
          (ds : List Block)
          → h.mm_heap_last ≡ last_from a p ds
          → split_heap.mm_heap_last
            ≡ last_from a (used_block size) (unused_block (p.size - size) ∷ ds)
      go [] e = ground (arith, e)
      go (d ∷ ds) e =
          let behind = last_from-ge (a + p.size) d ds in
          let other : (h.mm_heap_last == a) ≡ false = ground (arith, e, behind) in
          let assoc : a + p.size ≡ a + size + (p.size - size) = ground arith in
          rw (other, e) (ap (λ b. last_from b d ds) assoc)

  split-Holds :
      ltb size p.size ≡ true
      → Holds a end (used_block size) (unused_block (p.size - size) ∷ bs) split_heap
  unfolding AreBlocks
  split-Holds less =
      let (w, pos, ev, rest) = k.blocks in
      let assoc : a + p.size ≡ a + size + (p.size - size) = ground arith in
      let moved : AreBlocks h.words (a + size + (p.size - size)) end bs =
        subst (λ b. AreBlocks h.words b end bs) assoc rest in
      record {
        blocks = (
          ground arith,
          large,
          even,
          (
            ground arith,
            ground arith,
            ground arith,
            AreBlocks-same h.words split_heap.words (a + size + (p.size - size)) end bs
                (λ x l. ground arith) moved,
          ),
        );
        last = split-last pos less;
      }

  whole-Holds : Holds a end (used_block p.size) bs whole_heap
  unfolding AreBlocks
  whole-Holds =
      let (w, pos, ev, rest) = k.blocks in
      record {
        blocks = (
          ground arith,
          pos,
          ev,
          AreBlocks-same h.words whole_heap.words (a + p.size) end bs (λ x l. ground arith) rest,
        );
        last = k.last ∙ last_from-size a p (used_block p.size) bs refl;
      }

  split_at_fit-split :
      fits size p ≡ true
      → ltb size p.size ≡ true
      → split_at_fit size p bs ≡ (used_block size, unused_block (p.size - size) ∷ bs)
  unfolding split_at_fit
  split_at_fit-split f less = go bs
    where
      go :
          (ds : List Block)
          → split_at_fit size p ds ≡ (used_block size, unused_block (p.size - size) ∷ ds)
      go [] = rw (f, less) refl
      go (d ∷ ds) = rw (f, less) refl

  split_at_fit-whole :
      fits size p ≡ true
      → ltb size p.size ≡ false
      → split_at_fit size p bs ≡ (used_block p.size, bs)
  unfolding split_at_fit
  split_at_fit-whole f whole = go bs
    where
      go : (ds : List Block) → split_at_fit size p ds ≡ (used_block p.size, ds)
      go [] = rw (f, whole) refl
      go (d ∷ ds) = rw (f, whole) refl

  -- The first block is the one.
  place-here : fits size p ≡ true → Placed size a end a p bs h (place a size h)
  place-here f = elim (Bool-cases (ltb size p.size)) [
    | inl less ↦ subst (Placed size a end a p bs h) (sym (place-split less)) (record {
      payload = refl;
      holds =
          subst (λ m. Holds a end m.0 m.1 split_heap) (sym (split_at_fit-split f less))
            (split-Holds less);
      keeps = record { words = λ x l. ground arith; first = refl; memory = refl };
    })
    | inr whole ↦ subst (Placed size a end a p bs h) (sym (place-whole whole)) (record {
      payload = refl;
      holds =
          subst (λ m. Holds a end m.0 m.1 whole_heap) (sym (split_at_fit-whole f whole))
            whole-Holds;
      keeps = record { words = λ x l. ground arith; first = refl; memory = refl };
    })
  ]

Placed-later :
    (size a end addr : ℕ) (p c : Block) (cs : List Block) (h : Heap) {r : ℕ × Heap}
    → fits size p ≡ false
    → Holds a end p (c ∷ cs) h
    → Placed size (a + p.size) end addr c cs h r
    → Placed size a end addr p (c ∷ cs) h r
unfolding split_at_fit AreBlocks
Placed-later size a end addr p c cs h {r} misfit k later =
    let (w, pos, even, rest) = k.blocks in
    let m : split_at_fit size p (c ∷ cs)
        ≡ (p, (split_at_fit size c cs).0 ∷ (split_at_fit size c cs).1) =
      rw misfit refl in
    record {
      payload = later.payload;
      holds =
          subst (λ bs. Holds a end bs.0 bs.1 r.1) (sym m)
            (Holds-cons a end p c cs h r.1 k later.keeps later.holds);
      keeps = Keeps-behind a p h r.1 later.keeps;
    }

-- At the first block that fits, `place` takes what find_fit has found.
pub place-Placed :
    (size a end addr : ℕ) (p : Block) (bs : List Block) (h : Heap)
    → size % 2 ≡ 0
    → 0 < size
    → end < 2 ^ 64
    → Holds a end p bs h
    → fit_at size a (p ∷ bs) ≡ some addr
    → Placed size a end addr p bs h (place addr size h)
unfolding fit_at split_at_fit AreBlocks last_from
place-Placed size a end addr p [] h even large bound k f = elim (Bool-cases (fits size p)) [
  | inl fit ↦
      let same : a ≡ addr = ground arith in
      subst (λ x. Placed size a end x p [] h (place x size h)) same
        (place-here size a end p [] h even large bound k fit)
  | inr misfit ↦ absurd (ground arith)
]
place-Placed size a end addr p (c ∷ cs) h even large bound k f = elim (Bool-cases (fits size p)) [
  | inl fit ↦
      let same : a ≡ addr = ground arith in
      subst (λ x. Placed size a end x p (c ∷ cs) h (place x size h)) same
        (place-here size a end p (c ∷ cs) h even large bound k fit)
  | inr misfit ↦
      let later : fit_at size (a + p.size) (c ∷ cs) ≡ some addr = rw misfit at f in
      Placed-later size a end addr p c cs h misfit k (
        place-Placed size (a + p.size) end addr c cs h even large bound
          (Holds-tail a end p c cs h k) later)
]
