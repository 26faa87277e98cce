-- ===== src/Malloc/Implicit/Blocks.antt =====
-- malloc/src/mm-implicit.c: the blocks that stand one behind the other in the heap.
use computer_systems.Prelude.{
  ℕ, ◌+◌, ◌%◌, ◌≤◌, ◌<◌, ◌≡◌, refl, sym, ap, ◌∙◌, Bool, true, false, List, [], ◌∷◌, arith,
}
use computer_systems.Malloc.Implicit.{Heap, header, size_of, allocated_of}

pub record Block : Type 0 where
  pub size : ℕ
  pub used : Bool

-- The headers between two addresses are those of the blocks, whose sizes are even and not 0.
unfoldable pub AreBlocks : (ℕ → ℕ) → ℕ → ℕ → List Block → Type 0
AreBlocks words a end [] = a ≡ end
AreBlocks words a end (b ∷ bs) =
    (words a ≡ header b.size b.used)
    × (0 < b.size)
    × (b.size % 2 ≡ 0)
    × AreBlocks words (a + b.size) end bs

-- The address of the last block, of which the first one is at `a`.
unfoldable pub last_from : ℕ → Block → List Block → ℕ
last_from a b [] = a
last_from a b (c ∷ cs) = last_from (a + b.size) c cs

pub last_from-ge : (a : ℕ) (b : Block) (bs : List Block) → a ≤ last_from a b bs
unfolding last_from
last_from-ge a b [] = omega arith
last_from-ge a b (c ∷ cs) = omega (arith, last_from-ge (a + b.size) c cs)

pub size_of-header : (size : ℕ) (used : Bool) → size % 2 ≡ 0 → size_of (header size used) ≡ size
unfolding size_of header
size_of-header size true h = omega arith
size_of-header size false h = omega arith

pub allocated_of-header :
    (size : ℕ) (used : Bool) → size % 2 ≡ 0 → allocated_of (header size used) ≡ used
unfolding allocated_of header
allocated_of-header size true h = ground arith
allocated_of-header size false h = ground arith

pub AreBlocks-le :
    (words : ℕ → ℕ) (a end : ℕ) (bs : List Block) → AreBlocks words a end bs → a ≤ end
unfolding AreBlocks
AreBlocks-le words a end [] h = omega arith
AreBlocks-le words a end (b ∷ bs) (w, p, e, h) =
    omega (arith, AreBlocks-le words (a + b.size) end bs h)

-- Words in front of the blocks do not matter.
pub AreBlocks-same :
    (words words' : ℕ → ℕ) (a end : ℕ) (bs : List Block)
    → ((x : ℕ) → a ≤ x → words x ≡ words' x)
    → AreBlocks words a end bs
    → AreBlocks words' a end bs
unfolding AreBlocks
AreBlocks-same words words' a end [] same h = h
AreBlocks-same words words' a end (b ∷ bs) same (w, p, e, h) = (
  sym (same a (omega arith)) ∙ w,
  p,
  e,
  AreBlocks-same words words' (a + b.size) end bs (λ x l. same x (omega arith)) h,
)

abbrev pub unused_block : ℕ → Block
unused_block size = record { size = size; used = false }

-- The heap from one block on.
pub record Holds (a end : ℕ) (p : Block) (bs : List Block) (h : Heap) : Type 0 where
  pub blocks : AreBlocks h.words a end (p ∷ bs)
  pub last : h.mm_heap_last ≡ last_from a p bs

-- The words in front of an address, and the other fields, are the same.
pub record Keeps (a : ℕ) (h h' : Heap) : Type 0 where
  pub words : (x : ℕ) → x < a → h'.words x ≡ h.words x
  pub first : h'.mm_heap_first ≡ h.mm_heap_first
  pub memory : h'.memory ≡ h.memory

pub Keeps-trans :
    (a b : ℕ) (h h' h'' : Heap) → a ≤ b → Keeps a h h' → Keeps b h' h'' → Keeps a h h''
Keeps-trans a b h h' h'' l k m = record {
  words = λ x s. m.words x (omega arith) ∙ k.words x s;
  first = m.first ∙ k.first;
  memory = m.memory ∙ k.memory;
}

-- Changes behind the first block leave it.
module _ (a end : ℕ) (p c : Block) (cs : List Block) (h h' : Heap) where
  pub Holds-cons :
      {q : Block} {qs : List Block}
      → Holds a end p (c ∷ cs) h
      → Keeps (a + p.size) h h'
      → Holds (a + p.size) end q qs h'
      → Holds a end p (q ∷ qs) h'
  unfolding AreBlocks last_from
  Holds-cons k same k' =
      let (w, pos, even, rest) = k.blocks in
      record { blocks = (same.words a (omega arith) ∙ w, pos, even, k'.blocks); last = k'.last }

pub Keeps-behind : (a : ℕ) (p : Block) (h h' : Heap) → Keeps (a + p.size) h h' → Keeps a h h'
Keeps-behind a p h h' same = record {
  words = λ x l. same.words x (omega arith);
  first = same.first;
  memory = same.memory;
}

-- What the code reads of the first block.
module _ (a end : ℕ) (p : Block) (bs : List Block) (words : ℕ → ℕ) where
  pub read-size : AreBlocks words a end (p ∷ bs) → size_of (words a) ≡ p.size
  unfolding AreBlocks
  read-size (w, pos, even, rest) = ap size_of w ∙ size_of-header p.size p.used even

  pub read-used : AreBlocks words a end (p ∷ bs) → allocated_of (words a) ≡ p.used
  unfolding AreBlocks
  read-used (w, pos, even, rest) = ap allocated_of w ∙ allocated_of-header p.size p.used even

-- The last block is where it was if the first one keeps its size.
pub last_from-size :
    (a : ℕ) (b c : Block) (bs : List Block) → b.size ≡ c.size → last_from a b bs ≡ last_from a c bs
unfolding last_from
last_from-size a b c [] e = refl
last_from-size a b c (d ∷ ds) e = ap (λ s. last_from (a + s) d ds) e

pub Holds-tail :
    (a end : ℕ) (p c : Block) (cs : List Block) (h : Heap)
    → Holds a end p (c ∷ cs) h
    → Holds (a + p.size) end c cs h
unfolding AreBlocks last_from
Holds-tail a end p c cs h k =
    let (w, nonzero, even, rest) = k.blocks in record { blocks = rest; last = k.last }
