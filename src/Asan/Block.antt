-- ===== src/Asan/Block.antt =====
-- signal-handler/myasan.c: a block from malloc can be used up to its end and freed once.
use computer_systems.Prelude.{
  ℕ, ◌+◌, ◌-◌, ◌*◌, ◌/◌, ◌%◌, ◌^◌, ◌<◌, ◌≤◌, ◌≡◌, ◌⊎◌, inr, refl, ap, ◌∙◌, Bool, true, false, ◌||◌,
  some, ltb, ◌==◌, if◌then◌else◌, arith,
}
use computer_systems.Asan.Heap.{
  page_size, start_page, max_heap_size, header_magic, Header, PageHeap, mprotect, mapped,
  pages_round_up, get_payload, set_header, malloc, returned, double_free, free_block, free,
}

-- The next page is one of the heap, and pages from it on have no access.
pub record IsHeap (h : PageHeap) : Type 0 where
  pub aligned : h.current_page % page_size ≡ 0
  pub above : start_page ≤ h.current_page
  pub closed : (n : ℕ) → h.current_page / page_size ≤ n → h.access n ≡ false

-- A block of `size` bytes fits into the mapping with its header and one more page. malloc does not test this.
abbrev pub Fits : ℕ → PageHeap → Type 0
Fits size h = h.current_page + page_size + size + page_size ≤ start_page + max_heap_size

-- The payload begins in the page behind the header's and ends at the end of a page.
get_payload-bounds :
    (header size : ℕ)
    → header < 2 ^ 34
    → size < 2 ^ 34
    → (get_payload header size + size ≡ header + page_size + pages_round_up size * page_size)
      × (header + page_size ≤ get_payload header size)
      × (get_payload header size ≤ header + page_size + (page_size - 1))
unfolding get_payload pages_round_up
get_payload-bounds header size hp hs = (omega arith, omega arith, omega arith)

mprotect-in :
    (p count n : ℕ) (mode : Bool) (access : ℕ → Bool)
    → p / page_size ≤ n
    → n < p / page_size + count
    → p + count * page_size < 2 ^ 64
    → mapped (n * page_size) ≡ true
    → mprotect p count mode access n ≡ mode
unfolding mprotect
mprotect-in p count n mode access lo hi bound inside = ground arith

mprotect-out :
    (p count n : ℕ) (mode : Bool) (access : ℕ → Bool)
    → (n < p / page_size) ⊎ (p / page_size + count ≤ n)
    → mprotect p count mode access n ≡ access n
unfolding mprotect
mprotect-out p count n mode access away = ground arith

mapped-between : (x : ℕ) → start_page ≤ x → x < start_page + max_heap_size → mapped x ≡ true
mapped-between x low high = ground arith

mapped-page : (p n : ℕ) → n * page_size ≡ p → mapped p ≡ true → mapped (n * page_size) ≡ true
mapped-page p n same inside = ap mapped same ∙ inside

-- The header of a block that is in use or has been freed.
abbrev block_header : ℕ → Bool → Header
block_header size used = record { magic = header_magic; size = size; is_allocated = used }

-- The access behind malloc: the blocks' pages are opened, and the header's is closed in the end.
abbrev opened : ℕ → ℕ → (ℕ → Bool) → ℕ → Bool
opened p count access = mprotect p 1 false (
    mprotect p 1 false
      (mprotect p 1 true (mprotect p 1 true (mprotect (p + page_size) count true access))))

opened-header :
    (p count : ℕ) (access : ℕ → Bool)
    → p % page_size ≡ 0
    → mapped p ≡ true
    → opened p count access (p / page_size) ≡ false
opened-header p count access aligned inside =
    mprotect-in p 1 (p / page_size) false _ (omega arith) (omega arith) (ground arith)
      (mapped-page p (p / page_size) (omega arith) inside)

opened-other :
    (p count n : ℕ) (access : ℕ → Bool)
    → p / page_size < n
    → opened p count access n ≡ mprotect (p + page_size) count true access n
opened-other p count n access lt =
    let away = inr (omega arith) in
    mprotect-out p 1 n false _ away
    ∙ mprotect-out p 1 n false _ away
    ∙ mprotect-out p 1 n true _ away
    ∙ mprotect-out p 1 n true _ away

set_header-mapped :
    (p size : ℕ) (used : Bool) (h : PageHeap)
    → mapped p ≡ true
    → set_header p size used h
      ≡ some (record h {
        headers = λ x. if p == x then block_header size used else h.headers x;
        access = mprotect p 1 false (mprotect p 1 true h.access);
      })
unfolding set_header
set_header-mapped p size used h e = rw (e, set_header) refl

-- The heap behind a call that frees the block of `size` bytes with its header at `c`.
abbrev released : ℕ → ℕ → PageHeap → PageHeap
released c size h = record h {
  headers = λ x. if c == x then block_header size false else h.headers x;
  access =
      mprotect (c + page_size) (pages_round_up size) false
        (mprotect c 1 false (mprotect c 1 false (mprotect c 1 true (mprotect c 1 true h.access))));
}

module _ (c p size : ℕ) (inside : mapped c ≡ true) (here : (get_payload c size == p) ≡ true) where
  free_block-used :
      (h : PageHeap)
      → h.headers c ≡ block_header size true
      → free_block c p h ≡ returned (released c size h)
  unfolding free_block
  free_block-used h e =
      rw (e, inside, here, set_header-mapped c size false _ inside, free_block, e) refl

  free_block-freed :
      (h : PageHeap) → h.headers c ≡ block_header size false → free_block c p h ≡ double_free p size
  unfolding free_block
  free_block-freed h e = rw (e, inside, here, free_block) refl

-- The pointer of a block leads to its header.
free-block :
    (c p : ℕ) (h : PageHeap)
    → c % page_size ≡ 0
    → mapped c ≡ true
    → c + page_size ≤ p
    → p ≤ c + page_size + (page_size - 1)
    → free p h ≡ free_block c p h
unfolding free
free-block c p h aligned inside low high =
    let above : start_page ≤ c = ground arith in
    let below : c < start_page + max_heap_size = ground arith in
    let real : (p == 0) ≡ false = ground arith in
    let range : (ltb p (start_page + page_size) || ltb (start_page + max_heap_size * page_size) p)
        ≡ false =
      ground arith in
    let back : p - page_size - (p - start_page) % page_size ≡ c = omega arith in
    rw (real, range, back, free) refl

==_self : (n : ℕ) → (n == n) ≡ true
==_self n = ground arith

module _ (h : PageHeap) (inv : IsHeap h) (size : ℕ) (fits : Fits size h) where
  abbrev after : PageHeap
  after = record {
    current_page = h.current_page + page_size * (1 + pages_round_up size);
    headers = λ x. if h.current_page == x then block_header size true else h.headers x;
    access = opened h.current_page (pages_round_up size) h.access;
  }

  inside : mapped h.current_page ≡ true
  inside = mapped-between h.current_page inv.above (omega arith)

  bounds :
      (get_payload h.current_page size + size
        ≡ h.current_page + page_size + pages_round_up size * page_size)
      × (h.current_page + page_size ≤ get_payload h.current_page size)
      × (get_payload h.current_page size ≤ h.current_page + page_size + (page_size - 1))
  bounds = get_payload-bounds h.current_page size (omega arith) (omega arith)

  pub malloc-after : malloc size h ≡ some (get_payload h.current_page size, after)
  unfolding malloc
  malloc-after =
      let (end, low, high) = bounds in
      let next : after.current_page % 2 ^ 64 ≡ after.current_page = omega arith in
      rw (set_header-mapped h.current_page size true _ inside, malloc)
        (ap (λ x. some (get_payload h.current_page size, record after { current_page = x })) next)

  -- The pages of a block are mapped, so that their access can be changed.
  payload-access :
      (i : ℕ) (mode : Bool) (access : ℕ → Bool)
      → i < size
      → mprotect
          (h.current_page + page_size)
          (pages_round_up size)
          mode
          access
          ((get_payload h.current_page size + i) / page_size)
        ≡ mode
  payload-access i mode access lt =
      let (end, low, high) = bounds in
      let aligned = inv.aligned in
      let above = inv.above in
      let n = (get_payload h.current_page size + i) / page_size in
      mprotect-in (h.current_page + page_size) (pages_round_up size) n mode access (omega arith)
        (omega arith) (omega arith) (mapped-between (n * page_size) (omega arith) (omega arith))

  after-closed : (n : ℕ) → after.current_page / page_size ≤ n → after.access n ≡ false
  after-closed n le =
      let aligned = inv.aligned in
      opened-other h.current_page (pages_round_up size) n h.access (omega arith)
      ∙ mprotect-out (h.current_page + page_size) (pages_round_up size) n true h.access
          (inr (omega arith))
      ∙ inv.closed n (omega arith)

  -- On a heap whose pages from the next one on have no access, and for a block that fits into the mapping with its
  -- header and one more page, malloc gives a block of which every byte has access, while the bytes of the page before
  -- it and the first byte behind it have none, and leaves such a heap.
  pub malloc-guarded :
      (p : ℕ) × (h' : PageHeap) × (malloc size h ≡ some (p, h'))
      × IsHeap h'
      × ((i : ℕ) → i < size → h'.access ((p + i) / page_size) ≡ true)
      × (h'.access ((p + size) / page_size) ≡ false)
      × (h'.access (p / page_size - 1) ≡ false)
  malloc-guarded =
      let p = get_payload h.current_page size in
      let (end, low, high) = bounds in
      let aligned = inv.aligned in
      (
        p,
        after,
        malloc-after,
        record { aligned = omega arith; above = omega (arith, inv.above); closed = after-closed },
        (λ i lt.
            opened-other h.current_page (pages_round_up size) ((p + i) / page_size) h.access
              (omega arith)
            ∙ payload-access i true h.access lt),
        after-closed ((p + size) / page_size) (omega arith),
        ap after.access (omega arith)
            ∙ opened-header h.current_page (pages_round_up size) h.access aligned inside,
      )

  -- On such a heap and for such a block, the block from malloc can be freed, after which none of its pages has access;
  -- freeing it again is reported with the block and its size.
  pub malloc-free :
      (p : ℕ) × (h' : PageHeap) × (h'' : PageHeap) × (malloc size h ≡ some (p, h'))
      × (free p h' ≡ returned h'')
      × (free p h'' ≡ double_free p size)
      × ((i : ℕ) → i < size → h''.access ((p + i) / page_size) ≡ false)
  malloc-free =
      let c = h.current_page in
      let p = get_payload c size in
      let (end, low, high) = bounds in
      let aligned = inv.aligned in
      let above = inv.above in
      let here = ==_self p in
      let freed = released c size after in
      let at_header : (v w : Header) → ◌≡◌ {A = Header} (if c == c then v else w) v =
        λ v w. rw (==_self c) refl in
      (
        p,
        after,
        freed,
        malloc-after,
        free-block c p after aligned inside low high
            ∙ free_block-used c p size inside here after (at_header _ _),
        free-block c p freed aligned inside low high
            ∙ free_block-freed c p size inside here freed (at_header _ _),
        λ i lt. payload-access i false _ lt,
      )
