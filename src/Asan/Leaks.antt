-- ===== src/Asan/Leaks.antt =====
-- signal-handler/myasan.c: the leak check reports the first block that is in use.
use computer_systems.Prelude.{
  ℕ, zero, suc, ◌+◌, ◌*◌, ◌<◌, ◌≤◌, ◌≡◌, refl, ◌∙◌, List, [], ◌∷◌, Bool, true, false, some, ltb,
  arith, length,
}
use computer_systems.Asan.Heap.{
  page_size, start_page, max_heap_size, PageHeap, mapped, pages_round_up, get_payload, Leak,
  no_leak, memory_leak, check_blocks, check_for_leaks,
}

-- The blocks of a heap from an address on, each with its size and whether it is in use: their headers
-- lead from one to the next one, up to the page at `current_page`, which has not been written.
unfoldable pub Blocks : PageHeap → ℕ → List (ℕ × Bool) → Type 0
Blocks h p [] = (p ≡ h.current_page) × ((h.headers p).is_allocated ≡ false)
Blocks h p ((size, used) ∷ blocks) =
    ((h.headers p).size ≡ size)
    × ((h.headers p).is_allocated ≡ used)
    × Blocks h (p + page_size + pages_round_up size * page_size) blocks

-- The first block in use, with its address.
unfoldable pub first_leak : ℕ → List (ℕ × Bool) → Leak
first_leak p [] = no_leak
first_leak p ((size, true) ∷ blocks) = memory_leak (get_payload p size) size
first_leak p ((size, false) ∷ blocks) =
    first_leak (p + page_size + pages_round_up size * page_size) blocks

Blocks-end :
    (h : PageHeap) (p : ℕ) (blocks : List (ℕ × Bool)) → Blocks h p blocks → p ≤ h.current_page
unfolding Blocks
Blocks-end h p [] (e, f) = omega (arith, e)
Blocks-end h p ((size, used) ∷ blocks) (es, eu, b) =
    omega (arith, Blocks-end h (p + page_size + pages_round_up size * page_size) blocks b)

-- One round in which the block at hand is not in use.
check_blocks-next :
    (fuel header p size : ℕ) (h : PageHeap)
    → ltb header h.current_page ≡ true
    → mapped p ≡ true
    → (h.headers p).is_allocated ≡ false
    → (h.headers p).size ≡ size
    → check_blocks (suc fuel) header p h
      ≡ check_blocks fuel p (p + page_size + pages_round_up size * page_size) h
unfolding check_blocks
check_blocks-next fuel header p size h more inside unused e =
    rw (check_blocks, more, inside, unused, e) refl

check_blocks-found :
    (fuel header p size : ℕ) (h : PageHeap)
    → ltb header h.current_page ≡ true
    → mapped p ≡ true
    → (h.headers p).is_allocated ≡ true
    → (h.headers p).size ≡ size
    → check_blocks (suc fuel) header p h ≡ some (memory_leak (get_payload p size) size)
unfolding check_blocks
check_blocks-found fuel header p size h more inside used e =
    rw (check_blocks, more, inside, used, e) refl

check_blocks-past :
    (fuel header p : ℕ) (h : PageHeap)
    → h.current_page ≤ header
    → check_blocks fuel header p h ≡ some no_leak
unfolding check_blocks
check_blocks-past zero header p h le = ground arith
check_blocks-past (suc fuel) header p h le = ground arith

check_blocks-first :
    (h : PageHeap) (blocks : List (ℕ × Bool)) (fuel header p : ℕ)
    → header < h.current_page
    → start_page ≤ p
    → h.current_page < start_page + max_heap_size
    → length blocks < fuel
    → Blocks h p blocks
    → check_blocks fuel header p h ≡ some (first_leak p blocks)
unfolding Blocks first_leak
check_blocks-first h blocks zero header p more low top many b = absurd (omega arith)
check_blocks-first h [] (suc fuel) header p more low top many (e, unused) =
    check_blocks-next fuel header p _ h (ground arith) (ground arith) unused refl
    ∙ check_blocks-past fuel p _ h (omega (arith, e))
check_blocks-first h ((size, true) ∷ blocks) (suc fuel) header p more low top many (es, used, b) =
    let end = Blocks-end h (p + page_size + pages_round_up size * page_size) blocks b in
    check_blocks-found fuel header p size h (ground arith) (ground arith) used es
check_blocks-first h ((size, false) ∷ blocks) (suc fuel) header p more low top many
      (es, unused, b) =
    let end = Blocks-end h (p + page_size + pages_round_up size * page_size) blocks b in
    check_blocks-next fuel header p size h (ground arith) (ground arith) unused es
    ∙ check_blocks-first h blocks fuel p (p + page_size + pages_round_up size * page_size)
        (omega arith) (omega arith) top (omega arith) b

-- On a heap that is made of blocks and is not full, with more rounds than there are blocks, the leak check ends
-- without a fault, reports the first block in use, and reports none only if there is none.
pub check_for_leaks-first :
    (h : PageHeap) (blocks : List (ℕ × Bool)) (fuel : ℕ)
    → h.current_page < start_page + max_heap_size
    → length blocks < fuel
    → Blocks h start_page blocks
    → check_for_leaks fuel h ≡ some (first_leak start_page blocks)
unfolding check_for_leaks Blocks first_leak
check_for_leaks-first h [] fuel top many b =
    check_blocks-past fuel start_page start_page h (no_blocks b)
  where
    no_blocks : Blocks h start_page [] → h.current_page ≤ start_page
    no_blocks (e, f) = omega (arith, e)
check_for_leaks-first h (block ∷ blocks) fuel top many b =
    check_blocks-first h (block ∷ blocks) fuel start_page start_page (some_block block b)
      (omega arith) top many b
  where
    some_block :
        (block : ℕ × Bool) → Blocks h start_page (block ∷ blocks) → start_page < h.current_page
    some_block (size, used) (es, eu, r) =
        omega
          (arith, Blocks-end h (start_page + page_size + pages_round_up size * page_size) blocks r)
