-- ===== src/Asan/Tests.antt =====
-- signal-handler/myasan.c: a block of 5000 bytes in a new heap.
use computer_systems.Prelude.{
  ℕ, ◌+◌, ◌*◌, ◌-◌, ◌/◌, ◌<◌, ◌≡◌, refl, true, false, some, arith, [], ◌∷◌, ◌==◌, if◌then◌else◌,
}
use computer_systems.Asan.Heap.{
  page_size, start_page, header_magic, pages_round_up, get_payload, PageHeap, asan_init, malloc,
  returned, double_free, free, memory_leak, check_for_leaks,
}
use computer_systems.Asan.Leaks.{Blocks, first_leak, check_for_leaks-first}
use computer_systems.Asan.Block.{IsHeap, malloc-guarded, malloc-free}

asan_init-IsHeap : IsHeap asan_init
unfolding asan_init
asan_init-IsHeap = record { aligned = refl; above = omega arith; closed = λ n le. refl }

malloc-guarded_example :
    (p : ℕ) × (h : PageHeap) × (malloc 5000 asan_init ≡ some (p, h))
    × IsHeap h
    × ((i : ℕ) → i < 5000 → h.access ((p + i) / page_size) ≡ true)
    × (h.access ((p + 5000) / page_size) ≡ false)
    × (h.access (p / page_size - 1) ≡ false)
unfolding asan_init
malloc-guarded_example = malloc-guarded asan_init asan_init-IsHeap 5000 (omega arith)

malloc-free_example :
    (p : ℕ) × (h h' : PageHeap) × (malloc 5000 asan_init ≡ some (p, h))
    × (free p h ≡ returned h')
    × (free p h' ≡ double_free p 5000)
    × ((i : ℕ) → i < 5000 → h'.access ((p + i) / page_size) ≡ false)
unfolding asan_init
malloc-free_example = malloc-free asan_init asan_init-IsHeap 5000 (omega arith)

-- A block of 5000 bytes that has been freed, and one of 10 bytes that has not.
abbrev leaky : PageHeap
leaky = record {
  current_page = start_page + 5 * page_size;
  headers = λ p.
      if p == start_page
      then record { magic = header_magic; size = 5000; is_allocated = false }
      else if p == start_page + 3 * page_size
      then record { magic = header_magic; size = 10; is_allocated = true }
      else record { magic = 0; size = 0; is_allocated = false };
  access = λ n. false;
}

leaky-Blocks : Blocks leaky start_page ((5000, false) ∷ (10, true) ∷ [])
unfolding Blocks pages_round_up
leaky-Blocks = (refl, refl, (refl, refl, (refl, refl)))

check_for_leaks-first_example :
    check_for_leaks 3 leaky ≡ some (memory_leak (get_payload (start_page + 3 * page_size) 10) 10)
unfolding first_leak pages_round_up
check_for_leaks-first_example =
    check_for_leaks-first leaky ((5000, false) ∷ (10, true) ∷ []) 3 (omega arith) (omega arith)
      leaky-Blocks
