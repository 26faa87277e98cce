-- ===== src/Malloc/Sizes.antt =====
-- malloc/src/mm-implicit.c and mm-explicit.c: the size of the block for a request.
use computer_systems.Prelude.{ℕ, ◌+◌, ◌-◌, ◌*◌, ◌/◌, ◌%◌, ◌^◌, ◌≤◌, ◌<◌, ◌≡◌, arith}

-- 2 * sizeof(size_t)
abbrev pub alignment : ℕ
alignment = 16

-- sizeof(block_t), and sizeof(size_t) for a footer
abbrev pub header_size : ℕ
header_size = 8

-- size_t wraps around.
unfoldable pub round_up : ℕ → ℕ → ℕ
round_up size n = (size + (n - 1)) % 2 ^ 64 / n * n

-- The size in mm_malloc of mm-implicit.c.
unfoldable pub implicit_size : ℕ → ℕ
implicit_size size = round_up ((header_size + size) % 2 ^ 64) alignment

-- The size in mm_malloc of mm-explicit.c, with a footer.
unfoldable pub explicit_size : ℕ → ℕ
explicit_size size = round_up ((header_size + size + 8) % 2 ^ 64) alignment

-- For a request of up to 2^64 - 32 bytes, the block of mm-implicit.c holds a header and that of
-- mm-explicit.c a header and a footer with the request between them; both are multiples of the
-- alignment, and less than one alignment longer than needed.
pub sizes-bounds :
    (size : ℕ)
    → size ≤ 2 ^ 64 - 32
    → ((size + 8 ≤ implicit_size size)
        × (implicit_size size < size + 24)
        × (implicit_size size % alignment ≡ 0))
      × ((size + 16 ≤ explicit_size size)
          × (explicit_size size < size + 32)
          × (explicit_size size % alignment ≡ 0))
unfolding implicit_size explicit_size round_up
sizes-bounds size h =
    ((omega arith, omega arith, omega arith), (omega arith, omega arith, omega arith))

-- mm_malloc of mm-implicit.c takes a block of no bytes, not even a header, for each request from 2^64 - 23 to
-- 2^64 - 8 bytes.
pub implicit_size-wraps :
    (size : ℕ) → 2 ^ 64 - 23 ≤ size → size ≤ 2 ^ 64 - 8 → implicit_size size ≡ 0
unfolding implicit_size round_up
implicit_size-wraps size l h = omega arith
