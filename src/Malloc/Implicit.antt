-- ===== src/Malloc/Implicit.antt =====
-- malloc/src/mm-implicit.c: the implicit list of blocks. A pointer is its address, and NULL is 0.
pub mod Blocks
pub mod Coalesce
pub mod Fit
pub mod Place
pub mod Grow
pub mod Requests
pub mod Free
pub mod Live
pub mod Served
mod Tests
use computer_systems.Prelude.{
  ℕ, zero, suc, ◌+◌, ◌-◌, ◌*◌, ◌/◌, ◌%◌, ◌^◌, Bool, true, false, not, ◌&&◌, Option, none, some, ltb,
  leb, ◌==◌, if◌then◌else◌,
}
use computer_systems.Prelude.Options.{◌>>=◌}
use computer_systems.Prelude.Int.{ℤ, pos, negsuc}
use computer_systems.Malloc.Memlib.{MemoryModel, mem_sbrk}
use computer_systems.Malloc.Sizes.{header_size, alignment, implicit_size}

-- `words` gives the size_t at an address: the headers. Those of the program's blocks are multiples of 16 bytes apart,
-- so that the words do not overlap. Reading NULL, as coalesce_blocks does on an empty heap, gives a word.
pub record Heap : Type 0 where
  pub words : ℕ → ℕ
  pub mm_heap_first : ℕ
  pub mm_heap_last : ℕ
  pub memory : MemoryModel

abbrev pub write : ℕ → ℕ → (ℕ → ℕ) → ℕ → ℕ
write a v words x = if a == x then v else words x

-- size | is_allocated
unfoldable pub header : ℕ → Bool → ℕ
header size is_allocated = if is_allocated then size / 2 * 2 + 1 else size

abbrev pub set_header : ℕ → ℕ → Bool → Heap → Heap
set_header block size is_allocated h = record h {
  words = write block (header size is_allocated) h.words;
}

-- header & ~1
unfoldable pub size_of : ℕ → ℕ
size_of word = word / 2 * 2

abbrev pub get_size : ℕ → Heap → ℕ
get_size block h = size_of (h.words block)

unfoldable pub allocated_of : ℕ → Bool
allocated_of word = word % 2 == 1

abbrev pub is_allocated : ℕ → Heap → Bool
is_allocated block h = allocated_of (h.words block)

abbrev payload : ℕ → ℕ
payload block = block + header_size

abbrev pub move_last : ℕ → ℕ → Heap → Heap
move_last from to h = record h {
  mm_heap_last = if h.mm_heap_last == from then to else h.mm_heap_last;
}

unfoldable pub split_block : ℕ → ℕ → ℕ → Heap → ℕ × Heap
split_block block size block_size h =
    let h₁ = set_header block size true h in
    let h₂ = set_header (block + size) ((block_size + 2 ^ 64 - size) % 2 ^ 64) false h₁ in
    (payload block, move_last block (block + size) h₂)

abbrev pub in_list : ℕ → Heap → Bool
in_list curr h = not (h.mm_heap_last == 0) && leb curr h.mm_heap_last

-- The fuel is the number of rounds.
unfoldable pub coalesce_loop : ℕ → ℕ → ℕ → Heap → Option Heap
coalesce_loop zero prev curr h = none
coalesce_loop (suc n) prev curr h =
    let new_block_size = (get_size prev h + get_size curr h) % 2 ^ 64 in
    let merged =
      coalesce_loop n prev (prev + new_block_size)
        (set_header prev new_block_size false (move_last curr prev h)) in
    let moved = coalesce_loop n (prev + get_size prev h) (curr + get_size curr h) h in
    if in_list curr h
    then (if not (is_allocated prev h) && not (is_allocated curr h) then merged else moved)
    else some h

abbrev pub coalesce_blocks : ℕ → Heap → Option Heap
coalesce_blocks n h =
    coalesce_loop n h.mm_heap_first (h.mm_heap_first + get_size h.mm_heap_first h) h

unfoldable pub fit_loop : ℕ → ℕ → ℕ → Heap → Option (Option ℕ)
fit_loop zero curr size h = none
fit_loop (suc n) curr size h =
    let next = fit_loop n (curr + get_size curr h) size h in
    if in_list curr h
    then (if not (is_allocated curr h) && leb size (get_size curr h)
        then some (some curr)
        else next)
    else some none

abbrev pub find_fit : ℕ → ℕ → Heap → Option (Option ℕ)
find_fit n size h = fit_loop n h.mm_heap_first size h

-- The conversion of a size_t to the intptr_t that mem_sbrk takes.
abbrev pub to_intptr : ℕ → ℤ
to_intptr size = if ltb size (2 ^ 63) then pos size else negsuc (2 ^ 64 - 1 - size)

unfoldable pub mm_init : Heap → Bool × Heap
mm_init h =
    let (padding, memory) = mem_sbrk (to_intptr (alignment - header_size)) h.memory in
    elim padding [
      | none ↦ (false, record h { memory = memory })
      | some p ↦ (true, record h { memory = memory; mm_heap_first = 0; mm_heap_last = 0 })
    ]

-- The new block, behind all others; (void *) -1 is none.
abbrev pub add_block : ℕ → Heap → Option ℕ × MemoryModel → Option ℕ × Heap
add_block size h (none, memory) = (none, record h { memory = memory })
add_block size h (some b, memory) = (
  some (payload b),
  set_header b size true (record h {
    memory = memory;
    mm_heap_first = if h.mm_heap_first == 0 then b else h.mm_heap_first;
    mm_heap_last = b;
  }),
)

unfoldable pub extend : ℕ → Heap → Option ℕ × Heap
extend size h = add_block size h (mem_sbrk (to_intptr size) h.memory)

-- The block that find_fit has found is taken, whole or in part.
unfoldable pub place : ℕ → ℕ → Heap → ℕ × Heap
place block size h =
    let block_size = get_size block h in
    if ltb size block_size
    then split_block block size block_size h
    else (payload block, set_header block block_size true h)

unfoldable pub mm_malloc : ℕ → ℕ → Heap → Option (Option ℕ × Heap)
mm_malloc n request h =
    let size = implicit_size request in
    coalesce_blocks n h >>= λ h₁. find_fit n size h₁ >>= λ block. elim block [
      | some b ↦ let (ptr, h₂) = place b size h₁ in some (some ptr, h₂)
      | none ↦ some (extend size h₁)
    ]

unfoldable pub mm_free : ℕ → Heap → Heap
mm_free ptr h =
    if ptr == 0 then h else set_header (ptr - header_size) (get_size (ptr - header_size) h) false h
