-- ===== src/Asan/Heap.antt =====
-- signal-handler/myasan.c: malloc, free, the leak check and the handler of segmentation faults. An
-- access of a page outside the mapping is a fault. A report ends the program.
use computer_systems.Prelude.{
  ℕ, zero, suc, ◌+◌, ◌-◌, ◌*◌, ◌/◌, ◌%◌, ◌^◌, Bool, true, false, not, ◌&&◌, ◌||◌, Option, none,
  some, ltb, leb, ◌==◌, if◌then◌else◌,
}

abbrev pub page_size : ℕ
page_size = 4096

abbrev pub start_page : ℕ
start_page = 2 ^ 32

abbrev pub max_heap_size : ℕ
max_heap_size = 2 ^ 30

abbrev pub header_magic : ℕ
header_magic = 81985529216486895

pub record Header : Type 0 where
  pub magic : ℕ
  pub size : ℕ
  pub is_allocated : Bool

-- `headers` is the first bytes of the page at an address, and `access` whether a page, by its number,
-- can be read and written.
pub record PageHeap : Type 0 where
  pub current_page : ℕ
  pub headers : ℕ → Header
  pub access : ℕ → Bool

unfoldable pub asan_init : PageHeap
asan_init = record {
  current_page = start_page;
  headers = λ p. record { magic = 0; size = 0; is_allocated = false };
  access = λ n. false;
}

abbrev pub mapped : ℕ → Bool
mapped p = leb start_page p && ltb p (start_page + max_heap_size)

-- mprotect of `count` pages from an address, which is that of a page. Where the range leaves the mapping the call fails,
-- and nobody looks at its result: only pages that are mapped have changed, and none if the range is none of addresses.
unfoldable pub mprotect : ℕ → ℕ → Bool → (ℕ → Bool) → ℕ → Bool
mprotect p count mode access n =
    if ltb (p + count * page_size) (2 ^ 64)
      && (mapped (n * page_size) && (leb (p / page_size) n && ltb n (p / page_size + count)))
    then mode
    else access n

unfoldable pub pages_round_up : ℕ → ℕ
pages_round_up size = (size + page_size - 1) % 2 ^ 64 / page_size

unfoldable pub get_payload : ℕ → ℕ → ℕ
get_payload header size =
    (header + page_size + pages_round_up size * page_size + (2 ^ 64 - size % 2 ^ 64)) % 2 ^ 64

-- The page is opened, written and closed.
unfoldable pub set_header : ℕ → ℕ → Bool → PageHeap → Option PageHeap
set_header p size is_allocated h =
    if mapped p
    then some (record h {
      headers = λ x.
          if p == x
          then record { magic = header_magic; size = size; is_allocated = is_allocated }
          else h.headers x;
      access = mprotect p 1 false (mprotect p 1 true h.access);
    })
    else none

-- The result is the block and the heap, or a fault.
unfoldable pub malloc : ℕ → PageHeap → Option (ℕ × PageHeap)
malloc size h =
    let pages_necessary = pages_round_up size in
    let access = mprotect (h.current_page + page_size) pages_necessary true h.access in
    let opened = mprotect h.current_page 1 true access in
    elim (set_header h.current_page size true (record h { access = opened })) [
      | none ↦ none
      | some h' ↦ some (
        get_payload h.current_page size,
        record h' {
          access = mprotect h.current_page 1 false h'.access;
          current_page = (h.current_page + page_size * (1 + pages_necessary)) % 2 ^ 64;
        },
      )
    ]

pub data Freed : Type 0 where
  returned : PageHeap → Freed
  invalid_free : ℕ → Freed
  double_free : ℕ → ℕ → Freed
  fault : Freed

-- free behind the tests of the pointer's range, with the header that the pointer gives.
unfoldable pub free_block : ℕ → ℕ → PageHeap → Freed
free_block header ptr h =
    let block = h.headers header in
    if not (mapped header)
    then fault
    else if not (block.magic == header_magic) || not (get_payload header block.size == ptr)
    then invalid_free ptr
    else if not block.is_allocated
    then double_free ptr block.size
    else elim (set_header header block.size false
        (record h { access = mprotect header 1 true h.access })) [
          | none ↦ fault
          | some h' ↦ returned (record h' {
            access =
                mprotect (header + page_size) (pages_round_up block.size) false
                  (mprotect header 1 false h'.access);
          })
        ]

unfoldable pub free : ℕ → PageHeap → Freed
free ptr h =
    if ptr == 0
    then returned h
    else if ltb ptr (start_page + page_size) || ltb (start_page + max_heap_size * page_size) ptr
    then invalid_free ptr
    else free_block (ptr - page_size - (ptr - start_page) % page_size) ptr h

pub data Report : Type 0 where
  seg_fault : ℕ → Report
  invalid_heap_access : ℕ → Report

-- The handler, once the heap has been set up.
unfoldable pub sigsegv_handler : ℕ → PageHeap → Report
sigsegv_handler addr h =
    if leb start_page addr && ltb addr (h.current_page + page_size)
    then invalid_heap_access addr
    else seg_fault addr

-- What the leak check finds; a read outside the mapping is a fault.
pub data Leak : Type 0 where
  no_leak : Leak
  memory_leak : ℕ → ℕ → Leak
  leak_fault : Leak

-- The loop, with the header of the round before, and the address of the next one.
unfoldable pub check_blocks : ℕ → ℕ → ℕ → PageHeap → Option Leak
check_blocks zero header current_addr h = if ltb header h.current_page then none else some no_leak
check_blocks (suc fuel) header current_addr h =
    let block = h.headers current_addr in
    let rest =
      check_blocks fuel current_addr
        (current_addr + page_size + pages_round_up block.size * page_size) h in
    if not (ltb header h.current_page)
    then some no_leak
    else if not (mapped current_addr)
    then some leak_fault
    else if block.is_allocated
    then some (memory_leak (get_payload current_addr block.size) block.size)
    else rest

unfoldable pub check_for_leaks : ℕ → PageHeap → Option Leak
check_for_leaks fuel h = check_blocks fuel start_page start_page h
