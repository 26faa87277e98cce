-- ===== src/Jvm/Machine.antt =====
-- java-virtual-machine/jvm.c: the state that the instructions work on. `execute` keeps the operand
-- stack as an array of `max_stack` slots with the number of slots in use, `stack_p`; the locals as
-- an array; and the position in the bytecode, `pc`. The heap of java-virtual-machine/heap.c is an
-- array of arrays, and a reference is an index into it. `out` collects what `printf` prints.
use computer_systems.Prelude.{ℕ, ◌+◌, ◌%◌, ◌^◌, ◌*◌, ◌-◌, List, [], ◌∷◌, ◌++◌, length}
use computer_systems.Jvm.Outcome.{Result, ok, ◌>>=◌, get, put, below}

-- code_t, with the bytes of `code`; its length is the source's `code_length`
pub record Code : Type 0 where
  pub max_stack : ℕ
  pub max_locals : ℕ
  pub code : List ℕ

-- heap_t: `ptr` holds the arrays, whose slot 0 is their length; `count` is the list's length.
abbrev pub Heap : Type 0
Heap = List (List ℕ)

pub record Machine : Type 0 where
  pub stack : List ℕ
  pub stack_p : ℕ
  pub locals : List ℕ
  pub pc : ℕ
  pub heap : Heap
  pub out : List ℕ

-- The conversion of a size_t addition: pc + k.
abbrev pub add_size : ℕ → ℕ → ℕ
add_size a b = (a + b) % 2 ^ 64

unfoldable pub heap_init : Heap
heap_init = []

unfoldable pub heap_add : Heap → List ℕ → ℕ × Heap
heap_add heap arr = (length heap, heap ++ (arr ∷ []))

unfoldable pub heap_get : Heap → ℕ → Result (List ℕ)
heap_get heap ref = get heap ref

-- `stack[stack_p - k]`
unfoldable pub peek : ℕ → Machine → Result ℕ
peek k m = do i ← below k m.stack_p; get m.stack i

-- `stack[stack_p - k] = v`
unfoldable pub poke : ℕ → ℕ → Machine → Result Machine
poke k v m = do i ← below k m.stack_p; s ← put m.stack i v; ok (record m { stack = s })

-- `stack[stack_p] = v; stack_p += 1`
unfoldable pub push : ℕ → Machine → Result Machine
push v m = do s ← put m.stack m.stack_p v; ok (record m { stack = s; stack_p = m.stack_p + 1 })

-- `stack[stack_p] = v`, above the slots in use
unfoldable pub poke_above : ℕ → Machine → Result Machine
poke_above v m = do s ← put m.stack m.stack_p v; ok (record m { stack = s })

unfoldable pub set_locals : List ℕ → Machine → Machine
set_locals locals m = record m { locals = locals }

unfoldable pub set_heap : Heap → Machine → Machine
set_heap heap m = record m { heap = heap }

-- `printf("%d\n", v)`
unfoldable pub print_int : ℕ → Machine → Machine
print_int v m = record m { out = m.out ++ (v ∷ []) }

-- `stack_p -= k`, after reads that have shown `k` slots to be in use.
unfoldable pub drop_slots : ℕ → Machine → Machine
drop_slots k m = record m { stack_p = m.stack_p - k }

-- `pc += k`
unfoldable pub skip : ℕ → Machine → Machine
skip k m = record m { pc = add_size m.pc k }

-- The byte at `pc + k`, and the two bytes at `pc + 1` and `pc + 2` as an unsigned 16-bit number.
unfoldable pub byte_at : Code → ℕ → Machine → Result ℕ
byte_at c k m = get c.code (m.pc + k)

unfoldable pub word_at : Code → Machine → Result ℕ
word_at c m = do b1 ← byte_at c 1 m; b2 ← byte_at c 2 m; ok (b1 * 256 + b2)
