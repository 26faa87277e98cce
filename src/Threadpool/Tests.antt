-- ===== src/Threadpool/Tests.antt =====
-- threadpool/src/queue.c: the theorems of the queue on a few calls.
use Prim.{tt}
use computer_systems.Prelude.{ℕ, ◌≡◌, refl, List, [], ◌∷◌, Option, none, some, arith}
use computer_systems.Threadpool.Memory.{Node, Memory, write, update}
use computer_systems.Threadpool.Queue.{
  Queue, Allocation, allocate, queue_init, queue_enqueue, returned, take_first, queue_dequeue,
}
use computer_systems.Threadpool.Linked.{Linked, Distinct, Apart, last}
use computer_systems.Threadpool.Fifo.{IsQueue, queue_init-IsQueue, queue_enqueue-IsQueue}
use computer_systems.Threadpool.Dequeue.{queue_dequeue-IsQueue}
use computer_systems.Threadpool.History.{
  Event, put, get, History, quiet, enqueued, waited, dequeued, values, History-fifo,
}

-- The addresses 16, 32 and up, with arbitrary contents.
abbrev block : ℕ → Allocation
block a = record { address = a; junk = record { value = 5; next = 77; prev = 78 } }

abbrev nowhere : Memory
nowhere p = none

queue_init-IsQueue_example :
    (q : Queue) × (m : Memory) × (queue_init (block 16) (block 32) nowhere ≡ some (q, m))
    × IsQueue q m []
queue_init-IsQueue_example =
    queue_init-IsQueue (block 16) (block 32) nowhere (λ e. absurd (omega arith))

-- The state behind queue_init.
abbrev empty : Queue
empty = record { head = 16; tail = 32; size = 0 }

abbrev node : ℕ → ℕ → ℕ → Option Node
node v n p = some (record { value = v; next = n; prev = p })

abbrev empty_memory : Memory
empty_memory = write 32 (node 5 77 16) (write 16 (node 5 32 78) nowhere)

empty-IsQueue : IsQueue empty empty_memory []
unfolding Linked Distinct Apart last write
empty-IsQueue = record {
  head_value = 5;
  tail_node = record { value = 5; next = 77; prev = 16 };
  linked = (78, refl);
  at_tail = refl;
  back = refl;
  distinct = tt;
  tail_apart = λ e. absurd (omega arith);
  counted = refl;
  fits = omega arith;
}

-- The state with the value 9 in a node at 48.
abbrev one : Queue
one = record { head = 16; tail = 32; size = 1 }

abbrev one_memory : Memory
one_memory = write 48 (node 9 32 48) (write 32 (node 5 77 48) (write 16 (node 5 48 78) nowhere))

one-IsQueue : IsQueue one one_memory ((48, 9) ∷ [])
unfolding Linked Distinct Apart last write
one-IsQueue = record {
  head_value = 5;
  tail_node = record { value = 5; next = 77; prev = 48 };
  linked = ((78, refl), (48, refl));
  at_tail = refl;
  back = refl;
  distinct = ((λ e. absurd (omega arith)), tt);
  tail_apart = ((λ e. absurd (omega arith)), λ e. absurd (omega arith));
  counted = refl;
  fits = omega arith;
}

queue_enqueue-IsQueue_example :
    (q : Queue) × (m : Memory) × (queue_enqueue (block 64) 8 one one_memory ≡ some (q, m))
    × IsQueue q m ((48, 9) ∷ (64, 8) ∷ [])
unfolding write
queue_enqueue-IsQueue_example =
    queue_enqueue-IsQueue one one_memory ((48, 9) ∷ []) one-IsQueue (block 64) 8 refl (omega arith)

queue_dequeue-IsQueue_example :
    (q : Queue) × (m : Memory) × (queue_dequeue one one_memory ≡ some (returned 9 q m))
    × (m 48 ≡ none)
    × IsQueue q m []
queue_dequeue-IsQueue_example = queue_dequeue-IsQueue one one_memory 48 9 [] one-IsQueue

-- A wait, two calls that put 9 and 8, and one that gets 9.
abbrev calls : List Event
calls = put 9 ∷ put 8 ∷ get 9 ∷ []

History-fifo_example :
    (q : Queue) × (m : Memory) × (left : List (ℕ × ℕ)) × IsQueue q m left
    × (9 ∷ 8 ∷ [] ≡ 9 ∷ values left)
unfolding queue_enqueue queue_dequeue take_first write update allocate
History-fifo_example =
    let h : History empty empty_memory calls _ _ = waited refl (
      enqueued (block 48) refl (omega arith) refl
        (enqueued (block 64) refl (omega arith) refl (dequeued refl quiet))) in
    let (left, inv, order) = History-fifo h [] empty-IsQueue in (_, _, left, inv, order)
