-- ===== src/Threadpool/Queue.antt =====
-- threadpool/src/queue.c: queue_init, queue_enqueue, queue_dequeue and queue_free. The mutex makes a
-- call one step of the memory. malloc is the environment's: a call gets the address that it returns
-- and what the new node holds before it is written. The fields that the code does not
-- write keep that. The condition variable is modelled in Threadpool.Pool, and that malloc fails is left out.
use computer_systems.Prelude.{ℕ, ◌+◌, ◌-◌, ◌%◌, ◌^◌, Option, none, some, ◌==◌, if◌then◌else◌}
use computer_systems.Prelude.Options.{◌>>=◌}
use computer_systems.Threadpool.Memory.{Node, Memory, write, update}

pub record Queue : Type 0 where
  pub head : ℕ
  pub tail : ℕ
  pub size : ℕ

-- What malloc returns: an address, and the contents of the node there.
pub record Allocation : Type 0 where
  pub address : ℕ
  pub junk : Node

unfoldable pub allocate : Allocation → Memory → Memory
allocate a m = write a.address (some a.junk) m

unfoldable pub queue_init : Allocation → Allocation → Memory → Option (Queue × Memory)
queue_init h t m = do
  let m₁ = allocate t (allocate h m)
  m₂ ← update h.address (λ n. record n { next = t.address }) m₁
  m₃ ← update t.address (λ n. record n { prev = h.address }) m₂
  some (record { head = h.address; tail = t.address; size = 0 }, m₃)

unfoldable pub queue_enqueue : Allocation → ℕ → Queue → Memory → Option (Queue × Memory)
queue_enqueue a v q m = do
  let new_node = a.address
  m₁ ← update new_node (λ n. record n { value = v }) (allocate a m)
  tail ← m₁ q.tail
  m₂ ← update tail.prev (λ n. record n { next = new_node }) m₁
  m₃ ← update q.tail (λ n. record n { prev = new_node }) m₂
  tail ← m₃ q.tail
  m₄ ← update new_node (λ n. record n { prev = tail.prev }) m₃
  m₅ ← update new_node (λ n. record n { next = q.tail }) m₄
  some (record q { size = (q.size + 1) % 2 ^ 64 }, m₅)

-- A caller of queue_dequeue waits on the condition while the size is 0.
pub data Dequeued : Type 0 where
  waits : Dequeued
  returned : ℕ → Queue → Memory → Dequeued

-- The part of queue_dequeue behind the loop that waits.
unfoldable pub take_first : Queue → Memory → Option Dequeued
take_first q m = do
  head ← m q.head
  first ← m head.next
  m₁ ← update first.next (λ n. record n { prev = q.head }) m
  head₁ ← m₁ q.head
  first₁ ← m₁ head₁.next
  m₂ ← update q.head (λ n. record n { next = first₁.next }) m₁
  some (
      returned first.value (record q { size = (q.size + 2 ^ 64 - 1) % 2 ^ 64 })
        (write head.next none m₂))

unfoldable pub queue_dequeue : Queue → Memory → Option Dequeued
queue_dequeue q m = if q.size == 0 then some waits else take_first q m

-- queue_free frees the two sentinels.
unfoldable pub queue_free : Queue → Memory → Memory
queue_free q m = write q.tail none (write q.head none m)
