-- ===== src/Threadpool/Pool.antt =====
-- threadpool/src/thread_pool.c and queue.c: the workers and their clients as steps on a queue of work, with
-- the waits and wake-ups of the queue. The queue is the list of its values, as Threadpool.Fifo shows; a
-- value is the null pointer, `none`, or a piece of work, by the number of its call.
use computer_systems.Prelude.{
  ℕ, zero, suc, ◌+◌, ◌≡◌, Bool, true, false, List, [], ◌∷◌, ◌++◌, Option, none, some, replicate,
  if◌then◌else◌,
}

pub data Worker : Type 0 where
  -- in queue_dequeue, before a test of the size
  waiting : Worker
  -- in pthread_cond_wait
  sleeping : Worker
  -- in the function of a piece of work
  running : ℕ → Worker
  -- returned from thread_execute
  ended : Worker

-- `nulls` is how many null pointers have been put, and `calls` the calls that have returned.
pub record Pool : Type 0 where
  pub work : List (Option ℕ)
  pub workers : List Worker
  pub nulls : ℕ
  pub calls : List ℕ

unfoldable pub thread_pool_init : ℕ → Pool
thread_pool_init n = record { work = []; workers = replicate n waiting; nulls = 0; calls = [] }

abbrev pub one_sleeps : List Worker → Bool
one_sleeps [] = false
one_sleeps (waiting ∷ ws) = one_sleeps ws
one_sleeps (sleeping ∷ ws) = true
one_sleeps (running j ∷ ws) = one_sleeps ws
one_sleeps (ended ∷ ws) = one_sleeps ws

-- pthread_cond_signal wakes one of the workers that sleep, if there is one. Which one is the scheduler's
-- choice: the one behind `k` others that sleep, or the last one.
unfoldable pub signal : ℕ → List Worker → List Worker
signal k [] = []
signal k (waiting ∷ ws) = waiting ∷ signal k ws
signal k (running j ∷ ws) = running j ∷ signal k ws
signal k (ended ∷ ws) = ended ∷ signal k ws
signal zero (sleeping ∷ ws) = waiting ∷ ws
signal (suc k) (sleeping ∷ ws) =
    let rest = signal k ws in if one_sleeps ws then sleeping ∷ rest else waiting ∷ ws

-- queue_enqueue with its signal.
unfoldable pub put : ℕ → Option ℕ → Pool → Pool
put k w p = record p { work = p.work ++ (w ∷ []); workers = signal k p.workers }

unfoldable pub thread_pool_add_work : ℕ → ℕ → Pool → Pool
thread_pool_add_work k j p = put k (some j) p

-- One round of the first loop of thread_pool_finish.
unfoldable pub put_null : ℕ → Pool → Pool
put_null k p = record (put k none p) { nulls = p.nulls + 1 }

-- What thread_execute does with a value from the queue: the test of its loop.
unfoldable pub got : Option ℕ → Worker
got none = ended
got (some j) = running j

-- The states that a pool of `n` workers can reach after the work of a list has been added. No work is
-- added behind a null pointer. One worker takes the first value of the queue, goes to sleep on a queue
-- that is empty, or finishes its call; one that sleeps may also wake without a signal.
pub data Reaches (n : ℕ) : List ℕ → Pool → Type 0 where
  init : Reaches n [] (thread_pool_init n)
  add :
      {js : List ℕ} {p : Pool} (k j : ℕ)
      → Reaches n js p
      → p.nulls ≡ 0
      → Reaches n (js ++ (j ∷ [])) (thread_pool_add_work k j p)
  finish : {js : List ℕ} {p : Pool} (k : ℕ) → Reaches n js p → Reaches n js (put_null k p)
  take :
      {js : List ℕ} {p : Pool} (w : Option ℕ) (rest : List (Option ℕ)) (xs ys : List Worker)
      → Reaches n js p
      → p.work ≡ w ∷ rest
      → p.workers ≡ xs ++ (waiting ∷ ys)
      → Reaches n js (record p { work = rest; workers = xs ++ (got w ∷ ys) })
  sleep :
      {js : List ℕ} {p : Pool} (xs ys : List Worker)
      → Reaches n js p
      → p.work ≡ []
      → p.workers ≡ xs ++ (waiting ∷ ys)
      → Reaches n js (record p { workers = xs ++ (sleeping ∷ ys) })
  wake :
      {js : List ℕ} {p : Pool} (xs ys : List Worker)
      → Reaches n js p
      → p.workers ≡ xs ++ (sleeping ∷ ys)
      → Reaches n js (record p { workers = xs ++ (waiting ∷ ys) })
  return :
      {js : List ℕ} {p : Pool} (j : ℕ) (xs ys : List Worker)
      → Reaches n js p
      → p.workers ≡ xs ++ (running j ∷ ys)
      → Reaches n js (record p { workers = xs ++ (waiting ∷ ys); calls = p.calls ++ (j ∷ []) })
