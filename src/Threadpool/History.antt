-- ===== src/Threadpool/History.antt =====
-- threadpool/src/queue.c: the calls that threads make on one queue, in the order in which they get the mutex.
use mathlib.Core.Path.{subst}
use Prim.{Unit, tt}
use mathlib.Core.List.{append_assoc, append-nil}
use computer_systems.Prelude.{
  ℕ, ◌+◌, ◌^◌, ◌<◌, ◌≡◌, refl, sym, ap, ◌∙◌, List, [], ◌∷◌, ◌++◌, Option, none, some, ◌==◌, arith,
  true,
}
use computer_systems.Threadpool.Memory.{Memory}
use computer_systems.Threadpool.Queue.{
  Queue, Allocation, queue_enqueue, Dequeued, waits, returned, queue_dequeue,
}
use computer_systems.Threadpool.Fifo.{IsQueue, queue_enqueue-IsQueue}
use computer_systems.Threadpool.Dequeue.{queue_dequeue-IsQueue}

-- A finished call, with the value that it put or got.
pub data Event : Type 0 where
  put : ℕ → Event
  get : ℕ → Event

-- The calls of the source that lead from one state to another one. malloc returns an address that is
-- not allocated, and the size stays below 2 ^ 64. A call that waits changes nothing.
pub data History : Queue → Memory → List Event → Queue → Memory → Type 0 where
  quiet : {q : Queue} {m : Memory} → History q m [] q m
  enqueued :
      {q q' q'' : Queue} {m m' m'' : Memory} {es : List Event} {v : ℕ}
      → (a : Allocation) → m a.address ≡ none
      → q.size + 1 < 2 ^ 64
      → queue_enqueue a v q m ≡ some (q', m')
      → History q' m' es q'' m''
      → History q m (put v ∷ es) q'' m''
  waited :
      {q q'' : Queue} {m m'' : Memory} {es : List Event}
      → queue_dequeue q m ≡ some waits
      → History q m es q'' m''
      → History q m es q'' m''
  dequeued :
      {q q' q'' : Queue} {m m' m'' : Memory} {es : List Event} {v : ℕ}
      → queue_dequeue q m ≡ some (returned v q' m')
      → History q' m' es q'' m''
      → History q m (get v ∷ es) q'' m''

abbrev pub puts : List Event → List ℕ
puts [] = []
puts (put v ∷ es) = v ∷ puts es
puts (get v ∷ es) = puts es

abbrev pub gets : List Event → List ℕ
gets [] = []
gets (put v ∷ es) = gets es
gets (get v ∷ es) = v ∷ gets es

abbrev pub values : List (ℕ × ℕ) → List ℕ
values [] = []
values ((a, v) ∷ cells) = v ∷ values cells

values-append :
    (cells : List (ℕ × ℕ)) (a v : ℕ) → values (cells ++ ((a, v) ∷ [])) ≡ values cells ++ (v ∷ [])
values-append [] a v = refl
values-append ((b, w) ∷ cells) a v = ap (λ vs. w ∷ vs) (values-append cells a v)

-- On an empty queue queue_dequeue waits.
pub queue_dequeue-waits : (q : Queue) (m : Memory) → IsQueue q m [] → queue_dequeue q m ≡ some waits
unfolding queue_dequeue
queue_dequeue-waits q m inv = rw (zero_size inv.counted) refl
  where
    zero_size : {n : ℕ} → n ≡ 0 → (n == 0) ≡ true
    zero_size e = ground arith

abbrev After : List (ℕ × ℕ) → Option (Queue × Memory) → Type 0
After cells none = Unit
After cells (some (q, m)) = IsQueue q m cells

-- What the result of queue_dequeue on the cells is.
abbrev Taken : List (ℕ × ℕ) → Option Dequeued → Type 0
Taken cells none = Unit
Taken cells (some waits) = Unit
Taken cells (some (returned v q m)) =
    (f : ℕ) × (rest : List (ℕ × ℕ)) × (cells ≡ (f, v) ∷ rest) × IsQueue q m rest

queue_dequeue-Taken :
    (q : Queue) (m : Memory) (cells : List (ℕ × ℕ))
    → IsQueue q m cells
    → Taken cells (queue_dequeue q m)
queue_dequeue-Taken q m [] inv = subst (Taken []) (sym (queue_dequeue-waits q m inv)) tt
queue_dequeue-Taken q m ((f, w) ∷ rest) inv =
    let (q', m', run, freed, inv') = queue_dequeue-IsQueue q m f w rest inv in
    subst (Taken ((f, w) ∷ rest)) (sym run) (f, rest, refl, inv')

-- Along every history the queue stays a queue of the heap, and the values in it at first, followed by
-- those put, are those that were got, followed by the ones left: first in, first out.
pub History-fifo :
    {q q' : Queue} {m m' : Memory} {es : List Event}
    → History q m es q' m'
    → (cells : List (ℕ × ℕ)) → IsQueue q m cells
    → (left : List (ℕ × ℕ)) × IsQueue q' m' left
      × (values cells ++ puts es ≡ gets es ++ values left)
History-fifo quiet cells inv = (cells, inv, append-nil (values cells))
History-fifo (enqueued {q} {es = es} {v = v} a new small run rest) cells inv =
    let (q₁, m₁, run₁, inv₁) =
      queue_enqueue-IsQueue q _ cells inv a v new (omega (arith, inv.counted, small)) in
    let more = cells ++ ((a.address, v) ∷ []) in
    let (left, k, e) = History-fifo rest more (subst (After more) (sym run₁ ∙ run) inv₁) in
    (
      left,
      k,
      sym (append_assoc (values cells) (v ∷ []) (puts es))
          ∙ ap (λ vs. vs ++ puts es) (sym (values-append cells a.address v))
          ∙ e,
    )
History-fifo (waited run rest) cells inv = History-fifo rest cells inv
History-fifo (dequeued {q} {m = m} {v = v} run rest) cells inv =
    let (f, others, first, inv₁) = subst (Taken cells) run (queue_dequeue-Taken q m cells inv) in
    let (left, k, e) = History-fifo rest others inv₁ in (left, k, rw first (ap (λ vs. v ∷ vs) e))
