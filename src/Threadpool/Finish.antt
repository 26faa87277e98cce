-- ===== src/Threadpool/Finish.antt =====
-- threadpool/src/thread_pool.c: what holds when the workers have been joined, and before.
use computer_systems.Prelude.{ℕ, ◌+◌, ◌≤◌, ◌<◌, ◌≡◌, List, length, arith, ◌⊎◌, inl, inr}
use computer_systems.Threadpool.Pool.{Pool, Reaches}
use computer_systems.Threadpool.Totals.{
  total, same, is_work, is_running, is_waiting, is_sleeping, is_ended, length-total, running-total,
  work-total, null-length,
}
use computer_systems.Threadpool.Fair.{zero_or_positive}
use computer_systems.Threadpool.Steps.{Reaches-Fair}

-- In every state of a pool with a worker in which all workers have ended, as after the joins of
-- thread_pool_finish, each piece of work has been called exactly as often as it was added.
pub Reaches-all_called :
    {n : ℕ} {js : List ℕ} {p : Pool}
    → Reaches n js p
    → 0 < n
    → total is_ended p.workers ≡ n
    → (x : ℕ) → total (same x) p.calls ≡ total (same x) js
Reaches-all_called {n} {js} {p} r some_worker joined x =
    let k = Reaches-Fair r in
    let idle : total is_running p.workers ≡ 0 = omega (arith, length-total p.workers, k.all) in
    let empty : total is_work p.work ≡ 0 = k.over (omega arith) in
    omega (arith, k.kept x, running-total x p.workers idle, work-total x p.work empty)

-- Once as many null pointers have been put as there are workers, and until all workers have ended, no
-- worker sleeps in pthread_cond_wait, and one is in a call or is awake with a queue that is not empty.
pub Reaches-progress :
    {n : ℕ} {js : List ℕ} {p : Pool}
    → Reaches n js p
    → p.nulls ≡ n
    → total is_ended p.workers < n
    → (total is_sleeping p.workers ≡ 0)
      × ((0 < total is_running p.workers)
          ⊎ ((0 < total is_waiting p.workers) × (0 < length p.work)))
Reaches-progress {n} {js} {p} r all_put left =
    let k = Reaches-Fair r in
    let counted = length-total p.workers in
    let put_all : n ≤ length p.work + total is_ended p.workers =
      omega (arith, k.nulls, null-length p.work) in
    let all_awake : total is_sleeping p.workers ≡ 0 =
      elim (zero_or_positive (total is_sleeping p.workers)) [
        | inl e ↦ e
        | inr l ↦ absurd (omega (arith, k.all, counted, k.awake l))
      ] in
    (all_awake, omega (arith, k.all, counted))
