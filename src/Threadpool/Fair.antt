-- ===== src/Threadpool/Fair.antt =====
-- threadpool/src/thread_pool.c: the invariant of the pool, at the start and when its clients put values.
use computer_systems.Prelude.{
  ℕ, ◌+◌, ◌≤◌, ◌<◌, ◌≡◌, refl, ◌∙◌, List, [], ◌∷◌, ◌++◌, Option, none, some, length, arith, ◌⊎◌,
  inl, inr, length-replicate, length-append,
}
use computer_systems.Threadpool.Pool.{
  Worker, waiting, Pool, thread_pool_init, put, thread_pool_add_work, put_null, signal,
}
use computer_systems.Threadpool.Totals.{
  total, total-append, same, as_work, is_null, is_work, as_running, is_waiting, is_sleeping,
  is_ended, Sealed, Sealed-null, Sealed-work, total-waiting, total-signal, length-signal,
  signal-sleeping, signal-wakes,
}

pub record Fair (n : ℕ) (js : List ℕ) (p : Pool) : Type 0 where
  -- every piece of work is in the queue, in a worker or done
  pub kept :
      (x : ℕ)
      → total (same x) js
        ≡ total (as_work x) p.work + total (as_running x) p.workers + total (same x) p.calls
  pub nulls : total is_null p.work + total is_ended p.workers ≡ p.nulls
  pub closed : Sealed p.work
  pub over : (0 < total is_ended p.workers) → total is_work p.work ≡ 0
  pub all : length p.workers ≡ n
  -- while a worker sleeps, for each value in the queue another one is awake
  pub awake : 0 < total is_sleeping p.workers → length p.work ≤ total is_waiting p.workers

-- What a step of one worker does to a count of the workers.
pub total-replace :
    (f : Worker → ℕ) (xs ys : List Worker) (v w : Worker)
    → total f (xs ++ (w ∷ ys)) + f v ≡ total f (xs ++ (v ∷ ys)) + f w
total-replace f xs ys v w = omega (arith, total-append f xs (w ∷ ys), total-append f xs (v ∷ ys))

pub init-Fair : (n : ℕ) → Fair n [] (thread_pool_init n)
unfolding thread_pool_init Sealed
init-Fair n = record {
  kept = λ x. omega (arith, total-waiting (as_running x) n refl);
  nulls = omega (arith, total-waiting is_ended n refl);
  closed = refl;
  over = λ h. refl;
  all = length-replicate n waiting;
  awake = λ h. omega arith;
}

pub zero_or_positive : (m : ℕ) → (m ≡ 0) ⊎ (0 < m)
zero_or_positive m = omega arith

-- While a worker sleeps, a value that is put in the queue comes with one that is woken.
put-awake :
    (k : ℕ) (w : Option ℕ) (p : Pool)
    → (0 < total is_sleeping p.workers → length p.work ≤ total is_waiting p.workers)
    → 0 < total is_sleeping (signal k p.workers)
    → length (p.work ++ (w ∷ [])) ≤ total is_waiting (signal k p.workers)
put-awake k w p awake h = elim (zero_or_positive (total is_sleeping p.workers)) [
  | inl e ↦ absurd (omega (arith, signal-sleeping k p.workers e))
  | inr l ↦ omega (arith, awake l, signal-wakes k p.workers l, length-append p.work (w ∷ []))
]

pub add-Fair :
    (n i j : ℕ) (js : List ℕ) (p : Pool)
    → p.nulls ≡ 0
    → Fair n js p
    → Fair n (js ++ (j ∷ [])) (thread_pool_add_work i j p)
unfolding thread_pool_add_work put
add-Fair n i j js p none_put k =
    let ends = total-signal is_ended i p.workers refl in
    record {
      kept = λ x. omega (
        arith,
        k.kept x,
        total-append (same x) js (j ∷ []),
        total-append (as_work x) p.work (some j ∷ []),
        total-signal (as_running x) i p.workers refl,
      );
      nulls = omega (arith, k.nulls, total-append is_null p.work (some j ∷ []), ends);
      closed = Sealed-work p.work j (omega (arith, k.nulls));
      over = λ h. absurd (omega (arith, k.nulls, ends));
      all = length-signal i p.workers ∙ k.all;
      awake = put-awake i (some j) p k.awake;
    }

pub finish-Fair : (n i : ℕ) (js : List ℕ) (p : Pool) → Fair n js p → Fair n js (put_null i p)
unfolding put_null put
finish-Fair n i js p k =
    let ends = total-signal is_ended i p.workers refl in
    record {
      kept = λ x. omega (
        arith,
        k.kept x,
        total-append (as_work x) p.work (none ∷ []),
        total-signal (as_running x) i p.workers refl,
      );
      nulls = omega (arith, k.nulls, total-append is_null p.work (none ∷ []), ends);
      closed = Sealed-null p.work k.closed;
      over =
          λ h. omega (arith, k.over (omega (arith, ends)), total-append is_work p.work (none ∷ []));
      all = length-signal i p.workers ∙ k.all;
      awake = put-awake i none p k.awake;
    }
