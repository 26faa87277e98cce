-- ===== src/Threadpool/PoolTests.antt =====
-- threadpool/src/thread_pool.c: two workers that do one piece of work.
use computer_systems.Prelude.{◌<◌, ◌≡◌, refl, [], ◌∷◌, none, some, arith, length, ◌⊎◌}
use computer_systems.Threadpool.Pool.{
  waiting, sleeping, running, ended, Pool, thread_pool_init, signal, put, thread_pool_add_work,
  put_null, got, Reaches, init, add, finish, take, sleep, return,
}
use computer_systems.Threadpool.Totals.{total, same, is_running, is_waiting, is_sleeping}
use computer_systems.Threadpool.Finish.{Reaches-all_called, Reaches-progress}

-- The choice of the scheduler is one of those that sleep, the last one where it is too large.
signal-last : signal 5 (sleeping ∷ running 3 ∷ sleeping ∷ []) ≡ sleeping ∷ running 3 ∷ waiting ∷ []
unfolding signal
signal-last = refl

-- Both workers sleep before there is work.
abbrev idle : Pool
idle = record { work = []; workers = sleeping ∷ sleeping ∷ []; nulls = 0; calls = [] }

idle-Reaches : Reaches 2 [] idle
unfolding thread_pool_init
idle-Reaches = sleep (sleeping ∷ []) [] (sleep [] (waiting ∷ []) init refl refl) refl refl

-- Work and two null pointers have been put: the signals have woken both workers.
abbrev filled : Pool
filled = record {
  work = some 7 ∷ none ∷ none ∷ [];
  workers = waiting ∷ waiting ∷ [];
  nulls = 2;
  calls = [];
}

filled-Reaches : Reaches 2 (7 ∷ []) filled
unfolding thread_pool_add_work put_null put signal
filled-Reaches = finish 0 (finish 0 (add 1 7 idle-Reaches refl))

-- The second worker has met its null pointer and the first one is in the call.
abbrev busy : Pool
busy = record { work = none ∷ []; workers = running 7 ∷ ended ∷ []; nulls = 2; calls = [] }

busy-Reaches : Reaches 2 (7 ∷ []) busy
unfolding got
busy-Reaches =
    take none (none ∷ []) (running 7 ∷ []) []
      (take (some 7) (none ∷ none ∷ []) [] (waiting ∷ []) filled-Reaches refl refl) refl refl

-- All has been done.
abbrev over : Pool
over = record { work = []; workers = ended ∷ ended ∷ []; nulls = 2; calls = 7 ∷ [] }

over-Reaches : Reaches 2 (7 ∷ []) over
unfolding got
over-Reaches = take none [] [] (ended ∷ []) (return 7 [] (ended ∷ []) busy-Reaches refl) refl refl

Reaches-all_called_example : total (same 7) over.calls ≡ 1
Reaches-all_called_example = Reaches-all_called over-Reaches (omega arith) refl 7

Reaches-progress_example :
    (total is_sleeping filled.workers ≡ 0)
    × ((0 < total is_running filled.workers)
        ⊎ ((0 < total is_waiting filled.workers) × (0 < length filled.work)))
Reaches-progress_example = Reaches-progress filled-Reaches refl (omega arith)
