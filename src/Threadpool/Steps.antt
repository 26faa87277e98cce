-- ===== src/Threadpool/Steps.antt =====
-- threadpool/src/thread_pool.c: the steps of one worker keep the invariant of the pool.
use computer_systems.Prelude.{
  ℕ, ◌≤◌, ◌<◌, ◌≡◌, refl, sym, ap, ◌∙◌, List, [], ◌∷◌, ◌++◌, Option, none, some, length, arith,
  length-append,
}
use computer_systems.Threadpool.Pool.{
  Worker, waiting, sleeping, running, ended, Pool, got, Reaches, init, add, finish, take, sleep,
  wake, return,
}
use computer_systems.Threadpool.Totals.{
  total, total-append, same, as_work, is_null, is_work, as_running, is_waiting, is_sleeping,
  is_ended, Sealed, no_work-Sealed,
}
use computer_systems.Threadpool.Fair.{Fair, total-replace, init-Fair, add-Fair, finish-Fair}

length-replace :
    (xs ys : List Worker) (v w : Worker) → length (xs ++ (w ∷ ys)) ≡ length (xs ++ (v ∷ ys))
length-replace xs ys v w = length-append xs (w ∷ ys) ∙ sym (length-append xs (v ∷ ys))

take-Fair :
    (n : ℕ) (js : List ℕ) (p : Pool) (w : Option ℕ) (rest : List (Option ℕ)) (xs ys : List Worker)
    → p.work ≡ w ∷ rest
    → p.workers ≡ xs ++ (waiting ∷ ys)
    → Fair n js p
    → Fair n js (record p { work = rest; workers = xs ++ (got w ∷ ys) })
unfolding got Sealed
take-Fair n js p none rest xs ys e e' k =
    let no_work : total is_work rest ≡ 0 = rw e at k.closed in
    record {
      kept = λ x. omega (
        arith,
        k.kept x,
        ap (total (as_work x)) e,
        ap (total (as_running x)) e',
        total-replace (as_running x) xs ys waiting ended,
      );
      nulls = omega (
        arith,
        k.nulls,
        ap (total is_null) e,
        ap (total is_ended) e',
        total-replace is_ended xs ys waiting ended,
      );
      closed = no_work-Sealed rest no_work;
      over = λ h. no_work;
      all = length-replace xs ys waiting ended ∙ sym (ap length e') ∙ k.all;
      awake = λ h.
          let before = k.awake (
            omega
              (arith, ap (total is_sleeping) e', total-replace is_sleeping xs ys waiting ended)) in
          omega (
            arith,
            before,
            ap length e,
            ap (total is_waiting) e',
            total-replace is_waiting xs ys waiting ended,
          );
    }
take-Fair n js p (some j) rest xs ys e e' k =
    let ends = total-replace is_ended xs ys waiting (running j) in
    record {
      kept = λ x. omega (
        arith,
        k.kept x,
        ap (total (as_work x)) e,
        ap (total (as_running x)) e',
        total-replace (as_running x) xs ys waiting (running j),
      );
      nulls = omega (arith, k.nulls, ap (total is_null) e, ap (total is_ended) e', ends);
      closed = rw e at k.closed;
      over = λ h. absurd (
          omega
            (arith, k.over (omega (arith, ap (total is_ended) e', ends)), ap (total is_work) e));
      all = length-replace xs ys waiting (running j) ∙ sym (ap length e') ∙ k.all;
      awake = λ h.
          let before = k.awake (
            omega (
              arith,
              ap (total is_sleeping) e',
              total-replace is_sleeping xs ys waiting (running j),
            )) in
          omega (
            arith,
            before,
            ap length e,
            ap (total is_waiting) e',
            total-replace is_waiting xs ys waiting (running j),
          );
    }

return-Fair :
    (n : ℕ) (js : List ℕ) (p : Pool) (j : ℕ) (xs ys : List Worker)
    → p.workers ≡ xs ++ (running j ∷ ys)
    → Fair n js p
    → Fair n js (record p { workers = xs ++ (waiting ∷ ys); calls = p.calls ++ (j ∷ []) })
return-Fair n js p j xs ys e k =
    let ends = total-replace is_ended xs ys (running j) waiting in
    record {
      kept = λ x. omega (
        arith,
        k.kept x,
        ap (total (as_running x)) e,
        total-append (same x) p.calls (j ∷ []),
        total-replace (as_running x) xs ys (running j) waiting,
      );
      nulls = omega (arith, k.nulls, ap (total is_ended) e, ends);
      closed = k.closed;
      over = λ h. k.over (omega (arith, ap (total is_ended) e, ends));
      all = length-replace xs ys (running j) waiting ∙ sym (ap length e) ∙ k.all;
      awake = λ h.
          let before = k.awake (
            omega (
              arith,
              ap (total is_sleeping) e,
              total-replace is_sleeping xs ys (running j) waiting,
            )) in
          omega (
            arith,
            before,
            ap (total is_waiting) e,
            total-replace is_waiting xs ys (running j) waiting,
          );
    }

-- A worker that falls asleep or wakes changes only the counts of those that wait and sleep.
turn-Fair :
    (n : ℕ) (js : List ℕ) (p : Pool) (v w : Worker) (xs ys : List Worker)
    → ((x : ℕ) → as_running x v ≡ as_running x w)
    → is_ended v ≡ is_ended w
    → p.workers ≡ xs ++ (v ∷ ys)
    → (0 < total is_sleeping (xs ++ (w ∷ ys)) → length p.work ≤ total is_waiting (xs ++ (w ∷ ys)))
    → Fair n js p
    → Fair n js (record p { workers = xs ++ (w ∷ ys) })
turn-Fair n js p v w xs ys alike ends e awake k =
    let same_ends : total is_ended (xs ++ (w ∷ ys)) ≡ total is_ended p.workers =
      omega (arith, ends, ap (total is_ended) e, total-replace is_ended xs ys v w) in
    record {
      kept = λ x. omega (
        arith,
        alike x,
        k.kept x,
        ap (total (as_running x)) e,
        total-replace (as_running x) xs ys v w,
      );
      nulls = omega (arith, k.nulls, same_ends);
      closed = k.closed;
      over = λ h. k.over (omega (arith, same_ends));
      all = length-replace xs ys v w ∙ sym (ap length e) ∙ k.all;
      awake = awake;
    }

sleep-Fair :
    (n : ℕ) (js : List ℕ) (p : Pool) (xs ys : List Worker)
    → p.work ≡ []
    → p.workers ≡ xs ++ (waiting ∷ ys)
    → Fair n js p
    → Fair n js (record p { workers = xs ++ (sleeping ∷ ys) })
sleep-Fair n js p xs ys e e' =
    turn-Fair n js p waiting sleeping xs ys (λ x. refl) refl e' (λ h. omega (arith, ap length e))

wake-Fair :
    (n : ℕ) (js : List ℕ) (p : Pool) (xs ys : List Worker)
    → p.workers ≡ xs ++ (sleeping ∷ ys)
    → Fair n js p
    → Fair n js (record p { workers = xs ++ (waiting ∷ ys) })
wake-Fair n js p xs ys e k =
    let slept = total-replace is_sleeping xs ys sleeping waiting in
    let woken = total-replace is_waiting xs ys sleeping waiting in
    turn-Fair n js p sleeping waiting xs ys (λ x. refl) refl e
      (λ h.
        let before = k.awake (omega (arith, ap (total is_sleeping) e, slept)) in
        omega (arith, before, ap (total is_waiting) e, woken))
      k

pub Reaches-Fair : {n : ℕ} {js : List ℕ} {p : Pool} → Reaches n js p → Fair n js p
Reaches-Fair {n} init = init-Fair n
Reaches-Fair {n} (add {js} {p} k j r none_put) = add-Fair n k j js p none_put (Reaches-Fair r)
Reaches-Fair {n} (finish {js} {p} k r) = finish-Fair n k js p (Reaches-Fair r)
Reaches-Fair {n} (take {js} {p} w rest xs ys r e e') =
    take-Fair n js p w rest xs ys e e' (Reaches-Fair r)
Reaches-Fair {n} (sleep {js} {p} xs ys r e e') = sleep-Fair n js p xs ys e e' (Reaches-Fair r)
Reaches-Fair {n} (wake {js} {p} xs ys r e) = wake-Fair n js p xs ys e (Reaches-Fair r)
Reaches-Fair {n} (return {js} {p} j xs ys r e) = return-Fair n js p j xs ys e (Reaches-Fair r)
