-- ===== src/Threadpool/Totals.antt =====
-- threadpool/src/thread_pool.c: counts of the workers and of the values in the queue.
use computer_systems.Prelude.{
  ℕ, zero, suc, ◌+◌, ◌≤◌, ◌<◌, ◌≡◌, refl, sym, ◌∙◌, Bool, true, false, List, [], ◌∷◌, ◌++◌, Option,
  none, some, length, replicate, ◌==◌, if◌then◌else◌, arith,
}
use computer_systems.Threadpool.Pool.{Worker, waiting, sleeping, running, ended, one_sleeps, signal}

abbrev pub total {ℓ} : {A : Type ℓ} → (A → ℕ) → List A → ℕ
total f [] = 0
total f (x ∷ xs) = f x + total f xs

pub total-append {ℓ} :
    {A : Type ℓ} (f : A → ℕ) (xs ys : List A) → total f (xs ++ ys) ≡ total f xs + total f ys
total-append f [] ys = omega arith
total-append f (x ∷ xs) ys = omega (arith, total-append f xs ys)

abbrev pub same : ℕ → ℕ → ℕ
same x y = if x == y then 1 else 0

abbrev pub as_work : ℕ → Option ℕ → ℕ
as_work x none = 0
as_work x (some y) = same x y

abbrev pub is_null : Option ℕ → ℕ
is_null none = 1
is_null (some y) = 0

abbrev pub is_work : Option ℕ → ℕ
is_work none = 0
is_work (some y) = 1

abbrev pub as_running : ℕ → Worker → ℕ
as_running x waiting = 0
as_running x sleeping = 0
as_running x (running y) = same x y
as_running x ended = 0

abbrev pub is_running : Worker → ℕ
is_running waiting = 0
is_running sleeping = 0
is_running (running y) = 1
is_running ended = 0

abbrev pub is_waiting : Worker → ℕ
is_waiting waiting = 1
is_waiting sleeping = 0
is_waiting (running y) = 0
is_waiting ended = 0

abbrev pub is_ended : Worker → ℕ
is_ended waiting = 0
is_ended sleeping = 0
is_ended (running y) = 0
is_ended ended = 1

abbrev pub is_sleeping : Worker → ℕ
is_sleeping waiting = 0
is_sleeping sleeping = 1
is_sleeping (running y) = 0
is_sleeping ended = 0

-- Behind a null pointer there is no work.
unfoldable pub Sealed : List (Option ℕ) → Type 0
Sealed [] = total is_work [] ≡ 0
Sealed (none ∷ w) = total is_work w ≡ 0
Sealed (some j ∷ w) = Sealed w

pub no_work-Sealed : (w : List (Option ℕ)) → total is_work w ≡ 0 → Sealed w
unfolding Sealed
no_work-Sealed [] h = h
no_work-Sealed (none ∷ w) h = omega arith
no_work-Sealed (some j ∷ w) h = absurd (omega arith)

pub Sealed-null : (w : List (Option ℕ)) → Sealed w → Sealed (w ++ (none ∷ []))
unfolding Sealed
Sealed-null [] h = h
Sealed-null (none ∷ w) h = omega (arith, total-append is_work w (none ∷ []))
Sealed-null (some j ∷ w) h = Sealed-null w h

pub Sealed-work : (w : List (Option ℕ)) (j : ℕ) → total is_null w ≡ 0 → Sealed (w ++ (some j ∷ []))
unfolding Sealed
Sealed-work [] j h = refl
Sealed-work (none ∷ w) j h = absurd (omega arith)
Sealed-work (some i ∷ w) j h = Sealed-work w j (omega arith)

pub total-waiting : (f : Worker → ℕ) (n : ℕ) → f waiting ≡ 0 → total f (replicate n waiting) ≡ 0
total-waiting f zero h = refl
total-waiting f (suc n) h = omega (arith, h, total-waiting f n h)

pub length-total :
    (xs : List Worker)
    → length xs
      ≡ total is_waiting xs + total is_sleeping xs + total is_running xs + total is_ended xs
length-total [] = refl
length-total (waiting ∷ xs) = omega (arith, length-total xs)
length-total (sleeping ∷ xs) = omega (arith, length-total xs)
length-total (running j ∷ xs) = omega (arith, length-total xs)
length-total (ended ∷ xs) = omega (arith, length-total xs)

pub running-total :
    (x : ℕ) (xs : List Worker) → total is_running xs ≡ 0 → total (as_running x) xs ≡ 0
running-total x [] h = refl
running-total x (waiting ∷ xs) h = omega (arith, running-total x xs (omega arith))
running-total x (sleeping ∷ xs) h = omega (arith, running-total x xs (omega arith))
running-total x (running j ∷ xs) h = absurd (omega arith)
running-total x (ended ∷ xs) h = omega (arith, running-total x xs (omega arith))

pub work-total : (x : ℕ) (w : List (Option ℕ)) → total is_work w ≡ 0 → total (as_work x) w ≡ 0
work-total x [] h = refl
work-total x (none ∷ w) h = omega (arith, work-total x w (omega arith))
work-total x (some j ∷ w) h = absurd (omega arith)

pub null-length : (w : List (Option ℕ)) → total is_null w ≤ length w
null-length [] = omega arith
null-length (none ∷ w) = omega (arith, null-length w)
null-length (some j ∷ w) = omega (arith, null-length w)

total-if :
    (f : Worker → ℕ) (b : Bool) (xs ys : List Worker)
    → total f xs ≡ total f ys
    → total f (if b then xs else ys) ≡ total f ys
total-if f true xs ys h = h
total-if f false xs ys h = refl

-- A signal changes no count in which those that sleep and those that wait are alike.
pub total-signal :
    (f : Worker → ℕ) (k : ℕ) (ws : List Worker)
    → f sleeping ≡ f waiting
    → total f (signal k ws) ≡ total f ws
unfolding signal
total-signal f k [] h = refl
total-signal f k (waiting ∷ ws) h = omega (arith, total-signal f k ws h)
total-signal f k (running j ∷ ws) h = omega (arith, total-signal f k ws h)
total-signal f k (ended ∷ ws) h = omega (arith, total-signal f k ws h)
total-signal f zero (sleeping ∷ ws) h = omega (arith, h)
total-signal f (suc k) (sleeping ∷ ws) h =
    let same_rest = total-signal f k ws h in
    omega (
      arith,
      h,
      total-if f (one_sleeps ws) (sleeping ∷ signal k ws) (waiting ∷ ws)
          (omega (arith, h, same_rest)),
    )

pub length-signal : (k : ℕ) (ws : List Worker) → length (signal k ws) ≡ length ws
length-signal k ws =
    length-one (signal k ws) ∙ total-signal (λ w. 1) k ws refl ∙ sym (length-one ws)
  where
    length-one : (xs : List Worker) → length xs ≡ total (λ w. 1) xs
    length-one [] = refl
    length-one (x ∷ xs) = omega (arith, length-one xs)

one_sleeps-total : (ws : List Worker) → one_sleeps ws ≡ true → 0 < total is_sleeping ws
one_sleeps-total [] h = absurd (ground arith)
one_sleeps-total (waiting ∷ ws) h = omega (arith, one_sleeps-total ws h)
one_sleeps-total (sleeping ∷ ws) h = omega arith
one_sleeps-total (running j ∷ ws) h = omega (arith, one_sleeps-total ws h)
one_sleeps-total (ended ∷ ws) h = omega (arith, one_sleeps-total ws h)

-- A signal puts no worker to sleep.
pub signal-sleeping :
    (k : ℕ) (ws : List Worker) → total is_sleeping ws ≡ 0 → total is_sleeping (signal k ws) ≡ 0
unfolding signal
signal-sleeping k [] h = refl
signal-sleeping k (waiting ∷ ws) h = omega (arith, signal-sleeping k ws (omega arith))
signal-sleeping k (running j ∷ ws) h = omega (arith, signal-sleeping k ws (omega arith))
signal-sleeping k (ended ∷ ws) h = omega (arith, signal-sleeping k ws (omega arith))
signal-sleeping k (sleeping ∷ ws) h = absurd (omega arith)

-- Where a worker sleeps, a signal wakes one.
pub signal-wakes :
    (k : ℕ) (ws : List Worker)
    → 0 < total is_sleeping ws
    → total is_waiting (signal k ws) ≡ 1 + total is_waiting ws
unfolding signal
signal-wakes k [] h = absurd (omega arith)
signal-wakes k (waiting ∷ ws) h = omega (arith, signal-wakes k ws (omega arith))
signal-wakes k (running j ∷ ws) h = omega (arith, signal-wakes k ws (omega arith))
signal-wakes k (ended ∷ ws) h = omega (arith, signal-wakes k ws (omega arith))
signal-wakes zero (sleeping ∷ ws) h = omega arith
signal-wakes (suc k) (sleeping ∷ ws) h =
    omega (arith, by_case (one_sleeps ws) (λ e. signal-wakes k ws (one_sleeps-total ws e)))
  where
    by_case :
        (b : Bool)
        → (b ≡ true → total is_waiting (signal k ws) ≡ 1 + total is_waiting ws)
        → total is_waiting (if b then sleeping ∷ signal k ws else waiting ∷ ws)
          ≡ 1 + total is_waiting ws
    by_case true found = omega (arith, found refl)
    by_case false found = omega arith
