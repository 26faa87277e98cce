-- ===== src/Threadpool/Memory.antt =====
-- The nodes of threadpool/include/queue.h in the heap. An address that is not allocated, or has been
-- freed, holds nothing, and an access of it is `none`. The address 0 is the null pointer.
use computer_systems.Prelude.{ℕ, ◌≡◌, ◌≢◌, refl, Option, none, some, ◌==◌, if◌then◌else◌, arith}

pub record Node : Type 0 where
  pub value : ℕ
  pub next : ℕ
  pub prev : ℕ

abbrev pub Memory : Type 0
Memory = ℕ → Option Node

unfoldable pub write : ℕ → Option Node → Memory → Memory
write p n m x = if p == x then n else m x

-- A write to some fields of the node at an address.
unfoldable pub update : ℕ → (Node → Node) → Memory → Option Memory
update p f m = elim (m p) [ none ↦ none | some n ↦ some (write p (some (f n)) m) ]

pub write-same : (p : ℕ) (n : Option Node) (m : Memory) → write p n m p ≡ n
unfolding write
write-same p n m = ground arith

pub write-other : (p x : ℕ) (n : Option Node) (m : Memory) → p ≢ x → write p n m x ≡ m x
unfolding write
write-other p x n m ne = ground arith

pub update-some :
    (p : ℕ) (f : Node → Node) (m : Memory) (n : Node)
    → m p ≡ some n
    → update p f m ≡ some (write p (some (f n)) m)
unfolding update
update-some p f m n e = rw (e, update) refl
