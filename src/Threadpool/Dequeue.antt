-- ===== src/Threadpool/Dequeue.antt =====
-- threadpool/src/queue.c: queue_dequeue takes the first cell of the queue.
use computer_systems.Prelude.{
  ℕ, suc, ◌+◌, ◌-◌, ◌%◌, ◌^◌, ◌≡◌, ◌≢◌, refl, ◌∙◌, List, [], ◌∷◌, none, some, ◌==◌, arith, false,
}
use computer_systems.Threadpool.Memory.{Node, Memory, write, write-same, write-other, update-some}
use computer_systems.Threadpool.Queue.{Queue, returned, take_first, queue_dequeue}
use computer_systems.Threadpool.Enqueue.{flip}
use computer_systems.Threadpool.Linked.{
  Linked, last, Apart, Distinct, Apart-first, Linked-write, Linked-prev,
}
use computer_systems.Threadpool.Fifo.{IsQueue}

abbrev smaller : Queue → Queue
smaller q = record q { size = (q.size + 2 ^ 64 - 1) % 2 ^ 64 }

-- The memory behind the call: the node at `n`, which follows the first one, the head and the first
-- node at `f` have been written.
abbrev after_take : ℕ → ℕ → ℕ → ℕ → ℕ → Node → Memory → Memory
after_take h f n hv hp nn m = write f none (
    write h (some (record { value = hv; next = n; prev = hp }))
      (write n (some (record nn { prev = h })) m))

take_first-after_take :
    (q : Queue) (m : Memory) (hv hp f w fp n : ℕ) (nn : Node)
    → q.head ≢ f
    → q.head ≢ n
    → f ≢ n
    → m q.head ≡ some (record { value = hv; next = f; prev = hp })
    → m f ≡ some (record { value = w; next = n; prev = fp })
    → m n ≡ some nn
    → take_first q m ≡ some (returned w (smaller q) (after_take q.head f n hv hp nn m))
unfolding take_first
take_first-after_take q m hv hp f w fp n nn hf hn fn mh mf mn =
    let h = q.head in
    let m₁ = write n (some (record nn { prev = h })) m in
    let e₁ = update-some n (λ x. record x { prev = h }) m nn mn in
    let mh₁ = write-other n h (some (record nn { prev = h })) m (flip hn) ∙ mh in
    let mf₁ = write-other n f (some (record nn { prev = h })) m (flip fn) ∙ mf in
    let e₂ =
      update-some h (λ x. record x { next = n }) m₁ (record { value = hv; next = f; prev = hp })
        mh₁ in
    rw (mh, mf, e₁, mh₁, mf₁, e₂) refl

positive_size : {n k : ℕ} → n ≡ suc k → (n == 0) ≡ false
positive_size e = ground arith

-- On a queue with a first cell, queue_dequeue accesses allocated nodes only, returns the value of the
-- first cell, frees its node and leaves the queue of the others.
pub queue_dequeue-IsQueue :
    (q : Queue) (m : Memory) (f w : ℕ) (rest : List (ℕ × ℕ))
    → IsQueue q m ((f, w) ∷ rest)
    → (q' : Queue) × (m' : Memory) × (queue_dequeue q m ≡ some (returned w q' m'))
      × (m' f ≡ none)
      × IsQueue q' m' rest
unfolding queue_dequeue Linked last Apart Distinct
queue_dequeue-IsQueue q m f w [] inv =
    let ((hp, mh), (fp, mf)) = inv.linked in
    let tn = inv.tail_node in
    let (hf, u) = inv.distinct in
    let (th, tf) = inv.tail_apart in
    let h = q.head in
    let run =
      take_first-after_take q m inv.head_value hp f w fp q.tail tn hf (flip th) (flip tf) mh mf
        inv.at_tail in
    let m₁ = write q.tail (some (record tn { prev = h })) m in
    let m₂ = write h (some (record { value = inv.head_value; next = q.tail; prev = hp })) m₁ in
    let positive = positive_size (inv.counted) in
    (
      smaller q,
      write f none m₂,
      rw positive run,
      write-same f none m₂,
      record {
        head_value = inv.head_value;
        tail_node = record tn { prev = h };
        linked = (hp, write-other f h none m₂ (flip hf) ∙ write-same h _ m₁);
        at_tail =
            write-other f q.tail none m₂ (flip tf)
            ∙ write-other h q.tail _ m₁ (flip th)
            ∙ write-same q.tail _ m;
        back = refl;
        distinct = u;
        tail_apart = th;
        counted = omega (arith, inv.counted, inv.fits);
        fits = omega arith;
      },
    )
queue_dequeue-IsQueue q m f w ((b, u) ∷ rest) inv =
    let ((hp, mh), ((fp, mf), links)) = inv.linked in
    let ((hf, hr), (fr, ds)) = inv.distinct in
    let (th, (tf, tr)) = inv.tail_apart in
    let h = q.head in
    let hb = Apart-first h b rest hr in
    let fb = Apart-first f b rest fr in
    let tb = Apart-first q.tail b rest tr in
    let (nn, mb, links₁) = Linked-prev m q.tail b u h rest ds links in
    let run = take_first-after_take q m inv.head_value hp f w fp b nn hf hb fb mh mf mb in
    let m₁ = write b (some (record nn { prev = h })) m in
    let m₂ = write h (some (record { value = inv.head_value; next = b; prev = hp })) m₁ in
    let positive = positive_size (inv.counted) in
    (
      smaller q,
      write f none m₂,
      rw positive run,
      write-same f none m₂,
      record {
        head_value = inv.head_value;
        tail_node = inv.tail_node;
        linked = (
          (hp, write-other f h none m₂ (flip hf) ∙ write-same h _ m₁),
          Linked-write m₂ _ q.tail f b u rest (λ x ne. write-other f x none m₂ ne) fr
              (Linked-write m₁ m₂ q.tail h b u rest (λ x ne. write-other h x _ m₁ ne) hr links₁),
        );
        at_tail =
            write-other f q.tail none m₂ (flip tf)
            ∙ write-other h q.tail _ m₁ (flip th)
            ∙ write-other b q.tail _ m (flip tb)
            ∙ inv.at_tail;
        back = inv.back;
        distinct = (hr, ds);
        tail_apart = (th, tr);
        counted = omega (arith, inv.counted, inv.fits);
        fits = omega (arith, inv.fits);
      },
    )
