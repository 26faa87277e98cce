-- ===== src/Threadpool/Fifo.antt =====
-- threadpool/src/queue.c: the queue in the heap is a list of values, first in and first out.
use Prim.{tt}
use computer_systems.Prelude.{
  ℕ, ◌+◌, ◌^◌, ◌<◌, ◌≡◌, ◌≢◌, refl, sym, ap, ◌∙◌, List, [], ◌∷◌, ◌++◌, Option, none, some, arith,
  length, length-append,
}
use computer_systems.Threadpool.Memory.{Node, Memory, write, write-same, write-other, update-some}
use computer_systems.Threadpool.Queue.{Queue, Allocation, allocate, queue_init, queue_enqueue}
use computer_systems.Threadpool.Enqueue.{flip, queue_enqueue-Enqueued}
use computer_systems.Threadpool.Linked.{
  Cell, Cell-value, Linked, last, Apart, Distinct, Apart-last, Linked-Apart, Linked-last,
  Linked-append, Apart-append, Distinct-append, last-append,
}

-- The queue holds these cells: `next` leads from the head through them to the tail, the tail's
-- `prev` is the last of them, no two addresses are equal, and the size is their number, which is below 2 ^ 64.
pub record IsQueue (q : Queue) (m : Memory) (cells : List (ℕ × ℕ)) : Type 0 where
  pub head_value : ℕ
  pub tail_node : Node
  pub linked : Linked m q.tail q.head head_value cells
  pub at_tail : m q.tail ≡ some tail_node
  pub back : tail_node.prev ≡ last q.head cells
  pub distinct : Distinct q.head cells
  pub tail_apart : Apart q.tail q.head cells
  pub counted : q.size ≡ length cells
  pub fits : length cells < 2 ^ 64

-- Two nodes that malloc returns make an empty queue.
pub queue_init-IsQueue :
    (h t : Allocation) (m : Memory)
    → h.address ≢ t.address
    → (q : Queue) × (m' : Memory) × (queue_init h t m ≡ some (q, m')) × IsQueue q m' []
unfolding queue_init allocate Linked Distinct Apart last
queue_init-IsQueue h t m ne =
    let a = h.address in
    let b = t.address in
    let m₁ = allocate t (allocate h m) in
    let at : m₁ a ≡ some h.junk = write-other b a _ _ (flip ne) ∙ write-same a _ m in
    let hn : Node = record h.junk { next = b } in
    let e₂ = update-some a (λ n. record n { next = b }) m₁ h.junk at in
    let m₂ = write a (some hn) m₁ in
    let bt : m₂ b ≡ some t.junk = write-other a b _ _ ne ∙ write-same b _ _ in
    let tn : Node = record t.junk { prev = a } in
    let e₃ = update-some b (λ n. record n { prev = a }) m₂ t.junk bt in
    (
      _,
      write b (some tn) m₂,
      rw (e₂, e₃) refl,
      record {
        head_value = h.junk.value;
        tail_node = tn;
        linked = (h.junk.prev, write-other b a _ _ (flip ne) ∙ write-same a _ m₁);
        at_tail = write-same b _ m₂;
        back = refl;
        distinct = tt;
        tail_apart = flip ne;
        counted = refl;
        fits = omega arith;
      },
    )

module _ (q : Queue) (m : Memory) (cells : List (ℕ × ℕ)) (inv : IsQueue q m cells) where
  -- With a new node from malloc, and a size that stays below 2 ^ 64, queue_enqueue accesses allocated
  -- nodes only and puts the value behind those in the queue.
  pub queue_enqueue-IsQueue :
      (a : Allocation) (v : ℕ)
      → m a.address ≡ none
      → length cells + 1 < 2 ^ 64
      → (q' : Queue) × (m' : Memory) × (queue_enqueue a v q m ≡ some (q', m'))
        × IsQueue q' m' (cells ++ ((a.address, v) ∷ []))
  queue_enqueue-IsQueue a v new small =
      let apart = Linked-Apart m q.tail a.address q.head inv.head_value cells new inv.linked in
      let (lv, lc) = Linked-last m q.tail q.head inv.head_value cells inv.linked in
      let (lp, ml) = lc in
      let tn = inv.tail_node in
      let al : a.address ≢ tn.prev = rw inv.back (Apart-last a.address q.head cells apart) in
      let at : a.address ≢ q.tail = λ e. absurd (cc (new, e, inv.at_tail)) in
      let lt : tn.prev ≢ q.tail =
        rw inv.back (flip (Apart-last q.tail q.head cells inv.tail_apart)) in
      let same : (u : ℕ)
          → Cell m (last q.head cells) u q.tail
          → ◌≡◌ {A = Option Node} (some (record { value = lv; next = a.address; prev = lp }))
              (some (record { value = u; next = a.address; prev = lp })) =
        λ u c.
          ap (λ n. some (record { value = n; next = a.address; prev = lp }))
            (Cell-value m (last q.head cells) (lp, ml) c) in
      let (m', run, done) =
        queue_enqueue-Enqueued q m a v lv lp tn al at lt (rw inv.back ml) inv.at_tail in
      (
        _,
        m',
        run,
        record {
          head_value = inv.head_value;
          tail_node = _;
          linked =
              Linked-append m m' q.tail a.address v q.head inv.head_value cells
                (λ x ne ne' ne''. done.others x ne (rw inv.back ne') ne'')
                (λ u c. (lp, ap m' (sym inv.back) ∙ done.last_node ∙ same u c))
                (a.address, done.new_node) apart inv.tail_apart inv.distinct inv.linked;
          at_tail = done.tail_node;
          back = sym (last-append a.address v q.head cells);
          distinct = Distinct-append a.address v q.head cells apart inv.distinct;
          tail_apart = Apart-append q.tail a.address v q.head cells (flip at) inv.tail_apart;
          counted = omega (arith, length-append cells ((a.address, v) ∷ []), inv.counted);
          fits = omega (arith, length-append cells ((a.address, v) ∷ []));
        },
      )
