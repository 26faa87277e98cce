-- ===== src/Threadpool/Enqueue.antt =====
-- threadpool/src/queue.c: the writes of queue_enqueue, one by one.
use computer_systems.Prelude.{ℕ, ◌+◌, ◌%◌, ◌^◌, ◌≡◌, ◌≢◌, refl, sym, ◌∙◌, some}
use computer_systems.Threadpool.Memory.{Node, Memory, write, write-same, write-other, update-some}
use computer_systems.Threadpool.Queue.{Queue, Allocation, allocate, queue_enqueue}

pub flip : {x y : ℕ} → x ≢ y → y ≢ x
flip ne e = ne (sym e)

allocate-same : (a : Allocation) (m : Memory) → allocate a m a.address ≡ some a.junk
unfolding allocate
allocate-same a m = write-same a.address (some a.junk) m

allocate-other : (a : Allocation) (m : Memory) (x : ℕ) → a.address ≢ x → allocate a m x ≡ m x
unfolding allocate
allocate-other a m x ne = write-other a.address x (some a.junk) m ne

-- What queue_enqueue does to the memory, where the last node and the tail are allocated and are not the
-- new node.
pub record Enqueued (m m' : Memory) (a l t v lv lp : ℕ) (tn : Node) : Type 0 where
  pub others : (x : ℕ) → a ≢ x → l ≢ x → t ≢ x → m' x ≡ m x
  pub last_node : m' l ≡ some (record { value = lv; next = a; prev = lp })
  pub new_node : m' a ≡ some (record { value = v; next = t; prev = a })
  pub tail_node : m' t ≡ some (record tn { prev = a })

pub queue_enqueue-Enqueued :
    (q : Queue) (m : Memory) (a : Allocation) (v lv lp : ℕ) (tn : Node)
    → a.address ≢ tn.prev
    → a.address ≢ q.tail
    → tn.prev ≢ q.tail
    → m tn.prev ≡ some (record { value = lv; next = q.tail; prev = lp })
    → m q.tail ≡ some tn
    → (m' : Memory) × (queue_enqueue a v q m ≡ some (record q { size = (q.size + 1) % 2 ^ 64 }, m'))
      × Enqueued m m' a.address tn.prev q.tail v lv lp tn
unfolding queue_enqueue
queue_enqueue-Enqueued q m a v lv lp tn al at lt ml mt =
    let new = a.address in
    let l = tn.prev in
    let t = q.tail in
    let n₁ : Node = record a.junk { value = v } in
    let m₁ = write new (some n₁) (allocate a m) in
    let e₁ =
      update-some new (λ n. record n { value = v }) (allocate a m) a.junk (allocate-same a m) in
    let old : (x : ℕ) → new ≢ x → m₁ x ≡ m x =
      λ x ne. write-other new x _ _ ne ∙ allocate-other a m x ne in
    let ln : Node = record { value = lv; next = new; prev = lp } in
    let m₂ = write l (some ln) m₁ in
    let e₂ =
      update-some l (λ n. record n { next = new }) m₁
        (record { value = lv; next = q.tail; prev = lp }) (old l al ∙ ml) in
    let tn' : Node = record tn { prev = new } in
    let m₃ = write t (some tn') m₂ in
    let at₃ : m₃ t ≡ some tn' = write-same t _ m₂ in
    let e₃ =
      update-some t (λ n. record n { prev = new }) m₂ tn (write-other l t _ _ lt ∙ old t at ∙ mt) in
    let n₄ : Node = record n₁ { prev = new } in
    let m₄ = write new (some n₄) m₃ in
    let e₄ =
      update-some new (λ n. record n { prev = new }) m₃ n₁
        (write-other t new _ _ (flip at) ∙ write-other l new _ _ (flip al) ∙ write-same new _ _) in
    let m₅ = write new (some (record n₄ { next = t })) m₄ in
    let e₅ = update-some new (λ n. record n { next = t }) m₄ n₄ (write-same new _ m₃) in
    let kept : (x : ℕ) → new ≢ x → m₅ x ≡ m₃ x =
      λ x ne. write-other new x _ _ ne ∙ write-other new x _ _ ne in
    (
      m₅,
      rw (e₁, old t at, mt, e₂, e₃, at₃, e₄, e₅) refl,
      record {
        others = λ x ne ne' ne''.
            kept x ne ∙ write-other t x _ _ ne'' ∙ write-other l x _ _ ne' ∙ old x ne;
        last_node = kept l al ∙ write-other t l _ _ (flip lt) ∙ write-same l _ m₁;
        new_node = write-same new _ m₄;
        tail_node = kept t at ∙ at₃;
      },
    )
