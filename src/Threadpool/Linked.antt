-- ===== src/Threadpool/Linked.antt =====
-- The list of nodes of threadpool/src/queue.c in the heap: each node leads to the next one by `next`,
-- and the last one leads to the tail. The field `prev` of these nodes is not used.
use Prim.{Unit, tt}
use computer_systems.Prelude.{
  ℕ, ◌≡◌, ◌≢◌, refl, sym, ap, ◌∙◌, List, [], ◌∷◌, ◌++◌, Option, none, some,
}
use computer_systems.Threadpool.Memory.{Node, Memory, write, write-same, write-other}

-- The node at an address has this value and this successor.
abbrev pub Cell : Memory → ℕ → ℕ → ℕ → Type 0
Cell m p v next = (prev : ℕ) × (m p ≡ some (record { value = v; next = next; prev = prev }))

-- A cell has one value.
pub Cell-value :
    (m : Memory) (p : ℕ) {v next u next' : ℕ} → Cell m p v next → Cell m p u next' → v ≡ u
Cell-value m p (pr, e) (pr', e') =
    ap (λ (o : Option Node). elim o [ none ↦ 0 | some n ↦ n.value ]) (sym e ∙ e')

-- From the node at `p` with value `v`, `next` leads through the cells, given by address and value, to
-- the node at `tail`.
unfoldable pub Linked : Memory → ℕ → ℕ → ℕ → List (ℕ × ℕ) → Type 0
Linked m tail p v [] = Cell m p v tail
Linked m tail p v ((q, w) ∷ cells) = Cell m p v q × Linked m tail q w cells

unfoldable pub last : ℕ → List (ℕ × ℕ) → ℕ
last p [] = p
last p ((q, w) ∷ cells) = last q cells

-- The address `a` is neither `p` nor one of the cells'.
unfoldable pub Apart : ℕ → ℕ → List (ℕ × ℕ) → Type 0
Apart a p [] = a ≢ p
Apart a p ((q, w) ∷ cells) = (a ≢ p) × Apart a q cells

-- The addresses of the node at `p` and of the cells differ from each other.
unfoldable pub Distinct : ℕ → List (ℕ × ℕ) → Type 0
Distinct p [] = Unit
Distinct p ((q, w) ∷ cells) = Apart p q cells × Distinct q cells

pub Apart-first : (a p : ℕ) (cells : List (ℕ × ℕ)) → Apart a p cells → a ≢ p
unfolding Apart
Apart-first a p [] h = h
Apart-first a p ((q, w) ∷ cells) (h, r) = h

pub Apart-last : (a p : ℕ) (cells : List (ℕ × ℕ)) → Apart a p cells → a ≢ last p cells
unfolding Apart last
Apart-last a p [] h = h
Apart-last a p ((q, w) ∷ cells) (h, r) = Apart-last a q cells r

-- An address that holds nothing is none of a list.
pub Linked-Apart :
    (m : Memory) (tail a p v : ℕ) (cells : List (ℕ × ℕ))
    → m a ≡ none
    → Linked m tail p v cells
    → Apart a p cells
unfolding Linked Apart
Linked-Apart m tail a p v [] h (pr, e) = λ same. absurd (cc (h, e, same))
Linked-Apart m tail a p v ((q, w) ∷ cells) h ((pr, e), k) =
    ((λ same. absurd (cc (h, e, same))), Linked-Apart m tail a q w cells h k)

-- The list stands where the memory is changed at one address apart from it.
pub Linked-write :
    (m m' : Memory) (tail a p v : ℕ) (cells : List (ℕ × ℕ))
    → ((x : ℕ) → a ≢ x → m' x ≡ m x)
    → Apart a p cells
    → Linked m tail p v cells
    → Linked m' tail p v cells
unfolding Linked Apart
Linked-write m m' tail a p v [] same apart (pr, e) = (pr, same p apart ∙ e)
Linked-write m m' tail a p v ((q, w) ∷ cells) same (h, r) ((pr, e), k) =
    ((pr, same p h ∙ e), Linked-write m m' tail a q w cells same r k)

-- The last node of a list leads to the tail.
pub Linked-last :
    (m : Memory) (tail p v : ℕ) (cells : List (ℕ × ℕ))
    → Linked m tail p v cells
    → (w : ℕ) × Cell m (last p cells) w tail
unfolding Linked last
Linked-last m tail p v [] c = (v, c)
Linked-last m tail p v ((q, w) ∷ cells) (c, k) = Linked-last m tail q w cells k

-- The list with one more cell at its end: the last node leads to the cell, and it to the tail.
pub Linked-append :
    (m m' : Memory) (tail a w p v : ℕ) (cells : List (ℕ × ℕ))
    → ((x : ℕ) → a ≢ x → last p cells ≢ x → tail ≢ x → m' x ≡ m x)
    → ((u : ℕ) → Cell m (last p cells) u tail → Cell m' (last p cells) u a)
    → Cell m' a w tail
    → Apart a p cells
    → Apart tail p cells
    → Distinct p cells
    → Linked m tail p v cells
    → Linked m' tail p v (cells ++ ((a, w) ∷ []))
unfolding Linked Apart Distinct last
Linked-append m m' tail a w p v [] same end new apart apart' d c = (end v c, new)
Linked-append m m' tail a w p v ((q, u) ∷ cells) same end new (h, r) (h', r') (d, ds) ((pr, e), k) =
    let other : last q cells ≢ p = λ e. Apart-last p q cells d (sym e) in
    ((pr, same p h other h' ∙ e), Linked-append m m' tail a w q u cells same end new r r' ds k)

pub Apart-append :
    (a b w p : ℕ) (cells : List (ℕ × ℕ))
    → a ≢ b
    → Apart a p cells
    → Apart a p (cells ++ ((b, w) ∷ []))
unfolding Apart
Apart-append a b w p [] ne h = (h, ne)
Apart-append a b w p ((q, u) ∷ cells) ne (h, r) = (h, Apart-append a b w q cells ne r)

pub Distinct-append :
    (b w p : ℕ) (cells : List (ℕ × ℕ))
    → Apart b p cells
    → Distinct p cells
    → Distinct p (cells ++ ((b, w) ∷ []))
unfolding Apart Distinct
Distinct-append b w p [] h d = ((λ e. h (sym e)), tt)
Distinct-append b w p ((q, u) ∷ cells) (h, r) (d, ds) =
    (Apart-append p b w q cells (λ e. h (sym e)) d, Distinct-append b w q cells r ds)

pub last-append : (b w p : ℕ) (cells : List (ℕ × ℕ)) → last p (cells ++ ((b, w) ∷ [])) ≡ b
unfolding last
last-append b w p [] = refl
last-append b w p ((q, u) ∷ cells) = last-append b w q cells

-- The field `prev` of the first node can be written.
pub Linked-prev :
    (m : Memory) (tail p v h : ℕ) (cells : List (ℕ × ℕ))
    → Distinct p cells
    → Linked m tail p v cells
    → (n : Node) × (m p ≡ some n) × Linked (write p (some (record n { prev = h })) m) tail p v cells
unfolding Linked Distinct
Linked-prev m tail p v h [] d (pr, e) =
    (record { value = v; next = tail; prev = pr }, e, (h, write-same p _ m))
Linked-prev m tail p v h ((q, w) ∷ cells) (d, ds) ((pr, e), k) = (
  record { value = v; next = q; prev = pr },
  e,
  ((h, write-same p _ m), Linked-write m _ tail p q w cells (λ x ne. write-other p x _ m ne) d k),
)
