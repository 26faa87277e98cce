-- ===== src/Jvm/Frame.antt =====
-- The frame of a method seen from outside: its operands as a list with the topmost first, its
-- locals, the position, the heap and the output; and the laws by which the accesses of `Machine`
-- work on it. `conc` lays a frame out as the arrays of the source, with `rest` in the free slots.
use native.Mathlib.Nat.{add-zero}
use computer_systems.Prelude.{
  ℕ, suc, ◌+◌, ◌-◌, ◌≡◌, refl, ap, List, [], ◌∷◌, ◌++◌, length, set, reverse_aux,
  get_elem?-reverse_aux, set-reverse_aux, length-reverse_aux, arith, ltb, lt→ltb, true, ◌%◌, ◌^◌,
}
use computer_systems.Jvm.Outcome.{ok, get, put, below}
use native.Mathlib.Numerals.{add-one}
use computer_systems.Jvm.Int32.{sign_extend16}
use computer_systems.Jvm.Instr.{displace}
use computer_systems.Jvm.Machine.{
  Code, Heap, Machine, peek, poke, poke_above, push, drop_slots, skip, set_locals, set_heap,
  print_int, byte_at, add_size,
}

unfoldable pub conc : (ops rest locals : List ℕ) → ℕ → Heap → List ℕ → Machine
conc ops rest locals pc heap out = record {
  stack = reverse_aux ops rest;
  stack_p = length ops;
  locals = locals;
  pc = pc;
  heap = heap;
  out = out;
}

pub get-slot : (a : ℕ) (t rest : List ℕ) → get (reverse_aux t (a ∷ rest)) (length t) ≡ ok a
unfolding get
get-slot a t rest = rw (← add-zero (length t), get_elem?-reverse_aux t (a ∷ rest) 0)

pub put-slot :
    (a v : ℕ) (t rest : List ℕ)
    → put (reverse_aux t (a ∷ rest)) (length t) v ≡ ok (reverse_aux t (v ∷ rest))
unfolding put
put-slot a v t rest =
    let inside : ltb (length t) (length (reverse_aux t (a ∷ rest))) ≡ true =
      lt→ltb _ _ (omega (arith, length-reverse_aux t (a ∷ rest))) in
    let written : set (reverse_aux t (a ∷ rest)) (length t) v ≡ reverse_aux t (v ∷ rest) =
      rw add-zero at (set-reverse_aux t (a ∷ rest) 0 v) in
    rw (inside, written)

below-1 : (n : ℕ) → below 1 (suc n) ≡ ok n
unfolding below
below-1 n = ground arith

below-2 : (n : ℕ) → below 2 (suc (suc n)) ≡ ok n
unfolding below
below-2 n = ground arith

below-3 : (n : ℕ) → below 3 (suc (suc (suc n))) ≡ ok n
unfolding below
below-3 n = ground arith

module _ (t rest locals : List ℕ) (pc : ℕ) (heap : Heap) (out : List ℕ) where
  pub peek-1 : (a : ℕ) → peek 1 (conc (a ∷ t) rest locals pc heap out) ≡ ok a
  unfolding peek conc
  peek-1 a = rw (below-1, get-slot)

  pub peek-2 : (b a : ℕ) → peek 2 (conc (b ∷ a ∷ t) rest locals pc heap out) ≡ ok a
  unfolding peek conc
  peek-2 b a = rw (below-2, get-slot)

  pub peek-3 : (c b a : ℕ) → peek 3 (conc (c ∷ b ∷ a ∷ t) rest locals pc heap out) ≡ ok a
  unfolding peek conc
  peek-3 c b a = rw (below-3, get-slot)

  pub poke-1 :
      (v a : ℕ)
      → poke 1 v (conc (a ∷ t) rest locals pc heap out) ≡ ok (conc (v ∷ t) rest locals pc heap out)
  unfolding poke conc
  poke-1 v a = rw (below-1, put-slot)

  pub poke-2 :
      (v b a : ℕ)
      → poke 2 v (conc (b ∷ a ∷ t) rest locals pc heap out)
        ≡ ok (conc (b ∷ v ∷ t) rest locals pc heap out)
  unfolding poke conc
  poke-2 v b a = rw (below-2, put-slot)

  pub poke-3 :
      (v c b a : ℕ)
      → poke 3 v (conc (c ∷ b ∷ a ∷ t) rest locals pc heap out)
        ≡ ok (conc (c ∷ b ∷ v ∷ t) rest locals pc heap out)
  unfolding poke conc
  poke-3 v c b a = rw (below-3, put-slot)

  pub push-conc :
      (v a : ℕ)
      → push v (conc t (a ∷ rest) locals pc heap out) ≡ ok (conc (v ∷ t) rest locals pc heap out)
  unfolding push conc
  push-conc v a = rw (put-slot, add-one)

  pub poke_above-conc :
      (v a : ℕ)
      → poke_above v (conc t (a ∷ rest) locals pc heap out)
        ≡ ok (conc t (v ∷ rest) locals pc heap out)
  unfolding poke_above conc
  poke_above-conc v a = rw put-slot

  pub drop_slots-1 :
      (a : ℕ)
      → drop_slots 1 (conc (a ∷ t) rest locals pc heap out) ≡ conc t (a ∷ rest) locals pc heap out
  unfolding drop_slots conc
  drop_slots-1 a =
      ap (λ n. record (conc t (a ∷ rest) locals pc heap out) { stack_p = n }) (omega arith)

  pub drop_slots-2 :
      (b a : ℕ)
      → drop_slots 2 (conc (b ∷ a ∷ t) rest locals pc heap out)
        ≡ conc t (a ∷ b ∷ rest) locals pc heap out
  unfolding drop_slots conc
  drop_slots-2 b a =
      ap (λ n. record (conc t (a ∷ b ∷ rest) locals pc heap out) { stack_p = n }) (omega arith)

  pub drop_slots-3 :
      (c b a : ℕ)
      → drop_slots 3 (conc (c ∷ b ∷ a ∷ t) rest locals pc heap out)
        ≡ conc t (a ∷ b ∷ c ∷ rest) locals pc heap out
  unfolding drop_slots conc
  drop_slots-3 c b a =
      ap (λ n. record (conc t (a ∷ b ∷ c ∷ rest) locals pc heap out) { stack_p = n }) (omega arith)

module _ (ops rest locals : List ℕ) (pc : ℕ) (heap : Heap) (out : List ℕ) where
  pub skip-conc :
      (k : ℕ)
      → skip k (conc ops rest locals pc heap out) ≡ conc ops rest locals (add_size pc k) heap out
  unfolding skip conc
  skip-conc k = refl

  pub displace-conc :
      (w : ℕ)
      → displace w (conc ops rest locals pc heap out)
        ≡ conc ops rest locals ((pc + sign_extend16 w + 2 ^ 64 - 1) % 2 ^ 64) heap out
  unfolding displace conc
  displace-conc w = refl

  pub set_locals-conc :
      (l : List ℕ) → set_locals l (conc ops rest locals pc heap out) ≡ conc ops rest l pc heap out
  unfolding set_locals conc
  set_locals-conc l = refl

  pub set_heap-conc :
      (h : Heap) → set_heap h (conc ops rest locals pc heap out) ≡ conc ops rest locals pc h out
  unfolding set_heap conc
  set_heap-conc h = refl

  pub print_int-conc :
      (v : ℕ)
      → print_int v (conc ops rest locals pc heap out)
        ≡ conc ops rest locals pc heap (out ++ (v ∷ []))
  unfolding print_int conc
  print_int-conc v = refl

  pub byte_at-conc :
      (c : Code) (k : ℕ) → byte_at c k (conc ops rest locals pc heap out) ≡ get c.code (pc + k)
  unfolding byte_at conc
  byte_at-conc c k = refl

  pub locals-conc : (conc ops rest locals pc heap out).locals ≡ locals
  unfolding conc
  locals-conc = refl

  pub heap-conc : (conc ops rest locals pc heap out).heap ≡ heap
  unfolding conc
  heap-conc = refl

  pub out-conc : (conc ops rest locals pc heap out).out ≡ out
  unfolding conc
  out-conc = refl

  pub pc-conc : (conc ops rest locals pc heap out).pc ≡ pc
  unfolding conc
  pc-conc = refl

-- What the accesses do to a frame.
pub ruleset frame_laws = (
  peek-1, peek-2, peek-3, poke-1, poke-2, poke-3, push-conc, poke_above-conc, drop_slots-1,
  drop_slots-2, drop_slots-3, skip-conc, displace-conc, set_locals-conc, set_heap-conc,
  print_int-conc, byte_at-conc, locals-conc, heap-conc, out-conc, pc-conc,
)
