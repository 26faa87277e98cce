-- ===== src/Jvm/Refine/Round.antt =====
-- One round of the loop of `execute` over a frame.
use computer_systems.Prelude.{
  ℕ, suc, ◌+◌, ◌≡◌, ap, ◌∙◌, true, List, length, arith, ltb, lt→ltb, ◌≤◌, Option, none, false,
}
use computer_systems.Jvm.Outcome.{ok, get-lt}
use computer_systems.Jvm.Machine.{Code, Heap, Machine, byte_at, add_size, skip}
use computer_systems.Jvm.Class.{Class}
use computer_systems.Jvm.Frame.{conc, skip-conc, byte_at-conc}
use computer_systems.Jvm.Semantics.{Byte}
use computer_systems.Jvm.Execute.{continue, returned, dispatch, execute_loop}

module _ (cls : Class) (c : Code) (fuel : ℕ) where
  -- The loop goes on where the instruction has left the machine, behind `pc++`.
  round :
      (s m : Machine) (cur : ℕ)
      → byte_at c 0 s ≡ ok cur
      → dispatch (execute_loop fuel cls) cls c cur s ≡ ok (continue m)
      → execute_loop (suc fuel) cls c s ≡ execute_loop fuel cls c (skip 1 m)
  unfolding execute_loop byte_at
  round s m cur fetch d =
      let inside : ltb s.pc (length c.code) ≡ true =
        lt→ltb _ _ (omega (arith, get-lt c.code (s.pc + 0) fetch)) in
      rw (inside, execute_loop, fetch, d)

  -- The same over frames: `p` is the position that the instruction leaves, and `next` the address
  -- that the semantics gives.
  pub round-conc :
      (ops rest locals : List ℕ) (pc : ℕ) (heap : Heap) (out : List ℕ) (ops' rest' locals' : List ℕ)
      (p next : ℕ) (heap' : Heap) (out' : List ℕ) (cur : ℕ)
      → Byte c pc 0 cur
      → dispatch (execute_loop fuel cls) cls c cur (conc ops rest locals pc heap out)
        ≡ ok (continue (conc ops' rest' locals' p heap' out'))
      → add_size p 1 ≡ next
      → execute_loop (suc fuel) cls c (conc ops rest locals pc heap out)
        ≡ execute_loop fuel cls c (conc ops' rest' locals' next heap' out')
  round-conc ops rest locals pc heap out ops' rest' locals' p next heap' out' cur fetch d e =
      round _ _ cur (byte_at-conc ops rest locals pc heap out c 0 ∙ fetch) d
      ∙ ap (execute_loop fuel cls c) (
          skip-conc ops' rest' locals' p heap' out' 1
          ∙ ap (λ q. conc ops' rest' locals' q heap' out') e)

  -- The loop ends with the value that the instruction returns.
  pub round-returned :
      (s m : Machine) {r : Option ℕ} (cur : ℕ)
      → byte_at c 0 s ≡ ok cur
      → dispatch (execute_loop fuel cls) cls c cur s ≡ ok (returned r m)
      → execute_loop (suc fuel) cls c s ≡ ok (r, m)
  unfolding execute_loop byte_at
  round-returned s m cur fetch d =
      let inside : ltb s.pc (length c.code) ≡ true =
        lt→ltb _ _ (omega (arith, get-lt c.code (s.pc + 0) fetch)) in
      rw (inside, execute_loop, fetch, d)

  -- Past the last byte it ends.
  pub round-ended :
      (s : Machine) → length c.code ≤ s.pc → execute_loop (suc fuel) cls c s ≡ ok (none, s)
  unfolding execute_loop
  round-ended s past =
      let outside : ltb s.pc (length c.code) ≡ false = ground arith in rw (outside, execute_loop)
