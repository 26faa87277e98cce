-- ===== src/Jvm/Refine/Runs.antt =====
-- `execute` reaches what the rules of `Runs` derive, and fuel is never short from some amount on.
use computer_systems.Prelude.{
  ℕ, zero, suc, ◌+◌, ◌^◌, ◌≤◌, ◌<◌, ◌≡◌, refl, ap, sym, ◌∙◌, inl, inr, List, [], ◌∷◌, ◌++◌, Option,
  none, some, length, replicate, arith, length-append, length-replicate, reverse_aux,
}
use computer_systems.Jvm.Outcome.{Result, ok, get-lt}
use computer_systems.Jvm.Machine.{Code, Heap, Machine, add_size}
use computer_systems.Jvm.Class.{Class, Method}
use computer_systems.Jvm.Frame.{conc, peek-1, byte_at-conc, heap-conc, out-conc}
use computer_systems.Jvm.Semantics.{Frame, Byte, layout}
use computer_systems.Jvm.Runs.{
  Runs, Calls, entry, step, call_void, call_value, return_void, return_value, run_off,
}
use computer_systems.Jvm.Execute.{
  Returned, returned, continues, dispatch, invoke_static, execute_loop,
}
use computer_systems.Jvm.Refine.Round.{round-conc, round-returned, round-ended}
use computer_systems.Jvm.Refine.Step.{Step-Simulated}
use computer_systems.Jvm.Refine.Call.{invoke_static-void, invoke_static-value}

module _ (cls : Class) where
  -- From fuel `enough` on the loop returns `r`, and leaves the heap `h` and the output `o`.
  pub record Returns (c : Code) (m : Machine) (r : Option ℕ) (h : Heap) (o : List ℕ) : Type 0 where
    pub enough : ℕ
    pub final : Machine
    pub heap : final.heap ≡ h
    pub out : final.out ≡ o
    pub returns : (fuel : ℕ) → enough ≤ fuel → execute_loop fuel cls c m ≡ ok (r, final)

  Returns-round :
      (c : Code) (s : Frame) {m : Machine} {r : Option ℕ} {h : Heap} {o : List ℕ} (rest : List ℕ)
      → ((fuel : ℕ) → execute_loop (suc fuel) cls c m ≡ execute_loop fuel cls c (layout s rest))
      → Returns c (layout s rest) r h o
      → Returns c m r h o
  Returns-round c s {m} {r} rest e later = record {
    enough = suc later.enough;
    final = later.final;
    heap = later.heap;
    out = later.out;
    returns = go;
  }
    where
      go : (fuel : ℕ) → suc later.enough ≤ fuel → execute_loop fuel cls c m ≡ ok (r, later.final)
      go zero lt = absurd (omega arith)
      go (suc fuel) lt = e fuel ∙ later.returns fuel (omega arith)

  -- An instruction that ends the method.
  Returns-last :
      (c : Code) (ops rest l : List ℕ) (pc : ℕ) (h : Heap) (o : List ℕ) (r : Option ℕ) (cur : ℕ)
      → Byte c pc 0 cur
      → ((fuel : ℕ)
          → dispatch (execute_loop fuel cls) cls c cur (conc ops rest l pc h o)
            ≡ ok (returned r (conc ops rest l pc h o)))
      → Returns c (conc ops rest l pc h o) r h o
  Returns-last c ops rest l pc h o r cur fetch d = record {
    enough = 1;
    final = conc ops rest l pc h o;
    heap = heap-conc ops rest l pc h o;
    out = out-conc ops rest l pc h o;
    returns = go;
  }
    where
      go :
          (fuel : ℕ)
          → 1 ≤ fuel
          → execute_loop fuel cls c (conc ops rest l pc h o) ≡ ok (r, conc ops rest l pc h o)
      go zero lt = absurd (omega arith)
      go (suc fuel) lt =
          round-returned cls c fuel _ _ cur (byte_at-conc ops rest l pc h o c 0 ∙ fetch) (d fuel)

  Returns-ended :
      (c : Code) (ops rest l : List ℕ) (pc : ℕ) (h : Heap) (o : List ℕ)
      → length c.code ≤ pc
      → Returns c (conc ops rest l pc h o) none h o
  unfolding conc
  Returns-ended c ops rest l pc h o past = record {
    enough = 1;
    final = conc ops rest l pc h o;
    heap = refl;
    out = refl;
    returns = go;
  }
    where
      go :
          (fuel : ℕ)
          → 1 ≤ fuel
          → execute_loop fuel cls c (conc ops rest l pc h o) ≡ ok (none, conc ops rest l pc h o)
      go zero lt = absurd (omega arith)
      go (suc fuel) lt = round-ended cls c fuel (conc ops rest l pc h o) past

  -- A call whose callee returns, and that leaves `ops'` and `rest'`, then the rest of the caller.
  Returns-call :
      (c : Code) (m : Method) (args t rest l : List ℕ) (pc : ℕ) (h h' h'' : Heap)
      (o o' o'' ops' rest' : List ℕ) (value r : Option ℕ)
      → Calls cls c pc m args
      → pc < 2 ^ 32
      → ((call : Code → Machine → Result Returned) (callee : Machine)
          → call m.code (layout (entry m.code args h o) (replicate m.code.max_stack 0))
            ≡ ok (value, callee)
          → invoke_static call cls c (conc (reverse_aux args t) rest l pc h o)
            ≡ ok (conc ops' rest' l (add_size pc 2) callee.heap callee.out))
      → Returns m.code (layout (entry m.code args h o) (replicate m.code.max_stack 0)) value h' o'
      → Returns c (conc ops' rest' l (pc + 3) h' o') r h'' o''
      → Returns c (conc (reverse_aux args t) rest l pc h o) r h'' o''
  unfolding dispatch
  Returns-call c m args t rest l pc h h' h'' o o' o'' ops' rest' value r calls lt invoke inner
        later =
      record {
        enough = suc (inner.enough + later.enough);
        final = later.final;
        heap = later.heap;
        out = later.out;
        returns = go;
      }
    where
      go :
          (fuel : ℕ)
          → suc (inner.enough + later.enough) ≤ fuel
          → execute_loop fuel cls c (conc (reverse_aux args t) rest l pc h o) ≡ ok (r, later.final)
      go zero bound = absurd (omega arith)
      go (suc fuel) bound =
          round-conc cls c fuel _ _ _ _ _ _ _ _ _ _ _ _ _ _ calls.fetch
            (ap continues
              (invoke (execute_loop fuel cls) inner.final (inner.returns fuel (omega arith))))
            (omega arith)
          ∙ ap (execute_loop fuel cls c) (
              ap (λ g. conc ops' rest' l (pc + 3) g inner.final.out) inner.heap
              ∙ ap (conc ops' rest' l (pc + 3) h') inner.out)
          ∙ later.returns fuel (omega arith)

  Byte-lt : (c : Code) (pc : ℕ) {b : ℕ} → length c.code < 2 ^ 32 → Byte c pc 0 b → pc < 2 ^ 32
  Byte-lt c pc small fetch = omega (arith, get-lt c.code (pc + 0) fetch)

  length-freed :
      (args rest : List ℕ) (n : ℕ)
      → length rest ≡ n
      → length (replicate (length args) 0 ++ rest) ≡ length args + n
  length-freed args rest n e =
      omega
        (arith, length-append (replicate (length args) 0) rest, length-replicate (length args) zero)

  cons_of_length :
      (xs : List ℕ) {n : ℕ}
      → length xs ≡ suc n
      → (x : ℕ) × (rest : List ℕ) × (xs ≡ x ∷ rest) × (length rest ≡ n)
  cons_of_length [] e = absurd (omega arith)
  cons_of_length (x ∷ rest) e = (x, rest, refl, omega arith)

  -- The loop of `execute`, started in a layout of the frame with any contents of the free slots,
  -- returns what the rules derive, for every amount of fuel from some amount on.
  pub Runs-Returns :
      {c : Code} {s : Frame} {r : Option ℕ} {h : Heap} {o : List ℕ}
      → Runs cls c s r h o
      → length c.code < 2 ^ 32
      → (rest : List ℕ) → length rest ≡ s.free
      → Returns c (layout s rest) r h o
  unfolding dispatch
  Runs-Returns (step {c} {s'} st run) small rest e =
      let (rest', e', eq) = Step-Simulated cls c small st rest e in
      Returns-round c s' rest' eq (Runs-Returns run small rest' e')
  Runs-Returns (call_void {c} {t} {l} {pc} {h} {h'} {o} {o'} m args calls inner later) small rest
        e =
      Returns-call c m args t rest l pc h h' _ o o' _ _ _ none _ calls
        (Byte-lt c pc small calls.fetch)
        (λ call callee. invoke_static-void call cls c m args t rest l pc h o calls callee)
        (Runs-Returns inner calls.small (replicate m.code.max_stack 0)
          (length-replicate m.code.max_stack 0))
        (Runs-Returns later small (replicate (length args) 0 ++ rest) (length-freed args rest _ e))
  Runs-Returns (call_value {c} {t} {l} {pc} {v} {h} {h'} {o} {o'} m args calls room inner later)
        small rest e =
      let (x, rest', freed_cons, left) =
        cons_of_length (replicate (length args) 0 ++ rest)
          (length-freed args rest _ e ∙ sym room) in
      Returns-call c m args t rest l pc h h' _ o o' _ _ _ (some v) _ calls
        (Byte-lt c pc small calls.fetch)
        (λ call callee.
          invoke_static-value call cls c m args t rest l pc h o calls callee v x rest' freed_cons)
        (Runs-Returns inner calls.small (replicate m.code.max_stack 0)
          (length-replicate m.code.max_stack 0))
        (Runs-Returns later small rest' left)
  Runs-Returns (return_void {c} {ops} {l} {pc} {h} {o} fetch) small rest e =
      Returns-last c ops rest l pc h o none _ fetch (λ fuel. refl)
  Runs-Returns (return_value {c} {t} {l} {pc} {v} {h} {o} (inl fetch)) small rest e =
      Returns-last c (v ∷ t) rest l pc h o (some v) _ fetch (λ fuel. rw (peek-1 t rest l pc h o v))
  Runs-Returns (return_value {c} {t} {l} {pc} {v} {h} {o} (inr fetch)) small rest e =
      Returns-last c (v ∷ t) rest l pc h o (some v) _ fetch (λ fuel. rw (peek-1 t rest l pc h o v))
  Runs-Returns (run_off {c} {ops} {l} {pc} {h} {o} past) small rest e =
      Returns-ended c ops rest l pc h o past
